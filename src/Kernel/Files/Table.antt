-- ===== src/Kernel/Files/Table.antt =====
-- The descriptor table: SYS_OPEN, SYS_CLOSE and SYS_SEEK of kernel/kernel.c.
use mini_os.Base.{
  ℕ, suc, ◌+◌, ◌-◌, ◌≤◌, ◌<◌, ◌≡◌, ◌≢◌, ◌⊎◌, inl, inr, refl, sym, ap, ◌∙◌, true, false, ◌==◌, ltb,
  leb, if◌then◌else◌, arith, List, [], ◌∷◌, Option, none, some, get_or, set, length, Bool-cases,
  Option-cases, length-set, get_or-set_self, get_or-set_ne,
}
use mini_os.Base.Bytes.{Memory}
use mini_os.Kernel.Layout.{err, open_max}
use mini_os.Kernel.Names.{CString}
use mini_os.Kernel.Disk.{Disk}
use mini_os.Kernel.Files.{
  OpenFile, Io, closed, alloc_from, alloc_fd, get_ofile, file_at, ofile_flush, close_at, sys_close,
  seek_at, sys_seek, open_read, open_at, open_write, sys_open,
}
use mini_os.Kernel.Fs.{unused_from, fs_find}
use mini_os.Kernel.Fs.Calls.{name_arg}

-- The table has its size.
abbrev pub IsTable : Io → Type 0
IsTable io = length io.ofiles ≡ open_max

get_ofile-inside :
    (fd i : ℕ) (io : Io)
    → get_ofile fd io ≡ some i
    → (i < open_max) × (fd ≡ i + 3) × ((file_at io i).used ≡ true)
unfolding get_ofile
get_ofile-inside fd i io e = ground arith

closed_entry :
    (fd i : ℕ) (io : Io)
    → IsTable io
    → (i < open_max) × (fd ≡ i + 3) × ((file_at io i).used ≡ true)
    → get_ofile fd (close_at i io).1 ≡ none
unfolding get_ofile close_at
closed_entry fd i io t h =
    let at : fd - 3 ≡ i = omega arith in
    rw at (ground (arith, get_or-set_self io.ofiles i closed closed (omega arith)))

-- A descriptor of a table of the right size can be closed once: after a close that succeeds, it
-- stands for no file.
pub sys_close_twice :
    (fd : ℕ) (io : Io)
    → IsTable io
    → (sys_close fd io).0 ≡ 0
    → get_ofile fd (sys_close fd io).1 ≡ none
unfolding sys_close
sys_close_twice fd io t e = elim (Option-cases (get_ofile fd io)) [
  | inl g ↦ absurd (let bad : err ≡ 0 = rw (g, sys_close) at e in omega arith)
  | inr (i, g) ↦ rw (g, sys_close) (closed_entry fd i io t (get_ofile-inside fd i io g))
]

flushed_size :
    (f : OpenFile) (d : Disk) → (if f.writing then ofile_flush f d else (f, d)).0.size ≡ f.size
unfolding ofile_flush
flushed_size f d = ground arith

seek_at_lem :
    (i pos : ℕ) (io : Io)
    → IsTable io
    → i < open_max
    → let f = file_at io i in
      let p = if leb 2147483648 pos then 0 else pos in
      let q = if ltb f.size p then f.size else p in
      let (r, io') = seek_at i pos io in
      (r ≡ q)
      × (q ≤ f.size)
      × ((file_at io' i).pos ≡ q)
      × ((file_at io' i).sector_valid ≡ false)
      × ((file_at io' i).size ≡ f.size)
      × (length io'.ofiles ≡ open_max)
unfolding seek_at
seek_at_lem i pos io t lt =
    let f = file_at io i in
    let p = if leb 2147483648 pos then 0 else pos in
    let q = if ltb f.size p then f.size else p in
    let fl = (if f.writing then ofile_flush f io.fs.disk else (f, io.fs.disk)) in
    let g : OpenFile = record (fl.0) { pos = q; sector_valid = false; sector_dirty = false } in
    let self = get_or-set_self io.ofiles i g closed (omega arith) in
    (
      refl,
      ground arith,
      ap (λ (x : OpenFile). x.pos) self,
      ap (λ (x : OpenFile). x.sector_valid) self,
      ap (λ (x : OpenFile). x.size) self ∙ flushed_size f io.fs.disk,
      length-set io.ofiles i g ∙ t,
    )

-- A seek on an open descriptor, in a table of the right size, moves the position to the one asked
-- for, to 0 if that is negative and to the end of the file if it is past it; the result is the
-- new position, the cache is emptied, and the size of the file and of the table stay.
pub sys_seek_lem :
    (fd i pos : ℕ) (io : Io)
    → IsTable io
    → get_ofile fd io ≡ some i
    → let f = file_at io i in
      let p = if leb 2147483648 pos then 0 else pos in
      let q = if ltb f.size p then f.size else p in
      let (r, io') = sys_seek fd pos io in
      (r ≡ q)
      × (q ≤ f.size)
      × ((file_at io' i).pos ≡ q)
      × ((file_at io' i).sector_valid ≡ false)
      × ((file_at io' i).size ≡ f.size)
      × (length io'.ofiles ≡ open_max)
unfolding sys_seek
sys_seek_lem fd i pos io t e =
    rw (e, sys_seek) (seek_at_lem i pos io t (get_ofile-inside fd i io e).0)

alloc_from-some :
    (fs : List OpenFile) (i j : ℕ)
    → alloc_from fs i ≡ some j
    → (k : ℕ) × (j ≡ i + k) × (k < length fs) × ((get_or fs k closed).used ≡ false)
unfolding alloc_from
alloc_from-some [] i j h = absurd (cc)
alloc_from-some (f ∷ fs) i j h = elim (Bool-cases f.used) [
  | inl p ↦
      let (k, at, lt, free) = alloc_from-some fs (i + 1) j (ground arith) in
      (suc k, omega arith, omega arith, free)
  | inr p ↦ (0, ground arith, omega arith, p)
]

alloc_fd-some :
    (io : Io) (j : ℕ)
    → alloc_fd io ≡ some j
    → (k : ℕ) × (j ≡ 0 + k) × (k < length io.ofiles) × ((get_or io.ofiles k closed).used ≡ false)
unfolding alloc_fd
alloc_fd-some io j h = alloc_from-some io.ofiles 0 j h

-- SYS_OPEN with a free entry `fd` of the table: what it returns and which entry it uses.
record Opens (fd : ℕ) (io : Io) (out : ℕ × Io) : Type 0 where
  result : (out.0 ≡ err) ⊎ ((out.0 ≡ fd + 3) × ((file_at out.1 fd).used ≡ true))
  others : (j : ℕ) → j ≢ fd → file_at out.1 j ≡ file_at io j

open_read-Opens :
    (fd : ℕ) (o : Option ℕ) (io : Io) → fd < length io.ofiles → Opens fd io (open_read fd o io)
unfolding open_read
open_read-Opens fd none io lt = record {
  result = inl refl;
  others = λ j ne. get_or-set_ne io.ofiles fd j closed closed (λ p. ne (sym p));
}
open_read-Opens fd (some idx) io lt = record {
  result = inr (refl, ap (λ (f : OpenFile). f.used) (get_or-set_self io.ofiles fd _ closed lt));
  others = λ j ne. get_or-set_ne io.ofiles fd j _ closed (λ p. ne (sym p));
}

open_at-Opens :
    (fd : ℕ) (name : CString) (idx start : ℕ) (io : Io)
    → fd < length io.ofiles
    → Opens fd io (open_at fd name idx start io)
unfolding open_at
open_at-Opens fd name idx start io lt = record {
  result = inr (refl, ap (λ (f : OpenFile). f.used) (get_or-set_self io.ofiles fd _ closed lt));
  others = λ j ne. get_or-set_ne io.ofiles fd j _ closed (λ p. ne (sym p));
}

refused-Opens :
    (fd : ℕ) (io : Io) → Opens fd io (err, record io { ofiles = set io.ofiles fd closed })
refused-Opens fd io = record {
  result = inl refl;
  others = λ j ne. get_or-set_ne io.ofiles fd j closed closed (λ p. ne (sym p));
}

open_write-Opens :
    (fd : ℕ) (name : CString) (o : Option ℕ) (io : Io)
    → fd < length io.ofiles
    → Opens fd io (open_write fd name o io)
unfolding open_write
open_write-Opens fd name (some idx) io lt = open_at-Opens fd name idx _ io lt
open_write-Opens fd name none io lt = elim (Option-cases (unused_from io.fs.dir 0)) [
  | inl e ↦ rw (e, open_write) (refused-Opens fd io)
  | inr (idx, e) ↦ rw (e, open_write) (open_at-Opens fd name idx _ io lt)
]

pub data OpenOutcome (io : Io) (out : ℕ × Io) : Type 0 where
  refused :
      out.0 ≡ err
      → ((j : ℕ) → (file_at io j).used ≡ true → file_at out.1 j ≡ file_at io j)
      → OpenOutcome io out
  opened :
      (fd : ℕ)
      → get_ofile (fd + 3) io ≡ none
      → out.0 ≡ fd + 3
      → get_ofile (fd + 3) out.1 ≡ some fd
      → ((j : ℕ) → j ≢ fd → file_at out.1 j ≡ file_at io j)
      → OpenOutcome io out

get_ofile-free : (fd : ℕ) (io : Io) → (file_at io fd).used ≡ false → get_ofile (fd + 3) io ≡ none
unfolding get_ofile
get_ofile-free fd io free = let at : fd + 3 - 3 ≡ fd = omega arith in rw at (ground arith)

get_ofile-used :
    (fd : ℕ) (io : Io)
    → fd < open_max
    → (file_at io fd).used ≡ true
    → get_ofile (fd + 3) io ≡ some fd
unfolding get_ofile
get_ofile-used fd io lt used = let at : fd + 3 - 3 ≡ fd = omega arith in rw at (ground arith)

Opens-outcome :
    (fd : ℕ) (io : Io) (out : ℕ × Io)
    → fd < open_max
    → (file_at io fd).used ≡ false
    → Opens fd io out
    → OpenOutcome io out
Opens-outcome fd io out lt free o = elim o.result [
  | inl failed ↦ refused failed (λ j used.
      o.others j (λ e. absurd (let u : (file_at io fd).used ≡ true = rw e at used in cc)))
  | inr (result, used) ↦
      opened fd (get_ofile-free fd io free) result (get_ofile-used fd out.1 lt used) o.others
]

open_mode-Opens :
    (fd mode : ℕ) (name : CString) (o : Option ℕ) (io : Io)
    → fd < length io.ofiles
    → Opens fd io (
        if mode == 0
        then open_read fd o io
        else if mode == 1
        then open_write fd name o io
        else (err, record io { ofiles = set io.ofiles fd closed }))
open_mode-Opens fd mode name o io lt = elim (Bool-cases (mode == 0)) [
  | inl e ↦ rw e (open_read-Opens fd o io lt)
  | inr e ↦ elim (Bool-cases (mode == 1)) [
    | inl f ↦ rw (e, f) (open_write-Opens fd name o io lt)
    | inr f ↦ rw (e, f) (refused-Opens fd io)
  ]
]

-- SYS_OPEN either fails, with every open descriptor as it was, or returns a descriptor that was
-- not open and then is, with every other table entry as it was; in either case on a table of the
-- right size and on every branch of the call.
pub sys_open_lem :
    (name_off mode : ℕ) (user : Memory) (io : Io)
    → IsTable io
    → OpenOutcome io (sys_open name_off mode user io)
unfolding sys_open
sys_open_lem name_off mode user io t = elim (Option-cases (name_arg user name_off)) [
  | inl e ↦ rw (e, sys_open) (refused refl (λ j u. refl))
  | inr (name, e) ↦ elim (Option-cases (alloc_fd io)) [
    | inl f ↦ rw (e, f, sys_open) (refused refl (λ j u. refl))
    | inr (fd, f) ↦
        let (k, at, lt, free) = alloc_fd-some io fd f in
        let same : fd ≡ k = omega arith in
        rw (e, f, sys_open)
          (Opens-outcome fd io _ (omega arith) (rw same free)
            (open_mode-Opens fd mode name (fs_find name io.fs) io (omega arith)))
  ]
]
