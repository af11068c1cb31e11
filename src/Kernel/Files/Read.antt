-- ===== src/Kernel/Files/Read.antt =====
-- Reading an open file: SYS_FREAD of kernel/kernel.c on a RAM disk.
pub mod Moves
use mini_os.Base.{
  ℕ, zero, suc, ◌+◌, ◌-◌, ◌*◌, ◌/◌, ◌%◌, ◌≤◌, ◌<◌, ◌≡◌, inl, inr, refl, sym, ap, ◌∙◌, true, false,
  ◌&&◌, ◌||◌, ◌==◌, ltb, leb, if◌then◌else◌, arith, some, length, Bool-cases, get_or-set_self,
  get_or-set_ne, dec_lt, ◌≢◌,
}
use mini_os.Base.Words.{add32}
use mini_os.Base.Bytes.{Memory, copy}
use mini_os.Kernel.Layout.{fs_dir_lba}
use mini_os.Kernel.Disk.{Disk, disk_read_sector}
use mini_os.Kernel.Disk.Sectors.{IsRam, Inside, disk_read_sectors-rd}
use mini_os.Kernel.UserMemory.{user_range_ok}
use mini_os.Kernel.Files.{
  OpenFile, Io, closed, get_ofile, file_at, ofile_flush, load_into, ofile_load_sector, Transfer,
  chunk_of, fread_step, fread_loop, fread_at, sys_fread,
}
use mini_os.Kernel.Files.Read.Moves.{Reads, Ready, Moved, fread_loop-Moved}

-- The bytes that a read of `len` gets.
abbrev pub available : OpenFile → ℕ → ℕ
available f len = if ltb (f.size - f.pos) len then f.size - f.pos else len

-- The outcome of a read through descriptor `i`.
pub record ReadsBytes (i off len : ℕ) (user : Memory) (io : Io) (out : ℕ × Memory × Io)
    : Type 0 where
  pub count : out.0 ≡ available (file_at io i) len
  pub bytes :
      (p : ℕ)
      → out.1 p
        ≡ copy user off io.fs.disk.rd
            (((file_at io i).start - fs_dir_lba) * 512 + (file_at io i).pos)
            (available (file_at io i) len)
            p
  pub fs : out.2.fs ≡ io.fs
  pub used : (file_at out.2 i).used ≡ (file_at io i).used
  pub entry : (file_at out.2 i).dir_index ≡ (file_at io i).dir_index
  pub start : (file_at out.2 i).start ≡ (file_at io i).start
  pub size : (file_at out.2 i).size ≡ (file_at io i).size
  pub others : (j : ℕ) → i ≢ j → file_at out.2 j ≡ file_at io j
  pub pos : (file_at out.2 i).pos ≡ (file_at io i).pos + available (file_at io i) len
  pub again : Reads io.fs.disk (file_at out.2 i)

fread_at-ReadsBytes :
    (i off len : ℕ) (user : Memory) (io : Io)
    → IsRam io.fs.disk
    → Reads io.fs.disk (file_at io i)
    → Inside io.fs.disk (file_at io i).start (((file_at io i).size + 511) / 512)
    → (file_at io i).size < 2147483648
    → i < length io.ofiles
    → ReadsBytes i off len user io (fread_at i off len user io)
unfolding fread_at
fread_at-ReadsBytes i off len user io r h inside small lt =
    elim (Bool-cases ((len == 0) || leb (file_at io i).size (file_at io i).pos)) [
      | inl nothing ↦
          let zero_left : available (file_at io i) len ≡ 0 = ground arith in
          rw (h.mode, nothing)
            (record {
              count = sym zero_left;
              bytes = λ p. unfold copy in ground arith;
              fs = refl;
              used = refl;
              entry = refl;
              start = refl;
              size = refl;
              others = λ j ne. refl;
              pos = omega (arith, zero_left);
              again = h;
            })
      | inr some_left ↦
          let f = file_at io i in
          let n = available f len in
          let start : Transfer = record { file = f; user = user; disk = io.fs.disk; done = 0 } in
          let ready : Ready io.fs.disk r (n - 0) start = record {
            disk = refl;
            reads = h;
            inside = inside;
            left = ground arith;
          } in
          let end = fread_loop n off n start in
          let m = fread_loop-Moved io.fs.disk r n off n start (omega arith) ready small in
          let self = get_or-set_self io.ofiles i end.file closed lt in
          rw (h.mode, some_left)
            (record {
              count = omega (arith, m.done);
              bytes = λ p. m.bytes p ∙ unfold copy in ground arith;
              fs = ap (λ d. record (io.fs) { disk = d }) m.disk;
              used = rw self m.used;
              entry = rw self m.entry;
              start = rw self m.start;
              size = rw self m.size;
              others = λ j ne. get_or-set_ne io.ofiles i j end.file closed ne;
              pos = rw self (omega (arith, m.pos));
              again = rw self m.reads;
            })
    ]

-- A read through a valid descriptor for reading, from a file of less than 2 ^ 31 bytes that lies
-- on the RAM disk into a range of the program's memory, returns the count of bytes asked for or
-- left in the file, whichever is less, puts exactly the file's bytes from the position on there,
-- moves the position by the count, and leaves the directory, the disk and every other descriptor
-- alone. The descriptor stays in use, on the same file at the same place, and its cache holds what
-- the disk does where it is filled.
pub sys_fread-ReadsBytes :
    (fd i off len : ℕ) (user : Memory) (io : Io)
    → user_range_ok off len ≡ true
    → get_ofile fd io ≡ some i
    → i < length io.ofiles
    → IsRam io.fs.disk
    → Reads io.fs.disk (file_at io i)
    → Inside io.fs.disk (file_at io i).start (((file_at io i).size + 511) / 512)
    → (file_at io i).size < 2147483648
    → ReadsBytes i off len user io (sys_fread fd off len user io)
unfolding sys_fread
sys_fread-ReadsBytes fd i off len user io ok e lt r h inside small =
    rw (ok, e, sys_fread) (fread_at-ReadsBytes i off len user io r h inside small lt)
