-- ===== src/Kernel/Fs/RoundTrip.antt =====
-- What a save stores is what a load gives back (kernel/kernel.c), and other files keep their bytes.
use mini_os.Base.{
  ℕ, zero, suc, ◌+◌, ◌-◌, ◌*◌, ◌/◌, ◌≤◌, ◌<◌, ◌≡◌, ◌≢◌, ◌⊎◌, inl, inr, refl, ◌∙◌, true, false, ltb,
  if◌then◌else◌, arith, List, [], ◌∷◌, some, set, take, length, Bool-cases, Option-cases,
  length-set, get_or-set_self, get_or-set_ne,
}
use mini_os.Base.Bytes.{Memory, copy}
use mini_os.Kernel.Layout.{fs_dir_lba, fs_data_lba, dir_sectors, fs_name_len}
use mini_os.Kernel.Names.{CString, name_eq_ci, strlen, char0, normalize_loop}
use mini_os.Kernel.Disk.{disk_write_sectors}
use mini_os.Kernel.Disk.Sectors.{IsRam, disk_write_sectors-SameStore, disk_write_sectors-rd}
use mini_os.Kernel.Fs.{
  Fs, Dirent, empty_entry, in_use, entry_at, read_entry, dir_bytes, sectors_of, write_at,
  fs_sync_dir, stored_name, fs_find, fs_read, fs_write, overwrite_start, unused_from, fs_next_free,
  fs_next_free_excl, max_end, max_end_excl,
}
use mini_os.Kernel.Fs.Image.{base_of, On, read_entry_lem}
use mini_os.Kernel.Fs.Search.{IsFirst, hit, fs_find_iff, fs_find-none, unused_from-some}
use mini_os.Kernel.Fs.Apart.{
  IsApart, IsBounded, last, nth, overwrite_start-apart, fs_next_free-behind, hit-in_use,
}
use mini_os.Kernel.Names.Equal.{name_eq_ci_iff}

-- The stored name is taken for the name.
normalize-take : (k n : ℕ) (s : CString) → k ≤ n → normalize_loop k (take n s) ≡ normalize_loop k s
unfolding normalize_loop
normalize-take zero n s h = refl
normalize-take (suc k) zero s h = absurd (omega arith)
normalize-take (suc k) (suc n) [] h = refl
normalize-take (suc k) (suc n) (c ∷ s) h = ground (arith, normalize-take k n s (omega arith))

normalize-take-strlen :
    (k : ℕ) (s : CString) → normalize_loop k (take (strlen s) s) ≡ normalize_loop k s
unfolding normalize_loop strlen
normalize-take-strlen zero s = refl
normalize-take-strlen (suc k) [] = refl
normalize-take-strlen (suc k) (c ∷ s) = ground (arith, normalize-take-strlen k s)

normalize-stored :
    (n : ℕ) (s : CString)
    → 16 ≤ n
    → normalize_loop 16 (take (if ltb n (strlen s) then n else strlen s) s) ≡ normalize_loop 16 s
normalize-stored n s h = elim (Bool-cases (ltb n (strlen s))) [
  | inl p ↦ rw p (normalize-take 16 n s h)
  | inr p ↦ rw p (normalize-take-strlen 16 s)
]

stored_name-eq : (name : CString) → name_eq_ci (stored_name name) name ≡ true
stored_name-eq name =
    (name_eq_ci_iff (stored_name name) name).1 (normalize-stored fs_name_len name (omega arith))

char0-stored_name : (name : CString) → char0 name ≢ 0 → char0 (stored_name name) ≡ char0 name
unfolding strlen
char0-stored_name [] h = refl
char0-stored_name (c ∷ s) h = ground arith

-- The data area ends with the RAM disk, and the directory is on it.
pub record HasRoom (fs : Fs) (size : ℕ) : Type 0 where
  pub ram : IsRam fs.disk
  pub dir_fits : dir_sectors ≤ fs.disk.rd_sectors
  pub data_fits : fs_next_free fs + (size + 511) / 512 ≤ fs_dir_lba + fs.disk.rd_sectors

-- The entry and the start that a save chooses.
record Placed (name : CString) (size : ℕ) (fs : Fs) (idx start : ℕ) : Type 0 where
  inside : idx < length fs.dir
  low : fs_data_lba ≤ start
  high : start + (size + 511) / 512 ≤ fs_dir_lba + fs.disk.rd_sectors
  before : (m : ℕ) → m < idx → hit fs.dir name m ≡ false
  mine : (hit fs.dir name idx ≡ true) ⊎ (in_use (nth fs.dir idx) ≡ false)
  apart :
      (j : ℕ)
      → idx ≢ j
      → in_use (nth fs.dir j) ≡ true
      → (start + (size + 511) / 512 ≤ (nth fs.dir j).start) ⊎ (last (nth fs.dir j) ≤ start)

module _ (name : CString) (buf : Memory) (size : ℕ) (fs : Fs) (room : HasRoom fs size)
    (small : size < 2147483648) (idx start : ℕ) (placed : Placed name size fs idx start) where
  saved : Fs
  saved = write_at name buf size idx start fs

  new_entry : Dirent
  new_entry = record (entry_at fs idx) {
    name = stored_name name;
    start = start;
    size = size;
    flags = 0;
  }

  dir-saved : saved.dir ≡ set fs.dir idx new_entry
  unfolding saved new_entry write_at fs_sync_dir
  dir-saved = refl

  -- The RAM disk after the save: the data, under the directory's sectors.
  rd-saved :
      saved.disk.rd
      ≡ copy
          (copy fs.disk.rd ((start - fs_dir_lba) * 512) buf 0 ((size + 511) / 512 * 512))
          0
          (dir_bytes (set fs.dir idx new_entry))
          0
          (dir_sectors * 512)
  unfolding saved new_entry write_at fs_sync_dir
  rd-saved =
      let d1 = disk_write_sectors start (sectors_of size) buf fs.disk in
      let same = disk_write_sectors-SameStore start (sectors_of size) buf fs.disk in
      let whole : sectors_of size ≡ (size + 511) / 512 = omega arith in
      let first =
        disk_write_sectors-rd start ((size + 511) / 512) buf fs.disk room.ram
          (omega (arith, placed.low, placed.high)) in
      disk_write_sectors-rd fs_dir_lba dir_sectors (dir_bytes (set fs.dir idx new_entry)) d1
        (record {
          base = same.base ∙ room.ram.base;
          small = omega (arith, same.sectors, room.ram.small);
        })
        (omega (arith, same.sectors, room.dir_fits))
      ∙ rw (whole, first)

  IsRam-saved : IsRam saved.disk
  unfolding saved new_entry write_at fs_sync_dir
  IsRam-saved =
      let d1 = disk_write_sectors start (sectors_of size) buf fs.disk in
      let same = disk_write_sectors-SameStore start (sectors_of size) buf fs.disk in
      let more =
        disk_write_sectors-SameStore fs_dir_lba dir_sectors (dir_bytes (set fs.dir idx new_entry))
          d1 in
      record {
        base = more.base ∙ same.base ∙ room.ram.base;
        small = omega (arith, more.sectors, same.sectors, room.ram.small);
      }

  sectors-saved : saved.disk.rd_sectors ≡ fs.disk.rd_sectors
  unfolding saved new_entry write_at fs_sync_dir
  sectors-saved =
      let d1 = disk_write_sectors start (sectors_of size) buf fs.disk in
      (disk_write_sectors-SameStore fs_dir_lba dir_sectors (dir_bytes (set fs.dir idx new_entry))
        d1).sectors
      ∙ (disk_write_sectors-SameStore start (sectors_of size) buf fs.disk).sectors

  entry-saved : entry_at saved idx ≡ new_entry
  entry-saved = rw dir-saved (get_or-set_self fs.dir idx new_entry empty_entry placed.inside)

  -- Every byte of the data is on the disk.
  data-saved : (i : ℕ) → i < size → saved.disk.rd ((start - fs_dir_lba) * 512 + i) ≡ buf i
  unfolding copy
  data-saved i lt = rw rd-saved (ground (arith, placed.low))

  -- The data area outside the file keeps its bytes.
  rest-saved :
      (p : ℕ)
      → dir_sectors * 512 ≤ p
      → (p < (start - fs_dir_lba) * 512) ⊎ ((start - fs_dir_lba + (size + 511) / 512) * 512 ≤ p)
      → saved.disk.rd p ≡ fs.disk.rd p
  unfolding copy
  rest-saved p lo h = rw rd-saved (ground (arith, placed.low))

  IsFirst-saved : char0 name ≢ 0 → IsFirst saved.dir name idx
  unfolding new_entry
  IsFirst-saved named = rw dir-saved (record {
    inside = omega (arith, length-set fs.dir idx new_entry, placed.inside);
    here =
        rw (get_or-set_self fs.dir idx new_entry empty_entry placed.inside)
          (ground (arith, stored_name-eq name, char0-stored_name name named));
    before = λ m lt.
        rw (get_or-set_ne fs.dir idx m new_entry empty_entry (omega arith)) (placed.before m lt);
  })

  new_entry-On : On saved.disk new_entry
  unfolding new_entry
  new_entry-On = omega (arith, sectors-saved, placed.low, placed.high)

  copied :
      (mem : Memory) (a p : ℕ) → read_entry new_entry mem a saved.disk p ≡ copy mem a buf 0 size p
  copied mem a p = read_entry_lem new_entry mem a saved.disk IsRam-saved new_entry-On p ∙ from_buf
    where
      from_buf :
          copy mem a saved.disk.rd (base_of new_entry) new_entry.size p ≡ copy mem a buf 0 size p
      from_buf = unfold new_entry copy in ground (arith, data-saved (p - a))

  -- Another file's entry and bytes.
  other-saved :
      (j : ℕ)
      → in_use (nth fs.dir j) ≡ true
      → hit fs.dir name j ≡ false
      → fs_data_lba ≤ (nth fs.dir j).start
      → (nth saved.dir j ≡ nth fs.dir j)
        × ((p : ℕ)
            → base_of (nth fs.dir j) ≤ p
            → p < base_of (nth fs.dir j) + (nth fs.dir j).size
            → saved.disk.rd p ≡ fs.disk.rd p)
  other-saved j used other low =
      let ne : idx ≢ j = λ e. elim placed.mine [ inl h ↦ cc | inr h ↦ cc ] in
      (
        rw dir-saved (get_or-set_ne fs.dir idx j new_entry empty_entry ne),
        λ p lo hi. rest-saved p (omega arith) (omega (arith, placed.apart j ne used, placed.low)),
      )

  -- The load of the saved file.
  loaded :
      (mem : Memory) (a max : ℕ)
      → char0 name ≢ 0
      → size ≤ max
      → let (n, mem') = fs_read name mem a max saved in
        (n ≡ some size) × ((p : ℕ) → mem' p ≡ copy mem a buf 0 size p)
  unfolding fs_read new_entry
  loaded mem a max named fits =
      let found : fs_find name saved ≡ some idx =
        (fs_find_iff name saved idx).1 (IsFirst-saved named) in
      rw (found, entry-saved, fs_read) (ground arith, λ p. ground (arith, copied mem a p))

max_end_excl-le :
    (x : ℕ) (es : List Dirent) (i m n : ℕ) → m ≤ n → max_end_excl x es i m ≤ max_end es n
unfolding max_end_excl max_end
max_end_excl-le x [] i m n h = h
max_end_excl-le x (e ∷ es) i m n h = max_end_excl-le x es (i + 1) _ _ (ground arith)

overwrite_start-le :
    (idx size : ℕ) (fs : Fs)
    → IsBounded fs.dir
    → size < 2147483648
    → in_use (nth fs.dir idx) ≡ true
    → overwrite_start idx size fs ≤ fs_next_free fs
unfolding overwrite_start fs_next_free fs_next_free_excl
overwrite_start-le idx size fs b small used = ground (
  arith,
  b idx used,
  (fs_next_free-behind fs b).1 idx used,
  max_end_excl-le idx fs.dir 0 fs_data_lba fs_data_lba (omega arith),
)

record Outcome (name : CString) (buf : Memory) (size : ℕ) (fs : Fs) : Type 0 where
  idx : ℕ
  start : ℕ
  placed : Placed name size fs idx start
  written : (fs_write name buf size fs).1 ≡ write_at name buf size idx start fs

outcome :
    (name : CString) (buf : Memory) (size : ℕ) (fs : Fs)
    → IsApart fs.dir
    → IsBounded fs.dir
    → HasRoom fs size
    → size < 2147483648
    → (fs_write name buf size fs).0 ≡ true
    → Outcome name buf size fs
unfolding fs_write
outcome name buf size fs a b room small done = elim (Option-cases (fs_find name fs)) [
  | inl e ↦ elim (Option-cases (unused_from fs.dir 0)) [
    | inl f ↦ absurd (cc (rw (e, f, fs_write) at done))
    | inr (idx, f) ↦
        let (k, same, inside, free) = unused_from-some fs.dir 0 idx f in
        let behind = fs_next_free-behind fs b in
        record {
          idx = idx;
          start = fs_next_free fs;
          placed = record {
            inside = omega arith;
            low = behind.0;
            high = room.data_fits;
            before = λ m lt. fs_find-none name fs e m;
            mine = inr (let at : idx ≡ k = omega arith in rw at free);
            apart = λ j ne h. inr (behind.1 j h);
          };
          written = rw (e, f, fs_write);
        }
  ]
  | inr (idx, e) ↦
      let found = (fs_find_iff name fs idx).0 e in
      let used = hit-in_use fs.dir name idx found.here in
      let new = overwrite_start-apart idx size fs a b small used in
      record {
        idx = idx;
        start = overwrite_start idx size fs;
        placed = record {
          inside = found.inside;
          low = new.0;
          high = omega (arith, overwrite_start-le idx size fs b small used, room.data_fits);
          before = found.before;
          mine = inl found.here;
          apart = new.1;
        };
        written = rw (e, fs_write);
      }
]

-- On a RAM disk with room behind the last file, whose files are apart and end below sector 2 ^
-- 31, a file of less than 2 ^ 31 bytes that was saved under a name that is not empty is loaded
-- back: the load of the same name into any buffer of at least its size returns the size, puts the
-- saved bytes into the buffer, and changes no byte behind or before them.
pub fs_read-fs_write :
    (name : CString) (buf : Memory) (size : ℕ) (fs : Fs) (mem : Memory) (a max : ℕ)
    → IsApart fs.dir
    → IsBounded fs.dir
    → HasRoom fs size
    → size < 2147483648
    → char0 name ≢ 0
    → size ≤ max
    → (fs_write name buf size fs).0 ≡ true
    → let (n, mem') = fs_read name mem a max (fs_write name buf size fs).1 in
      (n ≡ some size) × ((p : ℕ) → mem' p ≡ copy mem a buf 0 size p)
unfolding saved
fs_read-fs_write name buf size fs mem a max apart bd room small named fits done =
    let o = outcome name buf size fs apart bd room small done in
    rw (o.written) (loaded name buf size fs room small o.idx o.start o.placed mem a max named fits)

-- A save that succeeds, on a RAM disk with room behind the last file, whose files are apart and
-- end below sector 2 ^ 31, of less than 2 ^ 31 bytes, leaves the entry and the bytes of every
-- file as they were whose name is not taken for the same, that is whose first 16 characters differ
-- from those of the saved name by more than case.
pub fs_write-others :
    (name : CString) (buf : Memory) (size : ℕ) (fs : Fs)
    → IsApart fs.dir
    → IsBounded fs.dir
    → HasRoom fs size
    → size < 2147483648
    → (fs_write name buf size fs).0 ≡ true
    → (j : ℕ) → in_use (nth fs.dir j) ≡ true
    → hit fs.dir name j ≡ false
    → let fs' = (fs_write name buf size fs).1 in
      (nth fs'.dir j ≡ nth fs.dir j)
      × ((p : ℕ)
          → base_of (nth fs.dir j) ≤ p
          → p < base_of (nth fs.dir j) + (nth fs.dir j).size
          → fs'.disk.rd p ≡ fs.disk.rd p)
unfolding saved
fs_write-others name buf size fs apart bd room small done j used other =
    let o = outcome name buf size fs apart bd room small done in
    rw (o.written) (
      other-saved name buf size fs room small o.idx o.start o.placed j used other
        (apart.low j used))
