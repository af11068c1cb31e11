-- ===== src/Kernel/Fs.antt =====
-- The flat filesystem of kernel/kernel.c: the directory table, the allocator, and whole-file reads
-- and writes. A search that fails with -1 returns `none`; numbers are uint32_t.
pub mod Calls
pub mod Search
pub mod Space
pub mod Apart
pub mod Image
pub mod RoundTrip
mod Tests
use mini_os.Base.{
  ℕ, zero, suc, ◌+◌, ◌-◌, ◌*◌, ◌/◌, ◌%◌, Bool, true, false, not, ◌&&◌, ◌||◌, List, [], ◌∷◌, ◌==◌,
  ltb, leb, if◌then◌else◌, Option, none, some, get_or, set, take,
}
use mini_os.Base.Words.{add32, mul32}
use mini_os.Base.Bytes.{Memory, copy, of_list, word_byte, word_at, read_bytes}
use mini_os.Kernel.Layout.{fs_dir_lba, fs_data_lba, dir_sectors, dir_entries, fs_name_len, err}
use mini_os.Kernel.Names.{CString, name_eq_ci, strlen, char0}
use mini_os.Kernel.Disk.{Disk, disk_read_sectors, disk_write_sectors, disk_read_sector}

-- `dirent_t`; the bytes of `name` that are not listed are 0.
pub record Dirent : Type 0 where
  pub name : CString
  pub start : ℕ
  pub size : ℕ
  pub flags : ℕ
  pub reserved : ℕ

pub record Fs : Type 0 where
  pub dir : List Dirent
  pub disk : Disk

-- What `memset(&dir[i], 0, sizeof(dirent_t))` leaves.
abbrev pub empty_entry : Dirent
empty_entry = record { name = []; start = 0; size = 0; flags = 0; reserved = 0 }

abbrev pub entry_at : Fs → ℕ → Dirent
entry_at fs i = get_or fs.dir i empty_entry

-- `dir[i].name[0] != 0`.
abbrev pub in_use : Dirent → Bool
in_use e = not (char0 e.name == 0)

-- `(size + 511) / 512`.
abbrev pub sectors_of : ℕ → ℕ
sectors_of size = add32 size 511 / 512

abbrev pub end_of : Dirent → ℕ
end_of e = add32 e.start (sectors_of e.size)

-- One entry as its 64 bytes.
unfoldable pub entry_byte : Dirent → ℕ → ℕ
unfolding word_byte
entry_byte e k =
    if ltb k 48
    then get_or e.name k 0
    else if ltb k 52
    then word_byte e.start (k - 48)
    else if ltb k 56
    then word_byte e.size (k - 52)
    else if ltb k 60
    then word_byte e.flags (k - 56)
    else word_byte e.reserved (k - 60)

-- `(const u8*)dir`.
unfoldable pub dir_bytes : List Dirent → Memory
unfolding entry_byte
dir_bytes dir p = entry_byte (get_or dir (p / 64) empty_entry) (p % 64)

unfoldable pub entry_of_bytes : Memory → ℕ → Dirent
unfolding read_bytes word_at
entry_of_bytes m a = record {
  name = read_bytes m a 48;
  start = word_at m (a + 48);
  size = word_at m (a + 52);
  flags = word_at m (a + 56);
  reserved = word_at m (a + 60);
}

-- The `n` entries from entry `i` on.
unfoldable pub dir_of_bytes : Memory → ℕ → ℕ → List Dirent
unfolding entry_of_bytes
dir_of_bytes m i zero = []
dir_of_bytes m i (suc n) = entry_of_bytes m (i * 64) ∷ dir_of_bytes m (i + 1) n

unfoldable pub fs_load_dir : Fs → Fs
fs_load_dir fs =
    let image = disk_read_sectors fs_dir_lba dir_sectors (dir_bytes fs.dir) 0 fs.disk in
    record fs { dir = dir_of_bytes image 0 dir_entries }

unfoldable pub fs_sync_dir : Fs → Fs
fs_sync_dir fs = record fs {
  disk = disk_write_sectors fs_dir_lba dir_sectors (dir_bytes fs.dir) fs.disk;
}

-- The search from entry `i` on.
unfoldable pub find_from : List Dirent → CString → ℕ → Option ℕ
find_from [] name i = none
find_from (e ∷ es) name i =
    let later = find_from es name (i + 1) in
    if not (in_use e) then later else if name_eq_ci e.name name then some i else later

unfoldable pub fs_find : CString → Fs → Option ℕ
unfolding find_from
fs_find name fs = find_from fs.dir name 0

-- The first entry that is not in use.
unfoldable pub unused_from : List Dirent → ℕ → Option ℕ
unused_from [] i = none
unused_from (e ∷ es) i = if in_use e then unused_from es (i + 1) else some i

-- The loops of the allocator, over the entries that are left, with the maximum so far.
unfoldable pub max_end : List Dirent → ℕ → ℕ
max_end [] max = max
max_end (e ∷ es) max =
    max_end es (if not (in_use e) then max else if ltb max (end_of e) then end_of e else max)

unfoldable pub max_end_excl : ℕ → List Dirent → ℕ → ℕ → ℕ
max_end_excl excl [] i max = max
max_end_excl excl (e ∷ es) i max =
    max_end_excl excl es (i + 1)
      (if not (in_use e) || (i == excl) then max else if ltb max (end_of e) then end_of e else max)

unfoldable pub fs_next_free : Fs → ℕ
unfolding max_end
fs_next_free fs = max_end fs.dir fs_data_lba

unfoldable pub fs_next_free_excl : ℕ → Fs → ℕ
unfolding max_end_excl
fs_next_free_excl excl fs = max_end_excl excl fs.dir 0 fs_data_lba

-- The two reads of an entry's data into `mem` at `buf`: the whole sectors, then the rest of the
-- last one through a sector of its own.
unfoldable pub read_entry : Dirent → Memory → ℕ → Disk → Memory
read_entry e mem buf d =
    let full = e.size / 512 in
    let left = e.size % 512 in
    let mem' = (if ltb 0 full then disk_read_sectors e.start full mem buf d else mem) in
    let tmp = disk_read_sector (add32 e.start full) (λ _. 0) 0 d in
    if ltb 0 left then copy mem' (buf + full * 512) tmp 0 left else mem'

-- `none` is -1, with the buffer untouched.
unfoldable pub fs_read : CString → Memory → ℕ → ℕ → Fs → Option ℕ × Memory
fs_read name mem buf max fs = elim (fs_find name fs) [
  | none ↦ (none, mem)
  | some idx ↦
      if ltb max (entry_at fs idx).size
      then (none, mem)
      else (some (entry_at fs idx).size, read_entry (entry_at fs idx) mem buf fs.disk)
]

-- `memset` and `memcpy` of a name into an entry.
abbrev pub stored_name : CString → CString
stored_name name = take (if ltb fs_name_len (strlen name) then fs_name_len else strlen name) name

-- The lines of `fs_write` from the write of the data on, for the entry and the start chosen.
unfoldable pub write_at : CString → Memory → ℕ → ℕ → ℕ → Fs → Fs
write_at name buf size idx start fs =
    let e : Dirent = record (entry_at fs idx) {
      name = stored_name name;
      start = start;
      size = size;
      flags = 0;
    } in
    fs_sync_dir (record {
      dir = set fs.dir idx e;
      disk = disk_write_sectors start (sectors_of size) buf fs.disk;
    })

-- Where an existing entry's new contents go.
unfoldable pub overwrite_start : ℕ → ℕ → Fs → ℕ
overwrite_start idx size fs =
    if leb (sectors_of size) (sectors_of (entry_at fs idx).size)
    then (entry_at fs idx).start
    else fs_next_free_excl idx fs

-- `buf` is memory from 0 on; `false` is -1.
unfoldable pub fs_write : CString → Memory → ℕ → Fs → Bool × Fs
fs_write name buf size fs = elim (fs_find name fs) [
  | some idx ↦ (true, write_at name buf size idx (overwrite_start idx size fs) fs)
  | none ↦ elim (unused_from fs.dir 0) [
    | none ↦ (false, fs)
    | some idx ↦ (true, write_at name buf size idx (fs_next_free fs) fs)
  ]
]
