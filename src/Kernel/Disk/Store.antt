-- ===== src/Kernel/Disk/Store.antt =====
-- Finding the store partition (kernel/kernel.c): the walk over the GPT and the start of the store.
-- The controller's answers are parameters; the GPT is read through `nvme_read`.
pub mod Found
mod Tests
use mini_os.Base.{
  ℕ, zero, suc, ◌+◌, ◌-◌, ◌*◌, ◌/◌, ◌%◌, ◌≤◌, ◌<◌, ◌≡◌, ◌≢◌, ◌↔◌, ◌⊎◌, inl, inr, refl, sym, ap, ◌∙◌,
  Bool, true, false, not, ◌&&◌, ◌||◌, ◌==◌, ltb, leb, if◌then◌else◌, arith, List, [], ◌∷◌, Option,
  none, some, get_or, set, take, drop, length, Bool-cases, Option-cases, length-set,
  get_or-set_self, get_or-set_ne, ℕ_discrete, dec_lt, ◌++◌,
}
use mini_os.Base.Words.{add32, sub32, mul32, u32_mod, u64_mod, add64}
use mini_os.Base.Bytes.{Memory, copy, fill, poke, copy_inside, copy_outside, word_at}
use mini_os.Kernel.Disk.{Drives, Disk}

abbrev pub store_none : ℕ
store_none = 0

abbrev pub store_no_gpt : ℕ
store_no_gpt = 1

abbrev pub store_no_part : ℕ
store_no_part = 2

abbrev pub store_bad_block : ℕ
store_bad_block = 3

abbrev pub store_too_small : ℕ
store_too_small = 4

abbrev pub store_ok : ℕ
store_ok = 5

-- What `nvme_get_info` says.
pub record NvmeInfo : Type 0 where
  pub present : Bool
  pub block_size : ℕ

-- The 64-bit number at `a`.
unfoldable pub long_at : Memory → ℕ → ℕ
long_at m a = (word_at m a + 4294967296 * word_at m (a + 4)) % u64_mod

-- `k` bytes from `a` on are 0.
unfoldable pub all_zero : ℕ → Memory → ℕ → Bool
all_zero zero m a = true
all_zero (suc k) m a = (m a == 0) && all_zero k m (a + 1)

-- The sector starts with "EFI PART".
unfoldable pub has_signature : Memory → Bool
has_signature m =
    (m 0 == b'E')
    && (m 1 == b'F')
    && (m 2 == b'I')
    && (m 3 == b' ')
    && (m 4 == b'P')
    && (m 5 == b'A')
    && (m 6 == b'R')
    && (m 7 == b'T')

-- The header of a store: both magic numbers and the version.
unfoldable pub is_store : Memory → Bool
is_store m = (word_at m 0 == 0x494E494D) && (word_at m 4 == 0x3233534F) && (word_at m 8 == 1)

-- `k` entries of the table left, from entry `i` on; `tbl` is the sector of the table read last. The
-- status is that of the code, and the disk has the partition where one is found.
unfoldable pub scan_entries : ℕ → ℕ → ℕ → ℕ → Memory → Disk → ℕ × Disk
scan_entries zero i entry_lba entry_sz tbl d = (store_no_part, d)
scan_entries (suc k) i entry_lba entry_sz tbl d =
    let per_sector = 512 / entry_sz in
    let fresh = i % per_sector == 0 in
    let answer = d.drives.nvme_read d.nvme (add64 entry_lba (i / per_sector)) 1 in
    let table = if fresh then answer.1 else tbl in
    let e = i % per_sector * entry_sz in
    let first = long_at table (e + 32) in
    let last = long_at table (e + 40) in
    let header = d.drives.nvme_read d.nvme first 1 in
    let sectors = word_at (header.1) 12 % u32_mod in
    let rest = scan_entries k (i + 1) entry_lba entry_sz table d in
    if fresh && not answer.0
    then (store_no_part, d)
    else if all_zero 16 table e || leb last first || not header.0 || not (is_store header.1)
    then rest
    else if ltb ((last - first + 1) % u64_mod) (1 + sectors)
    then (store_too_small, d)
    else (
      store_ok,
      record d { store_first_lba = first; store_last_lba = last; store_fs_sectors = sectors },
    )

-- `store_scan`: the status, and the disk.
unfoldable pub store_scan : NvmeInfo → Disk → ℕ × Disk
store_scan ni d =
    let gpt = d.drives.nvme_read d.nvme 1 1 in
    let entry_lba = long_at (gpt.1) 72 in
    let entries = word_at (gpt.1) 80 % u32_mod in
    let entry_sz = word_at (gpt.1) 84 % u32_mod in
    if not ni.present
    then (store_none, d)
    else if not (ni.block_size == 512)
    then (store_bad_block, d)
    else if not gpt.0 || not (has_signature gpt.1)
    then (store_no_gpt, d)
    else if (entry_sz == 0) || ltb 512 entry_sz || ltb 512 entries
    then (store_no_gpt, d)
    else scan_entries entries 0 entry_lba entry_sz gpt.1 d

-- `store_init`, where `nvme_init` has succeeded or not.
unfoldable pub store_init : Bool → NvmeInfo → Disk → ℕ × Disk
store_init nvme_up ni d =
    let scan = store_scan ni d in
    let f : Disk = scan.1 in
    let n = if ltb f.rd_sectors f.store_fs_sectors then f.rd_sectors else f.store_fs_sectors in
    let image = f.drives.nvme_read f.nvme (add64 f.store_first_lba 1) n in
    let loaded = copy f.rd 0 (image.1) 0 (n * 512) in
    if not d.rd_base
    then (store_none, d)
    else if not nvme_up
    then (store_none, d)
    else if not (scan.0 == store_ok)
    then scan
    else if not image.0
    then (store_no_part, record f { rd = loaded })
    else (store_ok, record f { rd = loaded; store_ready = true })
