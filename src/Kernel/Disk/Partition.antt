-- ===== src/Kernel/Disk/Partition.antt =====
-- The NVMe drive outside the store's partition is out of reach.
use mini_os.Base.{ℕ, ◌+◌, ◌-◌, ◌/◌, ◌≤◌, ◌<◌, ◌≡◌, ◌⊎◌, true, ltb, if◌then◌else◌, arith}
use mini_os.Base.Words.{mul32, sub32, add64, u32_mod}
use mini_os.Base.Bytes.{Memory, copy}
use mini_os.Kernel.Layout.{fs_dir_lba}
use mini_os.Kernel.Disk.{
  Drives, Disk, store_lba_ok, store_write_through, disk_write_sectors, sys_sync,
}

-- A write command changes nothing outside the blocks that it names.
abbrev pub Confined : Drives → Type 0
Confined v =
    (m : Memory) (lba count : ℕ) (buf : Memory) (p : ℕ)
    → (p / 512 < lba) ⊎ (lba + count ≤ p / 512)
    → (v.nvme_write m lba count buf).1 p ≡ m p

-- Byte `p` of the drive lies in the header block or outside the partition.
abbrev pub Foreign : Disk → ℕ → Type 0
Foreign d p = (p / 512 ≤ d.store_first_lba) ⊎ (d.store_last_lba < p / 512)

-- Block numbers with room to spare below 2 ^ 64.
abbrev pub IsSmall : Disk → Type 0
IsSmall d = (d.store_first_lba < 9223372036854775808) × (d.store_last_lba < 9223372036854775808)

store_lba_ok-inside :
    (lba count : ℕ) (d : Disk)
    → store_lba_ok lba count d ≡ true
    → lba < 9223372036854775808 + u32_mod
    → count < u32_mod
    → (d.store_first_lba < lba) × (lba + count ≤ d.store_last_lba + 1)
unfolding store_lba_ok
store_lba_ok-inside lba count d h lt small = ground arith

module _ (d : Disk) (c : Confined d.drives) (s : IsSmall d) where
  nvme_write-Confined :
      (lba count : ℕ) (buf : Memory) (p : ℕ)
      → store_lba_ok lba count d ≡ true
      → lba < 9223372036854775808 + u32_mod
      → count < u32_mod
      → Foreign d p
      → (d.drives.nvme_write d.nvme lba count buf).1 p ≡ d.nvme p
  nvme_write-Confined lba count buf p ok lt small f =
      let (lo, hi) = store_lba_ok-inside lba count d ok lt small in
      c d.nvme lba count buf p (omega arith)

  pub store_write_through-Confined :
      (lba count : ℕ) (buf : Memory) (p : ℕ)
      → lba < u32_mod
      → count < u32_mod
      → Foreign d p
      → (store_write_through lba count buf d).nvme p ≡ d.nvme p
  unfolding store_write_through
  store_write_through-Confined lba count buf p l k f = ground (
    arith,
    nvme_write-Confined (add64 (add64 d.store_first_lba 1) (lba - fs_dir_lba)) count buf p,
  )

  -- SYS_SYNC leaves every byte of the NVMe drive outside the store partition, and its header
  -- block, as it was, if the drive's write command touches only the blocks it names and the
  -- partition's block numbers are below 2 ^ 63.
  pub sys_sync-Confined :
      (p : ℕ) → d.rd_sectors < u32_mod → Foreign d p → (sys_sync d).1.nvme p ≡ d.nvme p
  unfolding sys_sync
  sys_sync-Confined p small f =
      let n = if ltb d.store_fs_sectors d.rd_sectors then d.store_fs_sectors else d.rd_sectors in
      ground (arith, nvme_write-Confined (add64 d.store_first_lba 1) n d.rd p)

-- No sector write of the kernel changes a byte of the NVMe drive outside the store partition, or
-- of the partition's header block and those before it, if the drive's write command touches only
-- the blocks it names and the partition's block numbers are below 2 ^ 63.
pub disk_write_sectors-Confined :
    (lba count : ℕ) (buf : Memory) (d : Disk) (p : ℕ)
    → Confined d.drives
    → IsSmall d
    → lba < u32_mod
    → count < u32_mod
    → Foreign d p
    → (disk_write_sectors lba count buf d).nvme p ≡ d.nvme p
unfolding disk_write_sectors
disk_write_sectors-Confined lba count buf d p c s l k f =
    let written : Disk = record d {
      rd = copy d.rd (mul32 (sub32 lba fs_dir_lba) 512) buf 0 (mul32 count 512);
    } in
    ground (arith, store_write_through-Confined written c s lba count buf p l k f)

-- No sector write of the kernel, nor SYS_SYNC, changes a byte of the NVMe drive outside the store
-- partition, or of the partition's header block and those before it, if the drive's write command
-- touches only the blocks it names and the partition's block numbers are below 2 ^ 63.
pub writes-Confined :
    (lba count : ℕ) (buf : Memory) (d : Disk) (p : ℕ)
    → Confined d.drives
    → IsSmall d
    → lba < u32_mod
    → count < u32_mod
    → d.rd_sectors < u32_mod
    → Foreign d p
    → ((disk_write_sectors lba count buf d).nvme p ≡ d.nvme p) × ((sys_sync d).1.nvme p ≡ d.nvme p)
writes-Confined lba count buf d p c s l k small f =
    (disk_write_sectors-Confined lba count buf d p c s l k f, sys_sync-Confined d c s p small f)
