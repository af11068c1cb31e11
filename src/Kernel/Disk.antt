-- ===== src/Kernel/Disk.antt =====
-- Sectors (kernel/kernel.c): the RAM disk, the store partition behind it, and the choice between
-- the RAM disk and the ATA drive. The drives' own commands are parameters, fields of `Drives`.
pub mod Range
pub mod Sectors
pub mod Partition
pub mod Store
mod Tests
use mini_os.Base.{
  ℕ, zero, suc, ◌+◌, ◌-◌, Bool, true, false, not, ◌&&◌, ◌||◌, List, [], ◌∷◌, ◌==◌, ltb, leb,
  if◌then◌else◌, Option, none, some, ◌%◌, ◌*◌,
}
use mini_os.Base.Words.{add32, mul32, add64, sub32, u64_mod}
use mini_os.Base.Bytes.{Memory, copy, fill}
use mini_os.Kernel.Layout.{fs_dir_lba, err}

-- What the kernel asks of the drives: the contents of a drive go in, and the data or the contents
-- afterwards come out. The Boolean of an NVMe command is whether it succeeded; a read that fails
-- has filled the buffer with what the second component says.
pub record Drives : Type 0 where
  pub ata_read : Memory → ℕ → ℕ → Memory
  pub ata_write : Memory → ℕ → ℕ → Memory → Memory
  pub nvme_read : Memory → ℕ → ℕ → Bool × Memory
  pub nvme_write : Memory → ℕ → ℕ → Memory → Bool × Memory

-- `rd_base` is whether the pointer is set, `rd` the bytes that it points to; `ata` and `nvme` are
-- the contents of the drives.
pub record Disk : Type 0 where
  pub drives : Drives
  pub rd_base : Bool
  pub rd : Memory
  pub rd_sectors : ℕ
  pub ata : Memory
  pub nvme : Memory
  pub store_ready : Bool
  pub store_first_lba : ℕ
  pub store_last_lba : ℕ
  pub store_fs_sectors : ℕ

-- 64-bit block numbers; `count` is 32 bits wide.
unfoldable pub store_lba_ok : ℕ → ℕ → Disk → Bool
store_lba_ok lba count d =
    if not d.store_ready || (count == 0)
    then false
    else if leb lba d.store_first_lba
    then false
    else if ltb d.store_last_lba ((lba + count + u64_mod - 1) % u64_mod)
    then false
    else true

-- The drive after the write; the result of `nvme_write` is ignored.
unfoldable pub store_write_through : ℕ → ℕ → Memory → Disk → Disk
store_write_through lba count buf d =
    if not d.store_ready || ltb lba fs_dir_lba
    then d
    else let off = lba - fs_dir_lba in
      if ltb d.store_fs_sectors (add32 off count)
      then d
      else let target = add64 (add64 d.store_first_lba 1) off in
        if not (store_lba_ok target count d)
        then d
        else record d { nvme = (d.drives.nvme_write d.nvme target count buf).1 }

unfoldable pub rd_range_ok : ℕ → ℕ → Disk → Bool
rd_range_ok lba count d =
    if not d.rd_base || ltb lba fs_dir_lba
    then false
    else leb (add32 (lba - fs_dir_lba) count) d.rd_sectors

-- `disk_read_sectors(lba, count, dst + a)`.
unfoldable pub disk_read_sectors : ℕ → ℕ → Memory → ℕ → Disk → Memory
disk_read_sectors lba count dst a d =
    if d.rd_base
    then if not (rd_range_ok lba count d)
      then fill dst a 0 (mul32 count 512)
      else copy dst a d.rd (mul32 (sub32 lba fs_dir_lba) 512) (mul32 count 512)
    else copy dst a (d.drives.ata_read d.ata lba count) 0 (mul32 count 512)

-- `disk_write_sectors(lba, count, buf)`.
unfoldable pub disk_write_sectors : ℕ → ℕ → Memory → Disk → Disk
disk_write_sectors lba count buf d =
    if d.rd_base
    then if not (rd_range_ok lba count d)
      then d
      else store_write_through lba count buf
          (record d { rd = copy d.rd (mul32 (sub32 lba fs_dir_lba) 512) buf 0 (mul32 count 512) })
    else record d { ata = d.drives.ata_write d.ata lba count buf }

unfoldable pub disk_read_sector : ℕ → Memory → ℕ → Disk → Memory
disk_read_sector lba dst a d = disk_read_sectors lba 1 dst a d

unfoldable pub disk_write_sector : ℕ → Memory → Disk → Disk
disk_write_sector lba buf d = disk_write_sectors lba 1 buf d

-- SYS_SYNC: the whole image is written to the store.
unfoldable pub sys_sync : Disk → ℕ × Disk
sys_sync d =
    if not d.store_ready
    then (err, d)
    else let n = if ltb d.store_fs_sectors d.rd_sectors then d.store_fs_sectors else d.rd_sectors in
      let target = add64 d.store_first_lba 1 in
      if not (store_lba_ok target n d)
      then (err, d)
      else let (done, nvme') = d.drives.nvme_write d.nvme target n d.rd in
        (if done then 0 else err, record d { nvme = nvme' })
