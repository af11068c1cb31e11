-- ===== src/Kernel/Disk/Range.antt =====
-- Which sector ranges the RAM disk accepts.
use mini_os.Base.{ℕ, ◌+◌, ◌-◌, ◌≤◌, ◌<◌, ◌≡◌, ◌↔◌, true, arith}
use mini_os.Base.Words.{u32_mod}
use mini_os.Kernel.Layout.{fs_dir_lba}
use mini_os.Kernel.Disk.{Disk, rd_range_ok}

-- With a RAM disk, where the end of the range is below 2 ^ 32 sectors past the disk's first one,
-- the check accepts exactly the ranges that lie on the RAM disk.
pub rd_range_ok_iff :
    (lba count : ℕ) (d : Disk)
    → d.rd_base ≡ true
    → lba + count < u32_mod + fs_dir_lba
    → (rd_range_ok lba count d ≡ true)
      ↔ ((fs_dir_lba ≤ lba) × (lba + count ≤ fs_dir_lba + d.rd_sectors))
unfolding rd_range_ok
rd_range_ok_iff lba count d base h = (λ e. ground arith, λ e. ground arith)

-- The sum in the check wraps: every start in the last half of the 32-bit range is accepted with
-- the count that brings the sum round to 0, on every RAM disk of less than 2 ^ 31 sectors, though
-- the range lies outside it.
pub rd_range_ok_wraps :
    (lba : ℕ) (d : Disk)
    → d.rd_base ≡ true
    → d.rd_sectors < 2147483648
    → 2147483648 + fs_dir_lba ≤ lba
    → lba < u32_mod
    → (rd_range_ok lba (u32_mod + fs_dir_lba - lba) d ≡ true) × (fs_dir_lba + d.rd_sectors < lba)
unfolding rd_range_ok
rd_range_ok_wraps lba d base small high low = ground arith
