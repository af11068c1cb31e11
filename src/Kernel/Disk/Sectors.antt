-- ===== src/Kernel/Disk/Sectors.antt =====
-- The RAM disk as an array of sectors: reads and writes inside it, with no wrap.
use mini_os.Base.{ℕ, ◌+◌, ◌-◌, ◌*◌, ◌≤◌, ◌<◌, ◌≡◌, true, arith}
use mini_os.Base.Words.{sub32, mul32}
use mini_os.Base.Bytes.{Memory, copy}
use mini_os.Kernel.Layout.{fs_dir_lba}
use mini_os.Kernel.Disk.{
  Disk, rd_range_ok, disk_read_sectors, disk_write_sectors, store_write_through,
}

-- A RAM disk whose size in bytes is a 32-bit number.
pub record IsRam (d : Disk) : Type 0 where
  pub base : d.rd_base ≡ true
  pub small : d.rd_sectors < 8388608

-- The sectors lie on the RAM disk.
abbrev pub Inside : Disk → ℕ → ℕ → Type 0
Inside d lba count = (fs_dir_lba ≤ lba) × (lba + count ≤ fs_dir_lba + d.rd_sectors)

pub record SameStore (d d' : Disk) : Type 0 where
  pub base : d'.rd_base ≡ d.rd_base
  pub sectors : d'.rd_sectors ≡ d.rd_sectors
  pub drives : d'.drives ≡ d.drives
  pub first : d'.store_first_lba ≡ d.store_first_lba
  pub last : d'.store_last_lba ≡ d.store_last_lba

pub store_write_through-rd :
    (lba count : ℕ) (buf : Memory) (d : Disk) → (store_write_through lba count buf d).rd ≡ d.rd
unfolding store_write_through
store_write_through-rd lba count buf d = ground arith

store_write_through-SameStore :
    (lba count : ℕ) (buf : Memory) (d : Disk) → SameStore d (store_write_through lba count buf d)
unfolding store_write_through
store_write_through-SameStore lba count buf d = ground arith

pub disk_write_sectors-SameStore :
    (lba count : ℕ) (buf : Memory) (d : Disk) → SameStore d (disk_write_sectors lba count buf d)
unfolding disk_write_sectors
disk_write_sectors-SameStore lba count buf d =
    let written : Disk = record d {
      rd = copy d.rd (mul32 (sub32 lba fs_dir_lba) 512) buf 0 (mul32 count 512);
    } in
    ground (arith, store_write_through-SameStore lba count buf written)

Inside-ok :
    (lba count : ℕ) (d : Disk) → IsRam d → Inside d lba count → rd_range_ok lba count d ≡ true
unfolding rd_range_ok
Inside-ok lba count d r h = ground arith

offset :
    (lba count : ℕ) (d : Disk)
    → IsRam d
    → Inside d lba count
    → mul32 (sub32 lba fs_dir_lba) 512 ≡ (lba - fs_dir_lba) * 512
offset lba count d r h = omega arith

bytes : (lba count : ℕ) (d : Disk) → IsRam d → Inside d lba count → mul32 count 512 ≡ count * 512
bytes lba count d r h = omega arith

-- A write inside the RAM disk stores the buffer at the sectors, and nothing else.
pub disk_write_sectors-rd :
    (lba count : ℕ) (buf : Memory) (d : Disk)
    → IsRam d
    → Inside d lba count
    → (disk_write_sectors lba count buf d).rd
      ≡ copy d.rd ((lba - fs_dir_lba) * 512) buf 0 (count * 512)
unfolding disk_write_sectors
disk_write_sectors-rd lba count buf d r h =
    rw (Inside-ok lba count d r h, r.base, offset lba count d r h, bytes lba count d r h)
      (store_write_through-rd lba count buf _)

pub disk_read_sectors-rd :
    (lba count : ℕ) (dst : Memory) (a : ℕ) (d : Disk)
    → IsRam d
    → Inside d lba count
    → disk_read_sectors lba count dst a d ≡ copy dst a d.rd ((lba - fs_dir_lba) * 512) (count * 512)
unfolding disk_read_sectors
disk_read_sectors-rd lba count dst a d r h =
    rw (Inside-ok lba count d r h, r.base, offset lba count d r h, bytes lba count d r h)
