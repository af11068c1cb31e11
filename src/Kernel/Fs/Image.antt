-- ===== src/Kernel/Fs/Image.antt =====
-- The data of a file: what a save stores and a load gives back (kernel/kernel.c), on a RAM disk.
use mini_os.Base.{ℕ, ◌+◌, ◌-◌, ◌*◌, ◌/◌, ◌%◌, ◌<◌, ◌≡◌, ap, ltb, if◌then◌else◌, arith, dec_lt}
use mini_os.Base.Words.{add32}
use mini_os.Base.Bytes.{Memory, copy}
use mini_os.Kernel.Layout.{fs_dir_lba}
use mini_os.Kernel.Disk.{Disk, disk_read_sectors, disk_read_sector}
use mini_os.Kernel.Disk.Sectors.{IsRam, Inside, disk_read_sectors-rd}
use mini_os.Kernel.Fs.{Dirent, read_entry}

-- The byte of the RAM disk where the file's data begins.
abbrev pub base_of : Dirent → ℕ
base_of e = (e.start - fs_dir_lba) * 512

-- All of the file's sectors are on the RAM disk.
abbrev pub On : Disk → Dirent → Type 0
On d e = Inside d e.start ((e.size + 511) / 512)

module _ (e : Dirent) (mem : Memory) (a : ℕ) (d : Disk) (r : IsRam d) (h : On d e) where
  whole : Memory
  whole = if ltb 0 (e.size / 512) then disk_read_sectors e.start (e.size / 512) mem a d else mem

  whole_lem : (p : ℕ) → whole p ≡ copy mem a d.rd (base_of e) (e.size / 512 * 512) p
  unfolding whole copy
  whole_lem p = elim (dec_lt 0 (e.size / 512)) [
    | yes lt ↦ ground (
      arith,
      ap (λ (m : Memory). m p)
          (disk_read_sectors-rd e.start (e.size / 512) mem a d r (omega arith)),
    )
    | no ge ↦ ground arith
  ]

  part : Memory
  part = disk_read_sector (add32 e.start (e.size / 512)) (λ _. 0) 0 d

  part_lem :
      0 < e.size % 512 → (j : ℕ) → j < 512 → part j ≡ d.rd (base_of e + e.size / 512 * 512 + j)
  unfolding part disk_read_sector copy
  part_lem lt j small =
      let s = add32 e.start (e.size / 512) in
      ground
        (arith, ap (λ (m : Memory). m j) (disk_read_sectors-rd s 1 (λ _. 0) 0 d r (omega arith)))

  -- A load puts the file's bytes at the buffer, and touches nothing else.
  pub read_entry_lem : (p : ℕ) → read_entry e mem a d p ≡ copy mem a d.rd (base_of e) e.size p
  unfolding read_entry whole part copy
  read_entry_lem p =
      let q = p - (a + e.size / 512 * 512) in
      elim (dec_lt 0 (e.size % 512)) [
        | yes lt ↦ ground (arith, whole_lem p, part_lem lt q)
        | no ge ↦ ground (arith, whole_lem p)
      ]
