-- ===== src/Kernel/Files/Cache.antt =====
-- The cache of a descriptor for writing: what SYS_FWRITE after SYS_SEEK starts from (kernel/kernel.c).
use mini_os.Base.{ℕ, ◌+◌, ◌-◌, ◌/◌, ◌%◌, ◌≤◌, ◌<◌, ◌≡◌, ◌⊎◌, true, false, ◌&&◌, ◌==◌, arith}
use mini_os.Base.Words.{add32, u32_mod}
use mini_os.Base.Bytes.{copy, fill}
use mini_os.Kernel.Disk.{Disk}
use mini_os.Kernel.Files.{
  OpenFile, ofile_flush, load_into, ofile_load_sector, file_sectors, Transfer, fwrite_step,
}

-- When a descriptor for writing goes to another sector of its file, the cache is cleared to 0,
-- whatever the disk holds there, if the file starts at or behind the sector number that is the
-- count of the file's own sectors. Every file of at most `fs_data_lba` sectors does.
pub load_forgets :
    (f : OpenFile) (lba : ℕ) (d : Disk)
    → f.writing ≡ true
    → f.sector_valid && (f.cur_lba == lba) ≡ false
    → file_sectors f ≤ f.start
    → f.start ≤ lba
    → (j : ℕ) → j < 512
    → (ofile_load_sector f lba d).0.sector j ≡ 0
unfolding ofile_load_sector load_into ofile_flush fill
load_forgets f lba d w miss small at j lt = ground arith

-- A step of a write that ends inside one sector, through a descriptor for writing with an empty
-- cache and for a file that starts at a sector number not below its own number of sectors, leaves
-- 0 in the cache at every other byte of that sector, and marks it to be written out.
pub fwrite_step-forgets :
    (off len : ℕ) (t : Transfer)
    → t.file.writing ≡ true
    → t.file.sector_valid ≡ false
    → file_sectors t.file ≤ t.file.start
    → t.file.start + t.file.pos / 512 < u32_mod
    → t.done < len
    → len - t.done < 512 - t.file.pos % 512
    → (j : ℕ) → j < 512
    → (j < t.file.pos % 512) ⊎ (t.file.pos % 512 + (len - t.done) ≤ j)
    → ((fwrite_step off len t).file.sector j ≡ 0)
      × ((fwrite_step off len t).file.sector_dirty ≡ true)
unfolding fwrite_step copy
fwrite_step-forgets off len t w v small wrap more within j lt out =
    let lba = add32 t.file.start (t.file.pos / 512) in
    let zero_fill = load_forgets t.file lba t.disk w (ground arith) small (omega arith) j lt in
    ground (arith, zero_fill)
