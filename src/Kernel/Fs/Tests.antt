-- ===== src/Kernel/Fs/Tests.antt =====
-- A small file system on a RAM disk (kernel/kernel.c).
use mini_os.Base.{
  ℕ, zero, suc, ◌+◌, ◌*◌, ◌%◌, ◌≤◌, ◌<◌, ◌≡◌, ◌≢◌, ◌↔◌, refl, true, false, arith, [], ◌∷◌, some,
}
use mini_os.Base.Bytes.{Memory, copy, of_list}
use mini_os.Kernel.Layout.{fs_data_lba}
use mini_os.Kernel.Names.{name_eq_ci, name_eq_loop, normalize_loop, upper}
use mini_os.Kernel.Names.Equal.{name_eq_ci_iff}
use mini_os.Kernel.Disk.{Drives, Disk}
use mini_os.Kernel.Fs.{
  Dirent, Fs, empty_entry, in_use, find_from, fs_find, unused_from, max_end, fs_next_free, fs_read,
  fs_write,
}
use mini_os.Kernel.Fs.Calls.{sys_rename, sys_delete}
use mini_os.Kernel.Fs.Search.{hit}
use mini_os.Kernel.Fs.Apart.{IsApart, IsBounded, Before, nth, fs_write-IsApart, changes-IsApart}
use mini_os.Kernel.Fs.Image.{base_of}
use mini_os.Kernel.Fs.RoundTrip.{HasRoom, fs_read-fs_write, fs_write-others}

-- A controller that does what it is told.
abbrev pub plain_drives : Drives
plain_drives = record {
  ata_read = λ m lba count p. m (lba * 512 + p);
  ata_write = λ m lba count buf. copy m (lba * 512) buf 0 (count * 512);
  nvme_read = λ m lba count. (true, λ p. m (lba * 512 + p));
  nvme_write = λ m lba count buf. (true, copy m (lba * 512) buf 0 (count * 512));
}

abbrev pub ram_disk : Disk
ram_disk = record {
  drives = plain_drives;
  rd_base = true;
  rd = λ p. p % 251;
  rd_sectors = 1000;
  ata = λ p. 0;
  nvme = λ p. 0;
  store_ready = false;
  store_first_lba = 2048;
  store_last_lba = 8191;
  store_fs_sectors = 1000;
}

abbrev pub note : Dirent
note = record { name = b'N' ∷ []; start = 201; size = 600; flags = 0; reserved = 0 }

abbrev pub small_fs : Fs
small_fs = record { dir = note ∷ empty_entry ∷ []; disk = ram_disk }

low : (j : ℕ) → in_use (nth small_fs.dir j) ≡ true → fs_data_lba ≤ (nth small_fs.dir j).start
low zero h = omega arith
low (suc zero) h = absurd (ground arith)
low (suc (suc j)) h = absurd (ground arith)

alone :
    (j k : ℕ)
    → j ≢ k
    → in_use (nth small_fs.dir j) ≡ true
    → in_use (nth small_fs.dir k) ≡ true
    → Before (nth small_fs.dir j) (nth small_fs.dir k)
alone zero zero ne h g = absurd (ne refl)
alone zero (suc zero) ne h g = absurd (ground arith)
alone zero (suc (suc k)) ne h g = absurd (ground arith)
alone (suc zero) k ne h g = absurd (ground arith)
alone (suc (suc j)) k ne h g = absurd (ground arith)

bounded : IsBounded small_fs.dir
bounded zero h = (omega arith, omega arith)
bounded (suc zero) h = absurd (ground arith)
bounded (suc (suc j)) h = absurd (ground arith)

small_fs-IsApart : IsApart small_fs.dir
small_fs-IsApart = record { low = low; apart = alone }

room : HasRoom small_fs 3
unfolding fs_next_free max_end
room = record {
  ram = record { base = refl; small = omega arith };
  dir_fits = omega arith;
  data_fits = ground arith;
}

abbrev text : Memory
text = of_list (b'a' ∷ b'b' ∷ b'c' ∷ [])

saved_ok : (fs_write (b'X' ∷ []) text 3 small_fs).0 ≡ true
unfolding fs_write fs_find find_from unused_from name_eq_ci name_eq_loop upper
saved_ok = refl

fs_read-fs_write_example :
    let (n, mem) = fs_read (b'X' ∷ []) (λ p. 0) 64 16 (fs_write (b'X' ∷ []) text 3 small_fs).1 in
    (n ≡ some 3) × ((p : ℕ) → mem p ≡ copy (λ p. 0) 64 text 0 3 p)
fs_read-fs_write_example =
    fs_read-fs_write (b'X' ∷ []) text 3 small_fs (λ p. 0) 64 16 small_fs-IsApart bounded room
      (omega arith) (omega arith) (omega arith) saved_ok

other_name : hit small_fs.dir (b'X' ∷ []) 0 ≡ false
unfolding name_eq_ci name_eq_loop upper
other_name = refl

fs_write-others_example :
    let after = (fs_write (b'X' ∷ []) text 3 small_fs).1 in
    (nth after.dir 0 ≡ nth small_fs.dir 0)
    × ((p : ℕ)
        → base_of (nth small_fs.dir 0) ≤ p
        → p < base_of (nth small_fs.dir 0) + 600
        → after.disk.rd p ≡ small_fs.disk.rd p)
fs_write-others_example =
    fs_write-others (b'X' ∷ []) text 3 small_fs small_fs-IsApart bounded room (omega arith) saved_ok
      0 refl other_name

fs_write-IsApart_example : IsApart (fs_write (b'X' ∷ []) text 3 small_fs).1.dir
fs_write-IsApart_example =
    fs_write-IsApart (b'X' ∷ []) text 3 small_fs small_fs-IsApart bounded (omega arith)

name_eq_ci_iff_example :
    (name_eq_ci (b'n' ∷ []) (b'N' ∷ []) ≡ true)
    ↔ (normalize_loop 16 (b'n' ∷ []) ≡ normalize_loop 16 (b'N' ∷ []))
name_eq_ci_iff_example = name_eq_ci_iff (b'n' ∷ []) (b'N' ∷ [])

abbrev two_names : Memory
two_names = of_list (b'N' ∷ 0 ∷ b'M' ∷ 0 ∷ [])

changes-IsApart_example :
    IsApart (sys_rename 0 2 two_names small_fs).1.dir
    × IsApart (sys_delete 0 two_names small_fs).1.dir
changes-IsApart_example = changes-IsApart 0 2 two_names small_fs small_fs-IsApart
