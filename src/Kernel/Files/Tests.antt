-- ===== src/Kernel/Files/Tests.antt =====
-- Descriptors on a RAM disk (kernel/kernel.c).
use mini_os.Base.{◌+◌, ◌*◌, ◌%◌, ◌≡◌, inr, refl, true, false, arith, [], ◌∷◌, some, replicate}
use mini_os.Base.Bytes.{copy, of_list}
use mini_os.Kernel.UserMemory.{user_range_ok}
use mini_os.Kernel.Disk.{Disk}
use mini_os.Kernel.Fs.{Dirent}
use mini_os.Kernel.Files.{
  OpenFile, Io, closed, get_ofile, Transfer, fwrite_step, sys_fread, close_at, sys_close, sys_open,
}
use mini_os.Kernel.Files.Read.{ReadsBytes, sys_fread-ReadsBytes}
use mini_os.Kernel.Files.Read.Moves.{Reads}
use mini_os.Kernel.Files.Cache.{fwrite_step-forgets}
use mini_os.Kernel.Files.Table.{OpenOutcome, sys_open_lem}

abbrev memory_disk : Disk
memory_disk = record {
  drives = record {
    ata_read = λ m lba count p. m (lba * 512 + p);
    ata_write = λ m lba count buf. copy m (lba * 512) buf 0 (count * 512);
    nvme_read = λ m lba count. (true, λ p. m (lba * 512 + p));
    nvme_write = λ m lba count buf. (true, copy m (lba * 512) buf 0 (count * 512));
  };
  rd_base = true;
  rd = λ p. p % 251;
  rd_sectors = 1000;
  ata = λ p. 0;
  nvme = λ p. 0;
  store_ready = false;
  store_first_lba = 0;
  store_last_lba = 0;
  store_fs_sectors = 0;
}

abbrev note : Dirent
note = record { name = b'N' ∷ []; start = 201; size = 600; flags = 0; reserved = 0 }

abbrev reading : OpenFile
reading = record closed { used = true; start = 201; size = 600; pos = 500 }

abbrev opened : Io
opened = record {
  fs = record { dir = note ∷ []; disk = memory_disk };
  ofiles = reading ∷ replicate 7 closed;
}

reading-Reads : Reads memory_disk reading
reading-Reads = record { mode = refl; clean = λ h. refl; cached = λ h. absurd (ground arith) }

here : get_ofile 3 opened ≡ some 0
unfolding get_ofile
here = refl

in_range : user_range_ok 64 200 ≡ true
unfolding user_range_ok
in_range = ground arith

sys_fread-ReadsBytes_example :
    ReadsBytes 0 64 200 (λ p. 0) opened (sys_fread 3 64 200 (λ p. 0) opened)
sys_fread-ReadsBytes_example =
    sys_fread-ReadsBytes 3 0 64 200 (λ p. 0) opened in_range here (omega arith)
      (record { base = refl; small = omega arith }) reading-Reads (omega arith, ground arith)
      (omega arith)

closes : (sys_close 3 opened).0 ≡ 0
unfolding sys_close get_ofile close_at
closes = refl

sys_open_lem_example : OpenOutcome opened (sys_open 0 0 (of_list (b'N' ∷ 0 ∷ [])) opened)
sys_open_lem_example = sys_open_lem 0 0 (of_list (b'N' ∷ 0 ∷ [])) opened refl

-- A descriptor for writing, moved back to the start of its file.
abbrev rewriting : Transfer
rewriting = record {
  file = record closed { used = true; writing = true; start = 201; size = 600 };
  disk = memory_disk;
  user = λ p. 1;
  done = 0;
}

fwrite_step-forgets_example :
    ((fwrite_step 64 10 rewriting).file.sector 20 ≡ 0)
    × ((fwrite_step 64 10 rewriting).file.sector_dirty ≡ true)
fwrite_step-forgets_example =
    fwrite_step-forgets 64 10 rewriting refl refl (omega arith) (omega arith) (omega arith)
      (omega arith) 20 (omega arith) (inr (omega arith))
