-- ===== src/Kernel/Disk/Tests.antt =====
-- A RAM disk of 1000 sectors with a store partition behind it (kernel/kernel.c).
use mini_os.Base.{◌+◌, ◌*◌, ◌%◌, ◌≡◌, true, arith}
use mini_os.Base.Bytes.{copy}
use mini_os.Kernel.Disk.{Drives, Disk, disk_write_sectors, sys_sync}
use mini_os.Kernel.Disk.Partition.{Confined, writes-Confined}

-- A controller that writes the blocks it is told to.
abbrev obedient : Drives
obedient = record {
  ata_read = λ m lba count p. m (lba * 512 + p);
  ata_write = λ m lba count buf. copy m (lba * 512) buf 0 (count * 512);
  nvme_read = λ m lba count. (true, λ p. m (lba * 512 + p));
  nvme_write = λ m lba count buf. (true, copy m (lba * 512) buf 0 (count * 512));
}

obedient-Confined : Confined obedient
unfolding copy
obedient-Confined m lba count buf p outside = ground arith

abbrev stored : Disk
stored = record {
  drives = obedient;
  rd_base = true;
  rd = λ p. p % 251;
  rd_sectors = 1000;
  ata = λ p. 0;
  nvme = λ p. 7;
  store_ready = true;
  store_first_lba = 2048;
  store_last_lba = 8191;
  store_fs_sectors = 1000;
}

writes-Confined_example :
    ((disk_write_sectors 201 2 (λ p. 1) stored).nvme 5 ≡ stored.nvme 5)
    × ((sys_sync stored).1.nvme 5 ≡ stored.nvme 5)
writes-Confined_example =
    writes-Confined 201 2 (λ p. 1) stored 5 obedient-Confined (omega arith) (omega arith)
      (omega arith) (omega arith) (ground arith)
