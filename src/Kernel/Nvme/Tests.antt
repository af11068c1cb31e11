-- ===== src/Kernel/Nvme/Tests.antt =====
-- A controller that does what it is told, and a drive of 1000 blocks behind it (kernel/nvme.c).
use mini_os.Base.{
  ℕ, ◌+◌, ◌-◌, ◌*◌, ◌%◌, ◌≡◌, refl, true, ◌&&◌, ◌==◌, ltb, leb, if◌then◌else◌, arith,
}
use mini_os.Base.Bytes.{Memory, copy}
use mini_os.Kernel.Nvme.{Sqe, Answer, Hardware, Nvme, nvme_read, nvme_write}
use mini_os.Kernel.Nvme.Pages.{bytes_of, lba_of}
use mini_os.Kernel.Nvme.Chunk.{Obeys, Fits}
use mini_os.Kernel.Nvme.Confined.{with_driver, driver_writes-Confined}
use mini_os.Kernel.Disk.{Disk, disk_write_sectors, sys_sync}

abbrev obey : Sqe → ℕ → (ℕ → ℕ) → Memory → Memory → Answer
obey c phase list m d = record {
  polls = λ k. (phase * 65536, 0);
  bounce =
      λ q. if (c.cdw0 % 256 == 2) && ltb q (bytes_of 512 c) then d (lba_of c * 512 + q) else m q;
  drive = λ p.
      if (c.cdw0 % 256 == 1) && leb (lba_of c * 512) p && ltb p (lba_of c * 512 + bytes_of 512 c)
      then m (p - lba_of c * 512)
      else d p;
}

abbrev device : Hardware
device = record {
  answer = obey;
  bounce_at = 1048576;
  prp_list_at = 2097152;
  present = true;
  nsid = 1;
  block_size = 512;
  blocks = 10000;
}

abbrev idle : Nvme
idle = record {
  hw = device;
  queue = record { tail = 63; head = 63; phase = 1 };
  next_cid = 65535;
  prp_list = λ i. 0;
  bounce = λ p. 0;
  drive = λ p. 7;
}

device-Fits : Fits device
device-Fits = (omega arith, omega arith, omega arith)

device-Obeys : Obeys device
device-Obeys = record {
  outside = λ c phase list m d p out. ground arith;
  kept = λ c phase list m d p e. ground arith;
  written = λ c phase list m d k e ok pages lt.
      let at : lba_of c * 512 + k - lba_of c * 512 ≡ k = omega arith in ground (arith, at);
  filled = λ c phase list m d k e ok pages lt. ground arith;
}

abbrev stored : Disk
stored = record {
  drives = record {
    ata_read = λ m lba count p. m (lba * 512 + p);
    ata_write = λ m lba count buf. copy m (lba * 512) buf 0 (count * 512);
    nvme_read = λ m lba count. (true, λ p. m (lba * 512 + p));
    nvme_write = λ m lba count buf. (true, m);
  };
  rd_base = true;
  rd = λ p. p % 251;
  rd_sectors = 1000;
  ata = λ p. 0;
  nvme = λ p. 7;
  store_ready = true;
  store_first_lba = 2048;
  store_last_lba = 8191;
  store_fs_sectors = 1000;
}

driver_writes-Confined_example :
    ((disk_write_sectors 201 2 (λ p. 1) (with_driver idle stored)).nvme 5 ≡ stored.nvme 5)
    × ((sys_sync (with_driver idle stored)).1.nvme 5 ≡ stored.nvme 5)
driver_writes-Confined_example =
    driver_writes-Confined idle 201 2 (λ p. 1) stored 5 device-Obeys device-Fits refl
      (omega arith, omega arith) (omega arith) (omega arith) (omega arith) (ground arith)
