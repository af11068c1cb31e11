-- ===== src/Kernel/Disk/Store/Tests.antt =====
-- A drive with a GPT of one partition, blocks 4 to 20, which is a store of 8 sectors
-- (kernel/kernel.c).
use mini_os.Base.{
  ℕ, ◌+◌, ◌*◌, ◌≤◌, ◌≡◌, refl, true, false, ◌==◌, if◌then◌else◌, arith, List, [], ◌∷◌,
}
use mini_os.Base.Bytes.{Memory, copy, word_at}
use mini_os.Kernel.Disk.{Disk, store_lba_ok}
use mini_os.Kernel.Disk.Store.{
  store_ok, NvmeInfo, long_at, is_store, has_signature, all_zero, scan_entries, store_scan,
  store_init,
}
use mini_os.Kernel.Disk.Store.Found.{store_init_lem}

abbrev bytes : List (ℕ × ℕ) → ℕ → ℕ
bytes [] p = 0
bytes (b ∷ bs) p = if p == b.0 then b.1 else bytes bs p

abbrev partitioned : Memory
partitioned = bytes (
    (512, b'E')
    ∷ (513, b'F')
    ∷ (514, b'I')
    ∷ (515, b' ')
    ∷ (516, b'P')
    ∷ (517, b'A')
    ∷ (518, b'R')
    ∷ (519, b'T')
    ∷ (584, 2)
    ∷ (592, 1)
    ∷ (596, 128)
    ∷ (1024, 1)
    ∷ (1056, 4)
    ∷ (1064, 20)
    ∷ (2048, b'M')
    ∷ (2049, b'I')
    ∷ (2050, b'N')
    ∷ (2051, b'I')
    ∷ (2052, b'O')
    ∷ (2053, b'S')
    ∷ (2054, b'3')
    ∷ (2055, b'2')
    ∷ (2056, 1)
    ∷ (2060, 8)
    ∷ [])

abbrev machine : Disk
machine = record {
  drives = record {
    ata_read = λ m lba count p. m (lba * 512 + p);
    ata_write = λ m lba count buf. copy m (lba * 512) buf 0 (count * 512);
    nvme_read = λ m lba count. (true, λ p. m (lba * 512 + p));
    nvme_write = λ m lba count buf. (true, copy m (lba * 512) buf 0 (count * 512));
  };
  rd_base = true;
  rd = λ p. 0;
  rd_sectors = 1000;
  ata = λ p. 0;
  nvme = partitioned;
  store_ready = false;
  store_first_lba = 0;
  store_last_lba = 0;
  store_fs_sectors = 0;
}

abbrev controller : NvmeInfo
controller = record { present = true; block_size = 512 }

found : (store_init true controller machine).0 ≡ store_ok
unfolding store_init store_scan scan_entries has_signature is_store all_zero long_at word_at
found = refl

fits : 3 + 2 ≤ (store_init true controller machine).1.store_fs_sectors
unfolding store_init store_scan scan_entries has_signature is_store all_zero long_at word_at
fits = omega arith

store_init_lem_example :
    store_lba_ok
      ((store_init true controller machine).1.store_first_lba + 1 + 3)
      2
      (store_init true controller machine).1
    ≡ true
store_init_lem_example = store_init_lem true controller machine 3 2 found (omega arith) fits
