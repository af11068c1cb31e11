-- ===== src/Kernel/Disk/Store/Found.antt =====
-- The partition that the scan finds holds the image (kernel/kernel.c).
use mini_os.Base.{
  ℕ, zero, suc, ◌+◌, ◌-◌, ◌*◌, ◌/◌, ◌%◌, ◌≤◌, ◌<◌, ◌≡◌, ◌≢◌, refl, Bool, true, false, not, ◌&&◌,
  ◌||◌, ◌==◌, ltb, leb, if◌then◌else◌, arith,
}
use mini_os.Base.Words.{u32_mod, u64_mod, add64}
use mini_os.Base.Bytes.{Memory, word_at}
use mini_os.Kernel.Disk.{Disk, store_lba_ok}
use mini_os.Kernel.Disk.Store.{
  store_ok, NvmeInfo, long_at, is_store, has_signature, all_zero, scan_entries, store_scan,
  store_init,
}

-- The header and the image lie in the partition.
abbrev pub Holds : Disk → Type 0
Holds d = (d.store_first_lba + d.store_fs_sectors ≤ d.store_last_lba) × (d.store_last_lba < u64_mod)

-- Where the status is that of success, the disk has a partition that holds its image.
abbrev IsFound : ℕ × Disk → Type 0
IsFound r = r.0 ≡ store_ok → Holds (r.1)

IsFound-if :
    (b : Bool) (r q : ℕ × Disk)
    → (b ≡ true → IsFound r)
    → (b ≡ false → IsFound q)
    → IsFound (if b then r else q)
IsFound-if true r q f g = f refl
IsFound-if false r q f g = g refl

not-IsFound : (status : ℕ) (d : Disk) → status ≢ store_ok → IsFound (status, d)
not-IsFound status d ne e = absurd (ne e)

long_at_lt : (m : Memory) (a : ℕ) → long_at m a < u64_mod
unfolding long_at
long_at_lt m a = omega arith

accepted :
    (first last sectors : ℕ) (d : Disk)
    → last < u64_mod
    → first ≤ last
    → ltb ((last - first + 1) % u64_mod) (1 + sectors) ≡ false
    → Holds
        (record d { store_first_lba = first; store_last_lba = last; store_fs_sectors = sectors })
accepted first last sectors d lt le e = ground arith

ordered :
    (a b c e : Bool) (first last : ℕ)
    → (a || b || c || e) ≡ false
    → b ≡ leb last first
    → first ≤ last
ordered a b c e first last f same = ground arith

scan_entries-IsFound :
    (k i entry_lba entry_sz : ℕ) (tbl : Memory) (d : Disk)
    → IsFound (scan_entries k i entry_lba entry_sz tbl d)
unfolding scan_entries
scan_entries-IsFound zero i entry_lba entry_sz tbl d = not-IsFound _ d (λ e. ground arith)
scan_entries-IsFound (suc k) i entry_lba entry_sz tbl d =
    let fresh = i % (512 / entry_sz) == 0 in
    let answer = d.drives.nvme_read d.nvme (add64 entry_lba (i / (512 / entry_sz))) 1 in
    let table = if fresh then answer.1 else tbl in
    let first = long_at table (i % (512 / entry_sz) * entry_sz + 32) in
    let last = long_at table (i % (512 / entry_sz) * entry_sz + 40) in
    let header = d.drives.nvme_read d.nvme first 1 in
    let sectors = word_at (header.1) 12 % u32_mod in
    let skip =
      all_zero 16 table (i % (512 / entry_sz) * entry_sz)
      || leb last first
      || not header.0
      || not (is_store header.1) in
    let small = ltb ((last - first + 1) % u64_mod) (1 + sectors) in
    let taken : ℕ × Disk = (
      store_ok,
      record d { store_first_lba = first; store_last_lba = last; store_fs_sectors = sectors },
    ) in
    let ends : ℕ × Disk = if small then (4, d) else taken in
    let rest = scan_entries k (i + 1) entry_lba entry_sz table d in
    IsFound-if (fresh && not answer.0) (2, d) (if skip then rest else ends)
      (λ e. not-IsFound 2 d (λ f. ground arith))
      (λ e.
        IsFound-if skip rest ends (λ f. scan_entries-IsFound k (i + 1) entry_lba entry_sz table d)
          (λ f.
            IsFound-if small (4, d) taken (λ g. not-IsFound 4 d (λ z. ground arith))
              (λ g z.
                accepted first last sectors d (long_at_lt _ _)
                  (ordered _ (leb last first) _ _ first last f refl) g)))

store_scan-IsFound : (ni : NvmeInfo) (d : Disk) → IsFound (store_scan ni d)
unfolding store_scan
store_scan-IsFound ni d =
    let gpt = d.drives.nvme_read d.nvme 1 1 in
    let lba = long_at (gpt.1) 72 in
    let size = word_at (gpt.1) 84 % u32_mod in
    let walk = scan_entries (word_at (gpt.1) 80 % u32_mod) 0 lba size gpt.1 d in
    let odd = (size == 0) || ltb 512 size || ltb 512 (word_at (gpt.1) 80 % u32_mod) in
    let signed : ℕ × Disk = if odd then (1, d) else walk in
    let blocks : ℕ × Disk = if not gpt.0 || not (has_signature gpt.1) then (1, d) else signed in
    IsFound-if (not ni.present) (0, d) (if not (ni.block_size == 512) then (3, d) else blocks)
      (λ e. not-IsFound 0 d (λ z. ground arith))
      (λ e.
        IsFound-if (not (ni.block_size == 512)) (3, d) blocks
          (λ f. not-IsFound 3 d (λ z. ground arith))
          (λ f.
            IsFound-if (not gpt.0 || not (has_signature gpt.1)) (1, d) signed
              (λ g. not-IsFound 1 d (λ z. ground arith))
              (λ g.
                IsFound-if odd (1, d) walk (λ h. not-IsFound 1 d (λ z. ground arith))
                  (λ h. scan_entries-IsFound _ 0 lba size gpt.1 d))))

-- After a start of the store that succeeds, every write of one sector or more that ends inside
-- the image is inside the partition, behind its header: `store_lba_ok` allows it.
pub store_init_lem :
    (nvme_up : Bool) (ni : NvmeInfo) (d : Disk) (off count : ℕ)
    → (store_init nvme_up ni d).0 ≡ store_ok
    → 1 ≤ count
    → off + count ≤ (store_init nvme_up ni d).1.store_fs_sectors
    → store_lba_ok
        ((store_init nvme_up ni d).1.store_first_lba + 1 + off)
        count
        (store_init nvme_up ni d).1
      ≡ true
unfolding store_init store_lba_ok
store_init_lem nvme_up ni d off count e le fits = ground (arith, store_scan-IsFound ni d)
