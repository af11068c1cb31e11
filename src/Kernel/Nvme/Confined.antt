-- ===== src/Kernel/Nvme/Confined.antt =====
-- The NVMe driver under the kernel's disk: writes stay in the store partition (kernel/nvme.c,
-- kernel/kernel.c).
use mini_os.Base.{
  ℕ, zero, suc, ◌+◌, ◌-◌, ◌*◌, ◌≤◌, ◌<◌, ◌≡◌, ◌⊎◌, inl, inr, refl, sym, ap, ◌∙◌, Bool, true, ◌==◌,
  arith, Bool-cases,
}
use mathlib.Core.Path.{subst}
use mini_os.Base.Words.{u32_mod}
use mini_os.Base.Bytes.{Memory}
use native.Mathlib.Nat.{add-mul, le-mul_of_pos_right}
use mini_os.Kernel.Nvme.{Nvme, rw_loop, rw_blocks, nvme_read, nvme_write}
use mini_os.Kernel.Nvme.Chunk.{Obeys, Fits, chunk-outside, chunk-hw}
use mini_os.Kernel.Nvme.Steps.{
  part, Part, part_lem, loaded, first_chunk, buf_after, loop_goes_on, loop_stops, loop_none,
}
use mini_os.Kernel.Disk.{Disk, disk_write_sectors, sys_sync}
use mini_os.Kernel.Disk.Partition.{Confined, Foreign, IsSmall, writes-Confined}

module _ (write : Bool) (lba count a : ℕ) (buf : Memory) (v : Nvme) (o : Obeys v.hw) (f : Fits v.hw)
    (p : Part count v) where
  first_small : part count v < u32_mod
  first_small = let le = le-mul_of_pos_right (part count v) (f.0) in omega (arith, le, p.fits)

  chunk_hw : (first_chunk write lba count a buf v).1.hw ≡ v.hw
  chunk_hw =
      chunk-hw lba (part count v) (loaded write count a buf v) o p.some_blocks first_small p.fits
        (f.2) write

  chunk_outside :
      (q : ℕ)
      → (q < lba * v.hw.block_size) ⊎ (lba * v.hw.block_size + count * v.hw.block_size ≤ q)
      → (first_chunk write lba count a buf v).1.drive q ≡ v.drive q
  chunk_outside q out =
      chunk-outside lba (part count v) (loaded write count a buf v) o p.some_blocks first_small
        p.fits (f.2) write q (elim out [ inl lt ↦ inl lt | inr le ↦ inr (omega (arith, p.rest)) ])

-- A transfer changes nothing outside its blocks, also where it fails in the middle.
loop-outside :
    (fuel : ℕ) (write : Bool) (lba count a : ℕ) (buf : Memory) (v : Nvme) (q : ℕ)
    → Obeys v.hw
    → Fits v.hw
    → (q < lba * v.hw.block_size) ⊎ (lba * v.hw.block_size + count * v.hw.block_size ≤ q)
    → (rw_loop fuel write lba count a buf v).1.1.drive q ≡ v.drive q
unfolding rw_loop
loop-outside zero write lba count a buf v q o f out = refl
loop-outside (suc k) write lba count a buf v q o f out = elim (Bool-cases (count == 0)) [
  | inl z ↦ ap (λ r. r.1.1.drive q) (loop_none (suc k) write lba count a buf v z)
  | inr pos ↦
      let p = part_lem count v f (ground arith) in
      let h = chunk_hw write lba count a buf v o f p in
      let first = chunk_outside write lba count a buf v o f p q out in
      elim (Bool-cases ((first_chunk write lba count a buf v).0)) [
        | inr e ↦ ap (λ r. r.1.1.drive q) (loop_stops k write lba count a buf v f pos e) ∙ first
        | inl e ↦
            ap (λ r. r.1.1.drive q) (loop_goes_on k write lba count a buf v f pos e)
            ∙ loop-outside k write (lba + part count v) (count - part count v)
                (a + part count v * v.hw.block_size) (buf_after write lba count a buf v)
                (first_chunk write lba count a buf v).1 q (subst Obeys (sym h) o)
                (subst Fits (sym h) f)
                (rw (h, add-mul lba (part count v) v.hw.block_size)
                  (elim out [ inl lt ↦ inl (omega arith) | inr le ↦ inr (omega (arith, p.rest)) ]))
            ∙ first
      ]
]

pub nvme_write-outside :
    (lba count : ℕ) (buf : Memory) (v : Nvme) (q : ℕ)
    → Obeys v.hw
    → Fits v.hw
    → (q < lba * v.hw.block_size) ⊎ (lba * v.hw.block_size + count * v.hw.block_size ≤ q)
    → (nvme_write lba count buf v).1.1.drive q ≡ v.drive q
unfolding nvme_write rw_blocks
nvme_write-outside lba count buf v q o f out =
    ground (arith, loop-outside count true lba count 0 buf v q o f out)

-- The disk's NVMe commands are those of the driver in the state `v`.
abbrev pub with_driver : Nvme → Disk → Disk
with_driver v d = record d {
  drives = record d.drives {
    nvme_read = λ m lba count.
        let r = nvme_read lba count (λ q. 0) (record v { drive = m }) in (r.0, r.1.0);
    nvme_write = λ m lba count buf.
        let r = nvme_write lba count buf (record v { drive = m }) in (r.0, r.1.1.drive);
  };
}

driver-Confined :
    (v : Nvme) (d : Disk)
    → Obeys v.hw
    → Fits v.hw
    → v.hw.block_size ≡ 512
    → Confined (with_driver v d).drives
driver-Confined v d o f e m lba count buf q out =
    nvme_write-outside lba count buf (record v { drive = m }) q o f (rw (e) (omega arith))

-- With the driver behind the disk, in any state of its queue, and a controller that writes only the
-- blocks of 512 bytes that a command names, no sector write of the kernel, nor SYS_SYNC, changes a
-- byte of the NVMe drive outside the store partition, or of its header block, also where a transfer
-- fails in the middle. The partition's block numbers are below 2 ^ 63.
pub driver_writes-Confined :
    (v : Nvme) (lba count : ℕ) (buf : Memory) (d : Disk) (q : ℕ)
    → Obeys v.hw
    → Fits v.hw
    → v.hw.block_size ≡ 512
    → IsSmall d
    → lba < u32_mod
    → count < u32_mod
    → d.rd_sectors < u32_mod
    → Foreign d q
    → ((disk_write_sectors lba count buf (with_driver v d)).nvme q ≡ d.nvme q)
      × ((sys_sync (with_driver v d)).1.nvme q ≡ d.nvme q)
driver_writes-Confined v lba count buf d q o f e s l k small out =
    writes-Confined lba count buf (with_driver v d) q (driver-Confined v d o f e) s l k small out
