-- ===== src/Kernel/Nvme/Transfer.antt =====
-- A read or write moves all its blocks, whatever the number of chunks (kernel/nvme.c).
use mini_os.Base.{
  ℕ, zero, suc, ◌+◌, ◌-◌, ◌*◌, ◌≤◌, ◌<◌, ◌≡◌, inl, inr, refl, sym, ap, ◌∙◌, true, false, ◌==◌,
  arith, Bool-cases,
}
use mathlib.Core.Path.{subst}
use mini_os.Base.Words.{u32_mod}
use mini_os.Base.Bytes.{Memory, copy}
use mini_os.Kernel.Nvme.{Nvme, rw_loop}
use mini_os.Kernel.Nvme.Chunk.{Obeys, Fits, chunk-writes, chunk-keeps, chunk-reads}
use mini_os.Kernel.Nvme.Steps.{
  part, Part, part_lem, loaded, first_chunk, buf_after, others, loop_goes_on, first_ok, first_hw,
  loop_none, copy_zero, copy-part, copy-same, copy-through,
}

first_writes :
    (lba count a : ℕ) (buf : Memory) (v : Nvme)
    → Obeys v.hw
    → Fits v.hw
    → count < u32_mod
    → Part count v
    → (first_chunk true lba count a buf v).0 ≡ true
    → (first_chunk true lba count a buf v).1.drive
      ≡ copy v.drive (lba * v.hw.block_size) buf a (part count v * v.hw.block_size)
first_writes lba count a buf v o f small p e =
    let n = part count v in
    chunk-writes lba n (loaded true count a buf v) o p.some_blocks (omega (arith, p.at_most)) p.fits
      (f.2) e
    ∙ copy-through v.drive v.bounce buf (lba * v.hw.block_size) a (n * v.hw.block_size)

first_reads :
    (lba count a : ℕ) (buf : Memory) (v : Nvme)
    → Obeys v.hw
    → Fits v.hw
    → count < u32_mod
    → Part count v
    → (first_chunk false lba count a buf v).0 ≡ true
    → (buf_after false lba count a buf v
        ≡ copy buf a v.drive (lba * v.hw.block_size) (part count v * v.hw.block_size))
      × ((first_chunk false lba count a buf v).1.drive ≡ v.drive)
first_reads lba count a buf v o f small p e =
    let n = part count v in
    let lt : n < u32_mod = omega (arith, p.at_most) in
    let w = loaded false count a buf v in
    (
      copy-same buf (first_chunk false lba count a buf v).1.bounce v.drive a 0
          (lba * v.hw.block_size) (n * v.hw.block_size)
          (λ k le.
            ap (first_chunk false lba count a buf v).1.bounce (omega arith)
            ∙ chunk-reads lba n w o p.some_blocks lt p.fits (f.2) k e le),
      chunk-keeps lba n w o p.some_blocks lt p.fits (f.2),
    )

step-writes :
    (k lba count a : ℕ) (buf : Memory) (v : Nvme) (o : Obeys v.hw) (f : Fits v.hw)
    (pos : (count == 0) ≡ false)
    → count < u32_mod
    → (rw_loop (suc k) true lba count a buf v).0 ≡ true
    → ((others k true lba count a buf v).0 ≡ true
        → (others k true lba count a buf v).1.1.drive
          ≡ copy
              (first_chunk true lba count a buf v).1.drive
              ((lba + part count v) * (first_chunk true lba count a buf v).1.hw.block_size)
              buf
              (a + part count v * v.hw.block_size)
              ((count - part count v) * (first_chunk true lba count a buf v).1.hw.block_size))
    → (rw_loop (suc k) true lba count a buf v).1.1.drive
      ≡ copy v.drive (lba * v.hw.block_size) buf a (count * v.hw.block_size)
step-writes k lba count a buf v o f pos small ok ih =
    let p = part_lem count v f (ground arith) in
    let e = first_ok k true lba count a buf v f pos ok in
    let next = loop_goes_on k true lba count a buf v f pos e in
    ap (λ r. r.1.1.drive) next
    ∙ ih (sym (ap (λ r. r.0) next) ∙ ok)
    ∙ rw
        (
          first_hw k true lba count a buf v f pos o small,
          first_writes lba count a buf v o f small p e,
        )
        ((copy-part v.drive buf lba count a v p).0)

-- All chunks of a write that succeeds.
pub loop-writes :
    (fuel lba count a : ℕ) (buf : Memory) (v : Nvme)
    → Obeys v.hw
    → Fits v.hw
    → count ≤ fuel
    → count < u32_mod
    → (rw_loop fuel true lba count a buf v).0 ≡ true
    → (rw_loop fuel true lba count a buf v).1.1.drive
      ≡ copy v.drive (lba * v.hw.block_size) buf a (count * v.hw.block_size)
loop-writes zero lba count a buf v o f le small ok =
    let z : (count == 0) ≡ true = ground arith in
    rw (loop_none 0 true lba count a buf v z)
      (sym (copy_zero v.drive buf (lba * v.hw.block_size) a count v.hw.block_size z))
loop-writes (suc k) lba count a buf v o f le small ok = elim (Bool-cases (count == 0)) [
  | inl z ↦
      rw (loop_none (suc k) true lba count a buf v z)
        (sym (copy_zero v.drive buf (lba * v.hw.block_size) a count v.hw.block_size z))
  | inr pos ↦
      let p = part_lem count v f (ground arith) in
      let h = first_hw k true lba count a buf v f pos o small in
      step-writes k lba count a buf v o f pos small ok (
        loop-writes k (lba + part count v) (count - part count v)
          (a + part count v * v.hw.block_size) buf (first_chunk true lba count a buf v).1
          (subst Obeys (sym h) o) (subst Fits (sym h) f) (omega (arith, p.some_blocks, p.at_most))
          (omega arith))
]

step-reads :
    (k lba count a : ℕ) (buf : Memory) (v : Nvme) (o : Obeys v.hw) (f : Fits v.hw)
    (pos : (count == 0) ≡ false)
    → count < u32_mod
    → (rw_loop (suc k) false lba count a buf v).0 ≡ true
    → ((others k false lba count a buf v).0 ≡ true
        → ((others k false lba count a buf v).1.0
            ≡ copy
                (buf_after false lba count a buf v)
                (a + part count v * v.hw.block_size)
                (first_chunk false lba count a buf v).1.drive
                ((lba + part count v) * (first_chunk false lba count a buf v).1.hw.block_size)
                ((count - part count v) * (first_chunk false lba count a buf v).1.hw.block_size))
          × ((others k false lba count a buf v).1.1.drive
              ≡ (first_chunk false lba count a buf v).1.drive))
    → ((rw_loop (suc k) false lba count a buf v).1.0
        ≡ copy buf a v.drive (lba * v.hw.block_size) (count * v.hw.block_size))
      × ((rw_loop (suc k) false lba count a buf v).1.1.drive ≡ v.drive)
step-reads k lba count a buf v o f pos small ok ih =
    let p = part_lem count v f (ground arith) in
    let e = first_ok k false lba count a buf v f pos ok in
    let next = loop_goes_on k false lba count a buf v f pos e in
    let r = first_reads lba count a buf v o f small p e in
    let i = ih (sym (ap (λ x. x.0) next) ∙ ok) in
    (
      ap (λ x. x.1.0) next
          ∙ i.0
          ∙ rw (first_hw k false lba count a buf v f pos o small, r.0, r.1)
              ((copy-part buf v.drive lba count a v p).1),
      ap (λ x. x.1.1.drive) next ∙ i.1 ∙ r.1,
    )

none-reads :
    (fuel lba count a : ℕ) (buf : Memory) (v : Nvme)
    → (count == 0) ≡ true
    → ((rw_loop fuel false lba count a buf v).1.0
        ≡ copy buf a v.drive (lba * v.hw.block_size) (count * v.hw.block_size))
      × ((rw_loop fuel false lba count a buf v).1.1.drive ≡ v.drive)
none-reads fuel lba count a buf v z =
    rw (loop_none fuel false lba count a buf v z)
      (sym (copy_zero buf v.drive a (lba * v.hw.block_size) count v.hw.block_size z), refl)

-- All chunks of a read that succeeds.
pub loop-reads :
    (fuel lba count a : ℕ) (buf : Memory) (v : Nvme)
    → Obeys v.hw
    → Fits v.hw
    → count ≤ fuel
    → count < u32_mod
    → (rw_loop fuel false lba count a buf v).0 ≡ true
    → ((rw_loop fuel false lba count a buf v).1.0
        ≡ copy buf a v.drive (lba * v.hw.block_size) (count * v.hw.block_size))
      × ((rw_loop fuel false lba count a buf v).1.1.drive ≡ v.drive)
loop-reads zero lba count a buf v o f le small ok = none-reads 0 lba count a buf v (ground arith)
loop-reads (suc k) lba count a buf v o f le small ok = elim (Bool-cases (count == 0)) [
  | inl z ↦ none-reads (suc k) lba count a buf v z
  | inr pos ↦
      let p = part_lem count v f (ground arith) in
      let h = first_hw k false lba count a buf v f pos o small in
      step-reads k lba count a buf v o f pos small ok (
        loop-reads k (lba + part count v) (count - part count v)
          (a + part count v * v.hw.block_size) (buf_after false lba count a buf v)
          (first_chunk false lba count a buf v).1 (subst Obeys (sym h) o) (subst Fits (sym h) f)
          (omega (arith, p.some_blocks, p.at_most)) (omega arith))
]
