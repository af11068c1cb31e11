-- ===== src/Kernel/Nvme/Chunk.antt =====
-- What a chunk moves, where the controller does what the specification says (kernel/nvme.c).
use mini_os.Base.{
  ℕ, ◌+◌, ◌-◌, ◌*◌, ◌/◌, ◌%◌, ◌≤◌, ◌<◌, ◌≡◌, ◌⊎◌, inl, inr, refl, sym, ap, ◌∙◌, Bool, true, false,
  ◌&&◌, ltb, leb, if◌then◌else◌, arith, Option, none, some, Bool-cases,
}
use mathlib.Core.Path.{subst}
use mini_os.Base.Words.{add32, mul32, u32_mod}
use mini_os.Base.Bytes.{Memory, copy}
use mathlib.Core.Path.{fun_ext}
use mini_os.Kernel.Nvme.{
  Sqe, Answer, Hardware, Nvme, nvme_chunk, spins, poll, submit, page_list, rw_command, completed,
  rw_pages, rw_chunk,
}
use mini_os.Kernel.Nvme.Pages.{
  bytes_of, lba_of, prp_address, bytes_of-rw_command, lba_of-rw_command, rw_command-pages,
}

-- The pages of the command are those of the bounce buffer, in order.
abbrev pub InBounce : Hardware → Sqe → (ℕ → ℕ) → Type 0
InBounce h c list =
    (k : ℕ) → k < bytes_of h.block_size c → prp_address h.block_size c list k ≡ h.bounce_at + k

-- What the NVMe specification says of a read (opcode 2) and a write (opcode 1) on a drive with
-- blocks of this size: a command changes nothing outside its blocks, a read nothing at all, and one
-- that is completed with status 0 has moved each byte between the drive and the pages it names.
pub record Obeys (h : Hardware) : Type 0 where
  pub outside :
      (c : Sqe) (phase : ℕ) (list : ℕ → ℕ) (m d : Memory) (p : ℕ)
      → (p < lba_of c * h.block_size) ⊎ (lba_of c * h.block_size + bytes_of h.block_size c ≤ p)
      → (h.answer c phase list m d).drive p ≡ d p
  pub kept :
      (c : Sqe) (phase : ℕ) (list : ℕ → ℕ) (m d : Memory) (p : ℕ)
      → c.cdw0 % 256 ≡ 2
      → (h.answer c phase list m d).drive p ≡ d p
  pub written :
      (c : Sqe) (phase : ℕ) (list : ℕ → ℕ) (m d : Memory) (k : ℕ)
      → c.cdw0 % 256 ≡ 1
      → poll spins 0 (h.answer c phase list m d).polls phase ≡ some 0
      → InBounce h c list
      → k < bytes_of h.block_size c
      → (h.answer c phase list m d).drive (lba_of c * h.block_size + k) ≡ m k
  pub filled :
      (c : Sqe) (phase : ℕ) (list : ℕ → ℕ) (m d : Memory) (k : ℕ)
      → c.cdw0 % 256 ≡ 2
      → poll spins 0 (h.answer c phase list m d).polls phase ≡ some 0
      → InBounce h c list
      → k < bytes_of h.block_size c
      → (h.answer c phase list m d).bounce k ≡ d (lba_of c * h.block_size + k)

-- The block sizes that `nvme_init` takes, and a buffer below 4 GB.
abbrev pub Fits : Hardware → Type 0
Fits h = (0 < h.block_size) × (h.block_size ≤ 4096) × (h.bounce_at + nvme_chunk < u32_mod)

abbrev pages_of : ℕ → Nvme → ℕ
pages_of count v = (count * v.hw.block_size + 4095) / 4096

abbrev slot : Bool → ℕ → ℕ → Nvme → Sqe
slot write lba count v =
    let c = rw_command write lba count (pages_of count v) v in
    record c { cdw0 = c.cdw0 % 65536 + v.next_cid * 65536 }

abbrev answered : Bool → ℕ → ℕ → Nvme → Answer
answered write lba count v =
    v.hw.answer (slot write lba count v) v.queue.phase (page_list (pages_of count v) v) v.bounce
      v.drive

slot_opcode :
    (write : Bool) (lba count : ℕ) (v : Nvme)
    → (slot write lba count v).cdw0 % 256 ≡ (if write then 1 else 2)
unfolding rw_command
slot_opcode true lba count v = omega arith
slot_opcode false lba count v = omega arith

pages_same :
    (count : ℕ) (v : Nvme)
    → count * v.hw.block_size ≤ nvme_chunk
    → add32 (mul32 count v.hw.block_size) 4095 / 4096 ≡ pages_of count v
pages_same count v fits = omega arith

rw_pages_lem :
    (write : Bool) (lba count : ℕ) (v : Nvme)
    → let r = rw_pages (pages_of count v) write lba count v in
      let a = answered write lba count v in
      (r.1.drive ≡ a.drive)
      × (r.1.bounce ≡ a.bounce)
      × (r.1.hw ≡ v.hw)
      × (r.0 ≡ completed (poll spins 0 a.polls v.queue.phase))
unfolding rw_pages submit
rw_pages_lem write lba count v = (refl, refl, refl, refl)

rw_chunk_lem :
    (write : Bool) (lba count : ℕ) (v : Nvme)
    → count * v.hw.block_size ≤ nvme_chunk
    → rw_chunk write lba count v ≡ rw_pages (pages_of count v) write lba count v
unfolding rw_chunk
rw_chunk_lem write lba count v fits =
    ap (λ pages. rw_pages pages write lba count v) (pages_same count v fits)

succeeded : (o : Option ℕ) → completed o ≡ true → o ≡ some 0
unfolding completed
succeeded none e = ground arith
succeeded (some status) e = ground arith

-- Memory that differs from `m` in a copied stretch only.
pub copied :
    (m w src : Memory) (d s n : ℕ)
    → ((p : ℕ) → (p < d) ⊎ (d + n ≤ p) → w p ≡ m p)
    → ((k : ℕ) → k < n → w (d + k) ≡ src (s + k))
    → w ≡ copy m d src s n
unfolding copy
copied m w src d s n out inside = fun_ext (λ p. elim (Bool-cases (leb d p && ltb p (d + n))) [
  | inl e ↦
      let k : d + (p - d) ≡ p = ground arith in
      rw (e) (subst (λ q. w q ≡ src (s + (p - d))) k (inside (p - d) (ground arith)))
  | inr e ↦ rw (e) (out p (ground arith))
])

module _ (lba count : ℕ) (v : Nvme) (o : Obeys v.hw) (pos : 0 < count) (small : count < u32_mod)
    (fits : count * v.hw.block_size ≤ nvme_chunk)
    (low : v.hw.bounce_at + nvme_chunk < u32_mod) where
  slot_range :
      (write : Bool)
      → (lba_of (slot write lba count v) ≡ lba)
        × (bytes_of v.hw.block_size (slot write lba count v) ≡ count * v.hw.block_size)
  slot_range write = (
    lba_of-rw_command write lba count (pages_of count v) v,
    bytes_of-rw_command write lba count (pages_of count v) v.hw.block_size v pos small,
  )

  pub chunk-outside :
      (write : Bool) (p : ℕ)
      → (p < lba * v.hw.block_size) ⊎ (lba * v.hw.block_size + count * v.hw.block_size ≤ p)
      → (rw_chunk write lba count v).1.drive p ≡ v.drive p
  chunk-outside write p out =
      let e = slot_range write in
      let l = rw_pages_lem write lba count v in
      rw (rw_chunk_lem write lba count v fits, l.0)
        (o.outside (slot write lba count v) v.queue.phase (page_list (pages_of count v) v) v.bounce
          v.drive p (rw (e.0, e.1) out))

  slot-InBounce :
      (write : Bool) → InBounce v.hw (slot write lba count v) (page_list (pages_of count v) v)
  slot-InBounce write k lt =
      rw_command-pages write lba count k v pos small fits low (omega (arith, (slot_range write).1))

  status_ok :
      (write : Bool)
      → (rw_chunk write lba count v).0 ≡ true
      → poll spins 0 (answered write lba count v).polls v.queue.phase ≡ some 0
  status_ok write e = succeeded (poll spins 0 (answered write lba count v).polls v.queue.phase) (
      sym ((rw_pages_lem write lba count v).3)
      ∙ sym (ap (λ r. r.0) (rw_chunk_lem write lba count v fits))
      ∙ e)

  pub chunk-writes :
      (rw_chunk true lba count v).0 ≡ true
      → (rw_chunk true lba count v).1.drive
        ≡ copy v.drive (lba * v.hw.block_size) v.bounce 0 (count * v.hw.block_size)
  chunk-writes e =
      copied v.drive (rw_chunk true lba count v).1.drive v.bounce (lba * v.hw.block_size) 0
        (count * v.hw.block_size) (chunk-outside true)
        (λ k lt.
          let r = slot_range true in
          let w =
            o.written (slot true lba count v) v.queue.phase (page_list (pages_of count v) v)
              v.bounce v.drive k (slot_opcode true lba count v) (status_ok true e)
              (slot-InBounce true) (rw (r.1) lt) in
          ap (λ x. x.1.drive (lba * v.hw.block_size + k)) (rw_chunk_lem true lba count v fits)
          ∙ ap (λ d. d (lba * v.hw.block_size + k)) ((rw_pages_lem true lba count v).0)
          ∙ ap (λ x. (answered true lba count v).drive (x * v.hw.block_size + k)) (sym (r.0))
          ∙ w
          ∙ ap v.bounce (omega arith))

  pub chunk-keeps : (rw_chunk false lba count v).1.drive ≡ v.drive
  chunk-keeps =
      ap (λ x. x.1.drive) (rw_chunk_lem false lba count v fits)
      ∙ (rw_pages_lem false lba count v).0
      ∙ fun_ext (λ p.
        o.kept (slot false lba count v) v.queue.phase (page_list (pages_of count v) v) v.bounce
          v.drive p (slot_opcode false lba count v))

  pub chunk-reads :
      (k : ℕ)
      → (rw_chunk false lba count v).0 ≡ true
      → k < count * v.hw.block_size
      → (rw_chunk false lba count v).1.bounce k ≡ v.drive (lba * v.hw.block_size + k)
  chunk-reads k e lt =
      let r = slot_range false in
      let w =
        o.filled (slot false lba count v) v.queue.phase (page_list (pages_of count v) v) v.bounce
          v.drive k (slot_opcode false lba count v) (status_ok false e) (slot-InBounce false)
          (rw (r.1) lt) in
      ap (λ x. x.1.bounce k) (rw_chunk_lem false lba count v fits)
      ∙ ap (λ d. d k) ((rw_pages_lem false lba count v).1)
      ∙ w
      ∙ ap (λ x. v.drive (x * v.hw.block_size + k)) (r.0)

  pub chunk-hw : (write : Bool) → (rw_chunk write lba count v).1.hw ≡ v.hw
  chunk-hw write =
      ap (λ x. x.1.hw) (rw_chunk_lem write lba count v fits) ∙ (rw_pages_lem write lba count v).2
