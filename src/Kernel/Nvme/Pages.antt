-- ===== src/Kernel/Nvme/Pages.antt =====
-- The pages that a command names are those of the bounce buffer, in order (kernel/nvme.c).
use mini_os.Base.{
  ℕ, zero, suc, ◌+◌, ◌-◌, ◌*◌, ◌/◌, ◌%◌, ◌≤◌, ◌<◌, ◌≡◌, inl, inr, ap, Bool, ◌&&◌, ◌==◌, ltb, leb,
  if◌then◌else◌, arith, Bool-cases,
}
use mini_os.Base.Words.{add32, mul32, u32_mod}
use mini_os.Base.Bytes.{poke}
use mini_os.Kernel.Nvme.{Sqe, Nvme, nvme_chunk, set_pages, page_list, rw_command}

-- The bytes that a command is for, of blocks of `bs` bytes.
abbrev pub bytes_of : ℕ → Sqe → ℕ
bytes_of bs c = (c.cdw12 + 1) * bs

abbrev pub lba_of : Sqe → ℕ
lba_of c = c.cdw10 + u32_mod * c.cdw11

-- Where the NVMe specification puts byte `k` of a transfer: PRP1 is the first page, and PRP2 the
-- second one, or the address of a list of all pages but the first where there are more than two.
abbrev pub prp_address : ℕ → Sqe → (ℕ → ℕ) → ℕ → ℕ
prp_address bs c list k =
    let i = k / 4096 in
    let page =
      if i == 0 then c.prp1 else if leb (bytes_of bs c) 8192 then c.prp2 else list (i - 1) in
    page + k % 4096

set_pages_lem :
    (k i base : ℕ) (list : ℕ → ℕ) (j : ℕ)
    → 0 < i
    → i + k ≤ 32
    → base + nvme_chunk < u32_mod
    → set_pages k i base list j
      ≡ (if leb i (j + 1) && ltb (j + 1) (i + k) then base + (j + 1) * 4096 else list j)
unfolding set_pages poke
set_pages_lem zero i base list j pos le lt = ground arith
set_pages_lem (suc k) i base list j pos le lt = ground (
  arith,
  set_pages_lem k (i + 1) base (poke list (i - 1) (add32 base (mul32 i 4096))) j (omega arith)
      (omega arith) lt,
)

-- Entry `j` of the list that is built for more than two pages.
page_list_lem :
    (pages j : ℕ) (v : Nvme)
    → 2 < pages
    → pages ≤ 32
    → j + 1 < pages
    → v.hw.bounce_at + nvme_chunk < u32_mod
    → page_list pages v j ≡ v.hw.bounce_at + (j + 1) * 4096
unfolding page_list
page_list_lem pages j v more le lt low =
    ground (
      arith,
      set_pages_lem (pages - 1) 1 v.hw.bounce_at v.prp_list j (omega arith) (omega arith) low,
    )

pub bytes_of-rw_command :
    (write : Bool) (lba count pages bs : ℕ) (v : Nvme)
    → 0 < count
    → count < u32_mod
    → bytes_of bs (rw_command write lba count pages v) ≡ count * bs
unfolding rw_command
bytes_of-rw_command write lba count pages bs v pos lt = ap (λ n. n * bs) (omega arith)

pub lba_of-rw_command :
    (write : Bool) (lba count pages : ℕ) (v : Nvme)
    → lba_of (rw_command write lba count pages v) ≡ lba
unfolding rw_command
lba_of-rw_command write lba count pages v = omega arith

page_address :
    (b base third k entry : ℕ)
    → k < b
    → b ≤ nvme_chunk
    → base + nvme_chunk < u32_mod
    → (8192 < b → 4096 ≤ k → entry ≡ base + (k / 4096 - 1 + 1) * 4096)
    → (if k / 4096 == 0
          then base
          else if leb b 8192
          then if (b + 4095) / 4096 == 2 then add32 base 4096 else third
          else entry)
        + k % 4096
      ≡ base + k
page_address b base third k entry lt le low listed = elim (Bool-cases (leb b 8192)) [
  | inl e ↦ ground arith
  | inr e ↦ elim (Bool-cases (k / 4096 == 0)) [
    | inl f ↦ ground arith
    | inr f ↦
        let big : 4096 ≤ k = ground arith in rw (e, f, listed (ground arith) big) (omega arith)
  ]
]

-- The pages of the command that `rw_chunk` builds are those of the bounce buffer.
pub rw_command-pages :
    (write : Bool) (lba count k : ℕ) (v : Nvme)
    → 0 < count
    → count < u32_mod
    → count * v.hw.block_size ≤ nvme_chunk
    → v.hw.bounce_at + nvme_chunk < u32_mod
    → k < count * v.hw.block_size
    → let pages = (count * v.hw.block_size + 4095) / 4096 in
      prp_address v.hw.block_size (rw_command write lba count pages v) (page_list pages v) k
      ≡ v.hw.bounce_at + k
unfolding rw_command
rw_command-pages write lba count k v pos small fits low lt =
    let b = count * v.hw.block_size in
    let pages = (b + 4095) / 4096 in
    rw (bytes_of-rw_command write lba count pages v.hw.block_size v pos small) (
      page_address b v.hw.bounce_at (if ltb 2 pages then v.hw.prp_list_at else 0) k
        (page_list pages v (k / 4096 - 1)) lt fits low
        (λ more big.
          page_list_lem pages (k / 4096 - 1) v (omega arith) (omega arith) (omega arith) low))
