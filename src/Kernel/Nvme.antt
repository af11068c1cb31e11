-- ===== src/Kernel/Nvme.antt =====
-- The NVMe driver, kernel/nvme.c: commands in the I/O queue, transfers through the bounce buffer and
-- the chunks of a read or write. The controller is a parameter, a field of `Hardware`: what it does
-- with a command, and what each round of polling then reads.
pub mod Pages
pub mod Chunk
pub mod Steps
pub mod Transfer
pub mod Success
pub mod Confined
mod Tests
use mini_os.Base.{
  ℕ, zero, suc, ◌+◌, ◌-◌, ◌*◌, ◌/◌, ◌%◌, ◌^◌, ◌≤◌, ◌<◌, ◌≡◌, ◌≢◌, ◌↔◌, ◌⊎◌, inl, inr, refl, sym, ap,
  ◌∙◌, Bool, true, false, not, ◌&&◌, ◌||◌, ◌==◌, ltb, leb, if◌then◌else◌, arith, List, [], ◌∷◌,
  ◌++◌, Option, none, some, get_or, set, take, drop, length, replicate, Bool-cases, Option-cases,
  length-set, length-append, get_or-append_left, get_or-append_right, take-append, get_or-set_self,
  get_or-set_ne, ℕ_discrete, dec_lt, ◌>>=◌,
}
use mathlib.Core.Path.{subst}
use mathlib.Core.List.{append-nil, append_assoc}
use mini_os.Base.Words.{add32, sub32, mul32, u32_mod, u64_mod}
use mini_os.Base.Bytes.{
  Memory, copy, fill, poke, of_list, read_bytes, word_at, put_word, copy_inside, copy_outside,
}

-- sqe_t, without the fields that stay 0. `cdw0` is the opcode with the command's number above it.
pub record Sqe : Type 0 where
  pub cdw0 : ℕ
  pub nsid : ℕ
  pub prp1 : ℕ
  pub prp2 : ℕ
  pub cdw10 : ℕ
  pub cdw11 : ℕ
  pub cdw12 : ℕ

-- After a command: what round `k` of the polling reads, which is dw3 of the completion queue's entry
-- at the head and CSTS; the bytes of the bounce buffer; the contents of the drive.
pub record Answer : Type 0 where
  pub polls : ℕ → ℕ × ℕ
  pub bounce : Memory
  pub drive : Memory

-- What does not change once the driver has started. The controller gets the command, the phase of
-- its pass over the queue, the entries of the PRP list, the bounce buffer and the drive.
pub record Hardware : Type 0 where
  pub answer : Sqe → ℕ → (ℕ → ℕ) → Memory → Memory → Answer
  pub bounce_at : ℕ
  pub prp_list_at : ℕ
  pub present : Bool
  pub nsid : ℕ
  pub block_size : ℕ
  pub blocks : ℕ

-- io_sq_tail, io_cq_head and io_phase.
pub record Queue : Type 0 where
  pub tail : ℕ
  pub head : ℕ
  pub phase : ℕ

pub record Nvme : Type 0 where
  pub hw : Hardware
  pub queue : Queue
  pub next_cid : ℕ
  pub prp_list : ℕ → ℕ
  pub bounce : Memory
  pub drive : Memory

abbrev pub qdepth : ℕ
qdepth = 64

abbrev pub nvme_chunk : ℕ
nvme_chunk = 131072

abbrev pub spins : ℕ
spins = 200000000

-- The polling loop of `submit`, with at most `k` rounds from round `spin` on: none where it ends
-- without a completion.
unfoldable pub poll : ℕ → ℕ → (ℕ → ℕ × ℕ) → ℕ → Option ℕ
poll zero spin polls phase = none
poll (suc k) spin polls phase =
    let rest = poll k (spin + 1) polls phase in
    let dw3 = (polls spin).0 in
    if dw3 / 65536 % 2 == phase
    then some (dw3 / 131072 % 32768)
    else if (polls spin).1 / 2 % 2 == 1
    then none
    else rest

-- The queue's positions after the command, where `status` is what the polling gave.
unfoldable pub next_queue : Option ℕ → Queue → Queue
next_queue none q = record q { tail = (q.tail + 1) % qdepth }
next_queue (some status) q =
    let head' = (q.head + 1) % qdepth in
    record {
      tail = (q.tail + 1) % qdepth;
      head = head';
      phase = if head' == 0 then (if q.phase == 0 then 1 else 0) else q.phase;
    }

-- `submit` on the I/O queue: none for -1.
unfoldable pub submit : Sqe → Nvme → Option ℕ × Nvme
submit cmd v =
    let slot = record cmd { cdw0 = cmd.cdw0 % 65536 + v.next_cid * 65536 } in
    let a = v.hw.answer slot v.queue.phase v.prp_list v.bounce v.drive in
    let status = poll spins 0 a.polls v.queue.phase in
    (
      status,
      record v {
        queue = next_queue status v.queue;
        next_cid = (v.next_cid + 1) % 65536;
        bounce = a.bounce;
        drive = a.drive;
      },
    )

-- `for (i = 1; i < pages; i++) prp_list[i - 1] = ...`, with `k` rounds left.
unfoldable pub set_pages : ℕ → ℕ → ℕ → (ℕ → ℕ) → ℕ → ℕ
set_pages zero i base list = list
set_pages (suc k) i base list =
    set_pages k (i + 1) base (poke list (i - 1) (add32 base (mul32 i 4096)))

-- The command that `rw_chunk` builds, and the PRP list that goes with it.
unfoldable pub page_list : ℕ → Nvme → ℕ → ℕ
page_list pages v =
    if ltb 2 pages then set_pages (pages - 1) 1 v.hw.bounce_at v.prp_list else v.prp_list

unfoldable pub rw_command : Bool → ℕ → ℕ → ℕ → Nvme → Sqe
rw_command write lba count pages v = record {
  cdw0 = if write then 1 else 2;
  nsid = v.hw.nsid;
  prp1 = v.hw.bounce_at;
  prp2 =
      if pages == 2 then add32 v.hw.bounce_at 4096 else if ltb 2 pages then v.hw.prp_list_at else 0;
  cdw10 = lba % u32_mod;
  cdw11 = lba / u32_mod;
  cdw12 = sub32 count 1;
}

-- Whether the status is that of success.
unfoldable pub completed : Option ℕ → Bool
completed none = false
completed (some status) = status == 0

-- `rw_chunk` from the count of pages on: whether it returns 0.
unfoldable pub rw_pages : ℕ → Bool → ℕ → ℕ → Nvme → Bool × Nvme
rw_pages pages write lba count v =
    let r =
      submit (rw_command write lba count pages v) (record v { prp_list = page_list pages v }) in
    (completed (r.0), r.1)

unfoldable pub rw_chunk : Bool → ℕ → ℕ → Nvme → Bool × Nvme
rw_chunk write lba count v =
    rw_pages (add32 (mul32 count v.hw.block_size) 4095 / 4096) write lba count v

-- The loop of `rw`, with at most `fuel` rounds; the byte at `p` is `buf a`.
unfoldable pub rw_loop : ℕ → Bool → ℕ → ℕ → ℕ → Memory → Nvme → Bool × (Memory × Nvme)
rw_loop zero write lba count a buf v = (true, (buf, v))
rw_loop (suc fuel) write lba count a buf v =
    let per_chunk = nvme_chunk / v.hw.block_size in
    let n = if ltb count per_chunk then count else per_chunk in
    let bytes = mul32 n v.hw.block_size in
    let filled = if write then copy v.bounce 0 buf a bytes else v.bounce in
    let r = rw_chunk write lba n (record v { bounce = filled }) in
    let buf' = if write then buf else copy buf a (r.1).bounce 0 bytes in
    let rest = rw_loop fuel write (lba + n) (count - n) (a + bytes) buf' (r.1) in
    if count == 0 then (true, (buf, v)) else if not (r.0) then (false, (buf, r.1)) else rest

-- `rw`: whether it returns 0, the buffer and the driver.
unfoldable pub rw_blocks : Bool → ℕ → ℕ → Memory → Nvme → Bool × (Memory × Nvme)
rw_blocks write lba count buf v =
    if not v.hw.present || (count == 0)
    then (false, (buf, v))
    else if ltb v.hw.blocks ((lba + count) % u64_mod)
    then (false, (buf, v))
    else rw_loop count write lba count 0 buf v

unfoldable pub nvme_read : ℕ → ℕ → Memory → Nvme → Bool × (Memory × Nvme)
nvme_read lba count buf v = rw_blocks false lba count buf v

unfoldable pub nvme_write : ℕ → ℕ → Memory → Nvme → Bool × (Memory × Nvme)
nvme_write lba count buf v = rw_blocks true lba count buf v

-- `wait_ready`: whether it returns 0. `csts k` is what round `k` reads.
unfoldable pub wait_loop : ℕ → ℕ → (ℕ → ℕ) → ℕ → Bool
wait_loop zero spin csts want = false
wait_loop (suc k) spin csts want =
    let rest = wait_loop k (spin + 1) csts want in
    if csts spin / 2 % 2 == 1 then false else if csts spin % 2 == want then true else rest

unfoldable pub wait_ready : (ℕ → ℕ) → ℕ → Bool
wait_ready csts want = wait_loop spins 0 csts want

-- `copy_str`: the loop that trims, from character `i - 1` down, and the string, whose bytes are `n`
-- of `src` and a NUL.
unfoldable pub trim : ℕ → Memory → Memory
trim zero dst = dst
trim (suc i) dst =
    let rest = trim i (poke dst i 0) in if (dst i == b' ') || (dst i == 0) then rest else dst

unfoldable pub copy_str : Memory → Memory → ℕ → ℕ → Memory
copy_str dst src a n = trim n (poke (copy dst 0 src a n) n 0)
