-- ===== src/Kernel/Nvme/Steps.antt =====
-- The rounds of the loop over the chunks of a transfer (kernel/nvme.c).
use mini_os.Base.{
  ℕ, zero, suc, ◌+◌, ◌-◌, ◌*◌, ◌/◌, ◌≤◌, ◌<◌, ◌≡◌, inl, inr, refl, sym, ap, ◌∙◌, Bool, true, false,
  not, ◌&&◌, ◌==◌, ltb, leb, if◌then◌else◌, arith, Bool-cases,
}
use mini_os.Base.Words.{mul32, u32_mod}
use mini_os.Base.Bytes.{Memory, copy, copy_inside, copy_outside}
use native.Mathlib.Nat.{add-mul, zero-mul, mul-le-mul_right, div-mul-le_self, le-div_iff_mul-le}
use mathlib.Core.Path.{fun_ext}
use mini_os.Kernel.Nvme.{Nvme, nvme_chunk, rw_chunk, rw_loop}
use mini_os.Kernel.Nvme.Chunk.{Obeys, Fits, copied, chunk-hw}

-- The blocks of the first chunk.
abbrev pub part : ℕ → Nvme → ℕ
part count v =
    let per_chunk = nvme_chunk / v.hw.block_size in if ltb count per_chunk then count else per_chunk

pub record Part (count : ℕ) (v : Nvme) : Type 0 where
  pub some_blocks : 0 < part count v
  pub at_most : part count v ≤ count
  pub fits : part count v * v.hw.block_size ≤ nvme_chunk
  pub rest :
      part count v * v.hw.block_size + (count - part count v) * v.hw.block_size
      ≡ count * v.hw.block_size

part_fits : (count : ℕ) (v : Nvme) → part count v * v.hw.block_size ≤ nvme_chunk
part_fits count v =
    let per_chunk = nvme_chunk / v.hw.block_size in
    let le : part count v ≤ per_chunk = ground arith in
    let one = mul-le-mul_right v.hw.block_size le in
    let two = div-mul-le_self nvme_chunk v.hw.block_size in omega (arith, one, two)

per_chunk-pos : (bs : ℕ) → 0 < bs → bs ≤ 4096 → 0 < nvme_chunk / bs
per_chunk-pos bs pos le = (le-div_iff_mul-le {k = bs} {x = 1} {y = nvme_chunk} pos).1 (omega arith)

pub part_lem : (count : ℕ) (v : Nvme) → Fits v.hw → 0 < count → Part count v
part_lem count v f pos =
    let n = part count v in
    let p = per_chunk-pos v.hw.block_size (f.0) (f.1) in
    let le : n ≤ count = ground arith in
    let sum : n + (count - n) ≡ count = omega arith in
    record {
      some_blocks = ground arith;
      at_most = le;
      fits = part_fits count v;
      rest = sym (add-mul n (count - n) v.hw.block_size) ∙ ap (λ k. k * v.hw.block_size) sum;
    }

-- The driver before the chunk's command, and what the chunk gives.
abbrev pub loaded : Bool → ℕ → ℕ → Memory → Nvme → Nvme
loaded write count a buf v = record v {
  bounce = if write then copy v.bounce 0 buf a (part count v * v.hw.block_size) else v.bounce;
}

abbrev pub first_chunk : Bool → ℕ → ℕ → ℕ → Memory → Nvme → Bool × Nvme
first_chunk write lba count a buf v = rw_chunk write lba (part count v) (loaded write count a buf v)

abbrev pub buf_after : Bool → ℕ → ℕ → ℕ → Memory → Nvme → Memory
buf_after write lba count a buf v =
    if write
    then buf
    else copy buf a (first_chunk write lba count a buf v).1.bounce 0
        (part count v * v.hw.block_size)

rw_loop-suc :
    (fuel : ℕ) (write : Bool) (lba count a : ℕ) (buf : Memory) (v : Nvme)
    → (count == 0) ≡ false
    → Part count v
    → rw_loop (suc fuel) write lba count a buf v ≡ (
        if not ((first_chunk write lba count a buf v).0)
        then (false, (buf, (first_chunk write lba count a buf v).1))
        else rw_loop fuel write
            (lba + part count v)
            (count - part count v)
            (a + part count v * v.hw.block_size)
            (buf_after write lba count a buf v)
            (first_chunk write lba count a buf v).1)
unfolding rw_loop
rw_loop-suc fuel write lba count a buf v e p =
    let bytes : mul32 (part count v) v.hw.block_size ≡ part count v * v.hw.block_size =
      omega (arith, p.fits) in
    rw (e, bytes) refl

copy-none : (m src : Memory) (d s : ℕ) → copy m d src s 0 ≡ m
unfolding copy
copy-none m src d s = fun_ext (λ p. ground arith)

pub copy-same :
    (m src src' : Memory) (d s s' n : ℕ)
    → ((k : ℕ) → k < n → src (s + k) ≡ src' (s' + k))
    → copy m d src s n ≡ copy m d src' s' n
unfolding copy
copy-same m src src' d s s' n same = fun_ext (λ p. elim (Bool-cases (leb d p && ltb p (d + n))) [
  | inl e ↦ rw (e) (same (p - d) (ground arith))
  | inr e ↦ rw (e) refl
])

pub copy-through :
    (m b src : Memory) (d s n : ℕ) → copy m d (copy b 0 src s n) 0 n ≡ copy m d src s n
copy-through m b src d s n =
    copy-same m (copy b 0 src s n) src d 0 s n (λ k lt. copy_inside b 0 src s n k lt)

-- A stretch copied in two parts.
copy-join :
    (m src : Memory) (d s x y : ℕ)
    → copy (copy m d src s x) (d + x) src (s + x) y ≡ copy m d src s (x + y)
copy-join m src d s x y =
    let once = copy m d src s x in
    copied m (copy once (d + x) src (s + x) y) src d s (x + y)
      (λ p out.
        copy_outside once (d + x) src (s + x) y p (ground arith)
        ∙ copy_outside m d src s x p (ground arith))
      (λ k lt. elim (Bool-cases (ltb k x)) [
        | inl e ↦
            copy_outside once (d + x) src (s + x) y (d + k) (ground arith)
            ∙ copy_inside m d src s x k (ground arith)
        | inr e ↦
            let at : d + k ≡ d + x + (k - x) = ground arith in
            let from : s + x + (k - x) ≡ s + k = ground arith in
            ap (copy once (d + x) src (s + x) y) at
            ∙ copy_inside once (d + x) src (s + x) y (k - x) (ground arith)
            ∙ ap src from
      ])

-- The chunks behind the first one.
abbrev pub others : ℕ → Bool → ℕ → ℕ → ℕ → Memory → Nvme → Bool × (Memory × Nvme)
others fuel write lba count a buf v =
    rw_loop fuel write (lba + part count v) (count - part count v)
      (a + part count v * v.hw.block_size) (buf_after write lba count a buf v)
      (first_chunk write lba count a buf v).1

if_not : {A : Type 0} (b : Bool) (x y : A) → b ≡ true → (if not b then x else y) ≡ y
if_not b x y e = rw (e) refl

if_yes : {A : Type 0} (b : Bool) (x y : A) → b ≡ false → (if not b then x else y) ≡ x
if_yes b x y e = rw (e) refl

module _ (fuel : ℕ) (write : Bool) (lba count a : ℕ) (buf : Memory) (v : Nvme) (f : Fits v.hw)
    (pos : (count == 0) ≡ false) where
  pub loop_goes_on :
      (first_chunk write lba count a buf v).0 ≡ true
      → rw_loop (suc fuel) write lba count a buf v ≡ others fuel write lba count a buf v
  loop_goes_on e =
      rw_loop-suc fuel write lba count a buf v pos (part_lem count v f (ground arith))
      ∙ if_not _ _ _ e

  pub loop_stops :
      (first_chunk write lba count a buf v).0 ≡ false
      → rw_loop (suc fuel) write lba count a buf v
        ≡ (false, (buf, (first_chunk write lba count a buf v).1))
  loop_stops e =
      rw_loop-suc fuel write lba count a buf v pos (part_lem count v f (ground arith))
      ∙ if_yes _ _ _ e

  pub first_ok :
      (rw_loop (suc fuel) write lba count a buf v).0 ≡ true
      → (first_chunk write lba count a buf v).0 ≡ true
  first_ok ok = elim (Bool-cases ((first_chunk write lba count a buf v).0)) [
    | inl e ↦ e
    | inr e ↦ absurd (ground (arith, sym (ap (λ r. r.0) (loop_stops e)) ∙ ok))
  ]

  pub first_hw : Obeys v.hw → count < u32_mod → (first_chunk write lba count a buf v).1.hw ≡ v.hw
  first_hw o small =
      let p = part_lem count v f (ground arith) in
      chunk-hw lba (part count v) (loaded write count a buf v) o p.some_blocks
        (omega (arith, p.at_most)) p.fits (f.2) write

pub loop_none :
    (fuel : ℕ) (write : Bool) (lba count a : ℕ) (buf : Memory) (v : Nvme)
    → (count == 0) ≡ true
    → rw_loop fuel write lba count a buf v ≡ (true, (buf, v))
unfolding rw_loop
loop_none zero write lba count a buf v e = refl
loop_none (suc fuel) write lba count a buf v e = rw (e) refl

pub copy_zero :
    (m src : Memory) (d s count bs : ℕ) → (count == 0) ≡ true → copy m d src s (count * bs) ≡ m
copy_zero m src d s count bs e =
    let z : count ≡ 0 = ground arith in rw (z, zero-mul bs) (copy-none m src d s)

-- The blocks of the first chunk and those of the others.
pub copy-part :
    (m src : Memory) (lba count a : ℕ) (v : Nvme)
    → Part count v
    → let n = part count v in
      let bs = v.hw.block_size in
      (copy (copy m (lba * bs) src a (n * bs)) ((lba + n) * bs) src (a + n * bs) ((count - n) * bs)
        ≡ copy m (lba * bs) src a (count * bs))
      × (copy
            (copy m a src (lba * bs) (n * bs))
            (a + n * bs)
            src
            ((lba + n) * bs)
            ((count - n) * bs)
          ≡ copy m a src (lba * bs) (count * bs))
copy-part m src lba count a v p =
    let n = part count v in
    let bs = v.hw.block_size in
    rw (add-mul lba n bs, ← p.rest)
      (
        copy-join m src (lba * bs) a (n * bs) ((count - n) * bs),
        copy-join m src a (lba * bs) (n * bs) ((count - n) * bs),
      )
