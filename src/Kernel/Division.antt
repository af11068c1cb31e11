-- ===== src/Kernel/Division.antt =====
-- The long division of kernel/kernel.c, which has no 64-bit division.
mod Tests
use mini_os.Base.{
  ℕ, zero, suc, ◌+◌, ◌-◌, ◌*◌, ◌/◌, ◌%◌, ◌^◌, ◌≤◌, ◌<◌, ◌≡◌, ◌≢◌, ◌↔◌, ◌⊎◌, inl, inr, refl, sym, ap,
  ◌∙◌, Bool, true, false, not, ◌&&◌, ◌||◌, ◌==◌, ltb, leb, if◌then◌else◌, arith, List, [], ◌∷◌,
  ◌++◌, Option, none, some, get_or, set, take, drop, length, replicate, Bool-cases, Option-cases,
  length-set, length-append, get_or-append_left, get_or-append_right, take-append, get_or-set_self,
  get_or-set_ne, ℕ_discrete, dec_lt, ◌>>=◌,
}
use mathlib.Core.Path.{subst}
use mathlib.Core.List.{append-nil, append_assoc}
use mini_os.Base.Words.{add32, sub32, mul32, u32_mod, u64_mod}
use mini_os.Base.Bytes.{
  Memory, copy, fill, poke, of_list, read_bytes, word_at, put_word, copy_inside, copy_outside,
}
use native.Mathlib.Nat.{
  add-mul, mul_comm, add-mul-div_right, pow-suc, div-add-mod', mod-lt, mul-add-mod_self_left,
  mod-eq_of_lt, mul-le-mul_right, mod-one, mul-one, div-eq_of_lt, pow-zero,
}
use mini_os.Base.{leb→le}

-- The loop of `div_u64_u32` with `k` rounds left. Bit `k - 1` of `q` is 0 when it is set, so that
-- the bitwise or is a sum, as is that of `rem << 1` and a bit.
unfoldable pub div_loop : ℕ → ℕ → ℕ → ℕ → ℕ → ℕ
div_loop zero n d q rem = q
div_loop (suc i) n d q rem =
    let rem' = rem * 2 % u32_mod + n / 2 ^ i % 2 in
    let one = div_loop i n d (q + 2 ^ i) (rem' - d) in
    let none_ = div_loop i n d q rem' in if leb d rem' then one else none_

unfoldable pub div_u64_u32 : ℕ → ℕ → ℕ
div_u64_u32 n d = if d == 0 then 0 else div_loop 64 n d 0 0

-- The rest below a bit, and the bit.
bit_split : (n b : ℕ) → 0 < b → n % (b * 2) ≡ n / b % 2 * b + n % b
bit_split n b pos =
    let a = n / b in
    let bit = a % 2 in
    let whole : a / 2 * 2 + bit ≡ a = omega arith in
    let parts : (b * 2) * (a / 2) + bit * b ≡ a * b =
      ap (λ x. x + bit * b) (shift b (a / 2))
      ∙ sym (add-mul (a / 2 * 2) bit b)
      ∙ ap (λ x. x * b) whole in
    let sum : n ≡ (b * 2) * (a / 2) + (bit * b + n % b) = omega (arith, parts, div-add-mod' n b) in
    let few = mul-le-mul_right {m = bit} {n = 1} b (omega arith) in
    let low : bit * b + n % b < b * 2 = omega (arith, few, mod-lt n pos) in
    ap (λ x. x % (b * 2)) sum
    ∙ mul-add-mod_self_left (b * 2) (a / 2) (bit * b + n % b)
    ∙ mod-eq_of_lt low
  where
    shift : (b h : ℕ) → (b * 2) * h ≡ h * 2 * b
    shift b h = grind arith

pow2-pos : (i : ℕ) → 0 < 2 ^ i
pow2-pos zero = omega arith
pow2-pos (suc i) = omega (arith, pow-suc 2 i, pow2-pos i)

-- A round on the value `rem * 2 ^ (i + 1)` and the rest of `n`.
round_value :
    (n i rem : ℕ) → rem * 2 ^ suc i + n % 2 ^ suc i ≡ (rem * 2 + n / 2 ^ i % 2) * 2 ^ i + n % 2 ^ i
round_value n i rem =
    let b = 2 ^ i in
    let bit = n / b % 2 in
    let twice = pow-suc 2 i in
    let sum = add-mul (rem * 2) bit b in
    let e : rem * (b * 2) ≡ rem * 2 * b = grind arith in
    rw (twice, bit_split n b (pow2-pos i)) (omega (arith, sum, e))

-- A divisor that fits is taken off, and the quotient has one bit more.
taken : (m b d r : ℕ) → 0 < d → d ≤ m → (m * b + r) / d ≡ b + ((m - d) * b + r) / d
taken m b d r pos le =
    let back : (m - d) + d ≡ m = omega arith in
    let sum : m * b ≡ (m - d) * b + b * d =
      ap (λ x. x * b) (sym back) ∙ add-mul (m - d) d b ∙ ap (λ x. (m - d) * b + x) (mul_comm d b) in
    ap (λ x. x / d) (omega (arith, sum)) ∙ add-mul-div_right ((m - d) * b + r) b pos ∙ omega arith

div_loop_lem :
    (k n d q rem : ℕ)
    → rem < d
    → d ≤ 2147483648
    → div_loop k n d q rem ≡ q + (rem * 2 ^ k + n % 2 ^ k) / d
unfolding div_loop
div_loop_lem zero n d q rem lt le =
    let z : rem * 1 + n % 1 ≡ rem = omega arith in rw (z, div-eq_of_lt lt) (omega arith)
div_loop_lem (suc i) n d q rem lt le =
    let rem' = rem * 2 % u32_mod + n / 2 ^ i % 2 in
    let same : rem' ≡ rem * 2 + n / 2 ^ i % 2 = omega arith in
    let value : rem * 2 ^ suc i + n % 2 ^ suc i ≡ rem' * 2 ^ i + n % 2 ^ i =
      round_value n i rem ∙ ap (λ x. x * 2 ^ i + n % 2 ^ i) (sym same) in
    elim (Bool-cases (leb d rem')) [
      | inl e ↦
          rw (e, value)
            (div_loop_lem i n d (q + 2 ^ i) (rem' - d) (ground arith) le
              ∙ omega (arith, taken rem' (2 ^ i) d (n % 2 ^ i) (omega arith) (leb→le d rem' e)))
      | inr e ↦ rw (e, value) (div_loop_lem i n d q rem' (ground arith) le)
    ]

-- The quotient of a number of 64 bits by a divisor up to 2 ^ 31, and 0 for the divisor 0.
pub div_u64_u32_lem :
    (n d : ℕ) → n < u64_mod → d ≤ 2147483648 → div_u64_u32 n d ≡ (if d == 0 then 0 else n / d)
unfolding div_u64_u32
div_u64_u32_lem n d lt le = elim (Bool-cases (d == 0)) [
  | inl z ↦ rw (z) refl
  | inr p ↦
      let w : 0 * 2 ^ 64 + n % 2 ^ 64 ≡ n = omega arith in
      rw (p, div_loop_lem 64 n d 0 0 (ground arith) le, w) (omega arith)
]
