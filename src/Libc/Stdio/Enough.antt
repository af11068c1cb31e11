-- ===== src/Libc/Stdio/Enough.antt =====
-- Each round of the formatter takes a character of the format away (fs/lib/stdio.c).
use mini_os.Base.{
  ℕ, zero, suc, ◌+◌, ◌-◌, ◌≤◌, ◌≡◌, inl, inr, refl, ap, not, ◌==◌, arith, List, [], ◌∷◌, take, drop,
  length, Bool-cases,
}
use mini_os.Base.Words.{add32, mul32}
use mini_os.Base.{if_congr}
use mini_os.Libc.Stdio.{precision, out_ch, out_all, takes_argument, out_arg, vformat_loop, Out}
use mini_os.Libc.Stdio.Parse.{first, is_digit, parse_digits}

length-drop : (n : ℕ) (xs : List ℕ) → length (drop n xs) ≤ length xs
length-drop zero xs = omega arith
length-drop (suc n) [] = omega arith
length-drop (suc n) (x ∷ xs) = omega (arith, length-drop n xs)

length-parse_digits : (v : ℕ) (p : List ℕ) → length ((parse_digits v p).1) ≤ length p
unfolding parse_digits
length-parse_digits v [] = omega arith
length-parse_digits v (c ∷ p) =
    let ih = length-parse_digits (add32 (mul32 v 10) (c - b'0')) p in
    elim (Bool-cases (is_digit c)) [
      | inl e ↦ rw (e) (omega (arith, ih))
      | inr e ↦ rw (e) (omega arith)
    ]

length-precision : (fmt : List ℕ) → length ((precision fmt).1) ≤ length fmt
unfolding precision
length-precision fmt = elim (Bool-cases (first fmt == b'.')) [
  | inl e ↦ rw (e) (omega (arith, length-parse_digits 0 (drop 1 fmt), length-drop 1 fmt))
  | inr e ↦ rw (e) (omega arith)
]

module _ (str : ℕ → List ℕ) (float_f float_g : ℕ → ℕ → List ℕ) (arg : ℕ → ℕ) where
  loop_same :
      (j k : ℕ) (fmt : List ℕ) (ap : ℕ) (o : Out)
      → length fmt ≤ j
      → length fmt ≤ k
      → vformat_loop str float_f float_g j fmt arg ap o
        ≡ vformat_loop str float_f float_g k fmt arg ap o
  unfolding vformat_loop
  loop_same zero zero fmt ap o le le' = refl
  loop_same zero (suc k) [] ap o le le' = refl
  loop_same (suc j) zero [] ap o le le' = refl
  loop_same zero (suc k) (c ∷ fmt) ap o le le' = absurd (omega arith)
  loop_same (suc j) zero (c ∷ fmt) ap o le le' = absurd (omega arith)
  loop_same (suc j) (suc k) [] ap o le le' = refl
  loop_same (suc j) (suc k) (c ∷ fmt) ap o le le' =
      let p = precision fmt in
      let f = first (p.1) in
      let n = length-drop 1 fmt in
      let l = length-precision fmt in
      let n' = length-drop 1 (p.1) in
      if_congr (not (c == b'%')) (loop_same j k fmt ap (out_ch c o) (omega arith) (omega arith)) (
        if_congr (first fmt == b'%')
          (loop_same j k (drop 1 fmt) ap (out_ch b'%' o) (omega arith) (omega arith))
          (if_congr (takes_argument f)
            (loop_same j k (drop 1 (p.1)) (ap + 1) (out_arg str float_f float_g f (p.0) (arg ap) o)
              (omega arith) (omega arith))
            (loop_same j k (drop 1 (p.1)) ap (out_all (b'%' ∷ take 1 (p.1)) o) (omega arith)
              (omega arith))))

-- Rounds beyond the length of the format change nothing: `vformat_ap` ends at the end of the format,
-- whatever it holds.
pub vformat_loop_enough :
    (str : ℕ → List ℕ) (float_f float_g : ℕ → ℕ → List ℕ) (fuel : ℕ) (fmt : List ℕ) (arg : ℕ → ℕ)
    (ap : ℕ) (o : Out)
    → length fmt ≤ fuel
    → vformat_loop str float_f float_g fuel fmt arg ap o
      ≡ vformat_loop str float_f float_g (length fmt) fmt arg ap o
vformat_loop_enough str float_f float_g fuel fmt arg ap o le =
    loop_same str float_f float_g arg fuel (length fmt) fmt ap o le (omega arith)
