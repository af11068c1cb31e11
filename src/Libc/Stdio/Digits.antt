-- ===== src/Libc/Stdio/Digits.antt =====
-- The digits that are printed, and what they are parsed to (fs/lib/stdio.c).
use mini_os.Base.{
  ℕ, zero, suc, ◌+◌, ◌-◌, ◌*◌, ◌/◌, ◌<◌, ◌≡◌, inl, inr, refl, sym, ap, ◌∙◌, true, false, ◌==◌,
  if◌then◌else◌, arith, List, [], ◌∷◌, ◌++◌, Bool-cases,
}
use mathlib.Core.List.{append-nil, append_assoc}
use mini_os.Base.Words.{add32, mul32}
use mini_os.Base.Bytes.{Memory}
use mini_os.Base.{==_iff}
use mini_os.Libc.Stdio.Parse.{first, is_space, is_digit, skip_ws, parse_digits}
use mini_os.Libc.Stdio.{Out, out_ch, out_back, dec_digits, out_uint, stdout}

unfoldable pow10 : ℕ → ℕ
pow10 zero = 1
pow10 (suc k) = 10 * pow10 k

unfoldable pow16 : ℕ → ℕ
pow16 zero = 1
pow16 (suc k) = 16 * pow16 k

unfoldable pub back : List ℕ → List ℕ
back [] = []
back (c ∷ s) = back s ++ (c ∷ [])

pub suc_ne : (n : ℕ) → (suc n == 0) ≡ false
suc_ne n = ground arith

-- A list of digits put on the standard output.
pub printed-out_back :
    (m : Memory) (s : List ℕ) (o : Out)
    → o.to_buf ≡ false
    → ((out_back s o).printed ≡ o.printed ++ back s) × ((out_back s o).to_buf ≡ false)
unfolding back out_back out_ch
printed-out_back m [] o e = (sym (append-nil (o.printed)), e)
printed-out_back m (c ∷ s) o e =
    let r = printed-out_back m s o e in
    (rw (r.1, r.0, append_assoc (o.printed) (back s) (c ∷ [])) refl, r.1)

dec_digit : ℕ → ℕ
dec_digit v = b'0' + (v - v / 10 * 10)

dec_digit-is_digit : (v : ℕ) → is_digit (dec_digit v) ≡ true
unfolding is_digit dec_digit
dec_digit-is_digit v = ground arith

dec_digit_value : (v : ℕ) → v < 4294967296 → add32 (mul32 (v / 10) 10) (dec_digit v - b'0') ≡ v
unfolding dec_digit
dec_digit_value v lt = omega arith

parse_digits_step :
    (v : ℕ) (rest : List ℕ)
    → v < 4294967296
    → parse_digits (v / 10) (dec_digit v ∷ rest) ≡ parse_digits v rest
unfolding parse_digits
parse_digits_step v rest lt = rw (dec_digit-is_digit v, dec_digit_value v lt) refl

back-dec_digits-suc :
    (k v : ℕ) (rest : List ℕ)
    → (v == 0) ≡ false
    → back (dec_digits (suc k) v) ++ rest ≡ back (dec_digits k (v / 10)) ++ (dec_digit v ∷ rest)
unfolding back dec_digits dec_digit
back-dec_digits-suc k v rest e =
    rw (e) (append_assoc (back (dec_digits k (v / 10))) (dec_digit v ∷ []) rest)

back-dec_digits :
    (k v : ℕ) (rest : List ℕ)
    → v < pow10 k
    → v < 4294967296
    → parse_digits 0 (back (dec_digits k v) ++ rest) ≡ parse_digits v rest
unfolding pow10 dec_digits back
back-dec_digits zero v rest lt small = ap (λ w. parse_digits w rest) (omega arith)
back-dec_digits (suc k) zero rest lt small = refl
back-dec_digits (suc k) (suc n) rest lt small =
    let v = suc n in
    ap (parse_digits 0) (back-dec_digits-suc k v rest (suc_ne n))
    ∙ back-dec_digits k (v / 10) (dec_digit v ∷ rest) (omega arith) (omega arith)
    ∙ parse_digits_step v rest small

back_none : (k : ℕ) → back (dec_digits k 0) ≡ []
unfolding back dec_digits
back_none zero = refl
back_none (suc k) = refl

-- The digits of a number other than 0 begin with one.
first-back :
    (k v : ℕ) (rest : List ℕ)
    → 0 < v
    → v < pow10 k
    → is_digit (first (back (dec_digits k v) ++ rest)) ≡ true
unfolding pow10
first-back zero v rest pos lt = absurd (omega arith)
first-back (suc k) zero rest pos lt = absurd (omega arith)
first-back (suc k) (suc n) rest pos lt =
    let v = suc n in
    rw (back-dec_digits-suc k v rest (suc_ne n)) (elim (Bool-cases (v / 10 == 0)) [
      | inl e ↦ rw ((==_iff (v / 10) 0).0 e, back_none k) (dec_digit-is_digit v)
      | inr e ↦ first-back k (v / 10) (dec_digit v ∷ rest) (ground arith) (omega arith)
    ])

pub is_digit-is_space :
    (c : ℕ)
    → is_digit c ≡ true
    → (is_space c ≡ false) × ((c == b'-') ≡ false) × ((c == b'+') ≡ false)
unfolding is_digit is_space
is_digit-is_space c e = ground arith

pub skip_ws-digit : (p : List ℕ) → is_digit (first p) ≡ true → skip_ws p ≡ p
unfolding skip_ws
skip_ws-digit [] e = refl
skip_ws-digit (c ∷ p) e = rw ((is_digit-is_space c e).0) refl

unfoldable pub text_of : ℕ → List ℕ
text_of v = if v == 0 then b'0' ∷ [] else back (dec_digits 12 v)

pub text_of-out_uint : (m : Memory) (v : ℕ) → (out_uint v (stdout m)).printed ≡ text_of v
unfolding out_uint out_ch text_of
text_of-out_uint m v = elim (Bool-cases (v == 0)) [
  | inl e ↦ rw (e) refl
  | inr e ↦ rw (e) ((printed-out_back m (dec_digits 12 v) (stdout m) refl).0)
]

pow10_12 : pow10 12 ≡ 1000000000000
unfolding pow10
pow10_12 = refl

pub text_of-is_digit :
    (v : ℕ) (rest : List ℕ) → v < 4294967296 → is_digit (first (text_of v ++ rest)) ≡ true
unfolding text_of is_digit
text_of-is_digit zero rest lt = refl
text_of-is_digit (suc n) rest lt =
    rw (suc_ne n) (first-back 12 (suc n) rest (omega arith) (rw (pow10_12) (omega arith)))

parse_digits_stop :
    (v : ℕ) (rest : List ℕ) → is_digit (first rest) ≡ false → parse_digits v rest ≡ (v, rest)
unfolding parse_digits
parse_digits_stop v [] e = refl
parse_digits_stop v (c ∷ rest) e = rw (e) refl

zero_digit : (rest : List ℕ) → parse_digits 0 (b'0' ∷ rest) ≡ parse_digits 0 rest
unfolding parse_digits is_digit
zero_digit rest = refl

pub parse_digits-text_of :
    (v : ℕ) (rest : List ℕ)
    → v < 4294967296
    → is_digit (first rest) ≡ false
    → parse_digits 0 (text_of v ++ rest) ≡ (v, rest)
unfolding text_of
parse_digits-text_of zero rest lt stop = zero_digit rest ∙ parse_digits_stop 0 rest stop
parse_digits-text_of (suc n) rest lt stop = rw (suc_ne n) (
    back-dec_digits 12 (suc n) rest (rw (pow10_12) (omega arith)) lt
    ∙ parse_digits_stop (suc n) rest stop)
