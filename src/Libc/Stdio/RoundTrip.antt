-- ===== src/Libc/Stdio/RoundTrip.antt =====
-- What the C library prints as a number, its parsers read back (fs/lib/stdio.c).
use mini_os.Base.{
  ℕ, zero, suc, ◌<◌, ◌≡◌, ◌≢◌, inl, inr, refl, true, false, ◌==◌, if◌then◌else◌, arith, List, [],
  ◌∷◌, ◌++◌, some, Bool-cases,
}
use mini_os.Base.Words.{sub32}
use mini_os.Base.Bytes.{Memory}
use mini_os.Base.{if_congr}
use mini_os.Libc.Stdio.Parse.{
  first, is_space, is_digit, skip_ws, parse_digits, parse_uint, parse_int,
}
use mini_os.Libc.Stdio.{Out, out_ch, out_back, dec_digits, is_negative, out_int, out_uint, stdout}
use mini_os.Libc.Stdio.Digits.{
  back, suc_ne, text_of, printed-out_back, is_digit-is_space, skip_ws-digit, text_of-out_uint,
  text_of-is_digit, parse_digits-text_of,
}

parse_uint-text_of :
    (v : ℕ) (rest : List ℕ)
    → v < 4294967296
    → is_digit (first rest) ≡ false
    → parse_uint (text_of v ++ rest) ≡ some (v, rest)
unfolding parse_uint
parse_uint-text_of v rest lt stop =
    let d = text_of-is_digit v rest lt in
    rw (skip_ws-digit (text_of v ++ rest) d, d, parse_digits-text_of v rest lt stop) refl

-- A positive int is parsed as an unsigned number is.
parse_int_unsigned :
    (p : List ℕ) → is_digit (first p) ≡ true → parse_int p ≡ some (parse_digits 0 p)
unfolding parse_int
parse_int_unsigned p d =
    let s = is_digit-is_space (first p) d in rw (skip_ws-digit p d, s.1, s.2, d) refl

parse_int_minus :
    (p : List ℕ)
    → is_digit (first p) ≡ true
    → parse_int (b'-' ∷ p) ≡ some (sub32 0 ((parse_digits 0 p).0), (parse_digits 0 p).1)
unfolding parse_int skip_ws is_space
parse_int_minus p d = rw (d) refl

abbrev signed_text : ℕ → List ℕ
signed_text v = if is_negative v then b'-' ∷ text_of (sub32 0 v) else text_of v

negative_lem :
    (v : ℕ)
    → v < 4294967296
    → v ≢ 2147483648
    → is_negative v ≡ true
    → ((v == 0) ≡ false)
      × (is_negative (sub32 0 v) ≡ false)
      × (0 < sub32 0 v)
      × (sub32 0 v < 4294967296)
      × (sub32 0 (sub32 0 v) ≡ v)
negative_lem v lt ne e = ground arith

text_of-pos : (v : ℕ) → 0 < v → text_of v ≡ back (dec_digits 12 v)
unfolding text_of
text_of-pos zero lt = absurd (omega arith)
text_of-pos (suc n) lt = rw (suc_ne n) refl

out_int_positive : (v : ℕ) (o : Out) → is_negative v ≡ false → out_int v o ≡ out_uint v o
unfolding out_int out_uint
out_int_positive v o e = if_congr (v == 0) refl (rw (e, e) refl)

out_int_negative :
    (v : ℕ) (o : Out)
    → (v == 0) ≡ false
    → is_negative v ≡ true
    → is_negative (sub32 0 v) ≡ false
    → out_int v o ≡ out_back (dec_digits 12 (sub32 0 v)) (out_ch b'-' o)
unfolding out_int
out_int_negative v o z e f = rw (e, z, f) refl

printed-minus :
    (m : Memory)
    → ((out_ch b'-' (stdout m)).printed ≡ b'-' ∷ []) × ((out_ch b'-' (stdout m)).to_buf ≡ false)
unfolding out_ch
printed-minus m = (refl, refl)

signed_text-out_int :
    (m : Memory) (v : ℕ)
    → v < 4294967296
    → v ≢ 2147483648
    → (out_int v (stdout m)).printed ≡ signed_text v
signed_text-out_int m v lt ne = elim (Bool-cases (is_negative v)) [
  | inr e ↦ rw (e, out_int_positive v (stdout m) e) (text_of-out_uint m v)
  | inl e ↦
      let n = negative_lem v lt ne e in
      let p = printed-minus m in
      let r = printed-out_back m (dec_digits 12 (sub32 0 v)) (out_ch b'-' (stdout m)) (p.1) in
      rw (e, out_int_negative v (stdout m) (n.0) e (n.1), r.0, p.0, text_of-pos (sub32 0 v) (n.2))
        refl
]

parse_int-signed_text :
    (v : ℕ) (rest : List ℕ)
    → v < 4294967296
    → v ≢ 2147483648
    → is_digit (first rest) ≡ false
    → parse_int (signed_text v ++ rest) ≡ some (v, rest)
parse_int-signed_text v rest lt ne stop = elim (Bool-cases (is_negative v)) [
  | inr e ↦
      rw
        (
          e,
          parse_int_unsigned (text_of v ++ rest) (text_of-is_digit v rest lt),
          parse_digits-text_of v rest lt stop,
        )
        refl
  | inl e ↦
      let n = negative_lem v lt ne e in
      let d = text_of-is_digit (sub32 0 v) rest (n.3) in
      rw
        (
          e,
          parse_int_minus (text_of (sub32 0 v) ++ rest) d,
          parse_digits-text_of (sub32 0 v) rest (n.3) stop,
          n.4,
        )
        refl
]

-- A number other than -2^31 that `out_int` prints is read back by `parse_int`, and one that
-- `out_uint` prints by `parse_uint`, with the text behind it left over, where that text does not
-- begin with a digit.
pub parse_int-out_int :
    (m : Memory) (v : ℕ) (rest : List ℕ)
    → v < 4294967296
    → v ≢ 2147483648
    → is_digit (first rest) ≡ false
    → (parse_int ((out_int v (stdout m)).printed ++ rest) ≡ some (v, rest))
      × (parse_uint ((out_uint v (stdout m)).printed ++ rest) ≡ some (v, rest))
parse_int-out_int m v rest lt ne stop = (
  rw (signed_text-out_int m v lt ne) (parse_int-signed_text v rest lt ne stop),
  rw (text_of-out_uint m v) (parse_uint-text_of v rest lt stop),
)
