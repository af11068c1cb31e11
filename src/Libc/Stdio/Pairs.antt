-- ===== src/Libc/Stdio/Pairs.antt =====
-- A formatter that prints and one that fills a buffer, step by step (fs/lib/stdio.c).
use mini_os.Base.{
  ℕ, zero, suc, ◌+◌, ◌%◌, ◌≡◌, refl, ap, Bool, true, false, not, ◌||◌, ◌==◌, if◌then◌else◌, List,
  [], ◌∷◌, ◌++◌, take, drop, length, length-append,
}
use mini_os.Base.Words.{sub32}
use mini_os.Base.Bytes.{Memory}
use mini_os.Libc.Stdio.Parse.{first}
use mini_os.Libc.Stdio.{
  precision, is_negative, out_ch, out_all, out_back, out_int, out_uint, out_hex, dec_digits,
  hex_digits, takes_argument, out_str, out_arg, vformat_loop, Out, null_text,
}

abbrev pub buffer : Memory → ℕ → Out
buffer m max = record { to_buf = true; mem = m; max = max; len = 0; printed = [] }

-- `p` has printed the text that is in `b`.
abbrev pub Pair : Memory → ℕ → Out → Out → Type 0
Pair m max p b =
    (p.to_buf ≡ false) × (p.len ≡ length (p.printed)) × (b ≡ out_all (p.printed) (buffer m max))

out_all-append : (s t : List ℕ) (o : Out) → out_all (s ++ t) o ≡ out_all t (out_all s o)
unfolding out_all
out_all-append [] t o = refl
out_all-append (c ∷ s) t o = out_all-append s t (out_ch c o)

out_all_one : (c : ℕ) (o : Out) → out_all (c ∷ []) o ≡ out_ch c o
unfolding out_all
out_all_one c o = refl

out_ch-printed :
    (c : ℕ) (p : Out)
    → p.to_buf ≡ false
    → ((out_ch c p).to_buf ≡ false)
      × ((out_ch c p).len ≡ p.len + 1)
      × ((out_ch c p).printed ≡ p.printed ++ (c ∷ []))
unfolding out_ch
out_ch-printed c p e = rw (e) (refl, refl, refl)

module _ (m : Memory) (max : ℕ) where
  out_ch-Pair : (c : ℕ) (p b : Out) → Pair m max p b → Pair m max (out_ch c p) (out_ch c b)
  out_ch-Pair c p b (e, l, s) =
      let r = out_ch-printed c p e in
      (
        r.0,
        rw (r.1, r.2, length-append (p.printed) (c ∷ []), l) refl,
        rw
            (
              s,
              r.2,
              out_all-append (p.printed) (c ∷ []) (buffer m max),
              out_all_one c (out_all (p.printed) (buffer m max)),
            )
            refl,
      )

  out_all-Pair : (s : List ℕ) (p b : Out) → Pair m max p b → Pair m max (out_all s p) (out_all s b)
  unfolding out_all
  out_all-Pair [] p b r = r
  out_all-Pair (c ∷ s) p b r = out_all-Pair s (out_ch c p) (out_ch c b) (out_ch-Pair c p b r)

  out_back-Pair :
      (s : List ℕ) (p b : Out) → Pair m max p b → Pair m max (out_back s p) (out_back s b)
  unfolding out_back
  out_back-Pair [] p b r = r
  out_back-Pair (c ∷ s) p b r = out_ch-Pair c (out_back s p) (out_back s b) (out_back-Pair s p b r)

  if-Pair :
      (t : Bool) (p b p' b' : Out)
      → Pair m max p b
      → Pair m max p' b'
      → Pair m max (if t then p else p') (if t then b else b')
  if-Pair true p b p' b' r r' = r
  if-Pair false p b p' b' r r' = r'

  out_int-Pair : (v : ℕ) (p b : Out) → Pair m max p b → Pair m max (out_int v p) (out_int v b)
  unfolding out_int
  out_int-Pair v p b r =
      let w = if is_negative v then sub32 0 v else v in
      let r' =
        if-Pair (is_negative v) (out_ch b'-' p) (out_ch b'-' b) p b (out_ch-Pair b'-' p b r) r in
      if-Pair (v == 0) _ _ _ _ (out_ch-Pair b'0' p b r)
        (if-Pair (is_negative w) _ _ _ _ r' (out_back-Pair (dec_digits 12 w) _ _ r'))

  out_uint-Pair : (v : ℕ) (p b : Out) → Pair m max p b → Pair m max (out_uint v p) (out_uint v b)
  unfolding out_uint
  out_uint-Pair v p b r =
      if-Pair (v == 0) _ _ _ _ (out_ch-Pair b'0' p b r) (out_back-Pair (dec_digits 12 v) p b r)

  out_hex-Pair :
      (v : ℕ) (upper : Bool) (p b : Out)
      → Pair m max p b
      → Pair m max (out_hex v upper p) (out_hex v upper b)
  unfolding out_hex
  out_hex-Pair v upper p b r =
      if-Pair (v == 0) _ _ _ _ (out_ch-Pair b'0' p b r)
        (out_back-Pair (hex_digits upper 12 v) p b r)

module _ (m : Memory) (max : ℕ) (str : ℕ → List ℕ) (float_f float_g : ℕ → ℕ → List ℕ) where
  out_arg-Pair :
      (c prec v : ℕ) (p b : Out)
      → Pair m max p b
      → Pair m max (out_arg str float_f float_g c prec v p) (out_arg str float_f float_g c prec v b)
  unfolding out_arg out_str
  out_arg-Pair c prec v p b r =
      let prec' = if is_negative prec then 6 else prec in
      if-Pair m max ((c == b'f') || (c == b'F')) _ _ _ _
        (out_all-Pair m max (float_f v prec') p b r)
        (if-Pair m max ((c == b'g') || (c == b'G')) _ _ _ _
          (out_all-Pair m max (float_g v prec') p b r)
          (if-Pair m max (c == b'd') _ _ _ _ (out_int-Pair m max v p b r) (
            if-Pair m max (c == b'u') _ _ _ _ (out_uint-Pair m max v p b r) (
              if-Pair m max (c == b'x') _ _ _ _ (out_hex-Pair m max v false p b r) (
                if-Pair m max (c == b'X') _ _ _ _ (out_hex-Pair m max v true p b r) (
                  if-Pair m max (c == b'c') _ _ _ _ (out_ch-Pair m max (v % 256) p b r)
                    (out_all-Pair m max (if v == 0 then null_text else str v) p b r)))))))

  pub vformat_loop-Pair :
      (k : ℕ) (fmt : List ℕ) (arg : ℕ → ℕ) (ap : ℕ) (p b : Out)
      → Pair m max p b
      → Pair m max
          (vformat_loop str float_f float_g k fmt arg ap p)
          (vformat_loop str float_f float_g k fmt arg ap b)
  unfolding vformat_loop
  vformat_loop-Pair zero fmt arg ap p b r = r
  vformat_loop-Pair (suc k) [] arg ap p b r = r
  vformat_loop-Pair (suc k) (c ∷ fmt) arg ap p b r =
      let q = precision fmt in
      let f = first (q.1) in
      if-Pair m max (not (c == b'%')) _ _ _ _
        (vformat_loop-Pair k fmt arg ap _ _ (out_ch-Pair m max c p b r))
        (if-Pair m max (first fmt == b'%') _ _ _ _
          (vformat_loop-Pair k (drop 1 fmt) arg ap _ _ (out_ch-Pair m max b'%' p b r))
          (if-Pair m max (takes_argument f) _ _ _ _
            (vformat_loop-Pair k (drop 1 (q.1)) arg (ap + 1) _ _
              (out_arg-Pair f (q.0) (arg ap) p b r))
            (vformat_loop-Pair k (drop 1 (q.1)) arg ap _ _
              (out_all-Pair m max (b'%' ∷ take 1 (q.1)) p b r))))
