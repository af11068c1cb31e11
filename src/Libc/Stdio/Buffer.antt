-- ===== src/Libc/Stdio/Buffer.antt =====
-- `vsnprintf` into a buffer and `printf` format the same text (fs/lib/stdio.c).
use mini_os.Base.{
  ℕ, suc, ◌+◌, ◌-◌, ◌<◌, ◌≡◌, inl, inr, refl, sym, ◌∙◌, true, ◌&&◌, ◌==◌, ltb, leb, if◌then◌else◌,
  arith, List, [], ◌∷◌, get_or, length, Bool-cases,
}
use mini_os.Base.Bytes.{Memory, poke}
use mini_os.Base.{ltb→lt, ==_iff}
use mini_os.Libc.Stdio.{out_ch, out_all, vformat_ap, end_text, vsnprintf, printf, stdout, Out}
use mini_os.Libc.Stdio.Pairs.{buffer, Pair, vformat_loop-Pair}

get_or-suc :
    (c : ℕ) (s : List ℕ) (n i : ℕ) → n < i → get_or (c ∷ s) (i - n) 0 ≡ get_or s (i - (n + 1)) 0
get_or-suc c s n i lt = let e : i - n ≡ suc (i - (n + 1)) = omega arith in rw (e) refl

get_or-zero : (c : ℕ) (s : List ℕ) (n : ℕ) → get_or (c ∷ s) (n - n) 0 ≡ c
get_or-zero c s n = let e : n - n ≡ 0 = omega arith in rw (e) refl

-- A character stored behind those before it.
stored :
    (c : ℕ) (s : List ℕ) (m : Memory) (n max i : ℕ)
    → (if leb (n + 1) i && ltb i (n + 1 + length s) && ltb (i + 1) max
        then get_or s (i - (n + 1)) 0
        else (if ltb (n + 1) max then poke m n c else m) i)
      ≡ (if leb n i && ltb i (n + suc (length s)) && ltb (i + 1) max
          then get_or (c ∷ s) (i - n) 0
          else m i)
unfolding poke
stored c s m n max i = elim (Bool-cases (ltb n i)) [
  | inl lt ↦ rw (get_or-suc c s n i (ltb→lt n i lt)) (ground arith)
  | inr le ↦ elim (Bool-cases (n == i)) [
    | inl e ↦ rw (sym ((==_iff n i).0 e), get_or-zero c s n) (ground arith)
    | inr ne ↦ ground arith
  ]
]

out_ch-buffer :
    (c : ℕ) (o : Out)
    → o.to_buf ≡ true
    → ((out_ch c o).to_buf ≡ true)
      × ((out_ch c o).max ≡ o.max)
      × ((out_ch c o).len ≡ o.len + 1)
      × ((out_ch c o).mem ≡ (if ltb (o.len + 1) o.max then poke o.mem o.len c else o.mem))
unfolding out_ch
out_ch-buffer c o e = rw (e) (refl, refl, refl, refl)

-- What `out_all` leaves in a buffer.
out_all-buffer :
    (s : List ℕ) (o : Out) (i : ℕ)
    → o.to_buf ≡ true
    → ((out_all s o).to_buf ≡ true)
      × ((out_all s o).max ≡ o.max)
      × ((out_all s o).len ≡ o.len + length s)
      × ((out_all s o).mem i ≡ (
          if leb o.len i && ltb i (o.len + length s) && ltb (i + 1) o.max
          then get_or s (i - o.len) 0
          else o.mem i))
unfolding out_all
out_all-buffer [] o i e = (e, refl, omega arith, ground arith)
out_all-buffer (c ∷ s) o i e =
    let w = out_ch-buffer c o e in
    let r = out_all-buffer s (out_ch c o) i (w.0) in
    (
      r.0,
      r.1 ∙ w.1,
      omega (arith, r.2, w.2),
      r.3 ∙ rw (w.1, w.2, w.3) (stored c s (o.mem) (o.len) (o.max) i),
    )

end_text-mem :
    (o : Out) (i : ℕ)
    → o.to_buf ≡ true
    → ((end_text o).len ≡ o.len)
      × ((end_text o).mem i ≡ (
          if ltb 0 o.max && (i == (if ltb (o.max - 1) o.len then o.max - 1 else o.len))
          then 0
          else o.mem i))
unfolding end_text poke
end_text-mem o i e = rw (e) (ground arith)

-- How many characters of a text of `n` fit in front of the NUL.
abbrev shown : ℕ → ℕ → ℕ
shown max n = if ltb (max - 1) n then max - 1 else n

ended :
    (n max i : ℕ) (t : List ℕ) (m : Memory)
    → (if ltb 0 max && (i == shown max (0 + n))
        then 0
        else (if leb 0 i && ltb i (0 + n) && ltb (i + 1) max then get_or t (i - 0) 0 else m i))
      ≡ (if ltb i (shown max n)
          then get_or t i 0
          else if ltb 0 max && (i == shown max n)
          then 0
          else m i)
ended n max i t m = let e : i - 0 ≡ i = omega arith in rw (e) (ground arith)

module _ (m : Memory) (max : ℕ) where
  both_empty : (m' : Memory) → Pair m max (stdout m') (buffer m max)
  unfolding out_all
  both_empty m' = (refl, refl, refl)

  end_text-Pair :
      (p b : Out) (i : ℕ)
      → Pair m max p b
      → let text = p.printed in
        let n = shown max (length text) in
        (p.len ≡ length text)
        × ((end_text b).len ≡ length text)
        × ((end_text b).mem i
            ≡ (if ltb i n then get_or text i 0 else if ltb 0 max && (i == n) then 0 else m i))
  end_text-Pair p b i (_, l, s) =
      let text = p.printed in
      let a = out_all-buffer text (buffer m max) i refl in
      let e = end_text-mem (out_all text (buffer m max)) i (a.0) in
      (
        l,
        rw (s) (e.0 ∙ omega (arith, a.2)),
        rw (s) (e.1 ∙ rw (a.1, a.2, a.3) (ended (length text) max i text m)),
      )

module _ (str : ℕ → List ℕ) (float_f float_g : ℕ → ℕ → List ℕ) where
  -- `vsnprintf` and `printf` of the same format and arguments return the length of what `printf`
  -- prints. Byte `i` of the buffer is the character printed there where `i` is among the first
  -- `max - 1`, the NUL behind the last of those (none where `max` is 0), and what it was elsewhere:
  -- nothing is written from `max` on.
  pub vsnprintf-printf :
      (m m' : Memory) (max : ℕ) (fmt : List ℕ) (arg : ℕ → ℕ) (i : ℕ)
      → let b = vsnprintf str float_f float_g true m max fmt arg in
        let p = printf str float_f float_g m' fmt arg in
        let text = p.printed in
        let n = if ltb (max - 1) (length text) then max - 1 else length text in
        (p.len ≡ length text)
        × (b.len ≡ length text)
        × (b.mem i
            ≡ (if ltb i n then get_or text i 0 else if ltb 0 max && (i == n) then 0 else m i))
  unfolding vsnprintf printf vformat_ap
  vsnprintf-printf m m' max fmt arg i =
      end_text-Pair m max (vformat_ap str float_f float_g (stdout m') fmt arg)
        (vformat_ap str float_f float_g (buffer m max) fmt arg) i
        (vformat_loop-Pair m max str float_f float_g (length fmt) fmt arg 0 (stdout m')
          (buffer m max) (both_empty m max m'))
