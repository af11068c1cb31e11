-- ===== src/Assembler/Agree.antt =====
-- The first and the last pass of the assembler side by side, user/as.c: while no error is met, the
-- sections have the same sizes.
use mini_os.Base.{
  ℕ, zero, suc, ◌≡◌, inl, inr, refl, sym, ap, ◌∙◌, Bool, true, false, ◌||◌, ltb, leb, if◌then◌else◌,
  arith, Bool-cases,
}
use mathlib.Core.Path.{subst}
use mini_os.Base.Words.{add32}
use mini_os.Assembler.{
  Asm, done, pure, err, move, emit8, emit_in, emit_text, emit_data, sec_len, Section, sec_text,
  sec_data, sec_bss,
}
use mini_os.Assembler.Directives.{
  misaligned, pad, pad_in, pad_loop, pad_to, set_section, define_equ,
}
use mini_os.Assembler.Lines.{define_label}
use mini_os.Assembler.Writes.{
  Writes, emit8-Writes, bss_len-Writes, pad_loop-Writes, pad_to-Writes, pad_loop-suc, pad_loop_end,
  define_label-Writes, define_equ-Writes,
}
use mini_os.Assembler.Related.{Simulation}

abbrev pub SameSizes : Asm → Asm → Type 0
SameSizes s t = (s.text_len ≡ t.text_len) × (s.data_len ≡ t.data_len) × (s.bss_len ≡ t.bss_len)

pub record TwoPasses (s t : Asm) : Type 0 where
  pub lp_equal : s.lp ≡ t.lp
  pub sec_equal : s.cur_sec ≡ t.cur_sec
  pub line_equal : s.line ≡ t.line
  pub first : s.pass ≡ 1
  pub second : t.pass ≡ 2
  pub sizes : t.err_count ≡ 0 → SameSizes s t

-- Two writes.
pub after-Writes :
    (s t u v : Asm)
    → TwoPasses s t
    → Writes s u
    → Writes t v
    → (v.err_count ≡ 0 → SameSizes s t → SameSizes u v)
    → TwoPasses u v
after-Writes s t u v r a b h = record {
  lp_equal = a.lp_same ∙ r.lp_equal ∙ sym b.lp_same;
  sec_equal = a.sec_same ∙ r.sec_equal ∙ sym b.sec_same;
  line_equal = a.line_same ∙ r.line_equal ∙ sym b.line_same;
  first = a.pass_same ∙ r.first;
  second = b.pass_same ∙ r.second;
  sizes = λ z. h z (r.sizes (omega (arith, b.errors_kept)));
}

emit_in_sizes :
    (x : Section) (b c : ℕ) (s t : Asm)
    → s.pass ≡ 1
    → t.pass ≡ 2
    → (emit_in x c t).1.err_count ≡ 0
    → SameSizes s t
    → SameSizes (emit_in x b s).1 (emit_in x c t).1
unfolding emit_in emit_text emit_data err
emit_in_sizes sec_text b c s t p q z h = ground arith
emit_in_sizes sec_data b c s t p q z h = ground arith
emit_in_sizes sec_bss b c s t p q z h = h

emit8_sizes :
    (b c : ℕ) (s t : Asm)
    → TwoPasses s t
    → (emit8 c t).1.err_count ≡ 0
    → SameSizes s t
    → SameSizes (emit8 b s).1 (emit8 c t).1
unfolding emit8
emit8_sizes b c s t r z h =
    subst (λ x. SameSizes (emit_in x b s).1 (emit_in t.cur_sec c t).1) (sym r.sec_equal)
      (emit_in_sizes t.cur_sec b c s t r.first r.second z h)

pub emit8-TwoPasses : (b c : ℕ) (s t : Asm) → TwoPasses s t → TwoPasses (emit8 b s).1 (emit8 c t).1
emit8-TwoPasses b c s t r =
    after-Writes s t _ _ r (emit8-Writes b s) (emit8-Writes c t) (emit8_sizes b c s t r)

bss_sizes :
    (n : ℕ) (s t : Asm)
    → SameSizes s t
    → SameSizes
        (record s { bss_len = add32 s.bss_len n })
        (record t { bss_len = add32 t.bss_len n })
bss_sizes n s t (a, b, c) = (a, b, ap (λ x. add32 x n) c)

pub bss_len-TwoPasses :
    (n : ℕ) (s t : Asm)
    → TwoPasses s t
    → TwoPasses
        (record s { bss_len = add32 s.bss_len n })
        (record t { bss_len = add32 t.bss_len n })
bss_len-TwoPasses n s t r =
    after-Writes s t _ _ r (bss_len-Writes n s) (bss_len-Writes n t) (λ z. bss_sizes n s t)

pad_in-TwoPasses :
    (c : Section) (s t : Asm) → TwoPasses s t → TwoPasses (pad_in c s).1 (pad_in c t).1
unfolding pad_in
pad_in-TwoPasses sec_text s t r = emit8-TwoPasses _ _ s t r
pad_in-TwoPasses sec_data s t r = emit8-TwoPasses _ _ s t r
pad_in-TwoPasses sec_bss s t r = bss_len-TwoPasses 1 s t r

pad-TwoPasses : (s t : Asm) → TwoPasses s t → TwoPasses (pad s).1 (pad t).1
unfolding pad
pad-TwoPasses s t r =
    subst (λ x. TwoPasses (pad_in s.cur_sec s).1 (pad_in x t).1) r.sec_equal
      (pad_in-TwoPasses s.cur_sec s t r)

sec_len_same : (c : Section) (s t : Asm) → SameSizes s t → sec_len c s ≡ sec_len c t
unfolding sec_len
sec_len_same sec_text s t h = h.0
sec_len_same sec_data s t h = h.1
sec_len_same sec_bss s t h = h.2

-- The lengths that the loop of `.align` tests.
lengths_same :
    (s t : Asm) → TwoPasses s t → SameSizes s t → sec_len s.cur_sec s ≡ sec_len t.cur_sec t
lengths_same s t r h = sec_len_same s.cur_sec s t h ∙ ap (λ x. sec_len x t) r.sec_equal

pad_loop_sizes :
    (n a : ℕ) (s t : Asm)
    → TwoPasses s t
    → (pad_loop n a t).1.err_count ≡ 0
    → SameSizes s t
    → SameSizes (pad_loop n a s).1 (pad_loop n a t).1
pad_loop_sizes zero a s t r z h = unfold pad_loop in h
pad_loop_sizes (suc n) a s t r z h = elim (Bool-cases (misaligned a (sec_len t.cur_sec t))) [
  | inl e ↦
      let e' = ap (misaligned a) (lengths_same s t r h) ∙ e in
      let r' = pad-TwoPasses s t r in
      let z' = subst (λ x. x.1.err_count ≡ 0) (pad_loop-suc n a t e) z in
      rw (pad_loop-suc n a s e', pad_loop-suc n a t e)
        (pad_loop_sizes n a (pad s).1 (pad t).1 r' z'
          (r'.sizes (omega (arith, z', (pad_loop-Writes n a (pad t).1).errors_kept))))
  | inr e ↦
      let e' = ap (misaligned a) (lengths_same s t r h) ∙ e in
      rw (pad_loop_end (suc n) a s e', pad_loop_end (suc n) a t e) h
]

pad_to_sizes :
    (a : ℕ) (s t : Asm)
    → TwoPasses s t
    → (pad_to a t).1.err_count ≡ 0
    → SameSizes s t
    → SameSizes (pad_to a s).1 (pad_to a t).1
unfolding pad_to done pure
pad_to_sizes a s t r z h = at (ltb a 2 || leb 2147483648 a) z
  where
    at :
        (c : Bool)
        → ((if c then done else pad_loop a a) t).1.err_count ≡ 0
        → SameSizes
            ((if c then done else pad_loop a a) s).1
            ((if c then done else pad_loop a a) t).1
    at true z = h
    at false z = pad_loop_sizes a a s t r z h

pub pad_to-TwoPasses :
    (a b : ℕ) (s t : Asm) → a ≡ b → TwoPasses s t → TwoPasses (pad_to a s).1 (pad_to b t).1
pad_to-TwoPasses a b s t e r =
    subst (λ x. TwoPasses (pad_to a s).1 (pad_to x t).1) e
      (after-Writes s t _ _ r (pad_to-Writes a s) (pad_to-Writes a t) (pad_to_sizes a s t r))

unfoldable pub two_passes : Simulation
unfolding err move set_section define_label define_equ
two_passes = record {
  Rel = TwoPasses;
  Fixed = λ a b. a ≡ b;
  same_lp = λ s t r. r.lp_equal;
  same_sec = λ s t r. r.sec_equal;
  move_at = λ p s t r. record {
    lp_equal = refl;
    sec_equal = r.sec_equal;
    line_equal = r.line_equal;
    first = r.first;
    second = r.second;
    sizes = r.sizes;
  };
  sec_at = λ c s t r. record {
    lp_equal = r.lp_equal;
    sec_equal = refl;
    line_equal = r.line_equal;
    first = r.first;
    second = r.second;
    sizes = r.sizes;
  };
  emit_at = emit8-TwoPasses;
  err_left = λ s t r. record {
    lp_equal = r.lp_equal;
    sec_equal = r.sec_equal;
    line_equal = r.line_equal;
    first = r.first;
    second = r.second;
    sizes = r.sizes;
  };
  err_right = λ s t r. record {
    lp_equal = r.lp_equal;
    sec_equal = r.sec_equal;
    line_equal = r.line_equal;
    first = r.first;
    second = r.second;
    sizes = λ z. absurd (omega arith);
  };
  bss_at = λ n s t r e. bss_len-TwoPasses n s t r;
  pad_at = pad_to-TwoPasses;
  label_at = λ name s t r.
      after-Writes s t _ _ r (define_label-Writes name s) (define_label-Writes name t)
        (λ z h. unfold define_label in h);
  equ_at = λ name v w s t r.
      after-Writes s t _ _ r (define_equ-Writes name v s) (define_equ-Writes name w t)
        (λ z h. unfold define_equ in h);
}
