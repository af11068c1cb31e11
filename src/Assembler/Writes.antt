-- ===== src/Assembler/Writes.antt =====
-- What `.align` and the definitions of symbols leave of the assembler's state, user/as.c.
use mini_os.Base.{
  ℕ, zero, suc, ◌≤◌, ◌≡◌, inl, inr, refl, ◌∙◌, true, false, ◌||◌, ltb, leb, arith, List, Option,
  none, some, Bool-cases,
}
use mini_os.Base.Words.{add32}
use mini_os.Assembler.{
  Sym, Asm, ◌>>=◌, pure, done, err, emit8, emit_in, sec_len, emit_text, emit_data, max_text,
  max_data, Section, sec_text, sec_data, sec_bss,
}
use mini_os.Assembler.Lexer.{sym_intern, add_sym}
use mini_os.Assembler.Directives.{misaligned, pad_in, pad, pad_loop, pad_to, define_equ, equ_at}
use mini_os.Assembler.Lines.{define_label, place_label}

-- A step that only writes: the cursor, the section and the pass stay, errors are kept, and in pass 2
-- the buffers do not overflow.
pub record Writes (s t : Asm) : Type 0 where
  pub lp_same : t.lp ≡ s.lp
  pub sec_same : t.cur_sec ≡ s.cur_sec
  pub pass_same : t.pass ≡ s.pass
  pub line_same : t.line ≡ s.line
  pub errors_kept : s.err_count ≤ t.err_count
  pub text_fits : s.pass ≡ 2 → s.text_len ≤ max_text → t.text_len ≤ max_text
  pub data_fits : s.pass ≡ 2 → s.data_len ≤ max_data → t.data_len ≤ max_data

Writes-refl : (s : Asm) → Writes s s
Writes-refl s = record {
  lp_same = refl;
  sec_same = refl;
  pass_same = refl;
  line_same = refl;
  errors_kept = omega arith;
  text_fits = λ _ h. h;
  data_fits = λ _ h. h;
}

Writes-trans : (s t u : Asm) → Writes s t → Writes t u → Writes s u
Writes-trans s t u a b = record {
  lp_same = b.lp_same ∙ a.lp_same;
  sec_same = b.sec_same ∙ a.sec_same;
  pass_same = b.pass_same ∙ a.pass_same;
  line_same = b.line_same ∙ a.line_same;
  errors_kept = omega arith;
  text_fits = λ p h. b.text_fits (a.pass_same ∙ p) (a.text_fits p h);
  data_fits = λ p h. b.data_fits (a.pass_same ∙ p) (a.data_fits p h);
}

err-Writes : (s : Asm) → Writes s (err s).1
unfolding err
err-Writes s = record {
  lp_same = refl;
  sec_same = refl;
  pass_same = refl;
  line_same = refl;
  errors_kept = omega arith;
  text_fits = λ _ h. h;
  data_fits = λ _ h. h;
}

emit_in-Writes : (c : Section) (b : ℕ) (s : Asm) → Writes s (emit_in c b s).1
unfolding emit_in emit_text emit_data err
emit_in-Writes sec_text b s = record {
  lp_same = ground arith;
  sec_same = ground arith;
  pass_same = ground arith;
  line_same = ground arith;
  errors_kept = ground arith;
  text_fits = λ p h. ground arith;
  data_fits = λ p h. ground arith;
}
emit_in-Writes sec_data b s = record {
  lp_same = ground arith;
  sec_same = ground arith;
  pass_same = ground arith;
  line_same = ground arith;
  errors_kept = ground arith;
  text_fits = λ p h. ground arith;
  data_fits = λ p h. ground arith;
}
emit_in-Writes sec_bss b s = err-Writes s

pub emit8-Writes : (b : ℕ) (s : Asm) → Writes s (emit8 b s).1
unfolding emit8
emit8-Writes b s = emit_in-Writes s.cur_sec b s

pub bss_len-Writes : (n : ℕ) (s : Asm) → Writes s (record s { bss_len = add32 s.bss_len n })
bss_len-Writes n s = record {
  lp_same = refl;
  sec_same = refl;
  pass_same = refl;
  line_same = refl;
  errors_kept = omega arith;
  text_fits = λ _ h. h;
  data_fits = λ _ h. h;
}

pad_in-Writes : (c : Section) (s : Asm) → Writes s (pad_in c s).1
unfolding pad_in
pad_in-Writes sec_text s = emit8-Writes 0x90 s
pad_in-Writes sec_data s = emit8-Writes 0 s
pad_in-Writes sec_bss s = bss_len-Writes 1 s

pub pad-Writes : (s : Asm) → Writes s (pad s).1
unfolding pad
pad-Writes s = pad_in-Writes s.cur_sec s

pub pad_loop-suc :
    (n a : ℕ) (s : Asm)
    → misaligned a (sec_len s.cur_sec s) ≡ true
    → pad_loop (suc n) a s ≡ pad_loop n a (pad s).1
unfolding pad_loop ◌>>=◌
pad_loop-suc n a s e = rw (e, pad_loop) refl

pub pad_loop_end :
    (n a : ℕ) (s : Asm) → misaligned a (sec_len s.cur_sec s) ≡ false → pad_loop n a s ≡ (tt, s)
unfolding pad_loop ◌>>=◌
pad_loop_end zero a s e = refl
pad_loop_end (suc n) a s e = rw (e, pad_loop) refl

pub pad_loop-Writes : (n a : ℕ) (s : Asm) → Writes s (pad_loop n a s).1
pad_loop-Writes zero a s = unfold pad_loop in Writes-refl s
pad_loop-Writes (suc n) a s = elim (Bool-cases (misaligned a (sec_len s.cur_sec s))) [
  | inl e ↦
      rw (pad_loop-suc n a s e)
        (Writes-trans s (pad s).1 _ (pad-Writes s) (pad_loop-Writes n a (pad s).1))
  | inr e ↦ rw (pad_loop_end (suc n) a s e) (Writes-refl s)
]

pub pad_to-Writes : (a : ℕ) (s : Asm) → Writes s (pad_to a s).1
unfolding pad_to done pure
pad_to-Writes a s = elim (Bool-cases (ltb a 2 || leb 2147483648 a)) [
  | inl e ↦ rw (e) (Writes-refl s)
  | inr e ↦ rw (e) (pad_loop-Writes a a s)
]

-- Symbols and errors are all that changes.
symbols-Writes :
    (s : Asm) (ys : List Sym) (n : ℕ)
    → s.err_count ≤ n
    → Writes s (record s { syms = ys; err_count = n })
symbols-Writes s ys n h = record {
  lp_same = refl;
  sec_same = refl;
  pass_same = refl;
  line_same = refl;
  errors_kept = h;
  text_fits = λ _ k. k;
  data_fits = λ _ k. k;
}

sym_intern-err : (name : List ℕ) (s : Asm) → s.err_count ≤ (sym_intern name s).1.err_count
unfolding sym_intern add_sym err
sym_intern-err name s = ground arith

place_label-err : (i : Option ℕ) (s : Asm) → s.err_count ≤ (place_label i s).err_count
unfolding place_label err
place_label-err none s = omega arith
place_label-err (some i) s = ground arith

equ_at-err : (v : ℕ) (i : Option ℕ) (s : Asm) → s.err_count ≤ (equ_at v i s).err_count
unfolding equ_at
equ_at-err v none s = omega arith
equ_at-err v (some i) s = omega arith

pub define_label-Writes : (name : List ℕ) (s : Asm) → Writes s (define_label name s).1
unfolding define_label
define_label-Writes name s = symbols-Writes s _ _ (
    ground
      (arith, sym_intern-err name s, place_label-err (sym_intern name s).0 (sym_intern name s).1))

pub define_equ-Writes : (name : List ℕ) (v : ℕ) (s : Asm) → Writes s (define_equ name v s).1
unfolding define_equ
define_equ-Writes name v s =
    symbols-Writes s _ _ (
      omega
        (arith, sym_intern-err name s, equ_at-err v (sym_intern name s).0 (sym_intern name s).1))
