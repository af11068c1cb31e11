-- ===== src/Assembler/Kept.antt =====
-- What every line of the assembler keeps, user/as.c: the errors that were counted, and buffers that
-- do not overflow in pass 2.
use mini_os.Base.{
  ℕ, zero, suc, ◌+◌, ◌≤◌, ◌≡◌, inl, inr, refl, sym, ◌∙◌, false, ◌==◌, ltb, arith, List, length,
  Bool-cases,
}
use mini_os.Base.Bytes.{Memory}
use mini_os.Assembler.{sec_text, Asm, ◌>>=◌, err, move, max_text, max_data, elf_hdr_size}
use mini_os.Assembler.Directives.{set_section}
use mini_os.Assembler.Lexer.{first}
use mini_os.Assembler.Passes.{
  take_line, fill_line, after_line, pass_loop, pass_loop_end, pass_loop_stop, pass_loop_next,
  run_pass, between_passes, layout, emitted, assemble, ending, written, build_elf, image_max,
  Outcome, errors, too_large, image,
}
use mini_os.Assembler.Writes.{
  Writes, emit8-Writes, bss_len-Writes, pad_to-Writes, define_label-Writes, define_equ-Writes,
}
use mini_os.Assembler.Related.{Simulation}
use mini_os.Assembler.Related.Lines.{asm_line_at}
use mini_os.Assembler.Layout.{ending_image}

abbrev pub Fits : Asm → Type 0
Fits t = (t.text_len ≤ max_text) × (t.data_len ≤ max_data)

-- `k` errors were counted in pass `q`, and a pass 2 fits its buffers.
pub record Kept (k q : ℕ) (s t : Asm) : Type 0 where
  pub lp_equal : s.lp ≡ t.lp
  pub sec_equal : s.cur_sec ≡ t.cur_sec
  pub counted : k ≤ t.err_count
  pub pass_is : t.pass ≡ q
  pub fits : q ≡ 2 → Fits t

pub after-Writes : (k q : ℕ) (s t u v : Asm) → Kept k q s t → Writes s u → Writes t v → Kept k q u v
after-Writes k q s t u v r a b = record {
  lp_equal = a.lp_same ∙ r.lp_equal ∙ sym b.lp_same;
  sec_equal = a.sec_same ∙ r.sec_equal ∙ sym b.sec_same;
  counted = omega (arith, r.counted, b.errors_kept);
  pass_is = b.pass_same ∙ r.pass_is;
  fits = λ p.
      let f = r.fits p in (b.text_fits (r.pass_is ∙ p) (f.0), b.data_fits (r.pass_is ∙ p) (f.1));
}

unfoldable pub kept : ℕ → ℕ → Simulation
unfolding err move set_section
kept k q = record {
  Rel = Kept k q;
  Fixed = λ a b. Unit;
  same_lp = λ s t r. r.lp_equal;
  same_sec = λ s t r. r.sec_equal;
  move_at = λ p s t r. record {
    lp_equal = refl;
    sec_equal = r.sec_equal;
    counted = r.counted;
    pass_is = r.pass_is;
    fits = r.fits;
  };
  sec_at = λ c s t r. record {
    lp_equal = r.lp_equal;
    sec_equal = refl;
    counted = r.counted;
    pass_is = r.pass_is;
    fits = r.fits;
  };
  emit_at = λ b c s t r. after-Writes k q s t _ _ r (emit8-Writes b s) (emit8-Writes c t);
  err_left = λ s t r. record {
    lp_equal = r.lp_equal;
    sec_equal = r.sec_equal;
    counted = r.counted;
    pass_is = r.pass_is;
    fits = r.fits;
  };
  err_right = λ s t r. record {
    lp_equal = r.lp_equal;
    sec_equal = r.sec_equal;
    counted = omega (arith, r.counted);
    pass_is = r.pass_is;
    fits = r.fits;
  };
  bss_at = λ n s t r e. after-Writes k q s t _ _ r (bss_len-Writes n s) (bss_len-Writes n t);
  pad_at = λ a b s t f r. after-Writes k q s t _ _ r (pad_to-Writes a s) (pad_to-Writes b t);
  label_at = λ name s t r.
      after-Writes k q s t _ _ r (define_label-Writes name s) (define_label-Writes name t);
  equ_at = λ name v w s t r.
      after-Writes k q s t _ _ r (define_equ-Writes name v s) (define_equ-Writes name w t);
}

-- A line that starts with `k` errors or more, and with buffers that fit.
after_line-Kept :
    (k q : ℕ) (chars : List ℕ) (s : Asm)
    → Kept k q s s
    → Kept k q (after_line chars s) (after_line chars s)
unfolding after_line fill_line ◌>>=◌ kept
after_line-Kept k q chars s h =
    asm_line_at (kept k q) _ _
      (record {
        lp_equal = refl;
        sec_equal = refl;
        counted = h.counted;
        pass_is = h.pass_is;
        fits = h.fits;
      })
      λ mnem e power d. tt

pass_loop-Kept :
    (k q n : ℕ) (p : List ℕ) (s : Asm) → Kept k q s s → Kept k q (pass_loop n p s) (pass_loop n p s)
pass_loop-Kept k q zero p s h = unfold pass_loop in h
pass_loop-Kept k q (suc n) p s h = elim (Bool-cases (first p == 0)) [
  | inl e ↦ rw (pass_loop_end n p s e) h
  | inr e ↦
      let r = after_line-Kept k q ((take_line 255 p).0) s h in
      elim (Bool-cases (ltb 20 (after_line ((take_line 255 p).0) s).err_count)) [
        | inl b ↦ rw (pass_loop_stop n p s e b) r
        | inr b ↦ rw (pass_loop_next n p s e b) (pass_loop-Kept k q n _ _ r)
      ]
]

-- The state after `i` lines at most, where a source is read by `run_pass`.
abbrev pub lines_of_pass : ℕ → ℕ → List ℕ → List ℕ → Asm → Asm
lines_of_pass i which src left s = pass_loop i src (record s {
  pass = which;
  cur_sec = sec_text;
  text_len = 0;
  data_len = 0;
  bss_len = 0;
  line = left;
})

run_pass_start-Kept :
    (which : ℕ) (left : List ℕ) (s : Asm)
    → let t = record s {
      pass = which;
      cur_sec = sec_text;
      text_len = 0;
      data_len = 0;
      bss_len = 0;
      line = left;
    } in
      Kept 0 which t t
run_pass_start-Kept which left s = record {
  lp_equal = refl;
  sec_equal = refl;
  counted = omega arith;
  pass_is = refl;
  fits = λ p. (omega arith, omega arith);
}

run_pass-Kept :
    (which : ℕ) (src left : List ℕ) (s : Asm)
    → Kept 0 which (run_pass which src left s) (run_pass which src left s)
unfolding run_pass
run_pass-Kept which src left s =
    pass_loop-Kept 0 which (length src) src _ (run_pass_start-Kept which left s)

-- More lines, more errors.
errors_grow :
    (q i n : ℕ) (p : List ℕ) (s : Asm)
    → i ≤ n
    → Kept 0 q s s
    → (pass_loop i p s).err_count ≤ (pass_loop n p s).err_count
errors_grow q zero n p s h r =
    let more : Kept s.err_count q s s = record {
      lp_equal = refl;
      sec_equal = refl;
      counted = omega arith;
      pass_is = r.pass_is;
      fits = r.fits;
    } in
    unfold pass_loop in (pass_loop-Kept s.err_count q n p s more).counted
errors_grow q (suc i) zero p s h r = absurd (omega arith)
errors_grow q (suc i) (suc n) p s h r = elim (Bool-cases (first p == 0)) [
  | inl e ↦ rw (pass_loop_end i p s e, pass_loop_end n p s e) (omega arith)
  | inr e ↦ elim (Bool-cases (ltb 20 (after_line ((take_line 255 p).0) s).err_count)) [
    | inl b ↦ rw (pass_loop_stop i p s e b, pass_loop_stop n p s e b) (omega arith)
    | inr b ↦
        rw (pass_loop_next i p s e b, pass_loop_next n p s e b)
          (errors_grow q i n _ _ (omega arith) (after_line-Kept 0 q ((take_line 255 p).0) s r))
  ]
]

-- No errors behind a pass, so none behind any number of its lines.
pass_errors :
    (i which : ℕ) (src left : List ℕ) (s : Asm)
    → i ≤ length src
    → (run_pass which src left s).err_count ≡ 0
    → (lines_of_pass i which src left s).err_count ≡ 0
unfolding run_pass
pass_errors i which src left s h e =
    omega (arith, errors_grow which i (length src) src _ h (run_pass_start-Kept which left s))

-- `as` reports no image that is too large: the sections of a pass 2 fit their buffers, and those
-- fit the image.
unfoldable pub WithinImage : Outcome → Type 0
WithinImage (errors u) = Unit
WithinImage (too_large u) = ⊥
WithinImage (image n m u) = n ≤ image_max

written-WithinImage : (s : Asm) → Fits s → WithinImage (written s (build_elf image_max s))
unfolding written WithinImage build_elf
written-WithinImage s f = rw (small) (omega (arith, f.0, f.1))
  where
    small : ltb image_max (elf_hdr_size + s.text_len + s.data_len) ≡ false
    small = ground (arith, f.0, f.1)

ending-WithinImage : (s1 s2 : Asm) → Fits s2 → WithinImage (ending s1 s2)
unfolding ending WithinImage
ending-WithinImage s1 s2 f = elim (Bool-cases (s1.err_count == 0)) [
  | inr e ↦ rw (e) tt
  | inl e ↦ elim (Bool-cases (s2.err_count == 0)) [
    | inr d ↦ rw (e, d) tt
    | inl d ↦ rw (e, d) (written-WithinImage s2 f)
  ]
]

-- Whatever the source, `main` does not end with an image that is too large, and the size of an
-- image that it saves is at most that of its buffer.
pub assemble-WithinImage :
    (src : List ℕ) (left : ℕ → List ℕ) (s : Asm) → WithinImage (assemble src left s)
unfolding assemble emitted
assemble-WithinImage src left s =
    ending-WithinImage _ _ ((run_pass-Kept 2 src (left 2) _).fits refl)

-- When `main` saves an image, then neither the first nor the last pass had met an error behind any
-- number of lines.
pub assemble_errors :
    (src : List ℕ) (left : ℕ → List ℕ) (s : Asm) (n i : ℕ) (m : Memory) (u : Asm)
    → i ≤ length src
    → assemble src left s ≡ image n m u
    → let t = between_passes src (left 1) (layout (run_pass 1 src (left 0) s)) in
      ((lines_of_pass i 1 src (left 0) s).err_count ≡ 0)
      × ((lines_of_pass i 2 src (left 2) t).err_count ≡ 0)
unfolding assemble emitted
assemble_errors src left s n i m u h e =
    let s1 = run_pass 1 src (left 0) s in
    let t = between_passes src (left 1) (layout s1) in
    let z = ending_image s1 (run_pass 2 src (left 2) t) n m u e in
    (pass_errors i 1 src (left 0) s h (z.0), pass_errors i 2 src (left 2) t h (z.1))
