-- ===== src/Assembler/Layout.antt =====
-- The layout of the assembler's image, user/as.c: the sizes of the first pass are those of the last.
pub mod Sources
use mini_os.Base.{
  ℕ, zero, suc, ◌+◌, ◌≡◌, inl, inr, refl, ap, Bool, true, false, not, ◌==◌, arith, List, [], ◌∷◌,
  ◌++◌, Option, none, some, drop, length, Bool-cases,
}
use mathlib.Core.Path.{subst}
use mini_os.Base.Bytes.{Memory}
use mini_os.Assembler.{Asm, ◌>>=◌, elf_hdr_size}
use mini_os.Assembler.Expressions.{Expr, parse_expr}
use mini_os.Assembler.Directives.{Directive, align, directives, directive_of, alignment}
use mini_os.Assembler.Lexer.{first}
use mini_os.Assembler.Lines.{mnemonic}
use mini_os.Assembler.Passes.{
  take_line, skip_newline, fill_line, pass_loop, pass_start, between_passes, run_pass, after_line,
  pass_loop_end, pass_loop_next, few_errors, layout, ending, emitted, assemble, image_max, image,
  written, build_elf,
}
use mini_os.Assembler.Related.{value_at, step_at}
use mini_os.Assembler.Related.Text.{SameExpr, known, symbolic, parse_expr-Related}
use mini_os.Assembler.Related.Lines.{mnemonic-Related, asm_line_at}
use mini_os.Assembler.Agree.{SameSizes, TwoPasses, two_passes}
use mini_os.Assembler.Layout.Sources.{
  constant_align, constant_for, ConstantAlign, ConstantAligns, settled, OwnLine, OwnLines,
  constant_value, constant_directive, next_constant, next_own,
}

abbrev Between : Asm → Asm → Type 0
Between s t = TwoPasses (settled s) (settled t)

-- A line with a constant alignment, in both passes.
after_line-TwoPasses :
    (chars : List ℕ) (s t : Asm)
    → ConstantAlign chars
    → s.line ≡ t.line
    → Between s t
    → TwoPasses (after_line chars s) (after_line chars t)
unfolding fill_line ◌>>=◌ after_line two_passes constant_align constant_for
after_line-TwoPasses chars s t c same r = asm_line_at two_passes u v ruv λ mnem e power k.
    let r' = step_at two_passes u v mnemonic-Related ruv in
    constant_value power _ _ (value_at two_passes _ _ parse_expr-Related r') (
      constant_directive _ power _ k
        (subst (λ x. constant_for x (mnemonic v).1 ≡ true) e (c (record t { line = buffer t }) _)))
  where
    buffer : Asm → List ℕ
    buffer x = chars ++ (0 ∷ drop (length chars + 1) x.line)

    u : Asm
    u = record s { line = buffer s; lp = buffer s }

    v : Asm
    v = record t { line = buffer t; lp = buffer t }

    buffers : buffer s ≡ buffer t
    buffers = ap (λ x. chars ++ (0 ∷ drop (length chars + 1) x)) same

    ruv : TwoPasses u v
    ruv = record {
      lp_equal = buffers;
      sec_equal = r.sec_equal;
      line_equal = buffers;
      first = r.first;
      second = r.second;
      sizes = r.sizes;
    }

between : (s t : Asm) → TwoPasses s t → Between s t
between s t r = record {
  lp_equal = refl;
  sec_equal = r.sec_equal;
  line_equal = refl;
  first = r.first;
  second = r.second;
  sizes = r.sizes;
}

-- A line in both passes, whose buffers held different lines before.
next-Between :
    (chars : List ℕ) (s t : Asm)
    → ConstantAlign chars
    → OwnLine chars t
    → Between s t
    → Between (after_line chars s) (after_line chars t)
next-Between chars s t c own r =
    subst (TwoPasses (settled (after_line chars s))) (own s.line)
      (between _ _ (after_line-TwoPasses chars s (record t { line = s.line }) c refl r))

loop_sizes :
    (n : ℕ) (p : List ℕ) (s t : Asm)
    → Between s t
    → ConstantAligns n p
    → OwnLines n p t
    → (pass_loop n p s).err_count ≡ 0
    → (pass_loop n p t).err_count ≡ 0
    → SameSizes (pass_loop n p s) (pass_loop n p t)
loop_sizes zero p s t r c o y z = unfold pass_loop in r.sizes (unfold pass_loop in z)
loop_sizes (suc n) p s t r c o y z = elim (Bool-cases (first p == 0)) [
  | inl e ↦
      rw (pass_loop_end n p s e, pass_loop_end n p t e)
        (r.sizes (subst (λ x. x.err_count ≡ 0) (pass_loop_end n p t e) z))
  | inr e ↦
      let c' = next_constant n p e c in
      let o' = next_own n p t e o in
      let r' = next-Between ((take_line 255 p).0) s t (c'.0) (o'.0) r in
      let ys = few_errors n p s e y in
      let zs = few_errors n p t e z in
      rw (pass_loop_next n p s e ys, pass_loop_next n p t e zs)
        (loop_sizes n _ _ _ r' (c'.1) (o'.1)
          (subst (λ x. x.err_count ≡ 0) (pass_loop_next n p s e ys) y)
          (subst (λ x. x.err_count ≡ 0) (pass_loop_next n p t e zs) z))
]

-- Where no `.align` depends on a symbol, no line reads behind its NUL, and neither pass meets an
-- error, the emitting pass gives every section the size that the sizing pass found.
pub run_pass_sizes :
    (src l k : List ℕ) (s t : Asm)
    → ConstantAligns (length src) src
    → OwnLines (length src) src (pass_start 2 k t)
    → (run_pass 1 src l s).err_count ≡ 0
    → (run_pass 2 src k t).err_count ≡ 0
    → SameSizes (run_pass 1 src l s) (run_pass 2 src k t)
unfolding run_pass
run_pass_sizes src l k s t c o y z =
    loop_sizes (length src) src _ _
      (record {
        lp_equal = refl;
        sec_equal = refl;
        line_equal = refl;
        first = refl;
        second = refl;
        sizes = λ _. (refl, refl, refl);
      })
      c o y z

abbrev pub Image : Asm → Asm → ℕ → Memory → Asm → Type 0
Image s1 s2 n m u =
    (s1.err_count ≡ 0) × (s2.err_count ≡ 0) × (s2 ≡ u) × (build_elf image_max s2 ≡ some (n, m))

written_image :
    (s u : Asm) (b : Option (ℕ × Memory)) (n : ℕ) (m : Memory)
    → written s b ≡ image n m u
    → (s ≡ u) × (b ≡ some (n, m))
unfolding written
written_image s u none n m h = ground arith
written_image s u (some (k, l)) n m h = ground arith

pub ending_image :
    (s1 s2 : Asm) (n : ℕ) (m : Memory) (u : Asm) → ending s1 s2 ≡ image n m u → Image s1 s2 n m u
unfolding ending
ending_image s1 s2 n m u h = ground (arith, written_image s2 u (build_elf image_max s2) n m)

build_elf_size :
    (s : Asm) (n : ℕ) (m : Memory)
    → build_elf image_max s ≡ some (n, m)
    → n ≡ elf_hdr_size + s.text_len + s.data_len
unfolding build_elf
build_elf_size s n m h = ground arith

-- The sizes of a final state are those of the image.
Image-sizes :
    (s1 s2 u : Asm) (n : ℕ) (m : Memory)
    → (s1.err_count ≡ 0 → s2.err_count ≡ 0 → SameSizes s1 s2)
    → Image s1 s2 n m u
    → SameSizes s1 u × (n ≡ elf_hdr_size + s1.text_len + s1.data_len)
Image-sizes s1 s2 u n m h (y, z, e, b) =
    let q = h y z in
    let size = build_elf_size s2 n m b in
    (subst (λ x. SameSizes s1 x) e q, omega (arith, size, q.0, q.1))

-- If no `.align` of the source depends on a symbol, and each line comes out of the last pass the
-- same whatever the line's buffer held behind its NUL, an image that `as` writes has sections of the
-- sizes that the first pass found, from which it placed the symbols, and its size is that of the
-- header and of both sections. Each pass may find other bytes in its line's buffer.
pub assemble_sizes :
    (src : List ℕ) (left : ℕ → List ℕ) (s : Asm) (n : ℕ) (m : Memory) (u : Asm)
    → ConstantAligns (length src) src
    → OwnLines
        (length src)
        src
        (pass_start 2 (left 2) (between_passes src (left 1) (layout (run_pass 1 src (left 0) s))))
    → assemble src left s ≡ image n m u
    → let s1 = run_pass 1 src (left 0) s in
      SameSizes s1 u × (n ≡ elf_hdr_size + s1.text_len + s1.data_len)
unfolding assemble emitted
assemble_sizes src left s n m u c o h =
    let s1 = run_pass 1 src (left 0) s in
    let start = between_passes src (left 1) (layout s1) in
    let s2 = run_pass 2 src (left 2) start in
    Image-sizes s1 s2 u n m (run_pass_sizes src (left 0) (left 2) s start c o)
      (ending_image s1 s2 n m u h)
