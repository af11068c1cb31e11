-- ===== src/Assembler/Layout/Sources.antt =====
-- Sources that both passes of user/as.c lay out alike: no alignment by a symbol, and no line that is
-- read behind its NUL.
use mini_os.Base.{
  ℕ, zero, suc, ◌≡◌, refl, Bool, true, false, not, ◌==◌, arith, List, [], ◌∷◌, ◌++◌, Option, none,
  some,
}
use mathlib.Core.Path.{subst}
use mini_os.Assembler.{Asm}
use mini_os.Assembler.Expressions.{Expr, parse_expr}
use mini_os.Assembler.Directives.{Directive, align, directives, directive_of, alignment}
use mini_os.Assembler.Lexer.{first}
use mini_os.Assembler.Lines.{mnemonic}
use mini_os.Assembler.Passes.{take_line, skip_newline, after_line}
use mini_os.Assembler.Related.Text.{SameExpr, known, symbolic}

-- An alignment without symbols, where the directive is one.
unfoldable pub constant_align : Directive → Asm → Bool
constant_align (align power) s = not (parse_expr s).0.has_sym
constant_align _ s = true

unfoldable pub constant_for : Option (List ℕ) → Asm → Bool
unfolding constant_align directive_of
constant_for none s = true
constant_for (some mnem) s = constant_align (directive_of mnem directives) s

-- A line whose `.align`, if it has one, takes a number without symbols.
abbrev pub ConstantAlign : List ℕ → Type 0
ConstantAlign chars =
    (s : Asm) (tail : List ℕ)
    → let r = mnemonic (record s { lp = chars ++ (0 ∷ tail) }) in constant_for (r.0) (r.1) ≡ true

-- The same of all lines of a source.
unfoldable pub ConstantAligns : ℕ → List ℕ → Type 0
unfolding take_line skip_newline
ConstantAligns zero p = Unit
ConstantAligns (suc n) p = elim (first p == 0) [
  | true ↦ Unit
  | false ↦
      ConstantAlign ((take_line 255 p).0) × ConstantAligns n (skip_newline ((take_line 255 p).1))
]

pub constant_value :
    (power : Bool) (d e : Expr)
    → SameExpr d e
    → not e.has_sym ≡ true
    → alignment power d.val ≡ alignment power e.val
constant_value power _ _ (known e) h = refl
constant_value power _ _ (symbolic v w) h = absurd (ground arith)

pub constant_directive :
    (k : Directive) (power : Bool) (t : Asm)
    → k ≡ align power
    → constant_align k t ≡ true
    → not (parse_expr t).0.has_sym ≡ true
unfolding constant_align
constant_directive k power t e h = subst (λ x. constant_align x t ≡ true) e h

pub next_constant :
    (n : ℕ) (p : List ℕ)
    → (first p == 0) ≡ false
    → ConstantAligns (suc n) p
    → ConstantAlign ((take_line 255 p).0) × ConstantAligns n (skip_newline ((take_line 255 p).1))
unfolding ConstantAligns
next_constant n p e c =
    subst
      (λ b. elim b as (λ _. Type 0) [
        | true ↦ Unit
        | false ↦
            ConstantAlign ((take_line 255 p).0)
            × ConstantAligns n (skip_newline ((take_line 255 p).1))
      ])
      e c

-- A state between lines, without the cursor and the line's buffer.
abbrev pub settled : Asm → Asm
settled s = record s { lp = []; line = [] }

-- A line that comes out the same whatever the buffer held before it: nothing behind the line's NUL
-- is read.
abbrev pub OwnLine : List ℕ → Asm → Type 0
OwnLine chars t =
    (before : List ℕ)
    → settled (after_line chars (record t { line = before })) ≡ settled (after_line chars t)

-- The same of all lines of a pass from `t` on.
unfoldable pub OwnLines : ℕ → List ℕ → Asm → Type 0
unfolding take_line skip_newline after_line
OwnLines zero p t = Unit
OwnLines (suc n) p t = elim (first p == 0) [
  | true ↦ Unit
  | false ↦
      let r = take_line 255 p in
      OwnLine (r.0) t × OwnLines n (skip_newline (r.1)) (after_line (r.0) t)
]

pub next_own :
    (n : ℕ) (p : List ℕ) (t : Asm)
    → (first p == 0) ≡ false
    → OwnLines (suc n) p t
    → OwnLine ((take_line 255 p).0) t
      × OwnLines n (skip_newline ((take_line 255 p).1)) (after_line ((take_line 255 p).0) t)
unfolding OwnLines
next_own n p t e c =
    subst
      (λ b. elim b as (λ _. Type 0) [
        | true ↦ Unit
        | false ↦
            OwnLine ((take_line 255 p).0) t
            × OwnLines n (skip_newline ((take_line 255 p).1)) (after_line ((take_line 255 p).0) t)
      ])
      e c
