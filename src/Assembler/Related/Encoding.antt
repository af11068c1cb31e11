-- ===== src/Assembler/Related/Encoding.antt =====
-- The encoding of an instruction in two related runs, user/as.c: operands that are alike take the
-- same branches of `asm_insn`.
use mini_os.Base.{
  ℕ, ◌≡◌, ◌⊎◌, refl, ap, ◌∙◌, Bool, not, ◌&&◌, ◌||◌, ◌==◌, arith, Option, none, some,
}
use mini_os.Assembler.{Asm, Run, ◌>>=◌, pure, err, emit16, emit32}
use mini_os.Assembler.Operands.{Operand}
use mini_os.Assembler.Expressions.{Expr}
use mini_os.Assembler.Encoding.{
  is_reg, is_imm, is_absolute, is_mem, byte_value, scale_bits, emit_sib, emit_disp, mod_of,
  emit_based, emit_unbased, emit_mem, emit_modrm, imm_fits8, rel32, emit_rel32,
}
use mini_os.Assembler.Instructions.{op_by_size, emit_imm, is_acc}
use mini_os.Assembler.Related.{
  done-Related, Simulation, Related, Any, Related-pure, Related-bind, Related-then, Related-if,
  err-Related, emit8-Related,
}
use mini_os.Assembler.Related.Text.{
  left_state, right_state, SameExpr, known, symbolic, Loose, cur_addr-Related,
}
use mini_os.Assembler.Related.Operands.{SameOperand, alike}

module _ {R : Simulation} where
  pub emit16-Related : (v w : ℕ) → Related R Any (emit16 v) (emit16 w)
  unfolding emit16
  emit16-Related v w = search (Related-then, emit8-Related)

  pub emit32-Related : (v w : ℕ) → Related R Any (emit32 v) (emit32 w)
  unfolding emit32
  emit32-Related v w = search (Related-then, emit16-Related)

  pub Related-Loose :
      {B : Type 0} {W : B → B → Type 0} (f g : Run ℕ) (k l : ℕ → Run B)
      → Related R Loose f g
      → ((v w : ℕ) → Related R W (k v) (l w))
      → Related R W (f >>= k) (g >>= l)
  Related-Loose f g k l h hk = Related-bind f g k l h λ v w _. hk v w

pub ruleset emit_rules = (
  Related-pure, Related-then, Related-if, Related-Loose, err-Related, done-Related, emit8-Related,
  emit16-Related, emit32-Related, cur_addr-Related,
)

fits_same :
    (d e : Expr)
    → SameExpr d e
    → (not d.has_sym && byte_value d.val) ≡ (not e.has_sym && byte_value e.val)
fits_same _ _ (known e) = refl
fits_same _ _ (symbolic v w) = refl

tests_same :
    (a b : Operand)
    → SameOperand a b
    → (is_reg a ≡ is_reg b)
      × (is_imm a ≡ is_imm b)
      × (is_mem a ≡ is_mem b)
      × (is_absolute a ≡ is_absolute b)
      × (is_acc a ≡ is_acc b)
unfolding is_reg is_imm is_mem is_absolute is_acc
tests_same _ _ (alike o n d e h) = (refl, refl, refl, refl, refl)

pub is_reg_same : (a b : Operand) → SameOperand a b → is_reg a ≡ is_reg b
is_reg_same a b h = (tests_same a b h).0

pub is_imm_same : (a b : Operand) → SameOperand a b → is_imm a ≡ is_imm b
is_imm_same a b h = (tests_same a b h).1

pub is_mem_same : (a b : Operand) → SameOperand a b → is_mem a ≡ is_mem b
is_mem_same a b h = (tests_same a b h).2

pub is_absolute_same : (a b : Operand) → SameOperand a b → is_absolute a ≡ is_absolute b
is_absolute_same a b h = (tests_same a b h).3

pub is_acc_same : (a b : Operand) → SameOperand a b → is_acc a ≡ is_acc b
is_acc_same a b h = (tests_same a b h).4

pub not_same : (b c : Bool) → b ≡ c → not b ≡ not c
not_same b c e = ap not e

pub and_same : (a b c d : Bool) → a ≡ b → c ≡ d → (a && c) ≡ (b && d)
and_same a b c d e f = ap (λ x. x && c) e ∙ ap (b &&◌) f

pub or_same : (a b c d : Bool) → a ≡ b → c ≡ d → (a || c) ≡ (b || d)
or_same a b c d e f = ap (λ x. x || c) e ∙ ap (b ||◌) f

pub imm_fits8_same : (a b : Operand) → SameOperand a b → imm_fits8 a ≡ imm_fits8 b
unfolding imm_fits8
imm_fits8_same _ _ (alike o n d e h) = fits_same d e h

pub ruleset test_rules = (
  is_reg_same, is_imm_same, is_mem_same, is_absolute_same, is_acc_same, imm_fits8_same, not_same,
  and_same, or_same, alike,
)

mod_of_same : (a b : Operand) (base : ℕ) → SameOperand a b → mod_of a base ≡ mod_of b base
unfolding mod_of
mod_of_same _ _ base (alike o n _ _ (known e)) = refl
mod_of_same _ _ base (alike o n _ _ (symbolic v w)) = refl

scale_bits_state : (n : ℕ) (s : Asm) → ((scale_bits n s).1 ≡ s) ⊎ ((scale_bits n s).1 ≡ (err s).1)
unfolding scale_bits ◌>>=◌ pure
scale_bits_state n s = ground arith

module _ {R : Simulation} where
  scale_bits-Related : (n m : ℕ) → Related R Loose (scale_bits n) (scale_bits m)
  scale_bits-Related n m = record {
    value = λ s t r. tt;
    state = λ s t r.
        left_state R _ s _ (scale_bits_state n s) (right_state R _ s t (scale_bits_state m t) r);
  }

  emit_sib-Related : (n m i j b c : ℕ) → Related R Any (emit_sib n i b) (emit_sib m j c)
  unfolding emit_sib
  emit_sib-Related n m i j b c = search (emit_rules, scale_bits-Related)

  emit_disp-Related : (f g v w : ℕ) → f ≡ g → Related R Any (emit_disp f v) (emit_disp g w)
  unfolding emit_disp
  emit_disp-Related f g v w e = search (emit_rules, ap (λ x. x == 1) e, ap (λ x. x == 2) e)

  pub op_by_size-Related : (n a b c d : ℕ) → Related R Any (op_by_size n a b) (op_by_size n c d)
  unfolding op_by_size
  op_by_size-Related n a b c d = search emit_rules

  pub emit_imm-Related : (n v w : ℕ) → Related R Any (emit_imm n v) (emit_imm n w)
  unfolding emit_imm
  emit_imm-Related n v w = search emit_rules

  emit_based-Related :
      (r q : ℕ) (a b : Operand) (base : ℕ)
      → SameOperand a b
      → Related R Any (emit_based r a base) (emit_based q b base)
  unfolding emit_based
  emit_based-Related r q a b base (alike o n d e h) =
      search
        (emit_rules, emit_sib-Related, emit_disp-Related, mod_of_same _ _ base (alike o n d e h))

  emit_unbased-Related :
      (r q : ℕ) (a b : Operand) (i : Option ℕ)
      → Related R Any (emit_unbased r a i) (emit_unbased q b i)
  unfolding emit_unbased
  emit_unbased-Related r q a b none = search emit_rules
  emit_unbased-Related r q a b (some i) = search (emit_rules, emit_sib-Related)

  emit_mem-Related :
      (r q : ℕ) (a b : Operand) (base : Option ℕ)
      → SameOperand a b
      → Related R Any (emit_mem r a base) (emit_mem q b base)
  unfolding emit_mem
  emit_mem-Related r q _ _ none (alike o n d e h) = emit_unbased-Related r q _ _ o.index
  emit_mem-Related r q a b (some base) h = emit_based-Related r q a b base h

  emit_mem_at :
      (r q : ℕ) (a b : Operand)
      → SameOperand a b
      → Related R Any (emit_mem r a a.base) (emit_mem q b b.base)
  emit_mem_at r q _ _ (alike o n d e h) = emit_mem-Related r q _ _ o.base (alike o n d e h)

  pub emit_modrm-Related :
      (r q : ℕ) (a b : Operand) → SameOperand a b → Related R Any (emit_modrm r a) (emit_modrm q b)
  unfolding emit_modrm
  emit_modrm-Related r q a b h = search (emit_rules, test_rules, emit_mem_at) depth 12

  rel32-Related : (v w x y : ℕ) → Related R Loose (rel32 v x) (rel32 w y)
  unfolding rel32
  rel32-Related v w x y = record { value = λ s t r. tt; state = λ s t r. r }

  pub emit_rel32-Related : (d e : Expr) → Related R Any (emit_rel32 d) (emit_rel32 e)
  unfolding emit_rel32
  emit_rel32-Related d e = search (emit_rules, rel32-Related)

pub ruleset insn_rules = (
  emit_rules, test_rules, op_by_size-Related, emit_imm-Related, emit_rel32-Related,
  emit_modrm-Related,
)
