-- ===== src/Assembler/Related/Instructions.antt =====
-- The instructions of two related runs, user/as.c.
use mini_os.Base.{ℕ, ◌+◌, ◌≡◌, refl, ap, not, ◌&&◌, ◌==◌, List}
use mini_os.Assembler.Operands.{Operand}
use mini_os.Assembler.Instructions.{
  alu_imm, alu_insn, mov_imm, mov_insn, extend_insn, lea_insn, test_insn, xchg_insn, push_insn,
  pop_insn, inc_insn, unary_insn,
}
use mini_os.Assembler.Mnemonics.{
  imul_insn, shift_insn, branch_insn, jcc_insn, setcc_insn, int_insn, alu, mov, extend, lea, test,
  xchg, push, pop, inc, unary, imul, shift, branch, jcc, setcc, cmov, plain, int, unknown, Group,
  group_of, asm_group, asm_insn,
}
use mini_os.Assembler.Related.{Simulation, Related, Any, err-Related, emit8-Related}
use mini_os.Assembler.Related.Text.{known, symbolic}
use mini_os.Assembler.Related.Operands.{SameOperand, alike}
use mini_os.Assembler.Related.Encoding.{insn_rules}

reg_same : (a p : Operand) → SameOperand a p → (a.reg ≡ p.reg) × (a.size ≡ p.size)
reg_same _ _ (alike o n d e h) = (refl, refl)

reg_is : (a p : Operand) (k : ℕ) → SameOperand a p → (a.reg == k) ≡ (p.reg == k)
reg_is a p k h = ap (λ x. x == k) ((reg_same a p h).0)

size_is : (a p : Operand) (k : ℕ) → SameOperand a p → (a.size == k) ≡ (p.size == k)
size_is a p k h = ap (λ x. x == k) ((reg_same a p h).1)

shift_by_one :
    (a p : Operand)
    → SameOperand a p
    → (not a.disp.has_sym && (a.disp.val == 1)) ≡ (not p.disp.has_sym && (p.disp.val == 1))
shift_by_one _ _ (alike o n _ _ (known e)) = refl
shift_by_one _ _ (alike o n _ _ (symbolic v w)) = refl

ruleset group_rules = (insn_rules, reg_is, size_is, shift_by_one)

module _ {R : Simulation} where
  alu_imm-Related :
      (digit size : ℕ) (a b p q : Operand)
      → SameOperand a p
      → SameOperand b q
      → Related R Any (alu_imm digit a b size) (alu_imm digit p q size)
  unfolding alu_imm
  alu_imm-Related digit size a b p q ha hb = search (group_rules) depth 30 fits 3000

  alu_insn-Related :
      (digit nops size : ℕ) (a b p q : Operand)
      → SameOperand a p
      → SameOperand b q
      → Related R Any (alu_insn digit a b nops size) (alu_insn digit p q nops size)
  unfolding alu_insn
  alu_insn-Related digit nops size a b p q ha hb =
      search (group_rules, alu_imm-Related) depth 30 fits 3000

  mov_imm-Related :
      (size : ℕ) (a b p q : Operand)
      → SameOperand a p
      → SameOperand b q
      → Related R Any (mov_imm a b size) (mov_imm p q size)
  unfolding mov_imm
  mov_imm-Related size a b p q ha hb = search (group_rules) depth 30 fits 3000

  mov_insn-Related :
      (nops size : ℕ) (a b p q : Operand)
      → SameOperand a p
      → SameOperand b q
      → Related R Any (mov_insn a b nops size) (mov_insn p q nops size)
  unfolding mov_insn
  mov_insn-Related nops size a b p q ha hb =
      search (group_rules, mov_imm-Related) depth 30 fits 3000

  extend_insn-Related :
      (op nops : ℕ) (a b p q : Operand)
      → SameOperand a p
      → SameOperand b q
      → Related R Any (extend_insn op a b nops) (extend_insn op p q nops)
  unfolding extend_insn
  extend_insn-Related op nops a b p q ha hb = search (group_rules) depth 30 fits 3000

  lea_insn-Related :
      (nops : ℕ) (a b p q : Operand)
      → SameOperand a p
      → SameOperand b q
      → Related R Any (lea_insn a b nops) (lea_insn p q nops)
  unfolding lea_insn
  lea_insn-Related nops a b p q ha hb = search (group_rules) depth 30 fits 3000

  test_insn-Related :
      (nops size : ℕ) (a b p q : Operand)
      → SameOperand a p
      → SameOperand b q
      → Related R Any (test_insn a b nops size) (test_insn p q nops size)
  unfolding test_insn
  test_insn-Related nops size a b p q ha hb = search (group_rules) depth 30 fits 3000

  xchg_insn-Related :
      (nops size : ℕ) (a b p q : Operand)
      → SameOperand a p
      → SameOperand b q
      → Related R Any (xchg_insn a b nops size) (xchg_insn p q nops size)
  unfolding xchg_insn
  xchg_insn-Related nops size a b p q ha hb = search (group_rules) depth 30 fits 3000

  push_insn-Related :
      (nops : ℕ) (a p : Operand)
      → SameOperand a p
      → Related R Any (push_insn a nops) (push_insn p nops)
  unfolding push_insn
  push_insn-Related nops a p ha = search (group_rules) depth 30 fits 3000

  pop_insn-Related :
      (nops : ℕ) (a p : Operand)
      → SameOperand a p
      → Related R Any (pop_insn a nops) (pop_insn p nops)
  unfolding pop_insn
  pop_insn-Related nops a p ha = search (group_rules) depth 30 fits 3000

  inc_insn-Related :
      (digit nops size : ℕ) (a p : Operand)
      → SameOperand a p
      → Related R Any (inc_insn digit a nops size) (inc_insn digit p nops size)
  unfolding inc_insn
  inc_insn-Related digit nops size a p ha = search (group_rules) depth 30 fits 3000

  unary_insn-Related :
      (digit nops size : ℕ) (a p : Operand)
      → SameOperand a p
      → Related R Any (unary_insn digit a nops size) (unary_insn digit p nops size)
  unfolding unary_insn
  unary_insn-Related digit nops size a p ha = search (group_rules) depth 30 fits 3000

  imul_insn-Related :
      (nops : ℕ) (a b c p q r : Operand)
      → SameOperand a p
      → SameOperand b q
      → SameOperand c r
      → Related R Any (imul_insn a b c nops) (imul_insn p q r nops)
  unfolding imul_insn
  imul_insn-Related nops a b c p q r ha hb hc = search (group_rules) depth 30 fits 3000

  shift_insn-Related :
      (digit nops size : ℕ) (a b p q : Operand)
      → SameOperand a p
      → SameOperand b q
      → Related R Any (shift_insn digit a b nops size) (shift_insn digit p q nops size)
  unfolding shift_insn
  shift_insn-Related digit nops size a b p q ha hb = search (group_rules) depth 30 fits 3000

  branch_insn-Related :
      (op digit nops : ℕ) (a p : Operand)
      → SameOperand a p
      → Related R Any (branch_insn op digit a nops) (branch_insn op digit p nops)
  unfolding branch_insn
  branch_insn-Related op digit nops a p ha = search (group_rules) depth 30 fits 3000

  jcc_insn-Related :
      (cc nops : ℕ) (a p : Operand)
      → SameOperand a p
      → Related R Any (jcc_insn cc a nops) (jcc_insn cc p nops)
  unfolding jcc_insn
  jcc_insn-Related cc nops a p ha = search (group_rules) depth 30 fits 3000

  setcc_insn-Related :
      (cc nops : ℕ) (a p : Operand)
      → SameOperand a p
      → Related R Any (setcc_insn cc a nops) (setcc_insn cc p nops)
  unfolding setcc_insn
  setcc_insn-Related cc nops a p ha = search (group_rules) depth 30 fits 3000

  int_insn-Related :
      (nops : ℕ) (a p : Operand)
      → SameOperand a p
      → Related R Any (int_insn a nops) (int_insn p nops)
  unfolding int_insn
  int_insn-Related nops a p ha = search (group_rules) depth 30 fits 3000

  asm_group-Related :
      (g : Group) (nops size : ℕ) (a b c p q r : Operand)
      → SameOperand a p
      → SameOperand b q
      → SameOperand c r
      → Related R Any (asm_group g a b c nops size) (asm_group g p q r nops size)
  unfolding asm_group
  asm_group-Related (alu digit) nops size a b c p q r ha hb hc =
      alu_insn-Related digit nops size a b p q ha hb
  asm_group-Related mov nops size a b c p q r ha hb hc = mov_insn-Related nops size a b p q ha hb
  asm_group-Related (extend op) nops size a b c p q r ha hb hc =
      extend_insn-Related op nops a b p q ha hb
  asm_group-Related lea nops size a b c p q r ha hb hc = lea_insn-Related nops a b p q ha hb
  asm_group-Related test nops size a b c p q r ha hb hc = test_insn-Related nops size a b p q ha hb
  asm_group-Related xchg nops size a b c p q r ha hb hc = xchg_insn-Related nops size a b p q ha hb
  asm_group-Related push nops size a b c p q r ha hb hc = push_insn-Related nops a p ha
  asm_group-Related pop nops size a b c p q r ha hb hc = pop_insn-Related nops a p ha
  asm_group-Related (inc digit) nops size a b c p q r ha hb hc =
      inc_insn-Related digit nops size a p ha
  asm_group-Related (unary digit) nops size a b c p q r ha hb hc =
      unary_insn-Related digit nops size a p ha
  asm_group-Related imul nops size a b c p q r ha hb hc =
      imul_insn-Related nops a b c p q r ha hb hc
  asm_group-Related (shift digit) nops size a b c p q r ha hb hc =
      shift_insn-Related digit nops size a b p q ha hb
  asm_group-Related (branch op digit) nops size a b c p q r ha hb hc =
      branch_insn-Related op digit nops a p ha
  asm_group-Related (jcc cc) nops size a b c p q r ha hb hc = jcc_insn-Related cc nops a p ha
  asm_group-Related (setcc cc) nops size a b c p q r ha hb hc = setcc_insn-Related cc nops a p ha
  asm_group-Related (cmov cc) nops size a b c p q r ha hb hc =
      extend_insn-Related (0x40 + cc) nops a b p q ha hb
  asm_group-Related (plain op) nops size a b c p q r ha hb hc = emit8-Related op op
  asm_group-Related int nops size a b c p q r ha hb hc = int_insn-Related nops a p ha
  asm_group-Related unknown nops size a b c p q r ha hb hc = err-Related

  pub asm_insn-Related :
      (m : List ℕ) (nops size : ℕ) (a b c p q r : Operand)
      → SameOperand a p
      → SameOperand b q
      → SameOperand c r
      → Related R Any (asm_insn m a b c nops size) (asm_insn m p q r nops size)
  unfolding asm_insn
  asm_insn-Related m = asm_group-Related (group_of m)
