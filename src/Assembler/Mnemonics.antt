-- ===== src/Assembler/Mnemonics.antt =====
-- The instructions of the assembler, user/as.c, continued, and the choice among all.
use mini_os.Base.{
  ℕ, ◌+◌, ◌%◌, not, ◌&&◌, ◌||◌, ◌==◌, if◌then◌else◌, List, [], ◌∷◌, Option, none, some,
}
use Prim.Native.String.{String}
use mini_os.Assembler.{Run, ◌>>◌, err, emit8, emit32, is}
use mini_os.Assembler.Operands.{Operand}
use mini_os.Assembler.Encoding.{
  is_reg, is_imm, is_absolute, emit_modrm, imm_fits8, emit_rel32, lookup, alu_ops, cc_after,
  shift_digit, unary_digit,
}
use mini_os.Assembler.Instructions.{
  op_by_size, alu_insn, mov_insn, extend_insn, lea_insn, test_insn, xchg_insn, push_insn, pop_insn,
  inc_insn, unary_insn,
}

unfoldable pub imul_insn : Operand → Operand → Operand → ℕ → Run (Unit {0})
imul_insn a b c nops =
    if nops == 1
    then (do emit8 0xF7; emit_modrm 5 a)
    else if (nops == 2) && is_reg b
    then (do emit8 0x0F; emit8 0xAF; emit_modrm b.reg a)
    else if (nops == 3) && is_imm a && is_reg c
    then (if imm_fits8 a
        then (do emit8 0x6B; emit_modrm c.reg b; emit8 (a.disp.val % 256))
        else (do emit8 0x69; emit_modrm c.reg b; emit32 a.disp.val))
    else err

unfoldable pub shift_insn : ℕ → Operand → Operand → ℕ → ℕ → Run (Unit {0})
shift_insn digit a b nops size =
    if nops == 1
    then (do op_by_size size 0xD0 0xD1; emit_modrm digit a)
    else if (nops == 2) && is_imm a
    then (if not a.disp.has_sym && (a.disp.val == 1)
        then (do op_by_size size 0xD0 0xD1; emit_modrm digit b)
        else (do op_by_size size 0xC0 0xC1; emit_modrm digit b; emit8 (a.disp.val % 256)))
    else if (nops == 2) && is_reg a && (a.reg == 1) && (a.size == 1)
    then (do op_by_size size 0xD2 0xD3; emit_modrm digit b)
    else err

-- `jmp` and `call`, by the opcode with a rel32 and the digit of the indirect form.
unfoldable pub branch_insn : ℕ → ℕ → Operand → ℕ → Run (Unit {0})
branch_insn op digit a nops =
    if not (nops == 1)
    then err
    else if is_absolute a
    then (do emit8 op; emit_rel32 a.disp)
    else (do emit8 0xFF; emit_modrm digit a)

unfoldable pub jcc_insn : ℕ → Operand → ℕ → Run (Unit {0})
jcc_insn cc a nops =
    if not (nops == 1) then err else (do emit8 0x0F; emit8 (0x80 + cc); emit_rel32 a.disp)

unfoldable pub setcc_insn : ℕ → Operand → ℕ → Run (Unit {0})
setcc_insn cc a nops =
    if not (nops == 1) then err else (do emit8 0x0F; emit8 (0x90 + cc); emit_modrm 0 a)

unfoldable pub int_insn : Operand → ℕ → Run (Unit {0})
int_insn a nops =
    if not (nops == 1) || not (is_imm a) then err else (do emit8 0xCD; emit8 (a.disp.val % 256))

-- The instructions without operands.
abbrev pub plain_ops : List (String × ℕ)
plain_ops =
    ("ret", 0xC3)
    ∷ ("leave", 0xC9)
    ∷ ("nop", 0x90)
    ∷ ("hlt", 0xF4)
    ∷ ("cdq", 0x99)
    ∷ ("cltd", 0x99)
    ∷ ("cwde", 0x98)
    ∷ ("cwtl", 0x98)
    ∷ ("pushal", 0x60)
    ∷ ("pusha", 0x60)
    ∷ ("popal", 0x61)
    ∷ ("popa", 0x61)
    ∷ ("pushfl", 0x9C)
    ∷ ("pushf", 0x9C)
    ∷ ("popfl", 0x9D)
    ∷ ("popf", 0x9D)
    ∷ []

-- Which part of `asm_insn` a mnemonic belongs to, with the numbers that the part takes from it.
pub data Group : Type 0 where
  alu unary shift : ℕ → Group
  extend inc jcc setcc cmov plain : ℕ → Group
  branch : ℕ → ℕ → Group
  mov lea test xchg push pop imul int unknown : Group

unfoldable pub found : (ℕ → Group) → Option ℕ → Group → Group
found g (some n) other = g n
found g none other = other

-- The order of the tests in `asm_insn`.
unfoldable pub group_of : List ℕ → Group
unfolding is lookup found shift_digit unary_digit cc_after
group_of m = found alu (lookup m alu_ops) (
    if is m "mov"
    then mov
    else found extend (lookup m extend_ops) (
        if is m "lea"
        then lea
        else if is m "test"
        then test
        else if is m "xchg"
        then xchg
        else if is m "push"
        then push
        else if is m "pop"
        then pop
        else found inc (lookup m (("inc", 0) ∷ ("dec", 1) ∷ [])) (
            found unary (unary_digit m) (
              if is m "imul"
              then imul
              else found shift (shift_digit m) (
                  if is m "jmp"
                  then branch 0xE9 4
                  else if is m "call"
                  then branch 0xE8 2
                  else found jcc (cc_after "j" m) (
                      found setcc (cc_after "set" m) (
                        found cmov (cc_after "cmov" m) (
                          found plain (lookup m plain_ops)
                            (if is m "int" then int else unknown)))))))))
  where
    extend_ops : List (String × ℕ)
    extend_ops = ("movzbl", 0xB6) ∷ ("movsbl", 0xBE) ∷ ("movzwl", 0xB7) ∷ ("movswl", 0xBF) ∷ []

unfoldable pub asm_group : Group → Operand → Operand → Operand → ℕ → ℕ → Run (Unit {0})
asm_group (alu digit) a b c nops size = alu_insn digit a b nops size
asm_group mov a b c nops size = mov_insn a b nops size
asm_group (extend op) a b c nops size = extend_insn op a b nops
asm_group lea a b c nops size = lea_insn a b nops
asm_group test a b c nops size = test_insn a b nops size
asm_group xchg a b c nops size = xchg_insn a b nops size
asm_group push a b c nops size = push_insn a nops
asm_group pop a b c nops size = pop_insn a nops
asm_group (inc digit) a b c nops size = inc_insn digit a nops size
asm_group (unary digit) a b c nops size = unary_insn digit a nops size
asm_group imul a b c nops size = imul_insn a b c nops
asm_group (shift digit) a b c nops size = shift_insn digit a b nops size
asm_group (branch op digit) a b c nops size = branch_insn op digit a nops
asm_group (jcc cc) a b c nops size = jcc_insn cc a nops
asm_group (setcc cc) a b c nops size = setcc_insn cc a nops
asm_group (cmov cc) a b c nops size = extend_insn (0x40 + cc) a b nops
asm_group (plain op) a b c nops size = emit8 op
asm_group int a b c nops size = int_insn a nops
asm_group unknown a b c nops size = err

unfoldable pub asm_insn : List ℕ → Operand → Operand → Operand → ℕ → ℕ → Run (Unit {0})
unfolding group_of
asm_insn m = asm_group (group_of m)
