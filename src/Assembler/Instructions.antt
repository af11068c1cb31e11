-- ===== src/Assembler/Instructions.antt =====
-- The instructions of the assembler, user/as.c: one function for each part of `asm_insn`. The
-- operands are those of the array, of which `nops` are set.
use mini_os.Base.{ℕ, ◌+◌, ◌*◌, ◌%◌, Bool, not, ◌&&◌, ◌||◌, ◌==◌, if◌then◌else◌}
use mini_os.Assembler.{Run, ◌>>◌, err, emit8, emit32}
use mini_os.Assembler.Operands.{Operand}
use mini_os.Assembler.Encoding.{is_reg, is_imm, is_mem, is_absolute, emit_modrm, imm_fits8}

-- `emit8(size == 1 ? a : b)`
unfoldable pub op_by_size : ℕ → ℕ → ℕ → Run (Unit {0})
op_by_size size a b = emit8 (if size == 1 then a else b)

-- An immediate of the operand's width.
unfoldable pub emit_imm : ℕ → ℕ → Run (Unit {0})
emit_imm size v = if size == 1 then emit8 (v % 256) else emit32 v

-- `o` is register 0.
unfoldable pub is_acc : Operand → Bool
is_acc o = is_reg o && (o.reg == 0)

-- The ALU operation `digit`, whose base opcode is `digit << 3`.
unfoldable pub alu_imm : ℕ → Operand → Operand → ℕ → Run (Unit {0})
alu_imm digit a b size =
    if size == 1
    then (do
      if is_acc b then emit8 (digit * 8 + 4) else (do emit8 0x80; emit_modrm digit b)
      emit8 (a.disp.val % 256))
    else if imm_fits8 a
    then (do emit8 0x83; emit_modrm digit b; emit8 (a.disp.val % 256))
    else if is_acc b
    then (do emit8 (digit * 8 + 5); emit32 a.disp.val)
    else (do emit8 0x81; emit_modrm digit b; emit32 a.disp.val)

unfoldable pub alu_insn : ℕ → Operand → Operand → ℕ → ℕ → Run (Unit {0})
alu_insn digit a b nops size =
    if not (nops == 2)
    then err
    else if is_imm a
    then alu_imm digit a b size
    else if is_reg a
    then (do op_by_size size (digit * 8) (digit * 8 + 1); emit_modrm a.reg b)
    else if is_reg b
    then (do op_by_size size (digit * 8 + 2) (digit * 8 + 3); emit_modrm b.reg a)
    else err

unfoldable pub mov_imm : Operand → Operand → ℕ → Run (Unit {0})
mov_imm a b size =
    if is_reg b
    then (do emit8 (if size == 1 then 0xB0 + b.reg else 0xB8 + b.reg); emit_imm size a.disp.val)
    else (do op_by_size size 0xC6 0xC7; emit_modrm 0 b; emit_imm size a.disp.val)

unfoldable pub mov_insn : Operand → Operand → ℕ → ℕ → Run (Unit {0})
mov_insn a b nops size =
    if not (nops == 2)
    then err
    else if is_absolute a && is_acc b
    then (do op_by_size size 0xA0 0xA1; emit32 a.disp.val)
    else if is_acc a && is_absolute b
    then (do op_by_size size 0xA2 0xA3; emit32 b.disp.val)
    else if is_imm a
    then mov_imm a b size
    else if is_reg a
    then (do op_by_size size 0x88 0x89; emit_modrm a.reg b)
    else if is_reg b
    then (do op_by_size size 0x8A 0x8B; emit_modrm b.reg a)
    else err

-- The loads with an extension, by their second opcode byte.
unfoldable pub extend_insn : ℕ → Operand → Operand → ℕ → Run (Unit {0})
extend_insn op a b nops =
    if not (nops == 2) || not (is_reg b) then err else (do emit8 0x0F; emit8 op; emit_modrm b.reg a)

unfoldable pub lea_insn : Operand → Operand → ℕ → Run (Unit {0})
lea_insn a b nops =
    if not (nops == 2) || not (is_mem a) || not (is_reg b)
    then err
    else (do emit8 0x8D; emit_modrm b.reg a)

unfoldable pub test_insn : Operand → Operand → ℕ → ℕ → Run (Unit {0})
test_insn a b nops size =
    if not (nops == 2)
    then err
    else if is_imm a
    then (do
      if is_acc b then op_by_size size 0xA8 0xA9 else (do op_by_size size 0xF6 0xF7; emit_modrm 0 b)
      emit_imm size a.disp.val)
    else if is_reg a
    then (do op_by_size size 0x84 0x85; emit_modrm a.reg b)
    else if is_reg b
    then (do op_by_size size 0x84 0x85; emit_modrm b.reg a)
    else err

unfoldable pub xchg_insn : Operand → Operand → ℕ → ℕ → Run (Unit {0})
xchg_insn a b nops size =
    if not (nops == 2)
    then err
    else if (size == 4) && is_reg a && is_reg b && ((a.reg == 0) || (b.reg == 0))
    then emit8 (0x90 + (if a.reg == 0 then b.reg else a.reg))
    else if is_reg a
    then (do emit8 0x87; emit_modrm a.reg b)
    else if is_reg b
    then (do emit8 0x87; emit_modrm b.reg a)
    else err

unfoldable pub push_insn : Operand → ℕ → Run (Unit {0})
push_insn a nops =
    if not (nops == 1)
    then err
    else if is_reg a
    then emit8 (0x50 + a.reg)
    else if is_imm a
    then (if imm_fits8 a
        then (do emit8 0x6A; emit8 (a.disp.val % 256))
        else (do emit8 0x68; emit32 a.disp.val))
    else (do emit8 0xFF; emit_modrm 6 a)

unfoldable pub pop_insn : Operand → ℕ → Run (Unit {0})
pop_insn a nops =
    if not (nops == 1)
    then err
    else if is_reg a
    then emit8 (0x58 + a.reg)
    else (do emit8 0x8F; emit_modrm 0 a)

-- `inc` and `dec`: their digit is 0 and 1.
unfoldable pub inc_insn : ℕ → Operand → ℕ → ℕ → Run (Unit {0})
inc_insn digit a nops size =
    if not (nops == 1)
    then err
    else if is_reg a && (size == 4)
    then emit8 (0x40 + digit * 8 + a.reg)
    else (do op_by_size size 0xFE 0xFF; emit_modrm digit a)

unfoldable pub unary_insn : ℕ → Operand → ℕ → ℕ → Run (Unit {0})
unary_insn digit a nops size =
    if not (nops == 1) then err else (do op_by_size size 0xF6 0xF7; emit_modrm digit a)
