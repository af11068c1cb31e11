-- ===== src/Assembler/Tests.antt =====
-- The assembler on small sources, user/as.c.
use mini_os.Base.{
  ℕ, ◌==◌, if◌then◌else◌, ◌+◌, ◌≤◌, ◌≡◌, refl, arith, List, [], ◌∷◌, ◌++◌, some, length,
}
use mini_os.Base.Bytes.{Memory, read_bytes}
use mini_os.Assembler.{
  Asm, codes, sec_text, same, is, ◌>>=◌, pure, done, err, cursor, move, emit_text, emit_data,
  emit_in, emit8, emit16, emit32, sec_len, base_of, cur_addr,
}
use mini_os.Assembler.Lexer.{
  find_sym, sym_find, add_sym, sym_intern, is_space_ch, is_dig, is_sym_start, is_sym_ch, after_ws,
  skip_ws, peek, advance, eat, name_chars, read_name, char_value, esc_char,
}
use mini_os.Assembler.Expressions.{
  char_constant, digit_of, digits, number, resolved, sym_value, symbol, here, bad_expression,
  value_of, closed_by_paren, atom_body, expr_loop, parse_atom, parse_expr,
}
use mini_os.Assembler.Operands.{
  Operand, place, or_else, sized, reg_lookup, known_register, parse_reg_operand, checked,
  mem_register, mem_scale, mem_end, with_index, with_base, mem_disp, mem_operand, reg_operand,
  parse_operand,
}
use mini_os.Assembler.Encoding.{
  is_kind, is_reg, is_imm, is_mem, absent, is_absolute, scale_bits, byte_value, mod_of, emit_sib,
  emit_disp, emit_based, emit_unbased, emit_mem, emit_modrm, imm_fits8, rel32, emit_rel32, lookup,
  cc_lookup, cc_after, shift_digit, unary_digit,
}
use mini_os.Assembler.Instructions.{
  op_by_size, emit_imm, is_acc, alu_imm, alu_insn, mov_imm, mov_insn, extend_insn, lea_insn,
  test_insn, xchg_insn, push_insn, pop_insn, inc_insn, unary_insn,
}
use mini_os.Assembler.Mnemonics.{
  imul_insn, shift_insn, branch_insn, jcc_insn, setcc_insn, int_insn, found, group_of, asm_group,
  asm_insn,
}
use mini_os.Assembler.Directives.{
  string_chars, emit_all, step_over, one_string, string_round, emit_string, emit_value, value_round,
  emit_values, rounds, emit_times, in_bss, reserve, fill_value, space, misaligned, pad_in, pad,
  pad_loop, doubled, alignment, pad_to, align_to, equ_at, define_equ, equ, set_section,
  directive_of, run_directive, do_directive,
}
use mini_os.Assembler.Lines.{
  ends_line, place_label, define_label, label_round, labels, suffix_size, is_stem, stem_of,
  after_operand, operands, width, instruction, dotted, statement, mnemonic, behind_mnemonic,
  asm_line,
}
use mini_os.Assembler.Passes.{
  Outcome, image, errors, too_large, take_line, skip_newline, fill_line, after_line, pass_loop,
  pass_start, between_passes, run_pass, sym_addr, layout, defined_sym, entry_of, put_half,
  elf_header, build_elf, written, emitted, ending, assemble,
}
use mini_os.Assembler.Layout.{assemble_sizes}
use mini_os.Assembler.Layout.Sources.{constant_align, constant_for, ConstantAligns, OwnLines}
use mini_os.Assembler.Agree.{SameSizes}
use mini_os.Assembler.Expressions.{constant}
use mini_os.Assembler.Modrm.{append_bytes, memory, read_modrm}
use mini_os.Assembler.Modrm.ReadBack.{emit_modrm-read_modrm}
use mini_os.Assembler.Kept.{WithinImage, lines_of_pass, assemble-WithinImage, assemble_errors}

abbrev blank : Asm
blank = record {
  syms = [];
  text_buf = λ _. 0;
  data_buf = λ _. 0;
  text_len = 0;
  data_len = 0;
  bss_len = 0;
  cur_sec = sec_text;
  pass = 0;
  base_text = 0;
  base_data = 0;
  base_bss = 0;
  lp = [];
  line = [];
  err_count = 0;
}

-- What the three passes find in the line's buffer: what a pass before them left there.
abbrev stale : ℕ → List ℕ
stale pass = if pass == 0 then [] else codes "x: .long 5\0 4"

-- Everything that the assembler calls unfolds with this.
unfoldable run : List ℕ → Outcome
unfolding same is ◌>>=◌ pure done err cursor move emit_text emit_data emit_in emit8 emit16 emit32
    sec_len base_of cur_addr find_sym sym_find add_sym sym_intern is_space_ch is_dig is_sym_start
    is_sym_ch after_ws skip_ws peek advance eat name_chars read_name char_value esc_char
    char_constant digit_of digits number resolved sym_value symbol here bad_expression value_of
    closed_by_paren atom_body expr_loop parse_atom parse_expr place or_else sized reg_lookup
    known_register parse_reg_operand checked mem_register mem_scale mem_end with_index with_base
    mem_disp mem_operand reg_operand parse_operand is_kind is_reg is_imm is_mem absent is_absolute
    scale_bits byte_value mod_of emit_sib emit_disp emit_based emit_unbased emit_mem emit_modrm
    imm_fits8 rel32 emit_rel32 lookup cc_lookup cc_after shift_digit unary_digit op_by_size emit_imm
    is_acc alu_imm alu_insn mov_imm mov_insn extend_insn lea_insn test_insn xchg_insn push_insn
    pop_insn inc_insn unary_insn imul_insn shift_insn branch_insn jcc_insn setcc_insn int_insn found
    group_of asm_group asm_insn string_chars emit_all step_over one_string string_round emit_string
    emit_value value_round emit_values rounds emit_times in_bss reserve fill_value space misaligned
    pad_in pad pad_loop doubled alignment pad_to align_to equ_at define_equ equ set_section
    directive_of run_directive do_directive ends_line place_label define_label label_round labels
    suffix_size is_stem stem_of after_operand operands width instruction dotted statement mnemonic
    behind_mnemonic asm_line take_line skip_newline fill_line after_line pass_loop run_pass sym_addr
    layout defined_sym entry_of put_half elf_header build_elf written emitted ending assemble
    constant_align constant_for
run src = assemble src stale blank

abbrev bytes : Outcome → ℕ × List ℕ
bytes (image n m s) = (n, read_bytes m 84 30)
bytes (errors s) = (s.err_count, [])
bytes (too_large s) = (0, [])

abbrev program : List ℕ
program =
    codes
      "_start: movl x+1, %ebx\n mov 8(%ebp,%ecx,4), %eax # c\n jmp _start\n.data\n.align 4\nx: .long 5"

-- The state behind the passes, and what is saved.
abbrev parts : Outcome → ℕ × Memory × Asm
parts (image n m s) = (n, m, s)
parts (errors s) = (0, λ _. 0, s)
parts (too_large s) = (0, λ _. 0, s)

abbrev ended : ℕ × Memory × Asm
ended = parts (assemble program stale blank)

program_image : assemble program stale blank ≡ image (ended.0) (ended.1) (ended.2)
unfolding run
program_image = refl

program_aligns : ConstantAligns (length program) program
unfolding run ConstantAligns
program_aligns = (
  λ s tail. refl,
  (λ s tail. refl, (λ s tail. refl, (λ s tail. refl, (λ s tail. refl, (λ s tail. refl, tt))))),
)

program_own : OwnLines (length program) program (
    pass_start 2
      (stale 2)
      (between_passes program (stale 1) (layout (run_pass 1 program (stale 0) blank))))
unfolding run OwnLines
program_own = (
  λ before. refl,
  (λ before. refl, (λ before. refl, (λ before. refl, (λ before. refl, (λ before. refl, tt))))),
)

assemble_sizes_example :
    SameSizes (run_pass 1 program (stale 0) blank) (ended.2)
    × (ended.0
        ≡ 84
          + (run_pass 1 program (stale 0) blank).text_len
          + (run_pass 1 program (stale 0) blank).data_len)
assemble_sizes_example =
    assemble_sizes program stale blank (ended.0) (ended.1) (ended.2) program_aligns program_own
      program_image

assemble-WithinImage_example : WithinImage (assemble program stale blank)
assemble-WithinImage_example = assemble-WithinImage program stale blank

assemble_errors_example :
    ((lines_of_pass 3 1 program (stale 0) blank).err_count ≡ 0)
    × ((lines_of_pass 3 2 program (stale 2) (
          between_passes program (stale 1) (layout (run_pass 1 program (stale 0) blank)))).err_count
        ≡ 0)
assemble_errors_example =
    assemble_errors program stale blank (ended.0) 3 (ended.1) (ended.2) (omega arith) program_image

-- An alignment by a symbol: the sizes of the first and of the last pass.
abbrev by_symbol : List ℕ
by_symbol = codes ".equ A, 4\n nop\n.align A\nx: jmp x"

align_by_symbol :
    ((run_pass 1 by_symbol [] blank).text_len ≡ 6)
    × ((parts (assemble by_symbol stale blank)).2.text_len ≡ 9)
unfolding run
align_by_symbol = (refl, refl)

-- A quote at the end of a line: a pass that finds what the pass before left reads the line behind it
-- in the buffer.
abbrev quote_at_end : List ℕ
quote_at_end = codes ".byte '\n#2345678,7"

stale_line :
    let s1 = run_pass 1 quote_at_end [] blank in
    (s1.text_len ≡ 1)
    × (s1.err_count ≡ 0)
    × ((run_pass 2 quote_at_end s1.line s1).text_len ≡ 2)
    × ((run_pass 2 quote_at_end s1.line s1).err_count ≡ 0)
unfolding run
stale_line = (refl, refl, refl, refl)

-- 16-bit operands, an exchange of bytes, an indirect jump and a comma at a line's end.
narrow_operands :
    bytes (run (codes "movw $1, x\nxchg %al,%bl\njmp *x\nmov %eax, \nmov %ax,%bx\nx:")) ≡ (
      103,
      0xC7 ∷ 5 ∷ 103 ∷ 0 ∷ 0 ∷ 0 ∷ 1 ∷ 0 ∷ 0 ∷ 0 ∷ 0x87 ∷ 0xC3 ∷ 0xE9 ∷ 2 ∷ 0 ∷ 0 ∷ 0 ∷ 0x89 ∷ 0xC3
          ∷ 0 ∷ 0 ∷ 0 ∷ 0 ∷ 0 ∷ 0 ∷ 0 ∷ 0 ∷ 0 ∷ 0 ∷ 0 ∷ [],
    )
unfolding run read_bytes
narrow_operands = refl

-- `8(%ebp,%ecx,4)` with register 0.
abbrev second_pass : Asm
second_pass = record blank { pass = 2; text_len = 4 }

abbrev scaled_operand : Operand
scaled_operand = memory (some 5) (some 1) 2 (constant 8)

emit_modrm-read_modrm_example :
    (bs : List ℕ) × (emit_modrm 0 scaled_operand second_pass ≡ (tt, append_bytes bs second_pass))
    × ((rest : List ℕ)
        → read_modrm (bs ++ rest)
          ≡ some (0, record { base = some 5; index = some (1, 4); disp = 8 }, rest))
    × (length bs ≤ 6)
emit_modrm-read_modrm_example =
    emit_modrm-read_modrm 0 2 (some 5) (some 1) (constant 8) second_pass (omega arith)
      (omega arith, λ e. absurd (omega arith)) (omega arith) (omega arith) refl refl (omega arith)
