-- ===== src/Assembler/Lines.antt =====
-- The lines and the two passes of the assembler, and the image it writes, user/as.c.
use mini_os.Base.{
  ℕ, zero, suc, ◌-◌, Bool, true, false, not, ◌&&◌, ◌||◌, ◌==◌, ltb, if◌then◌else◌, List, [], ◌∷◌,
  ◌++◌, Option, none, some, get_or, set, take, length,
}
use Prim.Native.String.{String}
use mini_os.Assembler.{
  Asm, Run, ◌>>=◌, ◌>>◌, pure, done, err, cursor, move, same, codes, sec_len, max_line,
}
use mini_os.Assembler.Lexer.{
  sym_intern, no_sym, first, is_sym_start, skip_ws, peek, advance, read_name,
}
use mini_os.Assembler.Operands.{Operand, no_operand, parse_operand, place}
use mini_os.Assembler.Encoding.{is_reg}
use mini_os.Assembler.Mnemonics.{asm_insn}
use mini_os.Assembler.Directives.{do_directive, is_empty}

-- The end of a line's text, or a comment.
unfoldable pub ends_line : List ℕ → Bool
ends_line p = (first p == 0) || (first p == b'#') || ((first p == b'/') && (get_or p 1 0 == b'/'))

unfoldable pub place_label : Option ℕ → Asm → Asm
unfolding err sec_len
place_label none s = s
place_label (some i) s =
    let found = get_or s.syms i no_sym in
    let t = if found.defined then (err s).1 else s in
    record t {
      syms =
          set t.syms i
            (record found { defined = true; section = s.cur_sec; offset = sec_len s.cur_sec s });
    }

-- A label is defined in pass 1; only the symbols and the errors change.
unfoldable pub define_label : List ℕ → Run (Unit {0})
unfolding sym_intern place_label
define_label name s =
    let r = sym_intern name s in
    let t = if s.pass == 1 then place_label (r.0) (r.1) else s in
    (tt, record s { syms = t.syms; err_count = t.err_count })

-- A round of the loop over the labels, for the text at the cursor; false where the function
-- returns.
unfoldable pub label_round : List ℕ → Run Bool → Run Bool
label_round p later =
    if ends_line p then pure false else if not (is_sym_start (first p)) then pure true else (do
      name ← read_name 32
      skip_ws
      c ← peek
      if c == b':' then (do advance 1; define_label name; later) else (do move p; pure true))

-- The labels in front of a line's text; false where the function returns.
unfoldable pub labels : ℕ → Run Bool
labels zero = pure false
labels (suc n) = do skip_ws; p ← cursor; label_round p (labels n)

abbrev pub stems : List String
stems =
    "mov" ∷ "add" ∷ "or" ∷ "adc" ∷ "sbb" ∷ "and" ∷ "sub" ∷ "xor" ∷ "cmp" ∷ "test" ∷ "lea" ∷ "push"
    ∷ "pop" ∷ "inc" ∷ "dec" ∷ "not" ∷ "neg" ∷ "mul" ∷ "imul" ∷ "div" ∷ "idiv" ∷ "shl" ∷ "sal"
    ∷ "shr" ∷ "sar" ∷ "rol" ∷ "ror" ∷ "xchg" ∷ "cmp" ∷ []

unfoldable pub suffix_size : ℕ → ℕ
suffix_size c = if c == b'l' then 4 else if c == b'w' then 2 else if c == b'b' then 1 else 0

unfoldable pub is_stem : List ℕ → Bool
unfolding place
is_stem t = elim (place t 0 stems) [ some _ ↦ true | none ↦ false ]

-- The mnemonic without its size suffix, and the size, 0 where there is none.
unfoldable pub stem_of : List ℕ → List ℕ × ℕ
unfolding suffix_size is_stem same
stem_of mnem =
    let ml = length mnem in
    let cand = suffix_size (get_or mnem (ml - 1) 0) in
    let t = take (ml - 1) mnem in
    if ltb 2 ml
      && not (cand == 0)
      && not (same (take 4 mnem) (codes "movz"))
      && not (same (take 4 mnem) (codes "movs"))
      && is_stem t
    then (t, cand)
    else (mnem, 0)

-- What follows an operand that was read, with the loop's next round.
unfoldable pub after_operand :
    List Operand
    → (List Operand → Run (Option (List Operand)))
    → Option Operand
    → Run (Option (List Operand))
after_operand ops loop none = pure none
after_operand ops loop (some o) = do
  skip_ws
  c ← peek
  if c == b',' then (do advance 1; loop (ops ++ (o ∷ []))) else pure (some (ops ++ (o ∷ [])))

-- The operands, with room for as many more; none where the function returns.
unfoldable pub operands : ℕ → List Operand → Run (Option (List Operand))
operands zero ops = do p ← cursor; if ends_line p then pure (some ops) else (do err; pure none)
operands (suc k) ops = do
  p ← cursor
  if ends_line p then pure (some ops) else parse_operand max_line >>= after_operand ops (operands k)

-- The width of the last register among the operands, `d` where there is none.
unfoldable pub width : ℕ → List Operand → ℕ
width d [] = d
width d (o ∷ ops) = width (if is_reg o then o.size else d) ops

unfoldable pub instruction : List ℕ → ℕ → Option (List Operand) → Run (Unit {0})
unfolding width
instruction stem size none = done
instruction stem size (some ops) =
    asm_insn stem (get_or ops 0 no_operand) (get_or ops 1 no_operand) (get_or ops 2 no_operand)
      (length ops) (if size == 0 then width 4 ops else size)

-- A line behind its labels and its mnemonic: a directive, if the flag is set, or an instruction.
unfoldable pub dotted : Bool → List ℕ → Run (Unit {0})
unfolding stem_of
dotted true mnem = do_directive mnem
dotted false mnem = do
  skip_ws
  ops ← operands 3 []
  instruction ((stem_of mnem).0) ((stem_of mnem).1) ops

-- A line behind its labels, from the mnemonic on.
unfoldable pub statement : List ℕ → Run (Unit {0})
statement mnem = if is_empty mnem then err else dotted (first mnem == b'.') mnem

-- A line up to its mnemonic, empty where none can be read; none where the function returns.
unfoldable pub mnemonic : Run (Option (List ℕ))
mnemonic = do
  more ← labels max_line
  if not more then pure none else (do
    skip_ws
    p ← cursor
    if (first p == 0) || (first p == b'#')
        then pure none
        else (do mnem ← read_name 32; pure (some mnem)))

unfoldable pub behind_mnemonic : Option (List ℕ) → Run (Unit {0})
behind_mnemonic none = done
behind_mnemonic (some mnem) = statement mnem

unfoldable pub asm_line : Run (Unit {0})
asm_line = mnemonic >>= behind_mnemonic
