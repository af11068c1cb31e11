-- ===== src/Assembler/Directives.antt =====
-- The directives of the assembler, user/as.c. Loops over a line go on `max_line` rounds: each takes
-- a character of the line.
use mini_os.Base.{
  ℕ, zero, suc, ◌-◌, ◌%◌, Bool, true, false, not, ◌&&◌, ◌||◌, ◌==◌, ltb, leb, if◌then◌else◌, List,
  [], ◌∷◌, Option, none, some, get_or, set, drop,
}
use mini_os.Base.Words.{add32, mul32, u32_mod}
use mini_os.Base.Bytes.{fill}
use Prim.Native.String.{String}
use mini_os.Assembler.{
  Asm, Run, ◌>>=◌, ◌>>◌, pure, done, err, cursor, move, is, Section, sec_text, sec_data, sec_bss,
  sec_len, emit8, emit16, emit32, max_line,
}
use mini_os.Assembler.Lexer.{
  sym_intern, no_sym, first, skip_ws, peek, advance, eat, read_name, char_value, esc_char,
}
use mini_os.Assembler.Expressions.{parse_expr}

-- The bytes of a string, up to its closing quote or the line's end, and what follows; the flag is
-- set behind a backslash.
unfoldable pub string_chars : Bool → List ℕ → List ℕ × List ℕ
unfolding esc_char char_value
string_chars escaped [] = ([], [])
string_chars true (c ∷ p) = let r = string_chars false p in (esc_char c ∷ r.0, r.1)
string_chars false (c ∷ p) =
    let plain = string_chars false p in
    let behind = string_chars true p in
    if (c == 0) || (c == b'"')
    then ([], c ∷ p)
    else if (c == b'\\') && not (first p == 0)
    then behind
    else (char_value c ∷ plain.0, plain.1)

unfoldable pub emit_all : List ℕ → Run (Unit {0})
emit_all [] = done
emit_all (b ∷ bs) = do emit8 b; emit_all bs

-- `if (*lp == c) lp++`
unfoldable pub step_over : ℕ → Run (Unit {0})
step_over c = do p ← cursor; move (if first p == c then drop 1 p else p)

unfoldable pub one_string : Bool → Run (Unit {0})
unfolding string_chars
one_string terminate = do
  p ← cursor
  emit_all ((string_chars false p).0)
  move ((string_chars false p).1)
  step_over b'"'
  if terminate then emit8 0 else done

-- A round of the loop of `emit_string`, before the rounds that follow.
unfoldable pub string_round : Bool → Run (Unit {0}) → Run (Unit {0})
string_round terminate later = do
  skip_ws
  c ← peek
  if not (c == b'"') then err else (do
    advance 1
    one_string terminate
    skip_ws
    d ← peek
    if d == b',' then (do advance 1; later) else done)

unfoldable pub emit_string : ℕ → Bool → Run (Unit {0})
emit_string zero terminate = done
emit_string (suc n) terminate = string_round terminate (emit_string n terminate)

unfoldable pub emit_value : ℕ → ℕ → Run (Unit {0})
emit_value w v = if w == 1 then emit8 (v % 256) else if w == 2 then emit16 (v % 65536) else emit32 v

-- A round of the loop of `.byte`, `.word` and `.long`.
unfoldable pub value_round : ℕ → Run (Unit {0}) → Run (Unit {0})
value_round w later = do
  e ← parse_expr
  emit_value w e.val
  skip_ws
  c ← peek
  if c == b',' then (do advance 1; later) else done

unfoldable pub emit_values : ℕ → ℕ → Run (Unit {0})
emit_values zero w = done
emit_values (suc n) w = value_round w (emit_values n w)

-- An int that is a count: none where it is negative.
unfoldable pub rounds : ℕ → ℕ
rounds v = if ltb v 2147483648 then v else 0

unfoldable pub emit_times : ℕ → ℕ → Run (Unit {0})
emit_times zero fill = done
emit_times (suc n) fill = do emit8 fill; emit_times n fill

-- `cur_sec == SEC_BSS ? x : y`
unfoldable pub in_bss : {A : Type 0} → Section → A → A → A
in_bss sec_bss x y = x
in_bss sec_text x y = y
in_bss sec_data x y = y

unfoldable pub reserve : ℕ → ℕ → Run (Unit {0})
unfolding rounds
reserve n fill s =
    in_bss s.cur_sec (tt, record s { bss_len = add32 s.bss_len n }) (emit_times (rounds n) fill s)

unfoldable pub fill_value : Run ℕ
fill_value = do
  skip_ws
  c ← peek
  if c == b',' then (do advance 1; e ← parse_expr; pure e.val) else pure 0

unfoldable pub space : Run (Unit {0})
space = do n ← parse_expr; if n.has_sym then err else (do fill ← fill_value; reserve n.val fill)

-- `len % align != 0`, for an int `len` and a positive `align`.
unfoldable pub misaligned : ℕ → ℕ → Bool
misaligned align len = not ((if ltb len 2147483648 then len else u32_mod - len) % align == 0)

-- A byte of padding.
unfoldable pub pad_in : Section → Run (Unit {0})
pad_in sec_bss s = (tt, record s { bss_len = add32 s.bss_len 1 })
pad_in sec_text s = emit8 0x90 s
pad_in sec_data s = emit8 0 s

unfoldable pub pad : Run (Unit {0})
unfolding pad_in
pad s = pad_in s.cur_sec s

-- The loop of `.align`, for `align` rounds, which is enough where every round adds a byte. The
-- source's loop does not end where a full buffer takes no byte in pass 2; each round here leaves an
-- error then.
unfoldable pub pad_loop : ℕ → ℕ → Run (Unit {0})
unfolding misaligned sec_len
pad_loop zero align s = (tt, s)
pad_loop (suc n) align s = elim (misaligned align (sec_len s.cur_sec s)) [
  | true ↦ (pad >>= λ _. pad_loop n align) s
  | false ↦ (tt, s)
]

unfoldable pub doubled : ℕ → ℕ
doubled zero = 1
doubled (suc n) = mul32 (doubled n) 2

unfoldable pub alignment : Bool → ℕ → ℕ
unfolding doubled rounds
alignment power v = if power then doubled (rounds v) else v

unfoldable pub pad_to : ℕ → Run (Unit {0})
pad_to align = if ltb align 2 || leb 2147483648 align then done else pad_loop align align

unfoldable pub align_to : Bool → Run (Unit {0})
unfolding alignment
align_to power = do e ← parse_expr; pad_to (alignment power e.val)

unfoldable pub equ_at : ℕ → Option ℕ → Asm → Asm
equ_at v none s = s
equ_at v (some i) s = record s {
  syms = set s.syms i (record (get_or s.syms i no_sym) { is_abs = true; defined = true; addr = v });
}

-- Only the symbols and the errors change.
unfoldable pub define_equ : List ℕ → ℕ → Run (Unit {0})
unfolding sym_intern equ_at
define_equ name v s =
    let r = sym_intern name s in
    let t = equ_at v (r.0) (r.1) in (tt, record s { syms = t.syms; err_count = t.err_count })

abbrev pub is_empty : List ℕ → Bool
is_empty [] = true
is_empty _ = false

unfoldable pub equ : Run (Unit {0})
equ = do
  name ← read_name 32
  if is_empty name
      then err
      else (do ok ← eat b','; if not ok then err else (do v ← parse_expr; define_equ name v.val))

unfoldable pub set_section : Section → Run (Unit {0})
set_section sec s = (tt, record s { cur_sec = sec })

pub data Directive : Type 0 where
  section : Section → Directive
  values : ℕ → Directive
  ascii align : Bool → Directive
  ignored spaced assigned unknown : Directive

abbrev pub directives : List (String × Directive)
directives =
    (".text", section sec_text)
    ∷ (".data", section sec_data)
    ∷ (".bss", section sec_bss)
    ∷ (".globl", ignored)
    ∷ (".global", ignored)
    ∷ (".extern", ignored)
    ∷ (".type", ignored)
    ∷ (".size", ignored)
    ∷ (".section", ignored)
    ∷ (".code32", ignored)
    ∷ (".file", ignored)
    ∷ (".ident", ignored)
    ∷ (".byte", values 1)
    ∷ (".word", values 2)
    ∷ (".short", values 2)
    ∷ (".long", values 4)
    ∷ (".int", values 4)
    ∷ (".ascii", ascii false)
    ∷ (".asciz", ascii true)
    ∷ (".string", ascii true)
    ∷ (".space", spaced)
    ∷ (".skip", spaced)
    ∷ (".align", align false)
    ∷ (".balign", align false)
    ∷ (".p2align", align true)
    ∷ (".equ", assigned)
    ∷ (".set", assigned)
    ∷ []

unfoldable pub directive_of : List ℕ → List (String × Directive) → Directive
unfolding is
directive_of d [] = unknown
directive_of d ((t, k) ∷ ts) = let later = directive_of d ts in if is d t then k else later

unfoldable pub run_directive : Directive → Run (Unit {0})
run_directive (section sec) = set_section sec
run_directive (values w) = emit_values max_line w
run_directive (ascii terminate) = emit_string max_line terminate
run_directive (align power) = align_to power
run_directive ignored = done
run_directive spaced = space
run_directive assigned = equ
run_directive unknown = err

unfoldable pub do_directive : List ℕ → Run (Unit {0})
unfolding directive_of
do_directive d = run_directive (directive_of d directives)
