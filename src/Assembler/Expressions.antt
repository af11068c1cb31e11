-- ===== src/Assembler/Expressions.antt =====
-- The expressions and the operands of the assembler, user/as.c. The recursion of `parse_atom` and
-- `parse_expr` goes on `max_line` rounds: each takes a character of the line.
use mini_os.Base.{
  ℕ, zero, suc, ◌+◌, ◌-◌, Bool, true, false, not, ◌&&◌, ◌||◌, ◌==◌, leb, if◌then◌else◌, List, [],
  ◌∷◌, Option, none, some, get_or, drop,
}
use mini_os.Base.Words.{add32, sub32, mul32}
use mini_os.Assembler.{Asm, Run, ◌>>=◌, ◌>>◌, pure, err, cursor, move, cur_addr, max_line}
use mini_os.Assembler.Lexer.{
  sym_find, no_sym, first, is_dig, is_sym_start, is_sym_ch, skip_ws, peek, advance, eat, read_name,
  char_value, esc_char,
}

pub record Expr : Type 0 where
  pub val : ℕ
  pub has_sym : Bool

abbrev pub constant : ℕ → Expr
constant v = record { val = v; has_sym = false }

-- A character constant behind its quote: the value and what follows.
unfoldable pub char_constant : List ℕ → ℕ × List ℕ
unfolding esc_char char_value
char_constant p =
    let escaped = first p == b'\\' in
    let v = if escaped then esc_char (get_or p 1 0) else char_value (first p) in
    let rest = if escaped then drop 2 p else drop 1 p in
    (v, if first rest == b'\'' then drop 1 rest else rest)

unfoldable pub digit_of : ℕ → Option ℕ
unfolding is_dig
digit_of c =
    if is_dig c
    then some (c - b'0')
    else if leb b'a' c && leb c b'f'
    then some (c - b'a' + 10)
    else if leb b'A' c && leb c b'F'
    then some (c - b'A' + 10)
    else none

unfoldable pub digits : ℕ → ℕ → List ℕ → ℕ × List ℕ
unfolding digit_of
digits base v [] = (v, [])
digits base v (c ∷ p) = elim (digit_of c) [
  | none ↦ (v, c ∷ p)
  | some d ↦ elim (leb base d) [
    | true ↦ (v, c ∷ p)
    | false ↦ digits base (add32 (mul32 v base) d) p
  ]
]

unfoldable pub number : List ℕ → ℕ × List ℕ
unfolding digits
number p =
    let x = get_or p 1 0 in
    if (first p == b'0') && ((x == b'x') || (x == b'X'))
    then digits 16 0 (drop 2 p)
    else if (first p == b'0') && ((x == b'b') || (x == b'B'))
    then digits 2 0 (drop 2 p)
    else digits 10 0 p

-- The value of a symbol: 0 in pass 1, and with an error where it is not defined in pass 2.
unfoldable pub resolved : List ℕ → Asm → ℕ × Asm
unfolding sym_find err
resolved name s = elim (sym_find name s.syms) [
  | none ↦ (0, (err s).1)
  | some i ↦
      let found = get_or s.syms i no_sym in
      if found.defined then (found.addr, s) else (0, (err s).1)
]

unfoldable pub sym_value : List ℕ → Run ℕ
unfolding resolved
sym_value name s = if s.pass == 2 then resolved name s else (0, s)

unfoldable pub symbol : Run Expr
symbol = do name ← read_name 32; v ← sym_value name; pure (record { val = v; has_sym = true })

unfoldable pub here : Run Expr
here = do advance 1; v ← cur_addr; pure (record { val = v; has_sym = true })

-- `*lp` is stepped over where there is one, so that the caller goes on.
unfoldable pub bad_expression : Run Expr
bad_expression = do err; p ← cursor; move (if first p == 0 then p else drop 1 p); pure (constant 0)

-- `text` behind a value that it starts with.
unfoldable pub value_of : ℕ × List ℕ → Run Expr
value_of r = do move (r.1); pure (constant (r.0))

unfoldable pub closed_by_paren : Expr → Run Expr
closed_by_paren e = do ok ← eat b')'; if ok then pure e else (do err; pure e)

-- The body of `parse_atom`, with its calls of `parse_expr` and of itself.
unfoldable pub atom_body : Run Expr → Run Expr → Run Expr
unfolding char_constant number is_dig is_sym_start is_sym_ch
atom_body expr atom = do
  skip_ws
  p ← cursor
  if first p == b'('
      then (do advance 1; e ← expr; closed_by_paren e)
      else if first p == b'-'
      then (do advance 1; e ← atom; pure (record e { val = sub32 0 e.val }))
      else if first p == b'+'
      then (do advance 1; atom)
      else if first p == b'\''
      then value_of (char_constant (drop 1 p))
      else if is_dig (first p)
      then value_of (number p)
      else if (first p == b'.') && not (is_sym_ch (get_or p 1 0))
      then here
      else if is_sym_start (first p)
      then symbol
      else bad_expression

-- The loop of `parse_expr`.
unfoldable pub expr_loop : ℕ → Run Expr → Expr → Run Expr
expr_loop zero atom e = pure e
expr_loop (suc n) atom e = do
  skip_ws
  c ← peek
  if (c == b'+') || (c == b'-')
      then (do
        advance 1
        r ← atom
        expr_loop n atom (record {
          val = if c == b'-' then sub32 e.val r.val else add32 e.val r.val;
          has_sym = e.has_sym || r.has_sym;
        }))
      else pure e

unfoldable pub parse_atom : ℕ → Run Expr
parse_atom zero = pure (constant 0)
parse_atom (suc n) = atom_body (parse_atom n >>= expr_loop n (parse_atom n)) (parse_atom n)

unfoldable pub parse_expr : Run Expr
parse_expr = parse_atom max_line >>= expr_loop max_line (parse_atom max_line)
