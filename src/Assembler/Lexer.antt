-- ===== src/Assembler/Lexer.antt =====
-- The symbols and the lexer of the assembler, user/as.c.
use mini_os.Base.{
  ℕ, zero, suc, ◌+◌, ◌-◌, Bool, true, false, ◌&&◌, ◌||◌, ◌==◌, ltb, leb, if◌then◌else◌, List, [],
  ◌∷◌, ◌++◌, Option, none, some, get_or, take, drop, length,
}
use mini_os.Assembler.{Sym, Run, ◌>>=◌, ◌>>◌, pure, err, cursor, move, same, sec_text, max_sym}

-- The index of the symbol of that name, none for a null pointer.
unfoldable pub find_sym : List ℕ → ℕ → List Sym → Option ℕ
unfolding same
find_sym name i [] = none
find_sym name i (s ∷ rest) =
    let later = find_sym name (i + 1) rest in if same s.name name then some i else later

unfoldable pub sym_find : List ℕ → List Sym → Option ℕ
unfolding find_sym
sym_find name syms = find_sym name 0 syms

abbrev pub no_sym : Sym
no_sym = record {
  name = [];
  section = sec_text;
  offset = 0;
  addr = 0;
  is_abs = false;
  defined = false;
}

unfoldable pub add_sym : List ℕ → Run (Option ℕ)
unfolding err
add_sym name s = if leb max_sym (length s.syms) then (none, (err s).1) else (
  some (length s.syms),
  record s { syms = s.syms ++ (record no_sym { name = take 31 name } ∷ []) },
)

unfoldable pub sym_intern : List ℕ → Run (Option ℕ)
unfolding sym_find
sym_intern name s = elim (sym_find name s.syms) [ some i ↦ (some i, s) | none ↦ add_sym name s ]

abbrev pub first : List ℕ → ℕ
first p = get_or p 0 0

unfoldable pub is_space_ch : ℕ → Bool
is_space_ch c = (c == b' ') || (c == b'\t') || (c == b'\r')

unfoldable pub is_dig : ℕ → Bool
is_dig c = leb b'0' c && leb c b'9'

unfoldable pub is_sym_start : ℕ → Bool
is_sym_start c =
    (leb b'a' c && leb c b'z')
    || (leb b'A' c && leb c b'Z')
    || (c == b'_')
    || (c == b'.')
    || (c == b'$')

unfoldable pub is_sym_ch : ℕ → Bool
unfolding is_sym_start is_dig
is_sym_ch c = is_sym_start c || is_dig c

unfoldable pub after_ws : List ℕ → List ℕ
unfolding is_space_ch
after_ws [] = []
after_ws (c ∷ p) = let rest = after_ws p in if is_space_ch c then rest else c ∷ p

unfoldable pub skip_ws : Run (Unit {0})
unfolding after_ws
skip_ws = do p ← cursor; move (after_ws p)

-- The character under the cursor.
unfoldable pub peek : Run ℕ
peek = do p ← cursor; pure (first p)

-- `lp += n`
unfoldable pub advance : ℕ → Run (Unit {0})
advance n = do p ← cursor; move (drop n p)

unfoldable pub eat : ℕ → Run Bool
eat c = do skip_ws; d ← peek; if d == c then (do advance 1; pure true) else pure false

-- The loop of `read_name`, for `n` more characters: the name and what follows.
unfoldable pub name_chars : ℕ → List ℕ → List ℕ × List ℕ
unfolding is_sym_ch
name_chars zero p = ([], p)
name_chars (suc n) [] = ([], [])
name_chars (suc n) (c ∷ p) =
    let r = name_chars n p in if is_sym_ch c then (c ∷ r.0, r.1) else ([], c ∷ p)

-- The name, which is empty where the function returns 0.
unfoldable pub read_name : ℕ → Run (List ℕ)
unfolding is_sym_start name_chars
read_name max = do
  skip_ws
  p ← cursor
  if is_sym_start (first p)
      then (do move ((name_chars (max - 1) p).1); pure ((name_chars (max - 1) p).0))
      else pure []

-- A char as an int, in two's complement.
unfoldable pub char_value : ℕ → ℕ
char_value c = if ltb c 128 then c else c + 4294967040

unfoldable pub esc_char : ℕ → ℕ
unfolding char_value
esc_char c =
    if c == b'n'
    then b'\n'
    else if c == b't'
    then b'\t'
    else if c == b'r'
    then b'\r'
    else if c == b'0'
    then 0
    else if c == b'b'
    then 8
    else if c == b'f'
    then 12
    else if c == b'v'
    then 11
    else if c == b'a'
    then 7
    else char_value c
