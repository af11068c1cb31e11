-- ===== src/Libc/Stdio/Parse.antt =====
-- The parsers of integers, fs/lib/stdio.c: the value, as a 32-bit word, and the text behind it.
use mini_os.Base.{
  ℕ, ◌+◌, ◌-◌, Bool, ◌&&◌, ◌||◌, ◌==◌, leb, if◌then◌else◌, List, [], ◌∷◌, Option, none, some,
  get_or, drop,
}
use mini_os.Base.Words.{add32, sub32, mul32}

-- The character at a `char *`.
abbrev pub first : List ℕ → ℕ
first p = get_or p 0 0

unfoldable pub is_space : ℕ → Bool
is_space c = (c == b' ') || (c == b'\t') || (c == b'\n') || (c == b'\r') || (c == 11) || (c == 12)

unfoldable pub is_digit : ℕ → Bool
is_digit c = leb b'0' c && leb c b'9'

-- `hex_val`: none for -1.
unfoldable pub hex_val : ℕ → Option ℕ
hex_val c =
    if is_digit c
    then some (c - b'0')
    else if leb b'a' c && leb c b'f'
    then some (c - b'a' + 10)
    else if leb b'A' c && leb c b'F'
    then some (c - b'A' + 10)
    else none

unfoldable pub skip_ws : List ℕ → List ℕ
skip_ws [] = []
skip_ws (c ∷ p) = let rest = skip_ws p in if is_space c then rest else c ∷ p

-- `while (is_digit(*p)) { v = v * 10 + (*p - '0'); p = p + 1; }`: the value and what is left.
unfoldable pub parse_digits : ℕ → List ℕ → ℕ × List ℕ
parse_digits v [] = (v, [])
parse_digits v (c ∷ p) =
    let rest = parse_digits (add32 (mul32 v 10) (c - b'0')) p in
    if is_digit c then rest else (v, c ∷ p)

-- The value and the text behind it, none for 0.
unfoldable pub parse_uint : List ℕ → Option (ℕ × List ℕ)
parse_uint text =
    let p = skip_ws text in if is_digit (first p) then some (parse_digits 0 p) else none

unfoldable pub parse_int : List ℕ → Option (ℕ × List ℕ)
parse_int text =
    let p = skip_ws text in
    let neg = first p == b'-' in
    let p' = if (first p == b'+') || neg then drop 1 p else p in
    let r = parse_digits 0 p' in
    if is_digit (first p') then some (if neg then sub32 0 (r.0) else r.0, r.1) else none

unfoldable pub parse_hex_digits : ℕ → List ℕ → ℕ × List ℕ
parse_hex_digits v [] = (v, [])
parse_hex_digits v (c ∷ p) = elim (hex_val c) [
  | none ↦ (v, c ∷ p)
  | some d ↦ parse_hex_digits (add32 (mul32 v 16) d) p
]

unfoldable pub parse_hex : List ℕ → Option (ℕ × List ℕ)
parse_hex text =
    let p = skip_ws text in
    let x = get_or p 1 0 in
    let p' = if (first p == b'0') && ((x == b'x') || (x == b'X')) then drop 2 p else p in
    elim (hex_val (first p')) [ none ↦ none | some d ↦ some (parse_hex_digits 0 p') ]
