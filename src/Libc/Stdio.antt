-- ===== src/Libc/Stdio.antt =====
-- Formatted output, fs/lib/stdio.c; its child Parse has the parsers. An `int` is its 32-bit word, negative from
-- 2^31 on; a string is the list of its characters, without the NUL; reading its first character
-- where it is empty gives the NUL. What `putc` writes to descriptor 1 is collected in `printed`.
-- The arguments are the words from the one behind `fmt` on. The string at an address is taken to
-- lie outside the output buffer.
pub mod Parse
pub mod Digits
pub mod RoundTrip
pub mod Pairs
pub mod Buffer
pub mod Enough
mod Tests
use mini_os.Base.{
  ℕ, zero, suc, ◌+◌, ◌-◌, ◌*◌, ◌/◌, ◌%◌, ◌^◌, ◌≤◌, ◌<◌, ◌≡◌, ◌≢◌, ◌↔◌, ◌⊎◌, inl, inr, refl, sym, ap,
  ◌∙◌, Bool, true, false, not, ◌&&◌, ◌||◌, ◌==◌, ltb, leb, if◌then◌else◌, arith, List, [], ◌∷◌,
  ◌++◌, Option, none, some, get_or, set, take, drop, length, replicate, Bool-cases, Option-cases,
  length-set, length-append, get_or-append_left, get_or-append_right, take-append, get_or-set_self,
  get_or-set_ne, ℕ_discrete, dec_lt, ◌>>=◌,
}
use mathlib.Core.Path.{subst}
use mathlib.Core.List.{append-nil, append_assoc}
use mini_os.Libc.Stdio.Parse.{
  first, is_space, is_digit, hex_val, skip_ws, parse_digits, parse_uint, parse_int,
  parse_hex_digits, parse_hex,
}
use mini_os.Base.Words.{add32, sub32, mul32, u32_mod}
use mini_os.Base.Bytes.{
  Memory, copy, fill, poke, of_list, read_bytes, word_at, put_word, copy_inside, copy_outside,
}

-- The structure `Out`: `to_buf` is whether `buf` is not NULL, `mem` the bytes from `buf` on. A `max`
-- below 0 lets as little through as 0.
pub record Out : Type 0 where
  pub to_buf : Bool
  pub mem : Memory
  pub max : ℕ
  pub len : ℕ
  pub printed : List ℕ

unfoldable pub out_ch : ℕ → Out → Out
out_ch c o = record {
  to_buf = o.to_buf;
  mem = if o.to_buf && ltb (o.len + 1) o.max then poke o.mem o.len c else o.mem;
  max = o.max;
  len = o.len + 1;
  printed = if o.to_buf then o.printed else o.printed ++ (c ∷ []);
}

unfoldable pub out_all : List ℕ → Out → Out
out_all [] o = o
out_all (c ∷ s) o = out_all s (out_ch c o)

-- The entries of `buf`, the last one first.
unfoldable pub out_back : List ℕ → Out → Out
out_back [] o = o
out_back (c ∷ buf) o = out_ch c (out_back buf o)

unfoldable pub digit_char : Bool → ℕ → ℕ
digit_char upper d =
    if ltb d 10 then b'0' + d else if upper then b'A' + (d - 10) else b'a' + (d - 10)

-- The loops `while (v > 0)`: what they put into `buf`, which has 12 entries.
unfoldable pub dec_digits : ℕ → ℕ → List ℕ
dec_digits zero v = []
dec_digits (suc k) v =
    let rest = dec_digits k (v / 10) in if v == 0 then [] else (b'0' + (v - v / 10 * 10)) ∷ rest

unfoldable pub hex_digits : Bool → ℕ → ℕ → List ℕ
hex_digits upper zero v = []
hex_digits upper (suc k) v =
    let rest = hex_digits upper k (v / 16) in
    if v == 0 then [] else digit_char upper (v - v / 16 * 16) ∷ rest

abbrev pub is_negative : ℕ → Bool
is_negative v = leb 2147483648 v

-- `v > 0` is a signed test: the digits of a negative word are not printed.
unfoldable pub out_int : ℕ → Out → Out
out_int v o =
    let w = if is_negative v then sub32 0 v else v in
    let o' = if is_negative v then out_ch b'-' o else o in
    if v == 0 then out_ch b'0' o else if is_negative w then o' else out_back (dec_digits 12 w) o'

unfoldable pub out_uint : ℕ → Out → Out
out_uint v o = if v == 0 then out_ch b'0' o else out_back (dec_digits 12 v) o

unfoldable pub out_hex : ℕ → Bool → Out → Out
out_hex v upper o = if v == 0 then out_ch b'0' o else out_back (hex_digits upper 12 v) o

-- The standard output, to which `putc` writes.
abbrev pub stdout : Memory → Out
stdout m = record { to_buf = false; mem = m; max = 0; len = 0; printed = [] }

-- `print_int`, `print_uint` and `print_hex`: the characters given to `putc`. The last two test
-- `v > 0` of an int.
unfoldable pub print_int : ℕ → Out → Out
print_int v o = out_int v o

unfoldable pub print_uint : ℕ → Out → Out
print_uint v o =
    if v == 0 then out_ch b'0' o else if is_negative v then o else out_back (dec_digits 12 v) o

unfoldable pub print_hex : ℕ → Out → Out
print_hex v o =
    if v == 0
    then out_ch b'0' o
    else if is_negative v
    then o
    else out_back (hex_digits false 12 v) o

-- The precision after the percent sign, -1 as a word where there is none, and what is left.
unfoldable pub precision : List ℕ → ℕ × List ℕ
precision fmt =
    let r = parse_digits 0 (drop 1 fmt) in
    if first fmt == b'.'
    then (if ltb 17 (r.0) && not (is_negative (r.0)) then 17 else r.0, r.1)
    else (4294967295, fmt)

-- "(null)"
abbrev pub null_text : List ℕ
null_text = b'(' ∷ b'n' ∷ b'u' ∷ b'l' ∷ b'l' ∷ b')' ∷ []

-- The letters of a conversion with an argument.
unfoldable pub takes_argument : ℕ → Bool
takes_argument c =
    (c == b'f')
    || (c == b'F')
    || (c == b'g')
    || (c == b'G')
    || (c == b'd')
    || (c == b'u')
    || (c == b'x')
    || (c == b'X')
    || (c == b'c')
    || (c == b's')

-- The NUL that ends the text in the buffer.
unfoldable pub end_text : Out → Out
end_text o =
    if o.to_buf && ltb 0 o.max
    then record o { mem = poke o.mem (if ltb (o.max - 1) o.len then o.max - 1 else o.len) 0 }
    else o

-- The formatters of floats are parameters: `float_f` and `float_g` give the text of the float with
-- these bits. `str` is the string at an address.
module _ (str : ℕ → List ℕ) (float_f float_g : ℕ → ℕ → List ℕ) where
  unfoldable pub out_str : ℕ → Out → Out
  out_str s o = out_all (if s == 0 then null_text else str s) o

  -- A conversion with the argument `v`.
  unfoldable pub out_arg : ℕ → ℕ → ℕ → Out → Out
  out_arg c prec v o =
      let prec' = if is_negative prec then 6 else prec in
      if (c == b'f') || (c == b'F')
      then out_all (float_f v prec') o
      else if (c == b'g') || (c == b'G')
      then out_all (float_g v prec') o
      else if c == b'd'
      then out_int v o
      else if c == b'u'
      then out_uint v o
      else if c == b'x'
      then out_hex v false o
      else if c == b'X'
      then out_hex v true o
      else if c == b'c'
      then out_ch (v % 256) o
      else out_str v o

  -- `vformat_ap` with at most `fuel` rounds, whose next argument is `arg ap`.
  unfoldable pub vformat_loop : ℕ → List ℕ → (ℕ → ℕ) → ℕ → Out → Out
  vformat_loop zero fmt arg ap o = o
  vformat_loop (suc fuel) [] arg ap o = o
  vformat_loop (suc fuel) (c ∷ fmt) arg ap o =
      let p = precision fmt in
      let f = first (p.1) in
      let plain = vformat_loop fuel fmt arg ap (out_ch c o) in
      let escaped = vformat_loop fuel (drop 1 fmt) arg ap (out_ch b'%' o) in
      let converted = vformat_loop fuel (drop 1 (p.1)) arg (ap + 1) (out_arg f (p.0) (arg ap) o) in
      let unknown = vformat_loop fuel (drop 1 (p.1)) arg ap (out_all (b'%' ∷ take 1 (p.1)) o) in
      if not (c == b'%')
      then plain
      else if first fmt == b'%'
      then escaped
      else if takes_argument f
      then converted
      else unknown

  unfoldable pub vformat_ap : Out → List ℕ → (ℕ → ℕ) → Out
  vformat_ap o fmt arg = vformat_loop (length fmt) fmt arg 0 o

  -- What `vsnprintf` and `snprintf` do: they return `len`.
  unfoldable pub vsnprintf : Bool → Memory → ℕ → List ℕ → (ℕ → ℕ) → Out
  vsnprintf to_buf m max fmt arg =
      end_text
        (vformat_ap (record { to_buf = to_buf; mem = m; max = max; len = 0; printed = [] }) fmt arg)

  unfoldable pub printf : Memory → List ℕ → (ℕ → ℕ) → Out
  printf m fmt arg = vformat_ap (stdout m) fmt arg
