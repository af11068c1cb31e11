-- ===== src/Assembler.antt =====
-- The state of the assembler `as` and what it emits, user/as.c: symbols, output buffers, the cursor
-- into the current line, and actions on them.
pub mod Lexer
mod Related
mod Writes
mod Agree
mod Layout
mod Kept
mod Modrm
mod Aligned
mod Tests
pub mod Passes
pub mod Directives
pub mod Lines
pub mod Encoding
pub mod Instructions
pub mod Mnemonics
pub mod Operands
pub mod Expressions
use mini_os.Base.{
  ℕ, zero, suc, ◌+◌, ◌-◌, ◌*◌, ◌/◌, ◌%◌, ◌^◌, ◌≤◌, ◌<◌, ◌≡◌, ◌≢◌, ◌↔◌, ◌⊎◌, inl, inr, refl, sym, ap,
  ◌∙◌, Bool, true, false, not, ◌&&◌, ◌||◌, ◌==◌, ltb, leb, if◌then◌else◌, arith, List, [], ◌∷◌,
  ◌++◌, Option, none, some, get_or, set, take, drop, length, replicate, Bool-cases, Option-cases,
  length-set, length-append, get_or-append_left, get_or-append_right, take-append, get_or-set_self,
  get_or-set_ne, ℕ_discrete, dec_lt,
}
use mathlib.Core.Path.{subst}
use mathlib.Core.List.{append-nil, append_assoc}
use mini_os.Base.Words.{add32, sub32, mul32, u32_mod, u64_mod}
use mini_os.Base.Bytes.{
  Memory, copy, fill, poke, of_list, read_bytes, word_at, put_word, copy_inside, copy_outside,
  fill_outside,
}
use Prim.Native.Char.{code}
use Prim.Native.String.{String}

-- A C string constant.
abbrev pub codes : String → List ℕ
codes String.[] = []
codes (String.◌∷◌ c s) = code c ∷ codes s

-- `!strcmp(a, b)`, for strings without the NUL at their end.
unfoldable pub same : List ℕ → List ℕ → Bool
same [] [] = true
same (a ∷ xs) (b ∷ ys) = (a == b) && same xs ys
same _ _ = false

unfoldable pub is : List ℕ → String → Bool
unfolding same
is m text = same m (codes text)

pub data Section : Type 0 where
  sec_text sec_data sec_bss : Section

pub record Sym : Type 0 where
  pub name : List ℕ
  pub section : Section
  pub offset : ℕ
  pub addr : ℕ
  pub is_abs : Bool
  pub defined : Bool

-- `lp` is the line's buffer from the cursor on, the NUL and what lies behind it included; `line` is
-- the whole buffer. Messages are counted, not kept.
pub record Asm : Type 0 where
  pub syms : List Sym
  pub text_buf : Memory
  pub data_buf : Memory
  pub text_len : ℕ
  pub data_len : ℕ
  pub bss_len : ℕ
  pub cur_sec : Section
  pub pass : ℕ
  pub base_text : ℕ
  pub base_data : ℕ
  pub base_bss : ℕ
  pub lp : List ℕ
  pub line : List ℕ
  pub err_count : ℕ

abbrev pub max_text : ℕ
max_text = 32768

abbrev pub max_data : ℕ
max_data = 16384

abbrev pub max_sym : ℕ
max_sym = 512

abbrev pub max_line : ℕ
max_line = 256

abbrev pub elf_hdr_size : ℕ
elf_hdr_size = 84

-- An action on the assembler's state.
abbrev pub Run : Type 0 → Type 0
Run A = Asm → A × Asm

infixl 10 ◌>>=◌ ◌>>◌
unfoldable pub ◌>>=◌ : {A B : Type 0} → Run A → (A → Run B) → Run B
◌>>=◌ m f s = let r = m s in f (r.0) (r.1)

abbrev pub ◌>>◌ : {A B : Type 0} → Run A → Run B → Run B
m >> n = m >>= λ _. n

unfoldable pub pure : {A : Type 0} → A → Run A
pure a s = (a, s)

-- `return`, and a statement that does nothing.
unfoldable pub done : Run (Unit {0})
done = pure tt

-- `err`: the message is output.
unfoldable pub err : Run (Unit {0})
err s = (tt, record s { err_count = s.err_count + 1 })

-- The buffer's text from the cursor on, and the cursor moved there.
unfoldable pub cursor : Run (List ℕ)
cursor s = (s.lp, s)

unfoldable pub move : List ℕ → Run (Unit {0})
move p s = (tt, record s { lp = p })

-- A byte into a section; pass 1 only counts.
unfoldable pub emit_text : ℕ → Asm → Asm
unfolding poke err
emit_text b s =
    if s.pass == 2
    then (if leb max_text s.text_len then (err s).1 else record s {
      text_buf = poke s.text_buf s.text_len (b % 256);
      text_len = s.text_len + 1;
    })
    else record s { text_len = s.text_len + 1 }

unfoldable pub emit_data : ℕ → Asm → Asm
unfolding poke err
emit_data b s =
    if s.pass == 2
    then (if leb max_data s.data_len then (err s).1 else record s {
      data_buf = poke s.data_buf s.data_len (b % 256);
      data_len = s.data_len + 1;
    })
    else record s { data_len = s.data_len + 1 }

unfoldable pub emit_in : Section → ℕ → Run (Unit {0})
unfolding emit_text emit_data err
emit_in sec_text b s = (tt, emit_text b s)
emit_in sec_data b s = (tt, emit_data b s)
emit_in sec_bss b s = err s

unfoldable pub emit8 : ℕ → Run (Unit {0})
unfolding emit_in
emit8 b s = emit_in s.cur_sec b s

unfoldable pub emit16 : ℕ → Run (Unit {0})
emit16 v = do emit8 (v % 256); emit8 (v / 256 % 256)

unfoldable pub emit32 : ℕ → Run (Unit {0})
emit32 v = do emit16 (v % 65536); emit16 (v / 65536 % 65536)

unfoldable pub sec_len : Section → Asm → ℕ
sec_len sec_text s = s.text_len
sec_len sec_data s = s.data_len
sec_len sec_bss s = s.bss_len

unfoldable pub base_of : Section → Asm → ℕ
base_of sec_text s = s.base_text
base_of sec_data s = s.base_data
base_of sec_bss s = s.base_bss

unfoldable pub cur_addr : Run ℕ
unfolding base_of sec_len
cur_addr s = (add32 (base_of s.cur_sec s) (sec_len s.cur_sec s), s)
