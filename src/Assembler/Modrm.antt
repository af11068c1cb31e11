-- ===== src/Assembler/Modrm.antt =====
-- References to memory behind a ModRM byte, as the processor reads them, and the bytes that an
-- action of user/as.c appends to the text.
mod Emitted
mod Fields
pub mod ReadBack
use mini_os.Base.{
  ℕ, zero, suc, ◌+◌, ◌-◌, ◌*◌, ◌/◌, ◌%◌, ◌^◌, ◌≤◌, ◌<◌, ◌≡◌, ◌≢◌, ◌↔◌, ◌⊎◌, inl, inr, refl, sym, ap,
  ◌∙◌, Bool, true, false, not, ◌&&◌, ◌||◌, ◌==◌, ltb, leb, if◌then◌else◌, arith, List, [], ◌∷◌,
  ◌++◌, Option, none, some, get_or, set, take, drop, length, replicate, Bool-cases, Option-cases,
  length-set, length-append, get_or-append_left, get_or-append_right, take-append, get_or-set_self,
  get_or-set_ne, ℕ_discrete, dec_lt,
}
use mathlib.Core.Path.{subst}
use mathlib.Core.List.{append-nil, append_assoc}
use mini_os.Base.Words.{add32, sub32, mul32, u32_mod, u64_mod}
use mini_os.Base.Bytes.{
  Memory, copy, fill, poke, of_list, read_bytes, word_at, put_word, copy_inside, copy_outside,
  fill_outside,
}
use mini_os.Assembler.{
  Asm, Run, ◌>>=◌, pure, done, emit8, emit_in, emit_text, emit16, emit32, sec_text, max_text,
}
use mini_os.Assembler.Expressions.{Expr}
use mini_os.Assembler.Operands.{op_mem, Operand, no_operand}
use mini_os.Assembler.Encoding.{
  is_reg, is_mem, is_kind, absent, byte_value, scale_bits, mod_of, emit_sib, emit_disp, emit_based,
  emit_unbased, emit_mem, emit_modrm,
}

-- The text with bytes behind it.
unfoldable pub append_bytes : List ℕ → Asm → Asm
unfolding poke
append_bytes [] s = s
append_bytes (b ∷ bs) s =
    append_bytes bs
      (record s { text_buf = poke s.text_buf s.text_len b; text_len = s.text_len + 1 })

-- In pass 2 and in the text, with room for the bytes, the action appends them and does nothing else.
pub record Appends (f : Run (Unit {0})) (bs : List ℕ) : Type 0 where
  pub at :
      (s : Asm)
      → s.pass ≡ 2
      → s.cur_sec ≡ sec_text
      → s.text_len + length bs ≤ max_text
      → f s ≡ (tt, append_bytes bs s)

-- The bytes of a displacement, by the form.
abbrev pub word_bytes : ℕ → List ℕ
word_bytes v =
    (v % 65536 % 256 % 256)
    ∷ (v % 65536 / 256 % 256 % 256)
    ∷ (v / 65536 % 65536 % 256 % 256)
    ∷ (v / 65536 % 65536 / 256 % 256 % 256)
    ∷ []

abbrev pub disp_bytes : ℕ → ℕ → List ℕ
disp_bytes form v =
    if form == 1 then (v % 256 % 256) ∷ [] else if form == 2 then word_bytes v else []

-- The operand that the assembler reads for a reference to memory, with the scale `2 ^ bits`.
abbrev pub scale_of : ℕ → ℕ
scale_of bits = if bits == 0 then 1 else if bits == 1 then 2 else if bits == 2 then 4 else 8

abbrev pub memory : Option ℕ → Option ℕ → ℕ → Expr → Operand
memory base index bits e = record no_operand {
  kind = op_mem;
  base = base;
  index = index;
  scale = scale_of bits;
  disp = e;
}

-- A reference to memory, as the processor reads it: the base, the index with its scale, and the
-- displacement as a 32-bit word.
pub record Reference : Type 0 where
  pub base : Option ℕ
  pub index : Option (ℕ × ℕ)
  pub disp : ℕ

-- A word of 32 bits, and the bytes behind it.
unfoldable pub word : List ℕ → Option (ℕ × List ℕ)
word (a ∷ b ∷ c ∷ d ∷ p) = some (a + 256 * b + 65536 * c + 16777216 * d, p)
word _ = none

-- A byte with its sign, as a word of 32 bits.
unfoldable pub signed_byte : List ℕ → Option (ℕ × List ℕ)
signed_byte [] = none
signed_byte (b ∷ p) = some ((if ltb b 128 then b else b + 4294967040), p)

-- The displacement behind a form, and the bytes behind it.
unfoldable pub read_disp : ℕ → List ℕ → Option (ℕ × List ℕ)
unfolding word signed_byte
read_disp form p = if form == 0 then some (0, p) else if form == 1 then signed_byte p else word p

unfoldable pub read_index : ℕ → ℕ → Option (ℕ × ℕ)
read_index index bits = if index == 4 then none else some (index, scale_of bits)

-- The reference with a displacement that was read.
unfoldable pub at_disp :
    Option ℕ → Option (ℕ × ℕ) → Option (ℕ × List ℕ) → Option (Reference × List ℕ)
at_disp base index none = none
at_disp base index (some (v, p)) = some (record { base = base; index = index; disp = v }, p)

unfoldable pub read_sib : ℕ → ℕ → ℕ → ℕ → List ℕ → Option (Reference × List ℕ)
unfolding read_index read_disp word at_disp
read_sib form bits index base p =
    if (base == 5) && (form == 0)
    then at_disp none (read_index index bits) (word p)
    else at_disp (some base) (read_index index bits) (read_disp form p)

-- The reference behind a SIB.
unfoldable pub behind_sib : ℕ → List ℕ → Option (Reference × List ℕ)
unfolding read_sib
behind_sib form [] = none
behind_sib form (s ∷ p) = read_sib form (s / 64) (s / 8 % 8) (s % 8) p

unfoldable pub read_reference : ℕ → ℕ → List ℕ → Option (Reference × List ℕ)
unfolding read_disp word at_disp behind_sib
read_reference form rm p =
    if rm == 4
    then behind_sib form p
    else if (rm == 5) && (form == 0)
    then at_disp none none (word p)
    else at_disp (some rm) none (read_disp form p)

unfoldable pub at_reg : ℕ → Option (Reference × List ℕ) → Option (ℕ × Reference × List ℕ)
at_reg reg none = none
at_reg reg (some (r, p)) = some (reg, r, p)

-- The register field of a ModRM byte, the reference behind a form other than 3, and the bytes behind
-- all of it; none where the bytes end before.
unfoldable pub read_modrm : List ℕ → Option (ℕ × Reference × List ℕ)
unfolding at_reg
read_modrm [] = none
read_modrm (b ∷ p) = at_reg (b / 8 % 8) (read_reference (b / 64) (b % 8) p)
