-- ===== src/Assembler/Modrm/Fields.antt =====
-- The fields of a ModRM byte and of a SIB that user/as.c puts together, as they are read.
use mini_os.Base.{
  ℕ, ◌+◌, ◌*◌, ◌/◌, ◌%◌, ◌<◌, ◌≡◌, ◌≢◌, ap, ◌∙◌, inl, inr, true, false, not, ◌&&◌, ◌==◌, arith,
  List, ◌∷◌, ◌++◌, none, some, Bool-cases,
}
use mini_os.Assembler.Operands.{Operand}
use mini_os.Assembler.Encoding.{byte_value, mod_of}
use mini_os.Assembler.Modrm.{
  word_bytes, disp_bytes, word, signed_byte, read_disp, read_index, at_disp, read_sib, behind_sib,
  read_reference, at_reg, read_modrm,
}

pub fields :
    (f r b : ℕ)
    → f < 4
    → r < 8
    → b < 8
    → ((f * 64 + r * 8 + b) % 256 / 64 ≡ f)
      × ((f * 64 + r * 8 + b) % 256 / 8 % 8 ≡ r)
      × ((f * 64 + r * 8 + b) % 256 % 8 ≡ b)
fields f r b hf hr hb = (omega arith, omega arith, omega arith)

pub read_modrm-fields :
    (f r b : ℕ) (p : List ℕ)
    → f < 4
    → r < 8
    → b < 8
    → read_modrm (((f * 64 + r * 8 + b) % 256) ∷ p) ≡ at_reg r (read_reference f b p)
unfolding read_modrm
read_modrm-fields f r b p hf hr hb =
    let c = (f * 64 + r * 8 + b) % 256 in
    let q = fields f r b hf hr hb in
    ap (λ x. at_reg x (read_reference (c / 64) (c % 8) p)) (q.1)
    ∙ ap (λ x. at_reg r (read_reference x (c % 8) p)) (q.0)
    ∙ ap (λ x. at_reg r (read_reference f x p)) (q.2)

pub read_sib-fields :
    (f k i b : ℕ) (p : List ℕ)
    → k < 4
    → i < 8
    → b < 8
    → read_reference f 4 (((k * 64 + i * 8 + b) % 256) ∷ p) ≡ read_sib f k i b p
unfolding read_reference behind_sib
read_sib-fields f k i b p hk hi hb =
    let c = (k * 64 + i * 8 + b) % 256 in
    let q = fields k i b hk hi hb in
    ap (λ x. read_sib f x (c / 8 % 8) (c % 8) p) (q.0)
    ∙ ap (λ x. read_sib f k x (c % 8) p) (q.1)
    ∙ ap (λ x. read_sib f k i x p) (q.2)

pub word-word_bytes :
    (v : ℕ) (rest : List ℕ) → v < 4294967296 → word (word_bytes v ++ rest) ≡ some (v, rest)
unfolding word
word-word_bytes v rest h = ap (λ x. some (x, rest)) (omega arith)

signed_byte-byte :
    (o : Operand) (rest : List ℕ)
    → o.disp.val < 4294967296
    → byte_value o.disp.val ≡ true
    → signed_byte ((o.disp.val % 256 % 256) ∷ rest) ≡ some (o.disp.val, rest)
unfolding signed_byte byte_value
signed_byte-byte o rest h e = ap (λ x. some (x, rest)) (ground arith)

-- The form says what of the displacement is there.
data FormOf (o : Operand) : ℕ → Type 0 where
  no_disp : o.disp.val ≡ 0 → FormOf o 0
  byte_disp : byte_value o.disp.val ≡ true → FormOf o 1
  word_disp : FormOf o 2

mod_of-FormOf : (o : Operand) (base : ℕ) → FormOf o (mod_of o base)
unfolding mod_of
mod_of-FormOf o base = elim (Bool-cases o.disp.has_sym) [
  | inl sym ↦ rw sym word_disp
  | inr plain ↦ elim (Bool-cases ((o.disp.val == 0) && not (base == 5))) [
    | inl z ↦ rw (plain, z) (no_disp (ground arith))
    | inr nz ↦ elim (Bool-cases (byte_value o.disp.val)) [
      | inl b ↦ rw (plain, nz, b) (byte_disp b)
      | inr w ↦ rw (plain, nz, w) word_disp
    ]
  ]
]

FormOf-read :
    (o : Operand) (form : ℕ) (rest : List ℕ)
    → o.disp.val < 4294967296
    → FormOf o form
    → read_disp form (disp_bytes form o.disp.val ++ rest) ≡ some (o.disp.val, rest)
unfolding read_disp
FormOf-read o _ rest h (no_disp z) = ap (λ x. some (x, rest)) (omega (arith, z))
FormOf-read o _ rest h (byte_disp b) = signed_byte-byte o rest h b
FormOf-read o _ rest h word_disp = word-word_bytes o.disp.val rest h

pub read_disp-disp_bytes :
    (o : Operand) (base : ℕ) (rest : List ℕ)
    → o.disp.val < 4294967296
    → read_disp (mod_of o base) (disp_bytes (mod_of o base) o.disp.val ++ rest)
      ≡ some (o.disp.val, rest)
read_disp-disp_bytes o base rest h = FormOf-read o _ rest h (mod_of-FormOf o base)

pub mod_of-less : (o : Operand) (base : ℕ) → (mod_of o base < 4) × (base ≡ 5 → mod_of o base ≢ 0)
unfolding mod_of
mod_of-less o base = (ground arith, λ e z. ground arith)

-- The references behind each of the forms that the assembler uses.
pub absolute_reference :
    (v : ℕ) (rest : List ℕ)
    → v < 4294967296
    → read_reference 0 5 (word_bytes v ++ rest)
      ≡ some (record { base = none; index = none; disp = v }, rest)
unfolding read_reference at_disp
absolute_reference v rest h = ap (at_disp none none) (word-word_bytes v rest h)

pub unbased_reference :
    (i bits v : ℕ) (rest : List ℕ)
    → v < 4294967296
    → read_sib 0 bits i 5 (word_bytes v ++ rest)
      ≡ some (record { base = none; index = read_index i bits; disp = v }, rest)
unfolding read_sib at_disp
unbased_reference i bits v rest h = ap (at_disp none (read_index i bits)) (word-word_bytes v rest h)

pub based_test : (o : Operand) (b : ℕ) → ((b == 5) && (mod_of o b == 0)) ≡ false
based_test o b = let l = mod_of-less o b in ground (arith, l.1)

pub based_reference :
    (o : Operand) (i bits b : ℕ) (rest : List ℕ)
    → o.disp.val < 4294967296
    → read_sib (mod_of o b) bits i b (disp_bytes (mod_of o b) o.disp.val ++ rest)
      ≡ some (record { base = some b; index = read_index i bits; disp = o.disp.val }, rest)
unfolding read_sib at_disp
based_reference o i bits b rest h =
    rw (based_test o b)
      (ap (at_disp (some b) (read_index i bits)) (read_disp-disp_bytes o b rest h))

pub plain_reference :
    (o : Operand) (b : ℕ) (rest : List ℕ)
    → b ≢ 4
    → o.disp.val < 4294967296
    → read_reference (mod_of o b) b (disp_bytes (mod_of o b) o.disp.val ++ rest)
      ≡ some (record { base = some b; index = none; disp = o.disp.val }, rest)
unfolding read_reference at_disp
plain_reference o b rest n h =
    let no_sib : (b == 4) ≡ false = ground arith in
    rw (no_sib, based_test o b) (ap (at_disp (some b) none) (read_disp-disp_bytes o b rest h))
