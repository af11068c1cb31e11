-- ===== src/Assembler/Modrm/ReadBack.antt =====
-- emit_modrm of user/as.c against the processor: the operand that is read back.
use mini_os.Base.{
  ℕ, ◌+◌, ◌*◌, ◌%◌, ◌≤◌, ◌<◌, ◌≡◌, ◌≢◌, refl, ap, ◌∙◌, Bool, true, false, ◌==◌, if◌then◌else◌,
  arith, List, [], ◌∷◌, ◌++◌, Option, none, some, length, length-append,
}
use mathlib.Core.Path.{subst}
use mini_os.Assembler.Expressions.{Expr}
use mini_os.Assembler.Operands.{Operand}
use mini_os.Assembler.Encoding.{
  is_reg, is_mem, absent, mod_of, emit_based, emit_unbased, emit_mem, emit_modrm,
}
use mini_os.Assembler.{Asm, sec_text, max_text}
use mini_os.Assembler.Modrm.{
  append_bytes, Appends, word_bytes, disp_bytes, scale_of, memory, Reference, read_index, at_reg,
  read_modrm,
}
use mini_os.Assembler.Modrm.Emitted.{
  emit8-Appends, emit32-Appends, emit_sib-Appends, emit_disp-Appends, Appends-then, Appends-if,
  scale_bits_of,
}
use mini_os.Assembler.Modrm.Fields.{
  read_modrm-fields, read_sib-fields, mod_of-less, absolute_reference, unbased_reference,
  based_reference, plain_reference,
}

-- What `emit_modrm` appends for an operand is read as a reference.
abbrev Encodes : ℕ → Operand → Reference → Type 0
Encodes reg o ref =
    (bs : List ℕ) × Appends (emit_modrm reg o) bs
    × ((rest : List ℕ) → read_modrm (bs ++ rest) ≡ some (reg % 8, ref, rest))
    × (length bs ≤ 6)

absolute-Encodes :
    (reg bits : ℕ) (e : Expr)
    → e.val < 4294967296
    → Encodes reg (memory none none bits e) (record { base = none; index = none; disp = e.val })
unfolding emit_modrm emit_mem emit_unbased is_reg is_mem at_reg
absolute-Encodes reg bits e h =
    let r = reg % 8 in
    (
      ((r * 8 + 5) % 256) ∷ word_bytes e.val,
      Appends-then _ _ _ _ (emit8-Appends _) (emit32-Appends e.val),
      λ rest.
          ap (λ x. read_modrm (x ∷ (word_bytes e.val ++ rest))) (omega arith)
          ∙ read_modrm-fields 0 r 5 (word_bytes e.val ++ rest) (omega arith) (omega arith)
              (omega arith)
          ∙ ap (at_reg r) (absolute_reference e.val rest h),
      omega arith,
    )

indexed-Encodes :
    (reg i bits : ℕ) (e : Expr)
    → i < 8
    → bits < 4
    → e.val < 4294967296
    → Encodes reg
        (memory none (some i) bits e)
        (record { base = none; index = read_index i bits; disp = e.val })
unfolding emit_modrm emit_mem emit_unbased is_reg is_mem at_reg
indexed-Encodes reg i bits e hi hb h =
    let r = reg % 8 in
    (
      ((r * 8 + 4) % 256) ∷ ((bits * 64 + i * 8 + 5) % 256) ∷ word_bytes e.val,
      Appends-then _ _ _ _ (emit8-Appends _) (
          Appends-then _ _ _ _ (emit_sib-Appends _ bits i 5 (scale_bits_of bits hb))
            (emit32-Appends e.val)),
      λ rest.
          ap (λ x. read_modrm (x ∷ ((bits * 64 + i * 8 + 5) % 256) ∷ (word_bytes e.val ++ rest)))
            (omega arith)
          ∙ read_modrm-fields 0 r 4 _ (omega arith) (omega arith) (omega arith)
          ∙ ap (at_reg r) (
              read_sib-fields 0 bits i 5 (word_bytes e.val ++ rest) hb hi (omega arith)
              ∙ unbased_reference i bits e.val rest h),
      omega arith,
    )

length-disp_bytes : (f v : ℕ) → length (disp_bytes f v) ≤ 4
length-disp_bytes f v = ground arith

-- With a SIB.
sib-Encodes :
    (r b i bits : ℕ) (o : Operand) (rest : List ℕ)
    → r < 8
    → b < 8
    → i < 8
    → bits < 4
    → o.disp.val < 4294967296
    → read_modrm (
        ((mod_of o b * 64 + r * 8 + 4) % 256)
        ∷ ((bits * 64 + i * 8 + b) % 256)
        ∷ (disp_bytes (mod_of o b) o.disp.val ++ rest))
      ≡ some (r, record { base = some b; index = read_index i bits; disp = o.disp.val }, rest)
unfolding at_reg
sib-Encodes r b i bits o rest hr hb hi hk h =
    read_modrm-fields (mod_of o b) r 4 _ ((mod_of-less o b).0) hr (omega arith)
    ∙ ap (at_reg r)
        (read_sib-fields (mod_of o b) bits i b _ hk hi hb ∙ based_reference o i bits b rest h)

both-Encodes :
    (reg b i bits : ℕ) (e : Expr)
    → b < 8
    → i < 8
    → bits < 4
    → e.val < 4294967296
    → Encodes reg
        (memory (some b) (some i) bits e)
        (record { base = some b; index = read_index i bits; disp = e.val })
unfolding emit_modrm emit_mem emit_based is_reg is_mem absent
both-Encodes reg b i bits e hb hi hk h =
    let o = memory (some b) (some i) bits e in
    let f = mod_of o b in
    (
      ((f * 64 + reg % 8 * 8 + 4) % 256) ∷ ((bits * 64 + i * 8 + b) % 256) ∷ disp_bytes f e.val,
      Appends-then _ _ _ _
          (Appends-then _ _ _ _ (emit8-Appends _)
            (emit_sib-Appends _ bits i b (scale_bits_of bits hk)))
          (emit_disp-Appends f e.val),
      λ rest. sib-Encodes (reg % 8) b i bits o rest (omega arith) hb hi hk h,
      omega (arith, length-disp_bytes f e.val),
    )

based_read :
    (r b bits : ℕ) (o : Operand) (rest : List ℕ)
    → b < 8
    → bits < 4
    → r < 8
    → o.disp.val < 4294967296
    → (c : Bool) → (b == 4) ≡ c
    → read_modrm (
        ((if c
            then ((mod_of o b * 64 + r * 8 + 4) % 256) ∷ ((bits * 64 + 4 * 8 + b) % 256) ∷ []
            else ((mod_of o b * 64 + r * 8 + b) % 256) ∷ [])
          ++ disp_bytes (mod_of o b) o.disp.val)
        ++ rest)
      ≡ some (r, record { base = some b; index = none; disp = o.disp.val }, rest)
unfolding read_index at_reg
based_read r b bits o rest hb hk hr h true e =
    sib-Encodes r b 4 bits o rest hr hb (omega arith) hk h
based_read r b bits o rest hb hk hr h false e =
    read_modrm-fields (mod_of o b) r b _ ((mod_of-less o b).0) hr hb
    ∙ ap (at_reg r) (plain_reference o b rest (ground (arith, e)) h)

based_length :
    (f v : ℕ) (xs ys : List ℕ)
    → (length xs ≡ 2) × (length ys ≡ 1)
    → (c : Bool) → length ((if c then xs else ys) ++ disp_bytes f v) ≤ 6
based_length f v xs ys h true =
    omega (arith, h.0, length-append {0} xs (disp_bytes f v), length-disp_bytes f v)
based_length f v xs ys h false =
    omega (arith, h.1, length-append {0} ys (disp_bytes f v), length-disp_bytes f v)

based-Encodes :
    (reg b bits : ℕ) (e : Expr)
    → b < 8
    → bits < 4
    → e.val < 4294967296
    → Encodes reg
        (memory (some b) none bits e)
        (record { base = some b; index = none; disp = e.val })
unfolding emit_modrm emit_mem emit_based is_reg is_mem absent
based-Encodes reg b bits e hb hk h =
    let o = memory (some b) none bits e in
    let f = mod_of o b in
    let r = reg % 8 in
    let xs = ((f * 64 + r * 8 + 4) % 256) ∷ ((bits * 64 + 4 * 8 + b) % 256) ∷ [] in
    let ys = ((f * 64 + r * 8 + b) % 256) ∷ [] in
    (
      (if b == 4 then xs else ys) ++ disp_bytes f e.val,
      Appends-then _ _ _ _
          (Appends-if _ _ _ xs ys
            (Appends-then _ _ _ _ (emit8-Appends _)
              (emit_sib-Appends _ bits 4 b (scale_bits_of bits hk)))
            (emit8-Appends _))
          (emit_disp-Appends f e.val),
      λ rest. based_read r b bits o rest hb hk (omega arith) h (b == 4) refl,
      based_length f e.val xs ys (refl, refl) (b == 4),
    )

-- The numbers of registers, and an index that is not %esp.
abbrev pub IsBase : Option ℕ → Type 0
IsBase none = Unit
IsBase (some b) = b < 8

abbrev pub IsIndex : Option ℕ → Type 0
IsIndex none = Unit
IsIndex (some i) = (i < 8) × (i ≢ 4)

abbrev pub scaled : Option ℕ → ℕ → Option (ℕ × ℕ)
scaled none bits = none
scaled (some i) bits = some (i, scale_of bits)

scaled_index : (i bits : ℕ) → i ≢ 4 → read_index i bits ≡ some (i, scale_of bits)
unfolding read_index
scaled_index i bits n = ground arith

reference-Encodes :
    (reg bits : ℕ) (base index : Option ℕ) (e : Expr)
    → IsBase base
    → IsIndex index
    → bits < 4
    → e.val < 4294967296
    → Encodes reg
        (memory base index bits e)
        (record { base = base; index = scaled index bits; disp = e.val })
reference-Encodes reg bits none none e hb hi hk h = absolute-Encodes reg bits e h
reference-Encodes reg bits none (some i) e hb hi hk h =
    subst
      (λ x.
        Encodes reg (memory none (some i) bits e) (record { base = none; index = x; disp = e.val }))
      (scaled_index i bits (hi.1)) (indexed-Encodes reg i bits e (hi.0) hk h)
reference-Encodes reg bits (some b) none e hb hi hk h = based-Encodes reg b bits e hb hk h
reference-Encodes reg bits (some b) (some i) e hb hi hk h =
    subst
      (λ x.
        Encodes reg (memory (some b) (some i) bits e)
          (record { base = some b; index = x; disp = e.val }))
      (scaled_index i bits (hi.1)) (both-Encodes reg b i bits e hb (hi.0) hk h)

-- For every reference to memory, with registers in range, an index other than %esp and a scale of 1,
-- 2, 4 or 8, emit_modrm appends at most six bytes in pass 2, where the text has room for them.
-- The processor reads them, in front of any other bytes, as the register field and the same base,
-- index, scale and displacement, and goes on with just those other bytes. No error is counted, and
-- nothing else changes.
pub emit_modrm-read_modrm :
    (reg bits : ℕ) (base index : Option ℕ) (e : Expr) (s : Asm)
    → IsBase base
    → IsIndex index
    → bits < 4
    → e.val < 4294967296
    → s.pass ≡ 2
    → s.cur_sec ≡ sec_text
    → s.text_len + 6 ≤ max_text
    → (bs : List ℕ) × (emit_modrm reg (memory base index bits e) s ≡ (tt, append_bytes bs s))
      × ((rest : List ℕ)
          → read_modrm (bs ++ rest)
            ≡ some (reg % 8, record { base = base; index = scaled index bits; disp = e.val }, rest))
      × (length bs ≤ 6)
emit_modrm-read_modrm reg bits base index e s hb hi hk h p c room =
    let r = reference-Encodes reg bits base index e hb hi hk h in
    (r.0, r.1.at s p c (omega (arith, r.3)), r.2, r.3)
