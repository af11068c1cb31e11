-- ===== src/Assembler/Modrm/Emitted.antt =====
-- The bytes that emit8, emit32 and the parts of emit_modrm append, user/as.c.
use mini_os.Base.{
  ℕ, zero, suc, ◌+◌, ◌*◌, ◌/◌, ◌%◌, ◌≤◌, ◌<◌, ◌≡◌, refl, sym, ap, ◌∙◌, Bool, true, false, ◌==◌, leb,
  if◌then◌else◌, arith, List, [], ◌∷◌, ◌++◌, length, length-append,
}
use mathlib.Core.Path.{subst}
use mini_os.Base.Bytes.{poke}
use mini_os.Assembler.{
  Asm, Run, ◌>>=◌, pure, done, emit8, emit_in, emit_text, emit16, emit32, max_text,
}
use mini_os.Assembler.Encoding.{scale_bits, emit_sib, emit_disp}
use mini_os.Assembler.Modrm.{append_bytes, Appends, disp_bytes, scale_of}

pub append_bytes-append :
    (xs ys : List ℕ) (s : Asm) → append_bytes ys (append_bytes xs s) ≡ append_bytes (xs ++ ys) s
unfolding append_bytes
append_bytes-append [] ys s = refl
append_bytes-append (x ∷ xs) ys s = append_bytes-append xs ys _

pub append_bytes_keeps :
    (xs : List ℕ) (s : Asm)
    → ((append_bytes xs s).pass ≡ s.pass)
      × ((append_bytes xs s).cur_sec ≡ s.cur_sec)
      × ((append_bytes xs s).text_len ≡ s.text_len + length xs)
unfolding append_bytes
append_bytes_keeps [] s = (refl, refl, omega arith)
append_bytes_keeps (x ∷ xs) s = let k = append_bytes_keeps xs _ in (k.0, k.1, k.2 ∙ omega arith)

pub emit8-Appends : (b : ℕ) → Appends (emit8 b) ((b % 256) ∷ [])
unfolding emit8 emit_in emit_text append_bytes
emit8-Appends b = record {
  at = λ s p c h.
      subst (λ x. emit_in x b s ≡ (tt, append_bytes ((b % 256) ∷ []) s)) (sym c)
        (ap (λ x. (tt, x)) (text s p h));
}
  where
    text :
        (s : Asm)
        → s.pass ≡ 2
        → s.text_len + 1 ≤ max_text
        → emit_text b s
          ≡ record s { text_buf = poke s.text_buf s.text_len (b % 256); text_len = s.text_len + 1 }
    text s p h = rw (two, room) refl
      where
        two : (s.pass == 2) ≡ true
        two = ground (arith, p)

        room : leb max_text s.text_len ≡ false
        room = ground (arith, h)

pub done-Appends : Appends done []
unfolding done pure append_bytes
done-Appends = record { at = λ s p c h. refl }

pub Appends-then :
    (f g : Run (Unit {0})) (xs ys : List ℕ)
    → Appends f xs
    → Appends g ys
    → Appends (f >>= λ _. g) (xs ++ ys)
unfolding ◌>>=◌
Appends-then f g xs ys hf hg = record {
  at = λ s p c h.
      let k = append_bytes_keeps xs s in
      let e = hf.at s p c (omega (arith, length-append {0} xs ys)) in
      rw (e) (
        hg.at _ (k.0 ∙ p) (k.1 ∙ c) (omega (arith, length-append {0} xs ys, k.2))
        ∙ ap (λ x. (tt, x)) (append_bytes-append xs ys s));
}

pub Appends-if :
    (b : Bool) (f g : Run (Unit {0})) (xs ys : List ℕ)
    → Appends f xs
    → Appends g ys
    → Appends (if b then f else g) (if b then xs else ys)
Appends-if true f g xs ys hf hg = hf
Appends-if false f g xs ys hf hg = hg

pub emit32-Appends :
    (v : ℕ)
    → Appends (emit32 v) (
        (v % 65536 % 256 % 256)
        ∷ (v % 65536 / 256 % 256 % 256)
        ∷ (v / 65536 % 65536 % 256 % 256)
        ∷ (v / 65536 % 65536 / 256 % 256 % 256)
        ∷ [])
unfolding emit32 emit16
emit32-Appends v =
    Appends-then _ _ _ _ (Appends-then _ _ _ _ (emit8-Appends _) (emit8-Appends _))
      (Appends-then _ _ _ _ (emit8-Appends _) (emit8-Appends _))

pub emit_sib-Appends :
    (scale bits index base : ℕ)
    → scale_bits scale ≡ pure bits
    → Appends (emit_sib scale index base) (((bits * 64 + index * 8 + base) % 256) ∷ [])
unfolding emit_sib ◌>>=◌ pure
emit_sib-Appends scale bits index base e = record {
  at = λ s p c h.
      subst
        (λ x.
          emit8 ((x s).0 * 64 + index * 8 + base) (x s).1
          ≡ (tt, append_bytes (((bits * 64 + index * 8 + base) % 256) ∷ []) s))
        (sym e) ((emit8-Appends _).at s p c h);
}

pub emit_disp-Appends : (form v : ℕ) → Appends (emit_disp form v) (disp_bytes form v)
unfolding emit_disp
emit_disp-Appends form v =
    Appends-if _ _ _ _ _ (emit8-Appends _) (Appends-if _ _ _ _ _ (emit32-Appends v) done-Appends)

pub scale_bits_of : (bits : ℕ) → bits < 4 → scale_bits (scale_of bits) ≡ pure bits
unfolding scale_bits
scale_bits_of zero h = refl
scale_bits_of (suc zero) h = refl
scale_bits_of (suc (suc zero)) h = refl
scale_bits_of (suc (suc (suc zero))) h = refl
scale_bits_of (suc (suc (suc (suc n)))) h = absurd (omega arith)
