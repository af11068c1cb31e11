-- ===== src/Assembler/Aligned.antt =====
-- The loop of `.align` in the sizing pass, user/as.c: the rounds suffice.
use mini_os.Base.{
  ℕ, zero, suc, ◌+◌, ◌-◌, ◌%◌, ◌≤◌, ◌<◌, ◌≡◌, ◌≢◌, ◌↔◌, inl, inr, refl, sym, ap, ◌∙◌, Bool, true,
  false, arith, Bool-cases,
}
use mathlib.Core.Path.{subst}
use native.Mathlib.Nat.{mod-lt, mod_self, mod-add-mod}
use mini_os.Assembler.{
  Asm, emit8, emit_in, emit_text, emit_data, Section, sec_text, sec_data, sec_bss, sec_len,
}
use mini_os.Assembler.Directives.{misaligned, pad, pad_in, pad_loop}
use mini_os.Assembler.Writes.{pad_loop-suc, pad_loop_end, pad-Writes}

-- The section and the pass in which every round adds a byte.
abbrev Sizing : Section → Asm → Type 0
Sizing c s = (s.pass ≡ 1) × (s.cur_sec ≡ c) × (c ≢ sec_bss)

pad_in_len : (c : Section) (s : Asm) → Sizing c s → sec_len c (pad_in c s).1 ≡ sec_len c s + 1
unfolding pad_in emit8 emit_in emit_text emit_data sec_len
pad_in_len sec_text s (p, e, n) = ground (arith, p, e)
pad_in_len sec_data s (p, e, n) = ground (arith, p, e)
pad_in_len sec_bss s (p, e, n) = absurd (n refl)

pad-len : (c : Section) (s : Asm) → Sizing c s → sec_len c (pad s).1 ≡ sec_len c s + 1
unfolding pad
pad-len c s z =
    subst (λ x. sec_len c (pad_in x s).1 ≡ sec_len c s + 1) (sym (z.1)) (pad_in_len c s z)

pad-Sizing : (c : Section) (s : Asm) → Sizing c s → Sizing c (pad s).1
pad-Sizing c s (p, e, n) = let w = pad-Writes s in (w.pass_same ∙ p, w.sec_same ∙ e, n)

misaligned_iff : (a len : ℕ) → len < 2147483648 → (misaligned a len ≡ false) ↔ (len % a ≡ 0)
unfolding misaligned
misaligned_iff a len h = ground arith

-- The test of the loop, for the section's length.
test_of :
    (a : ℕ) (c : Section) (s : Asm) (b : Bool)
    → Sizing c s
    → misaligned a (sec_len c s) ≡ b
    → misaligned a (sec_len s.cur_sec s) ≡ b
test_of a c s b (p, e, n) h = subst (λ x. misaligned a (sec_len x s) ≡ b) (sym e) h

stops_aligned :
    (n a : ℕ) (c : Section) (s : Asm)
    → Sizing c s
    → sec_len c s < 2147483648
    → misaligned a (sec_len c s) ≡ false
    → sec_len c (pad_loop n a s).1 % a ≡ 0
stops_aligned n a c s z small m =
    rw (pad_loop_end n a s (test_of a c s false z m)) ((misaligned_iff a (sec_len c s) small).0 m)

loop_aligned :
    (n k a : ℕ) (c : Section) (s : Asm)
    → Sizing c s
    → k ≤ n
    → sec_len c s + k < 2147483648
    → (sec_len c s + k) % a ≡ 0
    → sec_len c (pad_loop n a s).1 % a ≡ 0
loop_aligned n zero a c s z h small e =
    let e' : sec_len c s % a ≡ 0 = subst (λ x. x % a ≡ 0) (omega arith) e in
    stops_aligned n a c s z (omega arith) ((misaligned_iff a (sec_len c s) (omega arith)).1 e')
loop_aligned zero (suc k) a c s z h small e = absurd (omega arith)
loop_aligned (suc n) (suc k) a c s z h small e = elim (Bool-cases (misaligned a (sec_len c s))) [
  | inr m ↦ stops_aligned (suc n) a c s z (omega arith) m
  | inl m ↦
      let l = pad-len c s z in
      rw (pad_loop-suc n a s (test_of a c s true z m)) (
        loop_aligned n k a c (pad s).1 (pad-Sizing c s z) (omega arith) (omega (arith, l))
          (subst (λ x. x % a ≡ 0) (omega (arith, l)) e))
]

gap_aligned : (len a : ℕ) → 0 < a → (len + (a - len % a)) % a ≡ 0
gap_aligned len a h =
    let below : len % a < a = mod-lt len h in
    sym (mod-add-mod len a (a - len % a)) ∙ ap (λ x. x % a) (omega (arith, below)) ∙ mod_self a

-- In the sizing pass, in the text or in the data, and with lengths of fewer than 2 ^ 31 bytes, the
-- rounds of the loop suffice: the length is aligned behind it.
pad_loop_enough :
    (a : ℕ) (c : Section) (s : Asm)
    → Sizing c s
    → 0 < a
    → sec_len c s + a < 2147483648
    → sec_len c (pad_loop a a s).1 % a ≡ 0
pad_loop_enough a c s z h small =
    loop_aligned a (a - sec_len c s % a) a c s z (omega arith) (omega arith)
      (gap_aligned (sec_len c s) a h)
