-- ===== src/Kernel/Names/Equal.antt =====
-- What `name_eq_ci` compares.
use mini_os.Base.{ℕ, zero, suc, ◌≡◌, ◌↔◌, refl, true, [], ◌∷◌, arith, ◌≢◌}
use mini_os.Kernel.Names.{CString, upper, name_eq_loop, name_eq_ci, normalize_loop}

upper_ne_zero : (c : ℕ) → c ≢ 0 → upper c ≢ 0
unfolding upper
upper_ne_zero c h = ground arith

name_eq_loop_sound :
    (k : ℕ) (a b : CString) → name_eq_loop k a b ≡ true → normalize_loop k a ≡ normalize_loop k b
unfolding name_eq_loop normalize_loop
name_eq_loop_sound zero a b h = refl
name_eq_loop_sound (suc k) [] [] h = refl
name_eq_loop_sound (suc k) [] (d ∷ b) h = ground arith
name_eq_loop_sound (suc k) (c ∷ a) [] h = ground arith
name_eq_loop_sound (suc k) (c ∷ a) (d ∷ b) h = ground (arith, name_eq_loop_sound k a b)

name_eq_loop_complete :
    (k : ℕ) (a b : CString) → normalize_loop k a ≡ normalize_loop k b → name_eq_loop k a b ≡ true
unfolding name_eq_loop normalize_loop
name_eq_loop_complete zero a b h = refl
name_eq_loop_complete (suc k) [] [] h = refl
name_eq_loop_complete (suc k) [] (d ∷ b) h = ground arith
name_eq_loop_complete (suc k) (c ∷ a) [] h = ground arith
name_eq_loop_complete (suc k) (c ∷ a) (d ∷ b) h = ground (arith, name_eq_loop_complete k a b)

-- Two names are taken for the same exactly when their first 16 characters are, but for case.
pub name_eq_ci_iff :
    (a b : CString) → (name_eq_ci a b ≡ true) ↔ (normalize_loop 16 a ≡ normalize_loop 16 b)
unfolding name_eq_ci
name_eq_ci_iff a b = (name_eq_loop_sound 16 a b, name_eq_loop_complete 16 a b)
