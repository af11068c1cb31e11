-- ===== src/Libc/Strings/Compare.antt =====
-- Comparing strings (fs/lib/string.c).
use mini_os.Base.{ℕ, zero, suc, ◌≤◌, ◌≡◌, ◌↔◌, refl, arith, List, [], ◌∷◌, take, ℕ_discrete}
use mathlib.Core.Path.{subst}
use mini_os.Libc.Strings.{strcmp, strncmp}

-- No character is the NUL.
unfoldable pub IsText : List ℕ → Type 0
IsText [] = Unit
IsText (c ∷ cs) = (1 ≤ c) × IsText cs

same_chars :
    (xs ys : List ℕ) → IsText xs → IsText ys → (strcmp xs ys).0 ≡ (strcmp xs ys).1 → xs ≡ ys
unfolding strcmp IsText
same_chars [] [] ta tb e = refl
same_chars [] (b ∷ ys) ta tb e = absurd (omega (arith, tb.0))
same_chars (a ∷ xs) [] ta tb e = absurd (omega (arith, ta.0))
same_chars (a ∷ xs) (b ∷ ys) ta tb e = elim (ℕ_discrete a b) [
  | yes f ↦ ground (arith, same_chars xs ys ta.1 tb.1 (ground arith))
  | no ne ↦ absurd (ground arith)
]

strcmp_self : (xs : List ℕ) → (strcmp xs xs).0 ≡ (strcmp xs xs).1
unfolding strcmp
strcmp_self [] = refl
strcmp_self (a ∷ xs) = ground (arith, strcmp_self xs)

-- `strcmp` returns 0 just where the strings are the same, for strings without a NUL inside.
pub strcmp_iff :
    (xs ys : List ℕ) → IsText xs → IsText ys → ((strcmp xs ys).0 ≡ (strcmp xs ys).1) ↔ (xs ≡ ys)
strcmp_iff xs ys ta tb = (
  same_chars xs ys ta tb,
  λ e. subst (λ cs. (strcmp xs cs).0 ≡ (strcmp xs cs).1) e (strcmp_self xs),
)

-- `strncmp` compares the first `n` characters: it is `strcmp` of the strings cut there.
pub strncmp_lem : (xs ys : List ℕ) (n : ℕ) → strncmp xs ys n ≡ strcmp (take n xs) (take n ys)
unfolding strncmp strcmp
strncmp_lem xs ys zero = refl
strncmp_lem [] [] (suc n) = refl
strncmp_lem [] (b ∷ ys) (suc n) = refl
strncmp_lem (a ∷ xs) [] (suc n) = refl
strncmp_lem (a ∷ xs) (b ∷ ys) (suc n) = ground (arith, strncmp_lem xs ys n)
