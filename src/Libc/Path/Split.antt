-- ===== src/Libc/Path/Split.antt =====
-- A name as the list of its parts (fs/lib/path.c).
use mini_os.Base.{
  ◌-◌, ℕ, zero, suc, ◌≤◌, ◌<◌, ◌≡◌, ◌≢◌, inl, inr, refl, ◌==◌, if◌then◌else◌, arith, List, [], ◌∷◌,
  get_or, length, length-append, Bool-cases, ◌++◌,
}
use mathlib.Core.List.{append-nil, append_assoc}
use mini_os.Libc.Path.{slash, skip_slashes, name_part, name_rest}
use mini_os.Libc.Path.Pop.{IsPart}

-- The parts of a name between its slashes, without the empty ones; `cur` is the part begun.
unfoldable pub components : List ℕ → List ℕ → List (List ℕ)
components cur [] = if length cur == 0 then [] else cur ∷ []
components cur (x ∷ p) =
    if x == slash
    then if length cur == 0 then components [] p else cur ∷ components [] p
    else components (cur ++ (x ∷ [])) p

pub components-skip_slashes : (p : List ℕ) → components [] (skip_slashes p) ≡ components [] p
unfolding components skip_slashes
components-skip_slashes [] = refl
components-skip_slashes (x ∷ p) = ground (arith, components-skip_slashes p)

pub components-name_part :
    (p cur : List ℕ)
    → 1 ≤ length (cur ++ name_part p)
    → components cur p ≡ (cur ++ name_part p) ∷ components [] (name_rest p)
unfolding components name_part name_rest
components-name_part [] cur le = ground (arith, append-nil cur)
components-name_part (x ∷ p) cur le = elim (Bool-cases (x == slash)) [
  | inl e ↦ ground (arith, append-nil cur)
  | inr e ↦ ground (
    arith,
    append_assoc cur (x ∷ []) (name_part p),
    components-name_part p (cur ++ (x ∷ []))
        (omega (arith, length-append (cur ++ (x ∷ [])) (name_part p), length-append cur (x ∷ []))),
  )
]

name_part-no_slash :
    (p : List ℕ) (i : ℕ) → i < length (name_part p) → get_or (name_part p) i 0 ≢ slash
unfolding name_part
name_part-no_slash [] i lt = absurd (omega arith)
name_part-no_slash (x ∷ p) zero lt = ground arith
name_part-no_slash (x ∷ p) (suc i) lt = elim (Bool-cases (x == slash)) [
  | inl e ↦ absurd (ground arith)
  | inr e ↦ λ h. name_part-no_slash p i (ground arith) (ground arith)
]

pub name_part-IsPart : (x : ℕ) (p : List ℕ) → x ≢ slash → IsPart (name_part (x ∷ p))
unfolding name_part
name_part-IsPart x p ne = (ground arith, name_part-no_slash (x ∷ p))

length-name_rest : (p : List ℕ) → length (name_rest p) ≤ length p
unfolding name_rest
length-name_rest [] = omega arith
length-name_rest (x ∷ p) = ground (arith, length-name_rest p)

-- A round of the loop passes at least one character.
pub length-round : (p : List ℕ) → length (name_rest (skip_slashes p)) ≤ length p - 1
unfolding name_rest skip_slashes
length-round [] = omega arith
length-round (x ∷ p) = elim (Bool-cases (x == slash)) [
  | inl e ↦ ground (arith, length-round p)
  | inr e ↦ ground (arith, length-name_rest p)
]

pub skip_slashes-head : (p : List ℕ) (x : ℕ) (q : List ℕ) → skip_slashes p ≡ x ∷ q → x ≢ slash
unfolding skip_slashes
skip_slashes-head [] x q e = ground arith
skip_slashes-head (y ∷ p) x q e = elim (Bool-cases (y == slash)) [
  | inl f ↦ skip_slashes-head p x q (ground arith)
  | inr f ↦ ground arith
]
