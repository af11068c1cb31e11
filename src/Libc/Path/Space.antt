-- ===== src/Libc/Path/Space.antt =====
-- Every path fits in the buffer it is written to (fs/lib/path.c).
use mini_os.Base.{
  ℕ, zero, suc, ◌+◌, ◌-◌, ◌≤◌, ◌<◌, ◌≡◌, inl, inr, false, ◌||◌, ◌==◌, leb, arith, List, [], ◌∷◌,
  Option, none, some, get_or, take, length, length-append, Bool-cases, Option-cases, ◌++◌,
}
use mathlib.Core.Path.{subst}
use mini_os.Libc.Path.{
  is_empty, slash, pop_loop, drop_slash, path_pop, skip_slashes, name_part, name_rest, is_dot,
  is_dot_dot, path_step, path_loop, path_base_out, path_result, path_resolve,
}

-- The bytes that `out` holds, with a slash and a NUL to come.
Fits : ℕ → Option (List ℕ) → Type 0
Fits outsz none = Unit
Fits outsz (some out) = length out < outsz

length-take_le : (n : ℕ) (xs : List ℕ) → length (take n xs) ≤ length xs
length-take_le zero xs = omega arith
length-take_le (suc n) [] = omega arith
length-take_le (suc n) (x ∷ xs) = omega (arith, length-take_le n xs)

path_step-Fits :
    (outsz : ℕ) (c out : List ℕ) → length out < outsz → Fits outsz (path_step outsz c out)
unfolding path_step path_pop Fits
path_step-Fits outsz c out lt = elim (Bool-cases (is_dot c)) [
  | inl e ↦ rw (e, path_step) lt
  | inr e ↦ elim (Bool-cases (is_dot_dot c)) [
    | inl f ↦
        rw (e, f, path_step) (omega (arith, length-take_le (pop_loop out (drop_slash out)) out))
    | inr f ↦ elim (Bool-cases (leb outsz (length out + length c + 1))) [
      | inl g ↦ rw (e, f, g, path_step) tt
      | inr g ↦
          rw (e, f, g, path_step)
            (ground (arith, length-append out (c ++ (slash ∷ [])), length-append c (slash ∷ [])))
    ]
  ]
]

path_loop-Fits :
    (fuel outsz : ℕ) (p out : List ℕ) → length out < outsz → Fits outsz (path_loop fuel outsz p out)
unfolding path_loop Fits
path_loop-Fits zero outsz p out lt = lt
path_loop-Fits (suc fuel) outsz p out lt = elim (Bool-cases (is_empty (skip_slashes p))) [
  | inl e ↦ rw (e, path_loop) lt
  | inr e ↦
      let c = name_part (skip_slashes p) in
      elim (Option-cases (path_step outsz c out)) [
        | inl f ↦ rw (e, f, path_loop) tt
        | inr (o, f) ↦
            rw (e, f, path_loop)
              (path_loop-Fits fuel outsz (name_rest (skip_slashes p)) o
                (subst (Fits outsz) f (path_step-Fits outsz c out lt)))
      ]
]

IsNamed : ℕ → Option (List ℕ) → Type 0
IsNamed outsz none = Unit
IsNamed outsz (some out) = (1 ≤ length out) × (length out < outsz)

path_base_out-Fits :
    (outsz : ℕ) (base name : List ℕ) → 1 ≤ outsz → Fits outsz (path_base_out outsz base name)
unfolding path_base_out Fits
path_base_out-Fits outsz base name le =
    elim (Bool-cases ((get_or name 0 0 == slash) || is_empty base)) [
      | inl e ↦ rw (e, path_base_out) le
      | inr e ↦ elim (Bool-cases (leb outsz (length base + 1))) [
        | inl f ↦ rw (e, f, path_base_out) tt
        | inr f ↦
            rw (e, f, path_base_out)
              (elim (Bool-cases (get_or base (length base - 1) 0 == slash)) [
                | inl g ↦ rw g (ground arith)
                | inr g ↦ rw g (ground (arith, length-append base (slash ∷ [])))
              ])
      ]
    ]

length-is_empty : (xs : List ℕ) → is_empty xs ≡ false → 1 ≤ length xs
length-is_empty [] e = ground arith
length-is_empty (x ∷ xs) e = omega arith

path_result-IsNamed :
    (outsz : ℕ) (out : List ℕ) → length out < outsz → IsNamed outsz (path_result out)
unfolding path_result IsNamed
path_result-IsNamed outsz out lt = elim (Bool-cases (is_empty (take (drop_slash out) out))) [
  | inl e ↦ rw (e, path_result) tt
  | inr e ↦
      rw (e, path_result) (length-is_empty _ e, omega (arith, length-take_le (drop_slash out) out))
]

path_resolve-IsNamed :
    (outsz : ℕ) (base name : List ℕ) → 1 ≤ outsz → IsNamed outsz (path_resolve outsz base name)
unfolding path_resolve IsNamed Fits
path_resolve-IsNamed outsz base [] le = tt
path_resolve-IsNamed outsz base (x ∷ p) le =
    elim (Option-cases (path_base_out outsz base (x ∷ p))) [
      | inl e ↦ rw e tt
      | inr (start, e) ↦ elim (Option-cases (path_loop (length (x ∷ p)) outsz (x ∷ p) start)) [
        | inl f ↦ rw (e, f) tt
        | inr (out, f) ↦
            rw (e, f)
              (path_result-IsNamed outsz out (
                subst (Fits outsz) f (
                  path_loop-Fits _ outsz (x ∷ p) start
                    (subst (Fits outsz) e (path_base_out-Fits outsz base (x ∷ p) le)))))
      ]
    ]

-- Whatever the base and the name, a path that `path_resolve` gives for a buffer of at least one
-- byte fits in it with its NUL, and is not empty.
pub path_resolve-length :
    (outsz : ℕ) (base name out : List ℕ)
    → path_resolve outsz base name ≡ some out
    → 1 ≤ outsz
    → (1 ≤ length out) × (length out < outsz)
unfolding IsNamed
path_resolve-length outsz base name out e le =
    subst (IsNamed outsz) e (path_resolve-IsNamed outsz base name le)
