-- ===== src/Libc/Path/Resolve.antt =====
-- What joining a name to a directory means, part by part (fs/lib/path.c).
use mini_os.Base.{
  ℕ, zero, suc, ◌+◌, ◌-◌, ◌≤◌, ◌<◌, ◌≡◌, inl, inr, refl, sym, ap, ◌∙◌, Bool, true, false, ◌==◌, leb,
  if◌then◌else◌, arith, List, [], ◌∷◌, Option, none, some, get_or, take, drop, length,
  length-append, take-append, ◌>>=◌, Bool-cases, Option-cases, ◌++◌,
}
use mathlib.Core.Path.{subst}
use mathlib.Core.List.{append_assoc}
use mini_os.Libc.Path.{
  is_empty, slash, pop_loop, drop_slash, path_pop, skip_slashes, name_part, name_rest, is_dot,
  is_dot_dot, path_step, path_loop, path_base_out, path_result, path_resolve,
}
use mini_os.Libc.Path.Pop.{
  IsPart, IsParts, render, path_pop-render, length-render, render_last, drop_slash-render,
}
use mini_os.Libc.Path.Split.{
  components, components-skip_slashes, components-name_part, name_part-IsPart, length-round,
  skip_slashes-head,
}

-- One part of the name, on the parts of the directory, the last one first; none where the path
-- with its last slash and its NUL does not fit in `outsz` bytes.
unfoldable pub enter : ℕ → List ℕ → List (List ℕ) → Option (List (List ℕ))
enter outsz c st =
    if is_dot c
    then some st
    else if is_dot_dot c
    then some (drop 1 st)
    else if leb outsz (length (render st) + length c + 1)
    then none
    else some (c ∷ st)

unfoldable pub enter_all : ℕ → List (List ℕ) → List (List ℕ) → Option (List (List ℕ))
enter_all outsz [] st = some st
enter_all outsz (c ∷ cs) st = enter outsz c st >>= enter_all outsz cs

-- The path of a file, without a slash behind it.
unfoldable pub file_path : List (List ℕ) → Option (List ℕ)
file_path [] = none
file_path (c ∷ cs) = some (render cs ++ c)

abbrev pub render_some : Option (List (List ℕ)) → Option (List ℕ)
render_some none = none
render_some (some st) = some (render st)

path_pop_root : path_pop [] ≡ []
unfolding path_pop drop_slash pop_loop
path_pop_root = refl

path_step-enter :
    (outsz : ℕ) (c : List ℕ) (st : List (List ℕ))
    → IsParts st
    → path_step outsz c (render st) ≡ render_some (enter outsz c st)
unfolding path_step enter IsParts render
path_step-enter outsz c [] v = ground (arith, path_pop_root)
path_step-enter outsz c (b ∷ st) v = ground (arith, path_pop-render st b v.0)

unfoldable pub IsPartsSome : Option (List (List ℕ)) → Type 0
IsPartsSome none = Unit
IsPartsSome (some st) = IsParts st

drop-IsParts : (st : List (List ℕ)) → IsParts st → IsParts (drop 1 st)
unfolding IsParts
drop-IsParts [] v = v
drop-IsParts (c ∷ st) v = v.1

enter-IsParts :
    (outsz : ℕ) (c : List ℕ) (st : List (List ℕ))
    → IsPart c
    → IsParts st
    → IsPartsSome (enter outsz c st)
unfolding enter IsParts IsPartsSome
enter-IsParts outsz c st p v = elim (Bool-cases (is_dot c)) [
  | inl e ↦ rw (e, enter) v
  | inr e ↦ elim (Bool-cases (is_dot_dot c)) [
    | inl f ↦ rw (e, f, enter) (drop-IsParts st v)
    | inr f ↦ elim (Bool-cases (leb outsz (length (render st) + length c + 1))) [
      | inl g ↦ rw (e, f, g, enter) tt
      | inr g ↦ rw (e, f, g, enter) (p, v)
    ]
  ]
]

loop_step :
    (fuel outsz : ℕ) (p : List ℕ) (st : List (List ℕ)) (start : List ℕ)
    → ((st : List (List ℕ))
        → IsParts st
        → path_loop fuel outsz (name_rest start) (render st)
            ≡ render_some (enter_all outsz (components [] (name_rest start)) st)
          × IsPartsSome (enter_all outsz (components [] (name_rest start)) st))
    → IsParts st
    → skip_slashes p ≡ start
    → path_loop (suc fuel) outsz p (render st) ≡ render_some (enter_all outsz (components [] p) st)
      × IsPartsSome (enter_all outsz (components [] p) st)
unfolding path_loop enter_all components IsParts IsPartsSome
loop_step fuel outsz p st [] ih v e =
    rw (e, sym (components-skip_slashes p) ∙ ap (components []) e) (refl, v)
loop_step fuel outsz p st (x ∷ q) ih v e =
    let c = name_part (x ∷ q) in
    let part = name_part-IsPart x q (skip_slashes-head p x q e) in
    rw
      (
        e,
        sym (components-skip_slashes p) ∙ ap (components []) e,
        components-name_part (x ∷ q) [] part.0,
        path_step-enter outsz c st v,
      )
      (elim (Option-cases (enter outsz c st)) [
        | inl f ↦ rw f (refl, tt)
        | inr (s, f) ↦ rw f (ih s (subst IsPartsSome f (enter-IsParts outsz c st part v)))
      ])

pub path_loop-enter_all :
    (fuel outsz : ℕ) (p : List ℕ) (st : List (List ℕ))
    → length p ≤ fuel
    → IsParts st
    → path_loop fuel outsz p (render st) ≡ render_some (enter_all outsz (components [] p) st)
      × IsPartsSome (enter_all outsz (components [] p) st)
unfolding path_loop enter_all components IsPartsSome
path_loop-enter_all zero outsz [] st le v = (refl, v)
path_loop-enter_all zero outsz (x ∷ p) st le v = absurd (omega arith)
path_loop-enter_all (suc fuel) outsz p st le v =
    loop_step fuel outsz p st (skip_slashes p)
      (λ s w.
        path_loop-enter_all fuel outsz (name_rest (skip_slashes p)) s
          (omega (arith, length-round p)) w)
      v refl

pub get_or_last :
    (st : List (List ℕ)) (c : List ℕ)
    → get_or (render (c ∷ st)) (length (render (c ∷ st)) - 1) 0 ≡ slash
get_or_last st c =
    ap (λ n. get_or (render (c ∷ st)) n 0) (omega (arith, length-render st c)) ∙ render_last st c

path_base_out-render :
    (outsz : ℕ) (st : List (List ℕ)) (name : List ℕ)
    → length (render st) + 1 < outsz
    → path_base_out outsz (render st) name
      ≡ some (render (if get_or name 0 0 == slash then [] else st))
unfolding path_base_out render
path_base_out-render outsz [] name lt = ground arith
path_base_out-render outsz (c ∷ st) name lt =
    ground (arith, length-render st c, render_last st c, get_or_last st c)

path_result_root : path_result [] ≡ none
unfolding path_result drop_slash
path_result_root = refl

is_empty-length : (xs : List ℕ) → 1 ≤ length xs → is_empty xs ≡ false
is_empty-length [] le = absurd (omega arith)
is_empty-length (x ∷ xs) le = refl

take-render :
    (st : List (List ℕ)) (c : List ℕ)
    → take (drop_slash (render (c ∷ st))) (render (c ∷ st)) ≡ render st ++ c
unfolding render
take-render st c =
    ap (λ n. take n (render (c ∷ st))) (drop_slash-render st c)
    ∙ ap (take (length c + length (render st))) (sym (append_assoc (render st) c (slash ∷ [])))
    ∙ take-append (render st ++ c) (slash ∷ []) _ (omega (arith, length-append (render st) c))

path_result-render : (st : List (List ℕ)) → IsParts st → path_result (render st) ≡ file_path st
unfolding path_result file_path IsParts render
path_result-render [] v = path_result_root
path_result-render (c ∷ st) v =
    rw (take-render st c)
      (ground (arith, length-append (render st) c, is_empty-length (render st ++ c), v.0.0))

pub finish :
    (o : Option (List (List ℕ)))
    → IsPartsSome o
    → (render_some o >>= path_result) ≡ (o >>= file_path)
unfolding IsPartsSome
finish none v = refl
finish (some st) v = path_result-render st v

pub if-IsParts : (b : Bool) (st : List (List ℕ)) → IsParts st → IsParts (if b then [] else st)
unfolding IsParts
if-IsParts true st v = tt
if-IsParts false st v = v

-- In a directory whose path fits in the buffer, `path_resolve` enters the parts of a name that is
-- not empty one by one: a `.` stays, a `..` goes to the parent and stays at the root, any other
-- part is a directory to go into. A name that starts with a slash starts at the root. It fails
-- just where a step does not fit or the path is that of the root.
pub path_resolve_lem :
    (outsz : ℕ) (st : List (List ℕ)) (name : List ℕ)
    → IsParts st
    → 1 ≤ length name
    → length (render st) + 1 < outsz
    → path_resolve outsz (render st) name ≡ (
        enter_all outsz (components [] name) (if get_or name 0 0 == slash then [] else st)
        >>= file_path)
unfolding path_resolve IsParts
path_resolve_lem outsz st [] v ge lt = absurd (omega arith)
path_resolve_lem outsz st (x ∷ p) v ge lt =
    let from : List (List ℕ) = if x == slash then [] else st in
    let from-IsParts : IsParts from = if-IsParts (x == slash) st v in
    let loop = path_loop-enter_all (length (x ∷ p)) outsz (x ∷ p) from (omega arith) from-IsParts in
    rw (path_base_out-render outsz st (x ∷ p) lt, loop.0)
      (finish (enter_all outsz (components [] (x ∷ p)) from) loop.1)
