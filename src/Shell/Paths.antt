-- ===== src/Shell/Paths.antt =====
-- Names and paths in the shell, user/sh.c. A string is the list of its characters, without the NUL;
-- `out` holds the characters before `out[n]`.
pub mod Resolve
mod Tests
use mini_os.Base.{
  ℕ, zero, suc, ◌+◌, ◌-◌, ◌*◌, ◌/◌, ◌%◌, ◌^◌, ◌≤◌, ◌<◌, ◌≡◌, ◌≢◌, ◌↔◌, ◌⊎◌, inl, inr, refl, sym, ap,
  ◌∙◌, Bool, true, false, not, ◌&&◌, ◌||◌, ◌==◌, ltb, leb, if◌then◌else◌, arith, List, [], ◌∷◌,
  ◌++◌, Option, none, some, get_or, set, take, drop, length, replicate, Bool-cases, Option-cases,
  length-set, length-append, get_or-append_left, get_or-append_right, take-append, get_or-set_self,
  get_or-set_ne, ℕ_discrete, dec_lt, ◌>>=◌,
}
use mathlib.Core.Path.{subst}
use mathlib.Core.List.{append-nil, append_assoc}
use mini_os.Base.Words.{add32, sub32, mul32, u32_mod}
use mini_os.Base.Bytes.{
  Memory, copy, fill, poke, of_list, read_bytes, word_at, put_word, copy_inside, copy_outside,
}
use mini_os.Libc.Path.{
  slash, is_empty, skip_slashes, name_part, name_rest, is_dot, is_dot_dot, pop_loop, drop_slash,
}
use mini_os.Kernel.Names.{upper}

-- `char_eq_ci`.
unfoldable pub char_eq_ci : ℕ → ℕ → Bool
char_eq_ci a b = upper a == upper b

unfoldable pub starts_with_ci : List ℕ → List ℕ → Bool
starts_with_ci s [] = true
starts_with_ci [] (c ∷ p) = false
starts_with_ci (a ∷ s) (c ∷ p) =
    let rest = starts_with_ci s p in if char_eq_ci a c then rest else false

-- The shell's own `name_eq_ci`, of whole names.
unfoldable pub same_name : List ℕ → List ℕ → Bool
same_name [] [] = true
same_name [] (b ∷ t) = false
same_name (a ∷ s) [] = false
same_name (a ∷ s) (b ∷ t) = let rest = same_name s t in if char_eq_ci a b then rest else false

unfoldable pub find_slash : List ℕ → Option ℕ
find_slash [] = none
find_slash (c ∷ s) =
    let rest = find_slash s in
    if c == slash then some 0 else elim rest [ none ↦ none | some i ↦ some (i + 1) ]

-- `pop_component`.
unfoldable pub pop_component : List ℕ → List ℕ
pop_component out = if length out == 0 then out else take (pop_loop out (drop_slash out)) out

-- The loop of `build_path` from `p` on, with at most `fuel` rounds: none where it returns -1.
unfoldable pub build_loop : ℕ → ℕ → List ℕ → List ℕ → Option (List ℕ)
build_loop zero outsz p out = some out
build_loop (suc fuel) outsz p out =
    let start = name_part (skip_slashes p) in
    let after = name_rest (skip_slashes p) in
    let same = build_loop fuel outsz after out in
    let popped = build_loop fuel outsz after (pop_component out) in
    let more = build_loop fuel outsz after (out ++ (start ++ (slash ∷ []))) in
    if is_empty (skip_slashes p)
    then some out
    else if is_dot start
    then same
    else if is_dot_dot start
    then popped
    else if leb outsz (length out + length start + 1)
    then none
    else more

-- `want_dir`, and not.
unfoldable pub end_dir : List ℕ → Option (List ℕ)
end_dir out =
    if length out == 0
    then some []
    else some (if get_or out (length out - 1) 0 == slash then out else out ++ (slash ∷ []))

unfoldable pub end_file : List ℕ → Option (List ℕ)
end_file out = let file = take (drop_slash out) out in if length file == 0 then none else some file

-- `build_path`: none where it does not return 1.
unfoldable pub build_path : List ℕ → ℕ → Bool → List ℕ → Option (List ℕ)
build_path cwd outsz want_dir arg =
    let absolute = get_or arg 0 0 == slash in
    let p = if absolute then drop 1 arg else arg in
    if is_empty arg
    then none
    else if not absolute && leb outsz (length cwd)
    then none
    else build_loop (length arg) outsz p (if absolute then [] else cwd) >>= λ out.
        if want_dir then end_dir out else end_file out

-- `ls_visible`: the name shown, and whether it is a directory's.
unfoldable pub visible_rest : List ℕ → Option (List ℕ × Bool)
visible_rest rest = elim (find_slash rest) [
  | none ↦ some (rest, false)
  | some s ↦ if length rest == s + 1 then some (take s rest, true) else none
]

unfoldable pub ls_visible : List ℕ → List ℕ → Option (List ℕ × Bool)
ls_visible cwd name =
    if is_empty cwd
    then visible_rest name
    else if not (starts_with_ci name cwd)
    then none
    else if is_empty (drop (length cwd) name)
    then none
    else visible_rest (drop (length cwd) name)
