-- ===== src/Shell/Paths/Resolve.antt =====
-- The shell finds the same file as the path library (user/sh.c, fs/lib/path.c).
use mini_os.Base.{
  ℕ, zero, suc, ◌+◌, ◌≤◌, ◌<◌, ◌≡◌, inl, inr, refl, sym, ap, ◌∙◌, Bool, true, false, ◌==◌, leb,
  if◌then◌else◌, arith, List, [], ◌∷◌, ◌++◌, Option, none, some, get_or, take, length, Bool-cases,
  ◌>>=◌,
}
use mini_os.Libc.Path.{
  slash, is_empty, skip_slashes, name_part, name_rest, is_dot, is_dot_dot, pop_loop, drop_slash,
  path_pop, path_step, path_loop, path_result, path_resolve,
}
use mini_os.Libc.Path.Pop.{IsParts, render, length-render}
use mini_os.Libc.Path.Split.{components}
use mini_os.Libc.Path.Resolve.{
  enter_all, get_or_last, render_some, IsPartsSome, path_loop-enter_all, if-IsParts, finish,
  path_resolve_lem,
}
use mini_os.Shell.Paths.{pop_component, build_loop, end_dir, end_file, build_path}

pop_component-path_pop : (out : List ℕ) → pop_component out ≡ path_pop out
unfolding pop_component path_pop pop_loop drop_slash
pop_component-path_pop [] = refl
pop_component-path_pop (c ∷ out) = ground arith

build_loop-path_loop :
    (fuel outsz : ℕ) (p out : List ℕ) → build_loop fuel outsz p out ≡ path_loop fuel outsz p out
unfolding build_loop path_loop path_step
build_loop-path_loop zero outsz p out = refl
build_loop-path_loop (suc fuel) outsz p out =
    let start = name_part (skip_slashes p) in
    let after = name_rest (skip_slashes p) in
    elim (Bool-cases (is_empty (skip_slashes p))) [
      | inl e ↦ rw (e, build_loop, path_loop) refl
      | inr e ↦ elim (Bool-cases (is_dot start)) [
        | inl f ↦ rw (e, f, build_loop, path_loop) (build_loop-path_loop fuel outsz after out)
        | inr f ↦ elim (Bool-cases (is_dot_dot start)) [
          | inl g ↦
              rw (e, f, g, build_loop, path_loop, pop_component-path_pop out)
                (build_loop-path_loop fuel outsz after (path_pop out))
          | inr g ↦ elim (Bool-cases (leb outsz (length out + length start + 1))) [
            | inl h ↦ rw (e, f, g, h, build_loop, path_loop) refl
            | inr h ↦
                rw (e, f, g, h, build_loop, path_loop)
                  (build_loop-path_loop fuel outsz after (out ++ (start ++ (slash ∷ []))))
          ]
        ]
      ]
    ]

null-is_empty : (xs : List ℕ) → (length xs == 0) ≡ is_empty xs
null-is_empty [] = refl
null-is_empty (x ∷ xs) = ground arith

end_file-path_result : (out : List ℕ) → end_file out ≡ path_result out
unfolding end_file path_result
end_file-path_result out =
    ap (λ b. if b then none else some (take (drop_slash out) out))
      (null-is_empty (take (drop_slash out) out))

end_dir_root : end_dir (render []) ≡ some (render [])
unfolding end_dir render
end_dir_root = refl

end_dir-render : (st : List (List ℕ)) → end_dir (render st) ≡ some (render st)
unfolding end_dir
end_dir-render [] = end_dir_root
end_dir-render (c ∷ st) = ground (arith, length-render st c, get_or_last st c)

abbrev pub dir_path : List (List ℕ) → Option (List ℕ)
dir_path st = some (render st)

bind_end_file : (o : Option (List ℕ)) → (o >>= λ out. end_file out) ≡ (o >>= path_result)
bind_end_file none = refl
bind_end_file (some out) = end_file-path_result out

bind_end_dir :
    (o : Option (List (List ℕ))) → (render_some o >>= λ out. end_dir out) ≡ (o >>= dir_path)
bind_end_dir none = refl
bind_end_dir (some st) = end_dir-render st

rest_of : ℕ → List ℕ → List ℕ
rest_of x p = if x == slash then p else x ∷ p

components-rest_of : (x : ℕ) (p : List ℕ) → components [] (rest_of x p) ≡ components [] (x ∷ p)
unfolding components rest_of
components-rest_of x p = ground arith

shorter : (x : ℕ) (p : List ℕ) → length (rest_of x p) ≤ length (x ∷ p)
unfolding rest_of
shorter x p = ground arith

walked :
    (outsz : ℕ) (st : List (List ℕ)) (x : ℕ) (p : List ℕ)
    → IsParts st
    → let from : List (List ℕ) = if x == slash then [] else st in
      let after = enter_all outsz (components [] (x ∷ p)) from in
      (build_loop (length (x ∷ p)) outsz (rest_of x p) (render from) ≡ render_some after)
      × IsPartsSome after
walked outsz st x p v =
    let from : List (List ℕ) = if x == slash then [] else st in
    let steps =
      path_loop-enter_all (length (x ∷ p)) outsz (rest_of x p) from (shorter x p)
        (if-IsParts (x == slash) st v) in
    rw
      (
        build_loop-path_loop (length (x ∷ p)) outsz (rest_of x p) (render from),
        ← components-rest_of x p,
      )
      steps

room_lem : (outsz n : ℕ) → n + 1 < outsz → leb outsz n ≡ false
room_lem outsz n lt = ground arith

build_path_walk :
    (outsz : ℕ) (st : List (List ℕ)) (x : ℕ) (p : List ℕ) (want_dir : Bool)
    → length (render st) + 1 < outsz
    → build_path (render st) outsz want_dir (x ∷ p) ≡ (
        build_loop (length (x ∷ p)) outsz (rest_of x p) (render (if x == slash then [] else st))
        >>= λ out. if want_dir then end_dir out else end_file out)
unfolding build_path rest_of render
build_path_walk outsz st x p want_dir room = elim (Bool-cases (x == slash)) [
  | inl e ↦ rw (e, rest_of) refl
  | inr e ↦ rw (e, room_lem outsz (length (render st)) room) refl
]

-- In a directory whose path fits in the buffer, the shell gives a name that is not empty the path
-- that the path library gives it, and fails on the names on which that fails. For a directory it
-- enters the same parts, and gives the path with its slash, that of the root too.
pub build_path_lem :
    (outsz : ℕ) (st : List (List ℕ)) (arg : List ℕ)
    → IsParts st
    → 1 ≤ length arg
    → length (render st) + 1 < outsz
    → (build_path (render st) outsz false arg ≡ path_resolve outsz (render st) arg)
      × (build_path (render st) outsz true arg ≡ (
          enter_all outsz (components [] arg) (if get_or arg 0 0 == slash then [] else st)
          >>= dir_path))
build_path_lem outsz st [] v le room = absurd (omega arith)
build_path_lem outsz st (x ∷ p) v le room =
    let w = walked outsz st x p v in
    let from : List (List ℕ) = if x == slash then [] else st in
    let after = enter_all outsz (components [] (x ∷ p)) from in
    (
      build_path_walk outsz st x p false room
          ∙ ap (λ o. o >>= λ out. end_file out) (w.0)
          ∙ bind_end_file (render_some after)
          ∙ finish after (w.1)
          ∙ sym (path_resolve_lem outsz st (x ∷ p) v le room),
      build_path_walk outsz st x p true room
          ∙ ap (λ o. o >>= λ out. end_dir out) (w.0)
          ∙ bind_end_dir after,
    )
