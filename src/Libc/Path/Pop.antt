-- ===== src/Libc/Path/Pop.antt =====
-- `path_pop` takes off the last directory (fs/lib/path.c).
use mini_os.Base.{
  ℕ, zero, suc, ◌+◌, ◌-◌, ◌≤◌, ◌<◌, ◌≡◌, ◌≢◌, refl, ap, ◌∙◌, arith, List, [], ◌∷◌, get_or, take,
  length, length-append, get_or-append_left, get_or-append_right, take-append, ℕ_discrete, ◌++◌,
}
use mini_os.Libc.Path.{slash, pop_loop, drop_slash, path_pop}

-- A name between slashes.
abbrev pub IsPart : List ℕ → Type 0
IsPart c = (1 ≤ length c) × ((i : ℕ) → i < length c → get_or c i 0 ≢ slash)

-- A directory: its parts, the last one first, each with a slash behind it.
unfoldable pub render : List (List ℕ) → List ℕ
render [] = []
render (c ∷ cs) = render cs ++ (c ++ (slash ∷ []))

-- Every part is one.
unfoldable pub IsParts : List (List ℕ) → Type 0
IsParts [] = Unit
IsParts (c ∷ cs) = IsPart c × IsParts cs

pub length-render :
    (cs : List (List ℕ)) (c : List ℕ) → length (render (c ∷ cs)) ≡ length (render cs) + length c + 1
unfolding render
length-render cs c =
    omega (arith, length-append (render cs) (c ++ (slash ∷ [])), length-append c (slash ∷ []))

-- The last character of a directory is a slash.
pub render_last :
    (cs : List (List ℕ)) (c : List ℕ)
    → get_or (render (c ∷ cs)) (length (render cs) + length c) 0 ≡ slash
unfolding render
render_last cs c =
    get_or-append_right (render cs) (c ++ (slash ∷ [])) _ (length c) 0 refl
    ∙ get_or-append_right c (slash ∷ []) _ 0 0 (omega arith)

render_before :
    (cs : List (List ℕ)) (c : List ℕ) (n : ℕ)
    → length (render cs) ≤ n
    → n < length c + length (render cs)
    → get_or (render (c ∷ cs)) n 0 ≡ get_or c (n - length (render cs)) 0
unfolding render
render_before cs c n le lt =
    get_or-append_right (render cs) (c ++ (slash ∷ [])) n (n - length (render cs)) 0 (omega arith)
    ∙ get_or-append_left c (slash ∷ []) _ 0 (omega arith)

render_parent :
    (cs : List (List ℕ)) (c : List ℕ) (i : ℕ)
    → suc i ≡ length (render cs)
    → get_or (render (c ∷ cs)) i 0 ≡ slash
unfolding render
render_parent [] c i e = absurd (omega arith)
render_parent (b ∷ cs) c i e =
    get_or-append_left (render (b ∷ cs)) (c ++ (slash ∷ [])) i 0 (omega arith)
    ∙ ap (λ k. get_or (render (b ∷ cs)) k 0) (omega (arith, length-render cs b))
    ∙ render_last cs b

pop_here :
    (out : List ℕ) (n : ℕ) → ((i : ℕ) → suc i ≡ n → get_or out i 0 ≡ slash) → pop_loop out n ≡ n
unfolding pop_loop
pop_here out zero f = refl
pop_here out (suc n) f = ground (arith, f n refl)

pop_parent :
    (n : ℕ) (cs : List (List ℕ)) (c : List ℕ)
    → IsPart c
    → length (render cs) ≤ n
    → n ≤ length c + length (render cs)
    → pop_loop (render (c ∷ cs)) n ≡ length (render cs)
unfolding pop_loop
pop_parent zero cs c part le ge = omega arith
pop_parent (suc n) cs c part le ge = elim (ℕ_discrete (suc n) (length (render cs))) [
  | yes e ↦ pop_here (render (c ∷ cs)) (suc n) (λ i h. render_parent cs c i (h ∙ e)) ∙ e
  | no e ↦ ground (
    arith,
    pop_parent n cs c part (omega arith) (omega arith),
    render_before cs c n (omega arith) (omega arith),
    part.1 (n - length (render cs)) (omega arith),
  )
]

pub drop_slash-render :
    (cs : List (List ℕ)) (c : List ℕ) → drop_slash (render (c ∷ cs)) ≡ length c + length (render cs)
unfolding drop_slash
drop_slash-render cs c = rw (length-render cs c) (ground (arith, render_last cs c))

take-render :
    (cs : List (List ℕ)) (c : List ℕ) → take (length (render cs)) (render (c ∷ cs)) ≡ render cs
unfolding render
take-render cs c = take-append (render cs) (c ++ (slash ∷ [])) _ refl

-- Taking off the last directory of a path leaves its parent, and takes nothing off the root.
pub path_pop-render :
    (cs : List (List ℕ)) (c : List ℕ) → IsPart c → path_pop (render (c ∷ cs)) ≡ render cs
unfolding path_pop
path_pop-render cs c part =
    ap (λ n. take (pop_loop (render (c ∷ cs)) n) (render (c ∷ cs))) (drop_slash-render cs c)
    ∙ ap (λ n. take n (render (c ∷ cs))) (pop_parent _ cs c part (omega arith) (omega arith))
    ∙ take-render cs c
