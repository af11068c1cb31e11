-- ===== src/Libc/Path/Tests.antt =====
-- Names joined to the directory "a/b/" (fs/lib/path.c).
use mini_os.Base.{
  ℕ, zero, suc, ◌+◌, ◌<◌, ◌≡◌, ◌≢◌, refl, ◌==◌, if◌then◌else◌, arith, List, [], ◌∷◌, some, get_or,
  length, ◌>>=◌,
}
use mini_os.Libc.Path.{
  slash, path_resolve, path_step, path_loop, path_base_out, path_result, path_pop, pop_loop,
  drop_slash, skip_slashes, name_part, name_rest, is_dot, is_dot_dot,
}
use mini_os.Libc.Path.Pop.{IsParts, render}
use mini_os.Libc.Path.Split.{components}
use mini_os.Libc.Path.Resolve.{enter_all, file_path, path_resolve_lem}

abbrev ab : List (List ℕ)
ab = (b'b' ∷ []) ∷ (b'a' ∷ []) ∷ []

no_slash : (c : ℕ) → c ≢ slash → (i : ℕ) → i < 1 → get_or (c ∷ []) i 0 ≢ slash
no_slash c ne zero lt = ne
no_slash c ne (suc i) lt = absurd (omega arith)

ab-IsParts : IsParts ab
unfolding IsParts
ab-IsParts = (
  (omega arith, no_slash b'b' (λ e. absurd (omega arith))),
  ((omega arith, no_slash b'a' (λ e. absurd (omega arith))), tt),
)

ab_short : length (render ab) + 1 < 64
unfolding render
ab_short = omega arith

-- "../c"
abbrev up_c : List ℕ
up_c = b'.' ∷ b'.' ∷ b'/' ∷ b'c' ∷ []

path_resolve_lem_example : path_resolve 64 (render ab) up_c ≡ (
    enter_all 64 (components [] up_c) (if get_or up_c 0 0 == slash then [] else ab) >>= file_path)
path_resolve_lem_example = path_resolve_lem 64 ab up_c ab-IsParts (omega arith) ab_short

a_c : path_resolve 64 (b'a' ∷ b'/' ∷ b'b' ∷ b'/' ∷ []) up_c ≡ some (b'a' ∷ b'/' ∷ b'c' ∷ [])
unfolding path_resolve path_step path_loop path_base_out path_result path_pop pop_loop drop_slash
    skip_slashes name_part name_rest is_dot is_dot_dot
a_c = refl
