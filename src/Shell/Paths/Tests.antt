-- ===== src/Shell/Paths/Tests.antt =====
-- Runs of user/sh.c's paths in the directory "a/b/".
use mini_os.Base.{
  ℕ, zero, suc, ◌+◌, ◌<◌, ◌≡◌, ◌≢◌, true, false, ◌==◌, if◌then◌else◌, arith, List, [], ◌∷◌, get_or,
  length, ◌>>=◌,
}
use mini_os.Libc.Path.{slash, path_resolve}
use mini_os.Libc.Path.Pop.{IsParts, render}
use mini_os.Libc.Path.Split.{components}
use mini_os.Libc.Path.Resolve.{enter_all}
use mini_os.Shell.Paths.{build_path}
use mini_os.Shell.Paths.Resolve.{dir_path, build_path_lem}

abbrev ab : List (List ℕ)
ab = (b'b' ∷ []) ∷ (b'a' ∷ []) ∷ []

no_slash : (c : ℕ) → c ≢ slash → (i : ℕ) → i < 1 → get_or (c ∷ []) i 0 ≢ slash
no_slash c ne zero lt = ne
no_slash c ne (suc i) lt = absurd (omega arith)

ab-IsParts : IsParts ab
unfolding IsParts
ab-IsParts = (
  (omega arith, no_slash b'b' (λ e. absurd (omega arith))),
  ((omega arith, no_slash b'a' (λ e. absurd (omega arith))), tt),
)

ab_short : length (render ab) + 1 < 64
unfolding render
ab_short = omega arith

-- "../c"
abbrev up_c : List ℕ
up_c = b'.' ∷ b'.' ∷ b'/' ∷ b'c' ∷ []

build_path_lem_example :
    (build_path (render ab) 64 false up_c ≡ path_resolve 64 (render ab) up_c)
    × (build_path (render ab) 64 true up_c ≡ (
        enter_all 64 (components [] up_c) (if get_or up_c 0 0 == slash then [] else ab)
        >>= dir_path))
build_path_lem_example = build_path_lem 64 ab up_c ab-IsParts (omega arith) ab_short
