-- ===== src/Libc/Path.antt =====
-- Path joining, fs/lib/path.c. A string is the list of its characters, without the NUL; `out` holds
-- the characters before `out[n]`, which the code keeps at 0, so `n` is its length.
pub mod Pop
pub mod Split
pub mod Resolve
pub mod Space
mod Tests
use mini_os.Base.{
  ℕ, zero, suc, ◌+◌, ◌-◌, Bool, true, false, not, ◌&&◌, ◌||◌, ◌==◌, ltb, leb, if◌then◌else◌, List,
  [], ◌∷◌, ◌++◌, Option, none, some, get_or, take, drop, length, ◌>>=◌,
}

abbrev pub slash : ℕ
slash = b'/'

-- `!*p`
abbrev pub is_empty : List ℕ → Bool
is_empty [] = true
is_empty (c ∷ p) = false

-- `while (i > 0 && out[i - 1] != '/') i--;`
unfoldable pub pop_loop : List ℕ → ℕ → ℕ
pop_loop out zero = 0
pop_loop out (suc i) = if get_or out i 0 == slash then suc i else pop_loop out i

-- `if (i > 0 && out[i - 1] == '/') i--;`
unfoldable pub drop_slash : List ℕ → ℕ
drop_slash out =
    let i = length out in if ltb 0 i && (get_or out (i - 1) 0 == slash) then i - 1 else i

unfoldable pub path_pop : List ℕ → List ℕ
path_pop out = take (pop_loop out (drop_slash out)) out

-- `while (*p == '/') p++;`
unfoldable pub skip_slashes : List ℕ → List ℕ
skip_slashes [] = []
skip_slashes (c ∷ p) = if c == slash then skip_slashes p else c ∷ p

-- `while (*p && *p != '/') { p++; len++; }`: the characters passed, and the rest.
unfoldable pub name_part : List ℕ → List ℕ
name_part [] = []
name_part (c ∷ p) = if c == slash then [] else c ∷ name_part p

unfoldable pub name_rest : List ℕ → List ℕ
name_rest [] = []
name_rest (c ∷ p) = if c == slash then c ∷ p else name_rest p

unfoldable pub is_dot : List ℕ → Bool
is_dot start = (length start == 1) && (get_or start 0 0 == b'.')

unfoldable pub is_dot_dot : List ℕ → Bool
is_dot_dot start = (length start == 2) && (get_or start 0 0 == b'.') && (get_or start 1 0 == b'.')

-- What one part of the name does to `out`, or none where it does not fit.
unfoldable pub path_step : ℕ → List ℕ → List ℕ → Option (List ℕ)
path_step outsz start out =
    if is_dot start
    then some out
    else if is_dot_dot start
    then some (path_pop out)
    else if leb outsz (length out + length start + 1)
    then none
    else some (out ++ (start ++ (slash ∷ [])))

-- The loop over the name from `p` on, with at most `fuel` rounds: each one passes a character.
unfoldable pub path_loop : ℕ → ℕ → List ℕ → List ℕ → Option (List ℕ)
path_loop zero outsz p out = some out
path_loop (suc fuel) outsz p out =
    let start = skip_slashes p in
    let next = path_step outsz (name_part start) out >>= path_loop fuel outsz (name_rest start) in
    if is_empty start then some out else next

-- `base` copied to `out`, with a slash behind it; none where it does not fit.
unfoldable pub path_base_out : ℕ → List ℕ → List ℕ → Option (List ℕ)
path_base_out outsz base name =
    if (get_or name 0 0 == slash) || is_empty base
    then some []
    else if leb outsz (length base + 1)
    then none
    else some (if get_or base (length base - 1) 0 == slash then base else base ++ (slash ∷ []))

-- The last slash goes: a file is named, not a directory.
unfoldable pub path_result : List ℕ → Option (List ℕ)
path_result out = let file = take (drop_slash out) out in if is_empty file then none else some file

-- `path_resolve(base, name, out, outsz)`: none where it returns 0.
unfoldable pub path_resolve : ℕ → List ℕ → List ℕ → Option (List ℕ)
path_resolve outsz base name = if is_empty name then none else do
  start ← path_base_out outsz base name
  out ← path_loop (length name) outsz name start
  path_result out

-- `path_fs`, which refuses what the file system would cut: FS_NAME_MAX is 47.
unfoldable pub path_fs : ℕ → List ℕ → List ℕ → Option (List ℕ)
path_fs outsz base name = do
  out ← path_resolve outsz base name
  if leb (length out) 47 then some out else none

-- `while (n > 0 && path[n - 1] != '/') n--;`, then a copy of at most `outsz - 1` characters.
unfoldable pub path_dir : ℕ → List ℕ → List ℕ
path_dir outsz path =
    let n = pop_loop path (length path) in take (if leb outsz n then outsz - 1 else n) path

unfoldable pub base_loop : List ℕ → List ℕ → List ℕ
base_loop [] b = b
base_loop (c ∷ p) b = base_loop p (if c == slash then p else b)

unfoldable pub path_base : List ℕ → List ℕ
path_base path = base_loop path path
