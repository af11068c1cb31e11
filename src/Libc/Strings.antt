-- ===== src/Libc/Strings.antt =====
-- Memory and string functions, fs/lib/string.c. A string is the list of its characters, without the
-- NUL; `n` is not negative.
pub mod Move
pub mod Compare
use mini_os.Base.{
  ℕ, zero, suc, ◌+◌, ◌-◌, ◌*◌, ◌/◌, ◌%◌, ◌≤◌, ◌<◌, ◌≡◌, ◌≢◌, ◌↔◌, ◌⊎◌, inl, inr, refl, sym, ap, ◌∙◌,
  Bool, true, false, not, ◌&&◌, ◌||◌, ◌==◌, ltb, leb, if◌then◌else◌, arith, List, [], ◌∷◌, Option,
  none, some, get_or, set, take, drop, length, Bool-cases, Option-cases, length-set,
  get_or-set_self, get_or-set_ne, ℕ_discrete, dec_lt, ◌++◌,
}
use mini_os.Base.Words.{add32, sub32, mul32, u32_mod}
use mini_os.Base.Bytes.{Memory, copy, fill, poke, copy_inside, copy_outside}

-- `while (i < n) { d[i] = s[i]; i = i + 1; }` with `k` rounds left.
unfoldable pub copy_up : ℕ → ℕ → ℕ → ℕ → Memory → Memory
copy_up zero i d s m = m
copy_up (suc k) i d s m = copy_up k (i + 1) d s (poke m (d + i) (m (s + i)))

-- `while (i >= 0) { d[i] = s[i]; i = i - 1; }` from `i = k - 1` on.
unfoldable pub copy_down : ℕ → ℕ → ℕ → Memory → Memory
copy_down zero d s m = m
copy_down (suc k) d s m = copy_down k d s (poke m (d + k) (m (s + k)))

unfoldable pub memcpy : ℕ → ℕ → ℕ → Memory → Memory
memcpy d s n m = copy_up n 0 d s m

unfoldable pub memmove : ℕ → ℕ → ℕ → Memory → Memory
memmove d s n m = if ltb d s then copy_up n 0 d s m else copy_down n d s m

unfoldable pub set_up : ℕ → ℕ → ℕ → ℕ → Memory → Memory
set_up zero i d v m = m
set_up (suc k) i d v m = set_up k (i + 1) d v (poke m (d + i) (v % 256))

unfoldable pub memset : ℕ → ℕ → ℕ → Memory → Memory
memset d v n m = set_up n 0 d v m

-- `memcmp`: the two bytes whose difference it returns, and two zeros where it returns 0.
unfoldable pub memcmp : ℕ → ℕ → ℕ → Memory → ℕ × ℕ
memcmp p q zero m = (0, 0)
memcmp p q (suc n) m =
    let rest = memcmp (p + 1) (q + 1) n m in if m p == m q then rest else (m p, m q)

-- `strcmp`: the two characters whose difference it returns.
unfoldable pub strcmp : List ℕ → List ℕ → ℕ × ℕ
strcmp [] [] = (0, 0)
strcmp [] (b ∷ ys) = (0, b)
strcmp (a ∷ xs) [] = (a, 0)
strcmp (a ∷ xs) (b ∷ ys) = let rest = strcmp xs ys in if a == b then rest else (a, b)

unfoldable pub strncmp : List ℕ → List ℕ → ℕ → ℕ × ℕ
strncmp xs ys zero = (0, 0)
strncmp [] [] (suc n) = (0, 0)
strncmp [] (b ∷ ys) (suc n) = (0, b)
strncmp (a ∷ xs) [] (suc n) = (a, 0)
strncmp (a ∷ xs) (b ∷ ys) (suc n) = let rest = strncmp xs ys n in if a == b then rest else (a, b)

-- The `n` bytes that `strncpy` writes.
unfoldable pub strncpy : List ℕ → ℕ → List ℕ
strncpy src zero = []
strncpy [] (suc n) = 0 ∷ strncpy [] n
strncpy (c ∷ src) (suc n) = c ∷ strncpy src n

-- `strcpy` at `d`, the NUL with it.
unfoldable pub strcpy : List ℕ → ℕ → Memory → Memory
strcpy [] d m = poke m d 0
strcpy (c ∷ src) d m = strcpy src (d + 1) (poke m d c)
