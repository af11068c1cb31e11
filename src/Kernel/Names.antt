-- ===== src/Kernel/Names.antt =====
-- Names and C strings in kernel/kernel.c. A char array is the list of its bytes; what lies behind
-- the list is 0, so a list without a 0 is a string that ends with it.
pub mod Equal
use mini_os.Base.{
  ℕ, zero, suc, ◌+◌, ◌-◌, Bool, true, false, not, ◌&&◌, ◌||◌, List, [], ◌∷◌, ◌==◌, ltb, leb,
  if◌then◌else◌,
}
use mini_os.Kernel.Layout.{fs_name_len}

abbrev pub CString : Type 0
CString = List ℕ

-- `*s` and `s + 1`.
abbrev pub char0 : CString → ℕ
char0 [] = 0
char0 (c ∷ s) = c

abbrev pub rest : CString → CString
rest [] = []
rest (c ∷ s) = s

-- `if (c >= 'a' && c <= 'z') c -= 32;`
unfoldable pub upper : ℕ → ℕ
upper c = if leb b'a' c && leb c b'z' then c - 32 else c

unfoldable pub strlen : CString → ℕ
strlen [] = 0
strlen (c ∷ s) = if c == 0 then 0 else suc (strlen s)

-- The loop with `k` rounds left.
unfoldable pub name_eq_loop : ℕ → CString → CString → Bool
name_eq_loop zero a b = true
name_eq_loop (suc k) a b =
    let again = name_eq_loop k (rest a) (rest b) in
    if (char0 a == 0) && (char0 b == 0)
    then true
    else if (char0 a == 0) || (char0 b == 0)
    then false
    else if not (upper (char0 a) == upper (char0 b))
    then false
    else again

unfoldable pub name_eq_ci : CString → CString → Bool
unfolding name_eq_loop upper
name_eq_ci a b = name_eq_loop 16 a b

-- At most `k` characters, in upper case, up to the end of the string.
unfoldable pub normalize_loop : ℕ → CString → CString
normalize_loop zero s = []
normalize_loop (suc k) [] = []
normalize_loop (suc k) (c ∷ s) = if c == 0 then [] else upper c ∷ normalize_loop k s

unfoldable pub normalize_name : CString → CString
unfolding normalize_loop upper
normalize_name s = normalize_loop fs_name_len s
