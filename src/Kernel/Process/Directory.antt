-- ===== src/Kernel/Process/Directory.antt =====
-- The working directory that is read is the one that was set, and what is written leaves the console
-- in order (kernel/kernel.c).
use mini_os.Base.{
  ℕ, zero, suc, ◌+◌, ◌-◌, ◌≤◌, ◌<◌, ◌≡◌, refl, sym, true, arith, [], ◌∷◌, some, length,
}
use mini_os.Base.Bytes.{Memory, poke}
use mini_os.Kernel.Names.{CString}
use mini_os.Kernel.UserMemory.{user_copy_str, user_range_ok}
use mini_os.Kernel.UserMemory.Bounds.{user_copy_str_iff, StringAt}
use mini_os.Kernel.Console.{Console, vga_putc}
use mini_os.Kernel.Console.Cursor.{IsValid, console-IsValid}
use mini_os.Kernel.Process.{Process, sys_setcwd, put_cwd, sys_getcwd, put_all, sys_write}

-- No character is 0.
unfoldable pub IsText : CString → Type 0
IsText [] = Unit
IsText (c ∷ s) = (1 ≤ c) × IsText s

-- The string with its NUL stands at `a`.
unfoldable pub Stands : CString → ℕ → Memory → Type 0
Stands [] a m = m a ≡ 0
Stands (c ∷ s) a m = (m a ≡ c) × Stands s (a + 1) m

put_cwd-before : (k : ℕ) (s : CString) (a p : ℕ) (m : Memory) → p < a → (put_cwd k s a m).1 p ≡ m p
unfolding put_cwd poke
put_cwd-before zero s a p m lt = ground arith
put_cwd-before (suc k) [] a p m lt = ground arith
put_cwd-before (suc k) (c ∷ s) a p m lt =
    ground (arith, put_cwd-before k s (a + 1) p (poke m a c) (omega arith))

put_cwd_lem :
    (k : ℕ) (s : CString) (a : ℕ) (m : Memory)
    → IsText s
    → length s ≤ k
    → ((put_cwd k s a m).0 ≡ length s) × Stands s a ((put_cwd k s a m).1)
unfolding put_cwd poke IsText Stands
put_cwd_lem zero [] a m t le = ground arith
put_cwd_lem zero (c ∷ s) a m t le = absurd (omega arith)
put_cwd_lem (suc k) [] a m t le = ground arith
put_cwd_lem (suc k) (c ∷ s) a m t le = ground (
  arith,
  put_cwd_lem k s (a + 1) (poke m a c) t.1 (omega arith),
  put_cwd-before k s (a + 1) a (poke m a c) (omega arith),
)

StringAt-Stands : (m : Memory) (a : ℕ) (s : CString) → IsText s → Stands s a m → StringAt m a s
unfolding IsText Stands
StringAt-Stands m a [] t at = at
StringAt-Stands m a (c ∷ s) t at =
    ((λ e. absurd (omega (arith, t.0, at.0))), sym (at.0), StringAt-Stands m (a + 1) s t.1 at.1)

setcwd_found :
    (user : Memory) (off : ℕ) (dir : CString) (s : Process)
    → user_copy_str user off 64 ≡ some dir
    → sys_setcwd user off s ≡ (0, record s { sys_cwd = dir })
unfolding sys_setcwd
setcwd_found user off dir s e = rw (e, sys_setcwd) refl

getcwd_in_range :
    (user : Memory) (to max : ℕ) (s : Process)
    → 1 ≤ max
    → user_range_ok to max ≡ true
    → sys_getcwd to max user s ≡ put_cwd (max - 1) s.sys_cwd to user
unfolding sys_getcwd
getcwd_in_range user to zero s le ok = absurd (omega arith)
getcwd_in_range user to (suc max) s le ok = ground arith

argument_found :
    (user : Memory) (off : ℕ) (dir : CString)
    → IsText dir
    → Stands dir off user
    → length dir < 63
    → off + length dir < 100663296
    → user_copy_str user off 64 ≡ some dir
argument_found user off dir t at short inside =
    (user_copy_str_iff user off 64 dir).1 (short, inside, StringAt-Stands user off dir t at)

-- A directory name of up to 62 characters that stands in the program's memory, is set, and is
-- then read back into a buffer in range with room for it, arrives whole, with its NUL, and its
-- length is returned.
pub sys_getcwd-sys_setcwd :
    (user : Memory) (off to max : ℕ) (dir : CString) (s : Process)
    → IsText dir
    → Stands dir off user
    → length dir < 63
    → off + length dir < 100663296
    → length dir < max
    → user_range_ok to max ≡ true
    → ((sys_setcwd user off s).0 ≡ 0)
      × ((sys_getcwd to max user (sys_setcwd user off s).1).0 ≡ length dir)
      × Stands dir to (sys_getcwd to max user (sys_setcwd user off s).1).1
sys_getcwd-sys_setcwd user off to max dir s t at short inside room ok =
    let found = setcwd_found user off dir s (argument_found user off dir t at short inside) in
    let shown = put_cwd_lem (max - 1) dir to user t (omega arith) in
    rw (found, getcwd_in_range user to max (record s { sys_cwd = dir }) (omega arith) ok)
      (refl, shown.0, shown.1)

put_all-IsValid : (k a : ℕ) (user : Memory) (c : Console) → IsValid c → IsValid (put_all k a user c)
unfolding put_all
put_all-IsValid zero a user c v = v
put_all-IsValid (suc k) a user c v =
    put_all-IsValid k (a + 1) user (vga_putc (user a) c) ((console-IsValid c (user a) 0 0 0 v).0)

sys_write-IsValid :
    (fd off len : ℕ) (user : Memory) (c : Console)
    → IsValid c
    → IsValid (sys_write fd off len user c).1
unfolding sys_write
sys_write-IsValid fd off len user c v = ground (arith, put_all-IsValid len off user c v)
