-- ===== src/Kernel/Process.antt =====
-- The state of the running program outside its memory (kernel/kernel.c): the working directory, the
-- program to run next and the way out, with the calls that set them.
pub mod Directory
mod Tests
use mini_os.Base.{
  ℕ, zero, suc, ◌+◌, ◌-◌, ◌*◌, ◌/◌, ◌%◌, ◌≤◌, ◌<◌, ◌≡◌, ◌≢◌, ◌↔◌, ◌⊎◌, inl, inr, refl, sym, ap, ◌∙◌,
  Bool, true, false, not, ◌&&◌, ◌||◌, ◌==◌, ltb, leb, if◌then◌else◌, arith, List, [], ◌∷◌, Option,
  none, some, get_or, set, take, drop, length, Bool-cases, Option-cases, length-set,
  get_or-set_self, get_or-set_ne, ℕ_discrete, dec_lt, ◌++◌,
}
use mini_os.Base.Words.{add32, sub32, mul32, u32_mod}
use mini_os.Base.Bytes.{Memory, copy, fill, poke, copy_inside, copy_outside}
use mini_os.Kernel.Layout.{err}
use mini_os.Kernel.Names.{CString, normalize_name}
use mini_os.Kernel.UserMemory.{user_copy_str, user_range_ok}
use mini_os.Kernel.Console.{Console, vga_putc}

pub record Process : Type 0 where
  pub sys_cwd : CString
  pub next_prog : CString
  pub next_prog_set : Bool
  pub exit_code : ℕ
  pub exit_requested : Bool

-- SYS_SETCWD, with the user's memory and the address of the string.
unfoldable pub sys_setcwd : Memory → ℕ → Process → ℕ × Process
sys_setcwd user off s = elim (user_copy_str user off 64) [
  | none ↦ (err, s)
  | some tmp ↦ (0, record s { sys_cwd = tmp })
]

-- `while (sys_cwd[n] && n < max - 1) { buf[n] = sys_cwd[n]; n++; }  buf[n] = 0;` with `k` rounds left:
-- the number of characters, and the memory.
unfoldable pub put_cwd : ℕ → CString → ℕ → Memory → ℕ × Memory
put_cwd zero s a m = (0, poke m a 0)
put_cwd (suc k) [] a m = (0, poke m a 0)
put_cwd (suc k) (c ∷ s) a m =
    let rest = put_cwd k s (a + 1) (poke m a c) in
    if c == 0 then (0, poke m a 0) else (suc (rest.0), rest.1)

-- SYS_GETCWD.
unfoldable pub sys_getcwd : ℕ → ℕ → Memory → Process → ℕ × Memory
sys_getcwd off max user s =
    if (max == 0) || not (user_range_ok off max)
    then (err, user)
    else put_cwd (max - 1) s.sys_cwd off user

-- SYS_EXEC.
unfoldable pub sys_exec : Memory → ℕ → Process → ℕ × Process
sys_exec user off s = elim (user_copy_str user off 64) [
  | none ↦ (err, s)
  | some uname ↦ (
    0,
    record s { next_prog = normalize_name uname; next_prog_set = true; exit_requested = true },
  )
]

-- SYS_EXIT.
unfoldable pub sys_exit : ℕ → Process → ℕ × Process
sys_exit code s = (0, record s { exit_code = code; exit_requested = true })

-- `for (u32 i = 0; i < len; i++) vga_putc(buf[i]);`
unfoldable pub put_all : ℕ → ℕ → Memory → Console → Console
put_all zero a user c = c
put_all (suc k) a user c = put_all k (a + 1) user (vga_putc (user a) c)

-- SYS_WRITE.
unfoldable pub sys_write : ℕ → ℕ → ℕ → Memory → Console → ℕ × Console
sys_write fd off len user c =
    if not (user_range_ok off len)
    then (err, c)
    else if (fd == 1) || (fd == 2)
    then (len, put_all len off user c)
    else (err, c)
