-- ===== src/Kernel/Process/Tests.antt =====
-- A program that sets its directory and reads it back (kernel/kernel.c).
use mini_os.Base.{ℕ, ◌≡◌, refl, true, false, arith, List, [], ◌∷◌}
use mini_os.Base.Bytes.{Memory, of_list}
use mini_os.Kernel.UserMemory.{user_range_ok}
use mini_os.Kernel.Process.{Process, sys_setcwd, sys_getcwd}
use mini_os.Kernel.Process.Directory.{IsText, Stands, sys_getcwd-sys_setcwd}

abbrev start : Process
start = record {
  sys_cwd = [];
  next_prog = [];
  next_prog_set = false;
  exit_code = 0;
  exit_requested = false;
}

abbrev dir : List ℕ
dir = b'a' ∷ b'/' ∷ []

abbrev memory : Memory
memory = of_list (b'a' ∷ b'/' ∷ 0 ∷ [])

dir-IsText : IsText dir
unfolding IsText
dir-IsText = ground arith

dir-Stands : Stands dir 0 memory
unfolding Stands of_list
dir-Stands = (refl, (refl, refl))

in_range : user_range_ok 64 16 ≡ true
unfolding user_range_ok
in_range = ground arith

sys_getcwd-sys_setcwd_example :
    ((sys_setcwd memory 0 start).0 ≡ 0)
    × ((sys_getcwd 64 16 memory (sys_setcwd memory 0 start).1).0 ≡ 2)
    × Stands dir 64 (sys_getcwd 64 16 memory (sys_setcwd memory 0 start).1).1
sys_getcwd-sys_setcwd_example =
    sys_getcwd-sys_setcwd memory 0 64 16 dir start dir-IsText dir-Stands (omega arith) (omega arith)
      (omega arith) in_range
