-- ===== src/Kernel/Fs/Calls.antt =====
-- The system calls on whole files: the cases of `syscall_dispatch` in kernel/kernel.c. `user` is the
-- program's memory.
use mini_os.Base.{ℕ, ◌+◌, ◌*◌, not, List, [], ◌∷◌, ltb, if◌then◌else◌, Option, none, some, set}
use mini_os.Base.Words.{mul32}
use mini_os.Base.Bytes.{Memory, copy, of_list, put_word}
use mini_os.Kernel.Layout.{err}
use mini_os.Kernel.Names.{CString, normalize_name}
use mini_os.Kernel.UserMemory.{user_range_ok, user_copy_str}
use mini_os.Kernel.Fs.{
  Fs, Dirent, empty_entry, entry_at, in_use, fs_find, fs_read, fs_write, fs_sync_dir, stored_name,
}

-- The value that a program sees of a size or -1.
abbrev pub or_err : Option ℕ → ℕ
or_err none = err
or_err (some n) = n

-- A string argument of at most 63 bytes, normalised.
unfoldable pub name_arg : Memory → ℕ → Option CString
name_arg user off = elim (user_copy_str user off 64) [
  | none ↦ none
  | some s ↦ some (normalize_name s)
]

-- SYS_LIST: the loop over the entries left, with the count so far. Records are 52 bytes.
unfoldable pub list_from : List Dirent → ℕ → ℕ → ℕ → Memory → ℕ × Memory
list_from [] off max count user = (count, user)
list_from (e ∷ es) off max count user =
    let skip = list_from es off max count user in
    let put =
      put_word (copy user (off + count * 52) (of_list e.name) 0 48) (off + count * 52 + 48)
        e.size in
    let more = list_from es off max (count + 1) put in
    if not (in_use e) then skip else if ltb max (mul32 (count + 1) 52) then (count, user) else more

unfoldable pub sys_list : ℕ → ℕ → Memory → Fs → ℕ × Memory
sys_list off max user fs =
    if not (user_range_ok off max) then (err, user) else list_from fs.dir off max 0 user

-- SYS_LOAD.
unfoldable pub sys_load : ℕ → ℕ → ℕ → Memory → Fs → ℕ × Memory
sys_load name_off buf_off max user fs =
    if not (user_range_ok buf_off max) then (err, user) else elim (name_arg user name_off) [
      | none ↦ (err, user)
      | some name ↦ let (n, user') = fs_read name user buf_off max fs in (or_err n, user')
    ]

-- SYS_SAVE.
unfoldable pub sys_save : ℕ → ℕ → ℕ → Memory → Fs → ℕ × Fs
sys_save name_off buf_off size user fs =
    if not (user_range_ok buf_off size) then (err, fs) else elim (name_arg user name_off) [
      | none ↦ (err, fs)
      | some name ↦
          let (done, fs') = fs_write name (λ p. user (buf_off + p)) size fs in
          (if done then 0 else err, fs')
    ]

-- The entry renamed, and the directory written.
unfoldable pub rename_entry : ℕ → CString → Fs → Fs
rename_entry idx name fs =
    fs_sync_dir
      (record fs { dir = set fs.dir idx (record (entry_at fs idx) { name = stored_name name }) })

-- SYS_RENAME, from the two searches on.
unfoldable pub rename_found : Option ℕ → Option ℕ → CString → Fs → ℕ × Fs
rename_found none taken name fs = (err, fs)
rename_found (some idx) (some j) name fs = (err, fs)
rename_found (some idx) none name fs = (0, rename_entry idx name fs)

unfoldable pub sys_rename : ℕ → ℕ → Memory → Fs → ℕ × Fs
sys_rename old_off new_off user fs = elim (name_arg user old_off) [
  | none ↦ (err, fs)
  | some old ↦ elim (name_arg user new_off) [
    | none ↦ (err, fs)
    | some new ↦ rename_found (fs_find old fs) (fs_find new fs) new fs
  ]
]

-- SYS_DELETE.
unfoldable pub delete_entry : ℕ → Fs → Fs
delete_entry idx fs = fs_sync_dir (record fs { dir = set fs.dir idx empty_entry })

unfoldable pub sys_delete : ℕ → Memory → Fs → ℕ × Fs
sys_delete name_off user fs = elim (name_arg user name_off) [
  | none ↦ (err, fs)
  | some name ↦ elim (fs_find name fs) [ none ↦ (err, fs) | some idx ↦ (0, delete_entry idx fs) ]
]
