-- ===== src/Kernel/Fs/Apart.antt =====
-- Files do not share sectors, whatever is saved, renamed or deleted (kernel/kernel.c).
use mini_os.Base.{
  ℕ, ◌+◌, ◌/◌, ◌≤◌, ◌<◌, ◌≡◌, ◌≢◌, ◌⊎◌, inl, inr, refl, true, arith, List, Option, none, some,
  get_or, set, length, Option-cases, get_or-set_self, get_or-set_ne, ℕ_discrete,
}
use mini_os.Base.Bytes.{Memory}
use mini_os.Kernel.Layout.{fs_data_lba}
use mini_os.Kernel.Names.{CString}
use mini_os.Kernel.Fs.{
  Fs, Dirent, empty_entry, in_use, fs_next_free, fs_next_free_excl, fs_find, unused_from, fs_write,
  write_at, overwrite_start, fs_sync_dir,
}
use mini_os.Kernel.Fs.Space.{max_end-ge, max_end-end, max_end_excl-ge, max_end_excl-end}
use mini_os.Kernel.Fs.Search.{fs_find_iff, unused_from-some, hit}
use mini_os.Kernel.Fs.Calls.{
  rename_entry, rename_found, delete_entry, sys_rename, sys_delete, name_arg,
}

-- The first sector behind a file.
abbrev pub last : Dirent → ℕ
last e = e.start + (e.size + 511) / 512

abbrev pub Before : Dirent → Dirent → Type 0
Before e f = (last e ≤ f.start) ⊎ (last f ≤ e.start)

abbrev pub nth : List Dirent → ℕ → Dirent
nth dir j = get_or dir j empty_entry

-- Every file lies in the data area, and no two files share a sector.
pub record IsApart (dir : List Dirent) : Type 0 where
  pub low : (j : ℕ) → in_use (nth dir j) ≡ true → fs_data_lba ≤ (nth dir j).start
  pub apart :
      (j k : ℕ)
      → j ≢ k
      → in_use (nth dir j) ≡ true
      → in_use (nth dir k) ≡ true
      → Before (nth dir j) (nth dir k)

-- No file ends beyond sector 2 ^ 31, so the sums do not wrap.
abbrev pub IsBounded : List Dirent → Type 0
IsBounded dir =
    (j : ℕ)
    → in_use (nth dir j) ≡ true
    → ((nth dir j).size < 2147483648) × (last (nth dir j) ≤ 2147483648)

module _ (dir : List Dirent) (idx : ℕ) (e : Dirent) (inside : idx < length dir) where
  nth-set_self : nth (set dir idx e) idx ≡ e
  nth-set_self = get_or-set_self dir idx e empty_entry inside

  nth-set_ne : (j : ℕ) → idx ≢ j → nth (set dir idx e) j ≡ nth dir j
  nth-set_ne j ne = get_or-set_ne dir idx j e empty_entry ne

  nth-set_cases :
      (j : ℕ)
      → ((idx ≡ j) × (nth (set dir idx e) j ≡ e))
        ⊎ ((idx ≢ j) × (nth (set dir idx e) j ≡ nth dir j))
  nth-set_cases j = elim (ℕ_discrete idx j) [
    | yes p ↦ inl (p, rw (← p) nth-set_self)
    | no p ↦ inr (p, nth-set_ne j p)
  ]

  -- A table with one entry replaced keeps its files apart if the new entry is apart from the others.
  pub set-IsApart :
      IsApart dir
      → (in_use e ≡ true → fs_data_lba ≤ e.start)
      → ((j : ℕ) → idx ≢ j → in_use e ≡ true → in_use (nth dir j) ≡ true → Before e (nth dir j))
      → IsApart (set dir idx e)
  set-IsApart a low new = record {
    low = λ j h. elim (nth-set_cases j) [
      | inl (p, s) ↦ rw s (low (rw s at h))
      | inr (p, s) ↦ rw s (a.low j (rw s at h))
    ];
    apart = λ j k ne hj hk. elim (nth-set_cases j) [
      | inl (p, s) ↦ elim (nth-set_cases k) [
        | inl (q, r) ↦ absurd (omega arith)
        | inr (q, r) ↦ rw (s, r) (new k q (rw s at hj) (rw r at hk))
      ]
      | inr (p, s) ↦ elim (nth-set_cases k) [
        | inl (q, r) ↦ rw (s, r) (omega (arith, new j p (rw r at hk) (rw s at hj)))
        | inr (q, r) ↦ rw (s, r) (a.apart j k ne (rw s at hj) (rw r at hk))
      ]
    ];
  }

-- The start that the allocator gives is behind every other file.
pub fs_next_free-behind :
    (fs : Fs)
    → IsBounded fs.dir
    → (fs_data_lba ≤ fs_next_free fs)
      × ((j : ℕ) → in_use (nth fs.dir j) ≡ true → last (nth fs.dir j) ≤ fs_next_free fs)
unfolding fs_next_free
fs_next_free-behind fs b =
    (max_end-ge fs.dir fs_data_lba, λ j h. omega (arith, b j h, max_end-end fs.dir fs_data_lba j h))

pub fs_next_free_excl-behind :
    (x : ℕ) (fs : Fs)
    → IsBounded fs.dir
    → (fs_data_lba ≤ fs_next_free_excl x fs)
      × ((j : ℕ)
          → x ≢ j
          → in_use (nth fs.dir j) ≡ true
          → last (nth fs.dir j) ≤ fs_next_free_excl x fs)
unfolding fs_next_free_excl
fs_next_free_excl-behind x fs b = (
  max_end_excl-ge x fs.dir 0 fs_data_lba,
  λ j ne h. omega (arith, b j h, max_end_excl-end x fs.dir 0 fs_data_lba j (omega arith) h),
)

write_at-IsApart :
    (name : CString) (buf : Memory) (size idx start : ℕ) (fs : Fs)
    → idx < length fs.dir
    → fs_data_lba ≤ start
    → ((j : ℕ)
        → idx ≢ j
        → in_use (nth fs.dir j) ≡ true
        → (start + (size + 511) / 512 ≤ (nth fs.dir j).start) ⊎ (last (nth fs.dir j) ≤ start))
    → IsApart fs.dir
    → IsApart (write_at name buf size idx start fs).dir
unfolding write_at fs_sync_dir
write_at-IsApart name buf size idx start fs inside low new a =
    set-IsApart fs.dir idx _ inside a (λ _. low) (λ j ne _ h. new j ne h)

-- An existing file's new contents stay apart from every other file.
pub overwrite_start-apart :
    (idx size : ℕ) (fs : Fs)
    → IsApart fs.dir
    → IsBounded fs.dir
    → size < 2147483648
    → in_use (nth fs.dir idx) ≡ true
    → (fs_data_lba ≤ overwrite_start idx size fs)
      × ((j : ℕ)
          → idx ≢ j
          → in_use (nth fs.dir j) ≡ true
          → (overwrite_start idx size fs + (size + 511) / 512 ≤ (nth fs.dir j).start)
            ⊎ (last (nth fs.dir j) ≤ overwrite_start idx size fs))
unfolding overwrite_start
overwrite_start-apart idx size fs a b small used = (
  ground (arith, a.low idx used, (fs_next_free_excl-behind idx fs b).0),
  λ j ne h.
      ground
        (arith, a.apart idx j ne used h, b idx used, (fs_next_free_excl-behind idx fs b).1 j ne h),
)

pub hit-in_use :
    (es : List Dirent) (name : CString) (k : ℕ) → hit es name k ≡ true → in_use (nth es k) ≡ true
hit-in_use es name k h = ground arith

-- Saving a file keeps every file in the data area and no two files on one sector, on a directory
-- where it was so, whose files end below sector 2 ^ 31, and for a size below 2 ^ 31.
pub fs_write-IsApart :
    (name : CString) (buf : Memory) (size : ℕ) (fs : Fs)
    → IsApart fs.dir
    → IsBounded fs.dir
    → size < 2147483648
    → IsApart (fs_write name buf size fs).1.dir
unfolding fs_write
fs_write-IsApart name buf size fs a b small = elim (Option-cases (fs_find name fs)) [
  | inl e ↦ elim (Option-cases (unused_from fs.dir 0)) [
    | inl f ↦ rw (e, f, fs_write) a
    | inr (idx, f) ↦
        let (k, same, inside, free) = unused_from-some fs.dir 0 idx f in
        let behind = fs_next_free-behind fs b in
        rw (e, f, fs_write)
          (write_at-IsApart name buf size idx (fs_next_free fs) fs (omega arith) behind.0
            (λ j ne h. inr (behind.1 j h)) a)
  ]
  | inr (idx, e) ↦
      let found = (fs_find_iff name fs idx).0 e in
      let new =
        overwrite_start-apart idx size fs a b small (hit-in_use fs.dir name idx found.here) in
      rw (e, fs_write)
        (write_at-IsApart name buf size idx (overwrite_start idx size fs) fs found.inside new.0
          new.1 a)
]

rename_entry-IsApart :
    (idx : ℕ) (name : CString) (fs : Fs)
    → idx < length fs.dir
    → in_use (nth fs.dir idx) ≡ true
    → IsApart fs.dir
    → IsApart (rename_entry idx name fs).dir
unfolding rename_entry fs_sync_dir
rename_entry-IsApart idx name fs inside used a =
    set-IsApart fs.dir idx _ inside a (λ _. a.low idx used) (λ j ne _ h. a.apart idx j ne used h)

rename_found-IsApart :
    (found taken : Option ℕ) (name : CString) (fs : Fs)
    → ((idx : ℕ) → found ≡ some idx → (idx < length fs.dir) × (in_use (nth fs.dir idx) ≡ true))
    → IsApart fs.dir
    → IsApart (rename_found found taken name fs).1.dir
unfolding rename_found
rename_found-IsApart none taken name fs h a = a
rename_found-IsApart (some idx) (some j) name fs h a = a
rename_found-IsApart (some idx) none name fs h a =
    rename_entry-IsApart idx name fs (h idx refl).0 (h idx refl).1 a

pub found_entry :
    (name : CString) (fs : Fs) (idx : ℕ)
    → fs_find name fs ≡ some idx
    → (idx < length fs.dir) × (in_use (nth fs.dir idx) ≡ true)
found_entry name fs idx e =
    let found = (fs_find_iff name fs idx).0 e in
    (found.inside, hit-in_use fs.dir name idx found.here)

-- SYS_RENAME, on a directory where every file lies in the data area and no two share a sector,
-- keeps it so, on every branch.
pub sys_rename-IsApart :
    (old new : ℕ) (user : Memory) (fs : Fs)
    → IsApart fs.dir
    → IsApart (sys_rename old new user fs).1.dir
unfolding sys_rename
sys_rename-IsApart old new user fs a = elim (Option-cases (name_arg user old)) [
  | inl e ↦ rw (e, sys_rename) a
  | inr (s, e) ↦ elim (Option-cases (name_arg user new)) [
    | inl f ↦ rw (e, f, sys_rename) a
    | inr (t, f) ↦
        rw (e, f, sys_rename)
          (rename_found-IsApart (fs_find s fs) (fs_find t fs) t fs (found_entry s fs) a)
  ]
]

-- SYS_DELETE, on a directory where every file lies in the data area and no two share a sector,
-- keeps it so, on every branch.
pub sys_delete-IsApart :
    (name : ℕ) (user : Memory) (fs : Fs) → IsApart fs.dir → IsApart (sys_delete name user fs).1.dir
unfolding sys_delete
sys_delete-IsApart name user fs a = elim (Option-cases (name_arg user name)) [
  | inl e ↦ rw (e, sys_delete) a
  | inr (s, e) ↦ elim (Option-cases (fs_find s fs)) [
    | inl f ↦ rw (e, f, sys_delete) a
    | inr (idx, f) ↦ rw (e, f, sys_delete) (deleted s idx f)
  ]
]
  where
    deleted : (s : CString) (idx : ℕ) → fs_find s fs ≡ some idx → IsApart (delete_entry idx fs).dir
    deleted s idx f =
        unfold delete_entry fs_sync_dir in
        set-IsApart fs.dir idx empty_entry (found_entry s fs idx f).0 a (λ h. absurd (cc))
          (λ j ne h _. absurd (cc))

-- SYS_RENAME and SYS_DELETE, on a directory where every file lies in the data area and no two share
-- a sector, keep it so, on every branch.
pub changes-IsApart :
    (old new : ℕ) (user : Memory) (fs : Fs)
    → IsApart fs.dir
    → IsApart (sys_rename old new user fs).1.dir × IsApart (sys_delete old user fs).1.dir
changes-IsApart old new user fs a =
    (sys_rename-IsApart old new user fs a, sys_delete-IsApart old user fs a)
