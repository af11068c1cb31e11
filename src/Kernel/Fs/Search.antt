-- ===== src/Kernel/Fs/Search.antt =====
-- What the searches of the directory find (kernel/kernel.c).
use mini_os.Base.{
  ℕ, zero, suc, ◌+◌, ◌<◌, ◌≡◌, ◌↔◌, inl, inr, refl, sym, ap, ◌∙◌, Bool, true, false, ◌&&◌, arith,
  List, [], ◌∷◌, none, some, get_or, length, Bool-cases,
}
use mini_os.Kernel.Names.{CString, name_eq_ci, normalize_loop}
use mini_os.Kernel.Names.Equal.{name_eq_ci_iff}
use mini_os.Kernel.Fs.{Fs, Dirent, empty_entry, in_use, find_from, fs_find, unused_from}

-- Entry `k` is in use under a name that is taken for `name`.
abbrev pub hit : List Dirent → CString → ℕ → Bool
hit es name k = in_use (get_or es k empty_entry) && name_eq_ci (get_or es k empty_entry).name name

-- The first hit is entry `k`.
pub record IsFirst (es : List Dirent) (name : CString) (k : ℕ) : Type 0 where
  pub inside : k < length es
  pub here : hit es name k ≡ true
  pub before : (m : ℕ) → m < k → hit es name m ≡ false

IsFirst-later :
    (e : Dirent) (es : List Dirent) (name : CString) (k : ℕ)
    → in_use e && name_eq_ci e.name name ≡ false
    → IsFirst es name k
    → IsFirst (e ∷ es) name (suc k)
IsFirst-later e es name k miss f = record {
  inside = omega (arith, f.inside);
  here = f.here;
  before = λ m lt. earlier m lt;
}
  where
    earlier : (m : ℕ) → m < suc k → hit (e ∷ es) name m ≡ false
    earlier zero lt = miss
    earlier (suc m) lt = f.before m (omega arith)

find_from-IsFirst :
    (es : List Dirent) (name : CString) (i j : ℕ)
    → find_from es name i ≡ some j
    → (k : ℕ) × (j ≡ i + k) × IsFirst es name k
unfolding find_from
find_from-IsFirst [] name i j h = absurd (cc)
find_from-IsFirst (e ∷ es) name i j h = elim (Bool-cases (in_use e && name_eq_ci e.name name)) [
  | inl p ↦ (
    0,
    ground arith,
    record { inside = omega arith; here = p; before = λ m lt. absurd (omega arith) },
  )
  | inr p ↦
      let (k, at, first) = find_from-IsFirst es name (i + 1) j (ground arith) in
      (suc k, omega arith, IsFirst-later e es name k p first)
]

find_from-none :
    (es : List Dirent) (name : CString) (i : ℕ)
    → find_from es name i ≡ none
    → (k : ℕ) → hit es name k ≡ false
unfolding find_from
find_from-none [] name i h k = refl
find_from-none (e ∷ es) name i h zero = ground arith
find_from-none (e ∷ es) name i h (suc k) = find_from-none es name (i + 1) (ground arith) k

find_from_complete :
    (es : List Dirent) (name : CString) (i k : ℕ)
    → IsFirst es name k
    → find_from es name i ≡ some (i + k)
unfolding find_from
find_from_complete [] name i k f = absurd (omega (arith, f.inside))
find_from_complete (e ∷ es) name i zero f = ground (arith, f.here)
find_from_complete (e ∷ es) name i (suc k) f = ground (
  arith,
  f.before 0 (omega arith),
  find_from_complete es name (i + 1) k (record {
    inside = omega (arith, f.inside);
    here = f.here;
    before = λ m lt. f.before (suc m) (omega arith);
  }),
)

-- The lookup returns an entry exactly when it is the first in use whose name is taken for the
-- name given.
pub fs_find_iff :
    (name : CString) (fs : Fs) (k : ℕ) → (fs_find name fs ≡ some k) ↔ IsFirst fs.dir name k
unfolding fs_find
fs_find_iff name fs k = (
  λ h.
      let (m, at, f) = find_from-IsFirst fs.dir name 0 k h in
      let same : k ≡ m = omega arith in rw same f,
  λ f. find_from_complete fs.dir name 0 k f ∙ ap some (omega arith),
)

pub fs_find-none :
    (name : CString) (fs : Fs) → fs_find name fs ≡ none → (k : ℕ) → hit fs.dir name k ≡ false
unfolding fs_find
fs_find-none name fs h k = find_from-none fs.dir name 0 h k

same_test :
    (s a b : CString) → normalize_loop 16 a ≡ normalize_loop 16 b → name_eq_ci s a ≡ name_eq_ci s b
same_test s a b h = elim (Bool-cases (name_eq_ci s a)) [
  | inl p ↦ p ∙ sym ((name_eq_ci_iff s b).1 ((name_eq_ci_iff s a).0 p ∙ h))
  | inr p ↦ elim (Bool-cases (name_eq_ci s b)) [
    | inl q ↦ absurd (cc ((name_eq_ci_iff s a).1 ((name_eq_ci_iff s b).0 q ∙ sym h)))
    | inr q ↦ p ∙ sym q
  ]
]

find_from-alias :
    (es : List Dirent) (a b : CString) (i : ℕ)
    → normalize_loop 16 a ≡ normalize_loop 16 b
    → find_from es a i ≡ find_from es b i
unfolding find_from
find_from-alias [] a b i h = refl
find_from-alias (e ∷ es) a b i h = rw (same_test e.name a b h, find_from-alias es a b (i + 1) h)

-- Two names whose first 16 characters agree up to case find the same entry, though names have up
-- to 47 characters.
pub fs_find-alias :
    (a b : CString) (fs : Fs)
    → normalize_loop 16 a ≡ normalize_loop 16 b
    → fs_find a fs ≡ fs_find b fs
unfolding fs_find
fs_find-alias a b fs h = find_from-alias fs.dir a b 0 h

pub unused_from-some :
    (es : List Dirent) (i j : ℕ)
    → unused_from es i ≡ some j
    → (k : ℕ) × (j ≡ i + k) × (k < length es) × (in_use (get_or es k empty_entry) ≡ false)
unfolding unused_from
unused_from-some [] i j h = absurd (cc)
unused_from-some (e ∷ es) i j h = elim (Bool-cases (in_use e)) [
  | inl p ↦
      let (k, at, lt, free) = unused_from-some es (i + 1) j (ground arith) in
      (suc k, omega arith, omega arith, free)
  | inr p ↦ (0, ground arith, omega arith, p)
]
