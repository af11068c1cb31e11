-- ===== src/Kernel/Threads/Count.antt =====
-- How many table entries are in use, and what a write of one entry does to that number.
use mini_os.Base.{
  ℕ, zero, suc, ◌+◌, ◌<◌, ◌≤◌, ◌≡◌, refl, ap, Bool, false, none, some, List, [], ◌∷◌, arith,
  Bool-cases, inl, inr, if◌then◌else◌, length, get_or, set,
}
use mini_os.Kernel.Threads.{Thread, empty_thread, clear_used, free_slot}

abbrev pub one_if : Bool → ℕ
one_if b = if b then 1 else 0

abbrev pub count_used : List Thread → ℕ
count_used [] = 0
count_used (t ∷ ts) = one_if t.used + count_used ts

pub count_used-set :
    (ts : List Thread) (i : ℕ) (t : Thread)
    → i < length ts
    → count_used (set ts i t) + one_if (get_or ts i empty_thread).used
      ≡ count_used ts + one_if t.used
count_used-set [] i t h = absurd (omega arith)
count_used-set (x ∷ ts) zero t h = omega arith
count_used-set (x ∷ ts) (suc i) t h = omega (arith, count_used-set ts i t (omega arith))

pub count_used-set_same :
    (ts : List Thread) (i : ℕ) (t : Thread)
    → t.used ≡ (get_or ts i empty_thread).used
    → count_used (set ts i t) ≡ count_used ts
count_used-set_same [] i t h = refl
count_used-set_same (x ∷ ts) zero t h = ground arith
count_used-set_same (x ∷ ts) (suc i) t h =
    ap (λ n. one_if x.used + n) (count_used-set_same ts i t h)

pub count_used-le-length : (ts : List Thread) → count_used ts ≤ length ts
count_used-le-length [] = omega arith
count_used-le-length (t ∷ ts) = ground (arith, count_used-le-length ts)

pub count_used-clear_used : (ts : List Thread) → count_used (clear_used ts) ≡ 0
unfolding clear_used
count_used-clear_used [] = refl
count_used-clear_used (t ∷ ts) = omega (arith, count_used-clear_used ts)

pub length-clear_used : (ts : List Thread) → length (clear_used ts) ≡ length ts
unfolding clear_used
length-clear_used [] = refl
length-clear_used (t ∷ ts) = ap suc (length-clear_used ts)

-- The search for a free entry: its result is free, and it fails on a full table only.
pub free_slot-some :
    (ts : List Thread) (i j : ℕ)
    → free_slot ts i ≡ some j
    → (k : ℕ) × (j ≡ i + k) × (k < length ts) × ((get_or ts k empty_thread).used ≡ false)
unfolding free_slot
free_slot-some [] i j h = absurd (cc)
free_slot-some (t ∷ ts) i j h = elim (Bool-cases t.used) [
  | inl e ↦
      let (k, at, small, free) = free_slot-some ts (i + 1) j (ground arith) in
      (suc k, omega arith, omega arith, free)
  | inr e ↦ (0, ground arith, omega arith, e)
]

pub free_slot-none : (ts : List Thread) (i : ℕ) → free_slot ts i ≡ none → count_used ts ≡ length ts
unfolding free_slot
free_slot-none [] i h = refl
free_slot-none (t ∷ ts) i h = ground (arith, free_slot-none ts (i + 1))

pub used-clear_used :
    (ts : List Thread) (j : ℕ) → (get_or (clear_used ts) j empty_thread).used ≡ false
unfolding clear_used
used-clear_used [] j = refl
used-clear_used (t ∷ ts) zero = refl
used-clear_used (t ∷ ts) (suc j) = used-clear_used ts j
