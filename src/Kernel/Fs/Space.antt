-- ===== src/Kernel/Fs/Space.antt =====
-- The allocator of kernel/kernel.c: where new data goes.
use mini_os.Base.{
  ℕ, zero, suc, ◌+◌, ◌≤◌, ◌≡◌, ◌≢◌, true, not, ◌||◌, ◌==◌, ltb, if◌then◌else◌, arith, List, [], ◌∷◌,
  get_or,
}
use mini_os.Kernel.Fs.{Dirent, empty_entry, in_use, end_of, max_end, max_end_excl}

pub max_end-ge : (es : List Dirent) (m : ℕ) → m ≤ max_end es m
unfolding max_end
max_end-ge [] m = omega arith
max_end-ge (e ∷ es) m =
    ground (
      arith,
      max_end-ge es (if not (in_use e) then m else if ltb m (end_of e) then end_of e else m),
    )

pub max_end-end :
    (es : List Dirent) (m k : ℕ)
    → in_use (get_or es k empty_entry) ≡ true
    → end_of (get_or es k empty_entry) ≤ max_end es m
unfolding max_end
max_end-end [] m k h = absurd (cc)
max_end-end (e ∷ es) m zero h =
    ground (
      arith,
      max_end-ge es (if not (in_use e) then m else if ltb m (end_of e) then end_of e else m),
    )
max_end-end (e ∷ es) m (suc k) h = max_end-end es _ k h

pub max_end_excl-ge : (x : ℕ) (es : List Dirent) (i m : ℕ) → m ≤ max_end_excl x es i m
unfolding max_end_excl
max_end_excl-ge x [] i m = omega arith
max_end_excl-ge x (e ∷ es) i m = ground (
  arith,
  max_end_excl-ge x es (i + 1)
      (if not (in_use e) || (i == x) then m else if ltb m (end_of e) then end_of e else m),
)

pub max_end_excl-end :
    (x : ℕ) (es : List Dirent) (i m k : ℕ)
    → i + k ≢ x
    → in_use (get_or es k empty_entry) ≡ true
    → end_of (get_or es k empty_entry) ≤ max_end_excl x es i m
unfolding max_end_excl
max_end_excl-end x [] i m k ne h = absurd (cc)
max_end_excl-end x (e ∷ es) i m zero ne h = ground (
  arith,
  max_end_excl-ge x es (i + 1)
      (if not (in_use e) || (i == x) then m else if ltb m (end_of e) then end_of e else m),
)
max_end_excl-end x (e ∷ es) i m (suc k) ne h = max_end_excl-end x es (i + 1) _ k (omega arith) h
