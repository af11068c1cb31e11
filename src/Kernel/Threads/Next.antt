-- ===== src/Kernel/Threads/Next.antt =====
-- The round-robin search for the next thread that may run.
use Prim.Native.Nat.add
use mini_os.Base.{
  sym, ℕ, zero, suc, ◌+◌, ◌%◌, ◌<◌, ◌≡◌, true, false, arith, Bool-cases, inl, inr, ◌∙◌,
}
use mini_os.Kernel.Threads.{Sched, thread_at, max_threads, thread_is_runnable, next_runnable}
use mini_os.Kernel.Threads.Slots.{
  can_run, Keeps, Keeps-refl, Keeps-trans, thread_is_runnable_lem, thread_is_runnable-Keeps,
}

-- The thread that comes `k` places after `tid` in the round.
abbrev pub after : ℕ → ℕ → ℕ
after tid k = (tid + k) % max_threads

pub next_runnable-Keeps : (k next : ℕ) (s : Sched) → Keeps s (next_runnable k next s).1
unfolding next_runnable
next_runnable-Keeps zero next s = Keeps-refl s
next_runnable-Keeps (suc k) next s = elim (Bool-cases (thread_is_runnable n s).0) [
  | inl e ↦ rw e (thread_is_runnable-Keeps n s)
  | inr e ↦ rw e (
      Keeps-trans (thread_is_runnable-Keeps n s)
        (next_runnable-Keeps k n (thread_is_runnable n s).1))
]
  where
    n : ℕ
    n = (next + 1) % max_threads

-- Whether thread `tid` may run now.
abbrev pub Runs : Sched → ℕ → Type 0
Runs s tid = can_run s.timer_ticks (thread_at s tid) ≡ true

abbrev pub Waits : Sched → ℕ → Type 0
Waits s tid = can_run s.timer_ticks (thread_at s tid) ≡ false

-- The outcome of a search of `k` places after `tid`: the first thread that may run and the
-- distance to it, or the last place, where none of them may run.
pub data Found (s : Sched) (tid k next : ℕ) : Type 0 where
  first :
      (d : ℕ)
      → d < k
      → next ≡ after tid (d + 1)
      → Runs s next
      → ((e : ℕ) → e < d → Waits s (after tid (e + 1)))
      → Found s tid k next
  nowhere :
      next ≡ after tid k → ((e : ℕ) → e < k → Waits s (after tid (e + 1))) → Found s tid k next

pub Keeps-can_run :
    {s s' : Sched} (j : ℕ)
    → Keeps s s'
    → can_run s'.timer_ticks (thread_at s' j) ≡ can_run s.timer_ticks (thread_at s j)
Keeps-can_run j p = rw p.ticks (p.same_run j)

after-suc : (tid d : ℕ) → after ((tid + 1) % max_threads) (d + 1) ≡ after tid (suc d + 1)
after-suc tid d = omega arith

Waits-earlier :
    {s s' : Sched} (tid d : ℕ)
    → Keeps s s'
    → Waits s ((tid + 1) % max_threads)
    → ((e : ℕ) → e < d → Waits s' (after ((tid + 1) % max_threads) (e + 1)))
    → (e : ℕ) → e < suc d
    → Waits s (after tid (e + 1))
Waits-earlier tid d p w rest zero lt = rw (add.zero 1) w
Waits-earlier tid d p w rest (suc e) lt =
    rw (← after-suc tid e) (sym (Keeps-can_run _ p) ∙ rest e (omega arith))

Found-later :
    {s s' : Sched} (tid k : ℕ) {next : ℕ}
    → Keeps s s'
    → Waits s ((tid + 1) % max_threads)
    → Found s' ((tid + 1) % max_threads) k next
    → Found s tid (suc k) next
Found-later tid k p w (first d lt at runs rest) =
    first (suc d) (omega arith) (at ∙ after-suc tid d) (sym (Keeps-can_run _ p) ∙ runs)
      (Waits-earlier tid d p w rest)
Found-later tid k p w (nowhere at rest) = nowhere (omega arith) (Waits-earlier tid k p w rest)

-- The search stops at the first thread of the round that may run.
pub next_runnable-Found :
    (k tid : ℕ) (s : Sched) → tid < max_threads → Found s tid k (next_runnable k tid s).0
unfolding next_runnable
next_runnable-Found zero tid s h = nowhere (omega arith) (λ e p. absurd (omega arith))
next_runnable-Found (suc k) tid s h = elim (Bool-cases (thread_is_runnable n s).0) [
  | inl e ↦ rw e (
      first 0 (omega arith) (omega arith) (sym (thread_is_runnable_lem n s (omega arith)) ∙ e)
        (λ d p. absurd (omega arith)))
  | inr e ↦ rw e (
      Found-later tid k (thread_is_runnable-Keeps n s)
        (sym (thread_is_runnable_lem n s (omega arith)) ∙ e)
        (next_runnable-Found k n (thread_is_runnable n s).1 (omega arith)))
]
  where
    n : ℕ
    n = (tid + 1) % max_threads
