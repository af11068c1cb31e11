-- ===== src/Kernel/Threads/Slots.antt =====
-- One step of the scheduler: what the test of a thread changes in the table.
use mini_os.Base.{
  ℕ, zero, suc, ◌<◌, ◌≡◌, refl, Bool, true, false, List, [], ◌∷◌, arith, if◌then◌else◌, length,
  get_or, set, length-set, ◌==◌, ◌∙◌, ◌⊎◌, inl, inr,
}
use mini_os.Kernel.Threads.{
  Sched, Thread, empty_thread, thread_at, put_thread, max_threads, thread_is_runnable, reached,
}

-- A thread may run: it is in use, and does not sleep or has slept long enough.
abbrev pub can_run : ℕ → Thread → Bool
can_run now t =
    if t.used then (if t.sleep_until == 0 then true else reached now t.sleep_until) else false

pub thread_is_runnable_lem :
    (tid : ℕ) (s : Sched)
    → tid < max_threads
    → (thread_is_runnable tid s).0 ≡ can_run s.timer_ticks (thread_at s tid)
unfolding thread_is_runnable
thread_is_runnable_lem tid s h = ground arith

-- The test keeps every context and every `used` flag, and only ends sleeps that are over.
pub record Keeps (s s' : Sched) : Type 0 where
  pub size : length s'.threads ≡ length s.threads
  pub same_used : (j : ℕ) → (thread_at s' j).used ≡ (thread_at s j).used
  pub same_ctx : (j : ℕ) → (thread_at s' j).ctx ≡ (thread_at s j).ctx
  pub same_run :
      (j : ℕ) → can_run s.timer_ticks (thread_at s' j) ≡ can_run s.timer_ticks (thread_at s j)
  pub current : s'.current_tid ≡ s.current_tid
  pub count : s'.thread_count ≡ s.thread_count
  pub ticks : s'.timer_ticks ≡ s.timer_ticks
  pub pending : s'.thread_exit_pending ≡ s.thread_exit_pending
  pub exits : s'.exit_requested ≡ s.exit_requested

pub Keeps-refl : (s : Sched) → Keeps s s
Keeps-refl s = record {
  size = refl;
  same_used = λ j. refl;
  same_ctx = λ j. refl;
  same_run = λ j. refl;
  current = refl;
  count = refl;
  ticks = refl;
  pending = refl;
  exits = refl;
}

pub Keeps-trans : {s t u : Sched} → Keeps s t → Keeps t u → Keeps s u
Keeps-trans p q = record {
  size = q.size ∙ p.size;
  same_used = λ j. q.same_used j ∙ p.same_used j;
  same_ctx = λ j. q.same_ctx j ∙ p.same_ctx j;
  same_run = λ j. (rw p.ticks at (q.same_run j)) ∙ p.same_run j;
  current = q.current ∙ p.current;
  count = q.count ∙ p.count;
  ticks = q.ticks ∙ p.ticks;
  pending = q.pending ∙ p.pending;
  exits = q.exits ∙ p.exits;
}

-- The thread with its sleep ended.
abbrev pub awake : Thread → Thread
awake t = record t { sleep_until = 0 }

set-awake :
    (now : ℕ) (ts : List Thread) (tid j : ℕ)
    → (get_or ts tid empty_thread).used ≡ true
    → reached now (get_or ts tid empty_thread).sleep_until ≡ true
    → let u = get_or (set ts tid (awake (get_or ts tid empty_thread))) j empty_thread in
      (u.used ≡ (get_or ts j empty_thread).used)
      × (u.ctx ≡ (get_or ts j empty_thread).ctx)
      × (can_run now u ≡ can_run now (get_or ts j empty_thread))
set-awake now [] tid j h r = (refl, refl, refl)
set-awake now (x ∷ ts) zero zero h r = (refl, refl, ground arith)
set-awake now (x ∷ ts) zero (suc j) h r = (refl, refl, refl)
set-awake now (x ∷ ts) (suc i) zero h r = (refl, refl, refl)
set-awake now (x ∷ ts) (suc i) (suc j) h r = set-awake now ts i j h r

Keeps-awake :
    (s : Sched) (tid : ℕ)
    → (thread_at s tid).used ≡ true
    → reached s.timer_ticks (thread_at s tid).sleep_until ≡ true
    → Keeps s (put_thread s tid (awake (thread_at s tid)))
Keeps-awake s tid h r = record {
  size = length-set s.threads tid _;
  same_used = λ j. (set-awake s.timer_ticks s.threads tid j h r).0;
  same_ctx = λ j. (set-awake s.timer_ticks s.threads tid j h r).1;
  same_run = λ j. (set-awake s.timer_ticks s.threads tid j h r).2;
  current = refl;
  count = refl;
  ticks = refl;
  pending = refl;
  exits = refl;
}

thread_is_runnable_cases :
    (tid : ℕ) (s : Sched)
    → ((thread_is_runnable tid s).1 ≡ s)
      ⊎ (((thread_is_runnable tid s).1 ≡ put_thread s tid (awake (thread_at s tid)))
          × ((thread_at s tid).used ≡ true)
          × (reached s.timer_ticks (thread_at s tid).sleep_until ≡ true))
unfolding thread_is_runnable
thread_is_runnable_cases tid s = ground arith

pub thread_is_runnable-Keeps : (tid : ℕ) (s : Sched) → Keeps s (thread_is_runnable tid s).1
thread_is_runnable-Keeps tid s = elim (thread_is_runnable_cases tid s) [
  | inl e ↦ rw e (Keeps-refl s)
  | inr (e, used, over) ↦ rw e (Keeps-awake s tid used over)
]
