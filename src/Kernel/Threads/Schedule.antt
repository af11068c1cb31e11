-- ===== src/Kernel/Threads/Schedule.antt =====
-- What the timer interrupt does to the running program: round robin over the threads that may run.
use mini_os.Base.{
  ℕ, zero, suc, ◌+◌, ◌<◌, ◌≡◌, ◌≢◌, refl, Bool, true, false, arith, ◌⊎◌, inl, inr, ◌∙◌, sym, ap,
  dec_lt, get_or, set, List, [], ◌∷◌, get_or-set_ne, get_or-set_self,
}
use mini_os.Kernel.Threads.{
  Sched, Thread, FaultFrame, thread_at, put_thread, max_threads, thread_is_runnable, next_runnable,
  empty_thread, user_cs, save_current, switch_to, thread_schedule,
}
use mini_os.Kernel.Threads.Slots.{Keeps, can_run, thread_is_runnable-Keeps, thread_is_runnable_lem}
use mini_os.Kernel.Threads.Next.{
  next_runnable-Keeps, next_runnable-Found, Found, first, nowhere, Runs, Waits, after,
  Keeps-can_run,
}
use mini_os.Kernel.Threads.Invariant.{IsValid}

-- Saving a context changes nobody's right to run, and no other context.
set_ctx :
    (now : ℕ) (f : FaultFrame) (ts : List Thread) (i j : ℕ)
    → let u = get_or (set ts i (record (get_or ts i empty_thread) { ctx = f })) j empty_thread in
      can_run now u ≡ can_run now (get_or ts j empty_thread)
set_ctx now f [] i j = refl
set_ctx now f (x ∷ ts) zero zero = refl
set_ctx now f (x ∷ ts) zero (suc j) = refl
set_ctx now f (x ∷ ts) (suc i) zero = refl
set_ctx now f (x ∷ ts) (suc i) (suc j) = set_ctx now f ts i j

record Saves (f : FaultFrame) (s s' : Sched) : Type 0 where
  same_run :
      (j : ℕ) → can_run s'.timer_ticks (thread_at s' j) ≡ can_run s.timer_ticks (thread_at s j)
  other_ctx : (j : ℕ) → j ≢ s.current_tid → (thread_at s' j).ctx ≡ (thread_at s j).ctx
  own_ctx : (thread_at s s.current_tid).used ≡ true → (thread_at s' s.current_tid).ctx ≡ f
  current : s'.current_tid ≡ s.current_tid

Saves-put :
    (f : FaultFrame) (s : Sched)
    → IsValid s
    → Saves f s (put_thread s s.current_tid (record (thread_at s s.current_tid) { ctx = f }))
Saves-put f s v = record {
  same_run = λ j. set_ctx s.timer_ticks f s.threads s.current_tid j;
  other_ctx = λ j ne.
      ap (λ (t : Thread). t.ctx)
        (get_or-set_ne s.threads s.current_tid j _ empty_thread (λ p. ne (sym p)));
  own_ctx = λ _.
      ap (λ (t : Thread). t.ctx)
        (get_or-set_self s.threads s.current_tid _ empty_thread (omega arith));
  current = refl;
}

save_current_cases :
    (f : FaultFrame) (s : Sched)
    → (save_current f s
        ≡ put_thread s s.current_tid (record (thread_at s s.current_tid) { ctx = f }))
      ⊎ ((save_current f s ≡ s) × ((thread_at s s.current_tid).used ≡ false))
unfolding save_current
save_current_cases f s = ground arith

save_current-Saves : (f : FaultFrame) (s : Sched) → IsValid s → Saves f s (save_current f s)
save_current-Saves f s v = elim (save_current_cases f s) [
  | inl e ↦ rw e (Saves-put f s v)
  | inr (e, free) ↦ rw e (record {
    same_run = λ j. refl;
    other_ctx = λ j ne. refl;
    own_ctx = λ p. absurd (cc);
    current = refl;
  })
]

-- Two searches of one round that stop at a thread which may run stop at the same one.
pub first_unique :
    (s : Sched) (tid d next : ℕ)
    → d < max_threads
    → Runs s (after tid (d + 1))
    → ((e : ℕ) → e < d → Waits s (after tid (e + 1)))
    → Found s tid max_threads next
    → next ≡ after tid (d + 1)
first_unique s tid d next lt runs waits (first d' lt' at runs' waits') = elim (dec_lt d d') [
  | yes p ↦ absurd (cc (waits' d p))
  | no p ↦ elim (dec_lt d' d) [
    | yes q ↦ absurd (let r : Runs s (after tid (d' + 1)) = rw at at runs' in cc (waits d' q))
    | no q ↦ let same : d ≡ d' = omega arith in rw same at
  ]
]
first_unique s tid d next lt runs waits (nowhere at waits') = absurd (cc (waits' d lt))

-- A switch to a thread other than the current one that may run.
switch_to-other :
    (b : Bool) (next : ℕ) (f : FaultFrame) (s : Sched)
    → next < max_threads
    → next ≢ s.current_tid
    → Runs s next
    → ((switch_to b next f s).0 ≡ (thread_at s next).ctx)
      × ((switch_to b next f s).1 ≡ record (thread_is_runnable next s).1 { current_tid = next })
unfolding switch_to
switch_to-other b next f s lt ne runs =
    let k = thread_is_runnable-Keeps next s in
    ground (arith, k.current, k.same_ctx next, thread_is_runnable_lem next s lt)

switch_to-stay :
    (b : Bool) (f : FaultFrame) (s : Sched)
    → s.current_tid < max_threads
    → (Runs s s.current_tid → b ≡ true)
    → ((switch_to b s.current_tid f s).0 ≡ f)
      × ((switch_to b s.current_tid f s).1.current_tid ≡ s.current_tid)
unfolding switch_to
switch_to-stay b f s lt h =
    let r = thread_is_runnable s.current_tid s in
    let k = thread_is_runnable-Keeps s.current_tid s in
    ground (
      arith,
      k.current,
      thread_is_runnable_lem s.current_tid s lt,
      thread_is_runnable_lem s.current_tid r.1 lt,
      Keeps-can_run s.current_tid k,
      (thread_is_runnable-Keeps s.current_tid r.1).current,
    )

pub last_place :
    (s : Sched) (tid next : ℕ)
    → tid < max_threads
    → ((e : ℕ) → e < 7 → Waits s (after tid (e + 1)))
    → Found s tid max_threads next
    → next ≡ tid
last_place s tid next h waits (first d lt at runs before) = elim (dec_lt d 7) [
  | yes p ↦ absurd (let r : Runs s (after tid (d + 1)) = rw at at runs in cc (waits d p))
  | no p ↦ omega arith
]
last_place s tid next h waits (nowhere at before) = omega arith

pub used_of_can_run : (now : ℕ) (t : Thread) → can_run now t ≡ true → t.used ≡ true
used_of_can_run now t h = ground arith

-- The state that the search leaves, over the state with the registers saved.
search : FaultFrame → Sched → ℕ × Sched
search f s = next_runnable max_threads s.current_tid (save_current f s)

thread_schedule_live :
    (f : FaultFrame) (s : Sched)
    → IsValid s
    → f.cs ≡ user_cs
    → s.thread_count ≢ 0
    → thread_schedule f s
      ≡ switch_to (thread_at s s.current_tid).used (search f s).0 f (search f s).1
unfolding thread_schedule search
thread_schedule_live f s v user live = ground arith

module _ (f : FaultFrame) (s : Sched) (v : IsValid s) (user : f.cs ≡ user_cs)
    (live : s.thread_count ≢ 0) where
  saves : Saves f s (save_current f s)
  saves = save_current-Saves f s v

  searched : Keeps (save_current f s) (search f s).1
  unfolding search
  searched = next_runnable-Keeps max_threads s.current_tid (save_current f s)

  found : Found (save_current f s) s.current_tid max_threads (search f s).0
  unfolding search
  found = next_runnable-Found max_threads s.current_tid (save_current f s) v.current_in

  search-can_run :
      (j : ℕ)
      → can_run (search f s).1.timer_ticks (thread_at (search f s).1 j)
        ≡ can_run s.timer_ticks (thread_at s j)
  search-can_run j = Keeps-can_run j searched ∙ saves.same_run j

  -- At a timer tick in user mode, on a valid table with a live thread, the program goes on with the
  -- first thread after the current one, in table order and round the table's end, that may run:
  -- its context is loaded and it becomes the current thread, and the interrupted thread's
  -- registers are kept in its entry if that is in use.
  pub schedule_round_robin :
      (d : ℕ)
      → d < 7
      → Runs s (after s.current_tid (d + 1))
      → ((e : ℕ) → e < d → Waits s (after s.current_tid (e + 1)))
      → ((thread_schedule f s).0 ≡ (thread_at s (after s.current_tid (d + 1))).ctx)
        × ((thread_schedule f s).1.current_tid ≡ after s.current_tid (d + 1))
        × ((thread_at s s.current_tid).used ≡ true
            → (thread_at (thread_schedule f s).1 s.current_tid).ctx ≡ f)
  schedule_round_robin d lt runs waits =
      let next = after s.current_tid (d + 1) in
      let at : (search f s).0 ≡ next =
        first_unique (save_current f s) s.current_tid d _ (omega arith) (saves.same_run _ ∙ runs)
          (λ e p. saves.same_run _ ∙ waits e p) found in
      let r = search f s in
      let sw =
        switch_to-other (thread_at s s.current_tid).used next f r.1 (omega arith)
          (omega (arith, searched.current, saves.current)) (search-can_run next ∙ runs) in
      rw (thread_schedule_live f s v user live, at, sw.0, sw.1)
        (
          searched.same_ctx next ∙ saves.other_ctx next (omega arith),
          refl,
          λ used.
              (thread_is_runnable-Keeps next r.1).same_ctx s.current_tid
              ∙ searched.same_ctx s.current_tid
              ∙ saves.own_ctx used,
        )

  -- Where no other thread may run, the tick returns to the interrupted one, whether or not it may
  -- run itself.
  pub schedule_alone :
      ((e : ℕ) → e < 7 → Waits s (after s.current_tid (e + 1)))
      → ((thread_schedule f s).0 ≡ f) × ((thread_schedule f s).1.current_tid ≡ s.current_tid)
  schedule_alone waits =
      let at : (search f s).0 ≡ s.current_tid =
        last_place (save_current f s) s.current_tid _ v.current_in
          (λ e p. saves.same_run _ ∙ waits e p) found in
      let r = search f s in
      let cur : r.1.current_tid ≡ s.current_tid = searched.current ∙ saves.current in
      let stay = switch_to-stay (thread_at s s.current_tid).used f r.1 (omega arith) (λ p.
        used_of_can_run s.timer_ticks (thread_at s s.current_tid)
          (sym (search-can_run s.current_tid) ∙ (rw cur at p))) in
      rw (thread_schedule_live f s v user live, at) (rw cur at stay)
