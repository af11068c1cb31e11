-- ===== src/Kernel/Threads/Fair.antt =====
-- A thread that waits for nothing runs within seven timer ticks (kernel/kernel.c).
use mini_os.Base.{
  ℕ, zero, suc, ◌+◌, ◌-◌, ◌%◌, ◌≤◌, ◌<◌, ◌≡◌, ◌≢◌, ◌⊎◌, inl, inr, refl, sym, ap, ◌∙◌, Bool, true,
  false, arith, List, [], ◌∷◌, get_or, set, Bool-cases, ℕ_discrete, dec_lt,
}
use mathlib.Core.Path.{subst}
use mini_os.Base.Words.{add32}
use mini_os.Kernel.Threads.{
  Sched, Thread, FaultFrame, thread_at, max_threads, thread_is_runnable, next_runnable,
  empty_thread, user_cs, save_current, switch_to, thread_schedule, irq_timer,
}
use mini_os.Kernel.Threads.Count.{count_used}
use mini_os.Base.{dec_lt}
use mini_os.Kernel.Threads.Next.{next_runnable-Found, first, nowhere, Runs, Waits, after}
use mini_os.Kernel.Threads.Invariant.{IsValid, thread_schedule-IsValid}
use mini_os.Kernel.Threads.Schedule.{schedule_round_robin}

-- The thread is in use and does not sleep.
abbrev pub IsReady : Sched → ℕ → Type 0
IsReady s j = ((thread_at s j).used ≡ true) × ((thread_at s j).sleep_until ≡ 0)

set-ready :
    (ts : List Thread) (i j : ℕ) (t : Thread)
    → (t.used ≡ (get_or ts i empty_thread).used)
    → ((t.sleep_until ≡ 0) ⊎ (t.sleep_until ≡ (get_or ts i empty_thread).sleep_until))
    → (get_or ts j empty_thread).used ≡ true
    → (get_or ts j empty_thread).sleep_until ≡ 0
    → ((get_or (set ts i t) j empty_thread).used ≡ true)
      × ((get_or (set ts i t) j empty_thread).sleep_until ≡ 0)
set-ready [] i j t e f u z = (u, z)
set-ready (x ∷ ts) zero zero t e f u z = ground arith
set-ready (x ∷ ts) zero (suc j) t e f u z = (u, z)
set-ready (x ∷ ts) (suc i) zero t e f u z = (u, z)
set-ready (x ∷ ts) (suc i) (suc j) t e f u z = set-ready ts i j t e f u z

thread_is_runnable-IsReady :
    (tid : ℕ) (s : Sched) (j : ℕ) → IsReady s j → IsReady (thread_is_runnable tid s).1 j
unfolding thread_is_runnable
thread_is_runnable-IsReady tid s j (u, z) =
    let t = thread_at s tid in
    let w = set-ready s.threads tid j (record t { sleep_until = 0 }) refl (inl refl) u z in
    ground (arith, w)

next_runnable-IsReady :
    (k next : ℕ) (s : Sched) (j : ℕ) → IsReady s j → IsReady (next_runnable k next s).1 j
unfolding next_runnable
next_runnable-IsReady zero next s j r = r
next_runnable-IsReady (suc k) next s j r =
    let n = (next + 1) % max_threads in
    let a = thread_is_runnable-IsReady n s j r in
    elim (Bool-cases ((thread_is_runnable n s).0)) [
      | inl e ↦ rw (e) a
      | inr e ↦ rw (e) (next_runnable-IsReady k n (thread_is_runnable n s).1 j a)
    ]

save_current-IsReady :
    (f : FaultFrame) (s : Sched) (j : ℕ) → IsReady s j → IsReady (save_current f s) j
unfolding save_current
save_current-IsReady f s j (u, z) =
    let t = thread_at s s.current_tid in
    let w = set-ready s.threads s.current_tid j (record t { ctx = f }) refl (inr refl) u z in
    ground (arith, w)

switch_to-IsReady :
    (b : Bool) (next : ℕ) (f : FaultFrame) (s : Sched) (j : ℕ)
    → IsReady s j
    → IsReady (switch_to b next f s).1 j
unfolding switch_to
switch_to-IsReady b next f s j r =
    let a = thread_is_runnable-IsReady next s j r in
    let c =
      thread_is_runnable-IsReady (thread_is_runnable next s).1.current_tid
        (thread_is_runnable next s).1 j a in
    ground (arith, a, c)

thread_schedule-IsReady :
    (f : FaultFrame) (s : Sched) (j : ℕ) → IsReady s j → IsReady (thread_schedule f s).1 j
unfolding thread_schedule
thread_schedule-IsReady f s j r =
    let a = save_current-IsReady f s j r in
    let b = next_runnable-IsReady max_threads s.current_tid (save_current f s) j a in
    let n = next_runnable max_threads s.current_tid (save_current f s) in
    let c = switch_to-IsReady (thread_at s s.current_tid).used (n.0) f (n.1) j b in
    ground (arith, r, c)

Ready-Runs : (s : Sched) (j : ℕ) → IsReady s j → Runs s j
Ready-Runs s j (u, z) = ground arith

count_used-pos :
    (ts : List Thread) (j : ℕ) → (get_or ts j empty_thread).used ≡ true → 0 < count_used ts
count_used-pos [] j u = absurd (ground arith)
count_used-pos (t ∷ ts) zero u = ground arith
count_used-pos (t ∷ ts) (suc j) u = omega (arith, count_used-pos ts j u)

-- A timer interrupt in user mode, while no program is to be killed.
abbrev pub tick : FaultFrame → Sched → Sched
tick f s = (irq_timer false f s).1.1

ticked : Sched → Sched
ticked s = record s { timer_ticks = add32 s.timer_ticks 1 }

tick_lem : (f : FaultFrame) (s : Sched) → tick f s ≡ (thread_schedule f (ticked s)).1
unfolding irq_timer ticked
tick_lem f s = refl

ticked-IsValid : (s : Sched) → IsValid s → IsValid (ticked s)
unfolding ticked
ticked-IsValid s v = record { size = v.size; current_in = v.current_in; counted = v.counted }

tick-IsValid : (f : FaultFrame) (s : Sched) → IsValid s → IsValid (tick f s)
tick-IsValid f s v =
    subst IsValid (sym (tick_lem f s)) (thread_schedule-IsValid f (ticked-IsValid s v))

ticked-IsReady : (s : Sched) (j : ℕ) → IsReady s j → IsReady (ticked s) j
unfolding ticked
ticked-IsReady s j r = r

tick-IsReady : (f : FaultFrame) (s : Sched) (j : ℕ) → IsReady s j → IsReady (tick f s) j
tick-IsReady f s j r =
    subst (λ x. IsReady x j) (sym (tick_lem f s))
      (thread_schedule-IsReady f (ticked s) j (ticked-IsReady s j r))

-- The first thread of the round that may run is no further than one that may.
nearest :
    (s : Sched) (d : ℕ)
    → s.current_tid < max_threads
    → d < 7
    → Runs s (after s.current_tid (d + 1))
    → (e : ℕ) × (e ≤ d)
      × Runs s (after s.current_tid (e + 1))
      × ((i : ℕ) → i < e → Waits s (after s.current_tid (i + 1)))
nearest s d lt small runs = elim (next_runnable-Found max_threads s.current_tid s lt) [
  | nowhere at waits ↦ absurd (ground (arith, sym runs ∙ waits d (omega arith)))
  | first e le at there waits ↦ elim (dec_lt d e) [
    | yes p ↦ absurd (ground (arith, sym runs ∙ waits d p))
    | no p ↦ (e, omega arith, subst (Runs s) at there, waits)
  ]
]

-- One tick brings the turn to the thread, or nearer to it.
tick_nearer :
    (f : FaultFrame) (s : Sched) (j d : ℕ)
    → IsValid s
    → f.cs ≡ user_cs
    → IsReady s j
    → d < 7
    → j ≡ after s.current_tid (d + 1)
    → (e : ℕ) × (e ≤ d) × ((tick f s).current_tid ≡ after s.current_tid (e + 1))
unfolding ticked
tick_nearer f s j d v user r small at =
    let t = ticked s in
    let w = ticked-IsValid s v in
    let runs : Runs t (after s.current_tid (d + 1)) =
      subst (Runs t) at (Ready-Runs t j (ticked-IsReady s j r)) in
    let (e, le, there, waits) = nearest t d w.current_in small runs in
    let live : t.thread_count ≢ 0 =
      λ z. absurd (omega (arith, count_used-pos s.threads j (r.0), v.counted, z)) in
    (
      e,
      le,
      ap (λ x. x.current_tid) (tick_lem f s)
          ∙ (schedule_round_robin f t w user live e (omega arith) there waits).1,
    )

-- The state after `n` ticks, the `k`-th of which interrupts the registers `frames k`.
abbrev pub after_ticks : (ℕ → FaultFrame) → ℕ → Sched → Sched
after_ticks frames zero s = s
after_ticks frames (suc n) s = after_ticks (λ k. frames (suc k)) n (tick (frames 0) s)

turn_comes :
    (b d : ℕ) (frames : ℕ → FaultFrame) (s : Sched) (j : ℕ)
    → d ≤ b
    → IsValid s
    → ((k : ℕ) → (frames k).cs ≡ user_cs)
    → IsReady s j
    → d < 7
    → j ≡ after s.current_tid (d + 1)
    → (n : ℕ) × (n ≤ d + 1) × ((after_ticks frames n s).current_tid ≡ j)
turn_comes zero d frames s j le v user r small at =
    let (e, near, turn) = tick_nearer (frames 0) s j d v (user 0) r small at in
    (1, omega arith, turn ∙ ap (λ k. after s.current_tid (k + 1)) (omega arith) ∙ sym at)
turn_comes (suc b) d frames s j le v user r small at =
    let (e, near, turn) = tick_nearer (frames 0) s j d v (user 0) r small at in
    elim (dec_lt e d) [
      | no p ↦ (1, omega arith, turn ∙ ap (λ k. after s.current_tid (k + 1)) (omega arith) ∙ sym at)
      | yes p ↦
          let s' = tick (frames 0) s in
          let d' : ℕ = d - e - 1 in
          let at' : j ≡ after s'.current_tid (d' + 1) = omega (arith, at, turn) in
          let (n, few, there) =
            turn_comes b d' (λ k. frames (suc k)) s' j (omega arith) (tick-IsValid (frames 0) s v)
              (λ k. user (suc k)) (tick-IsReady (frames 0) s j r) (omega arith) at' in
          (suc n, omega arith, there)
    ]

-- On a valid thread table, any thread that is in use and does not sleep becomes the current one
-- within seven timer ticks that interrupt user mode, while no program is
-- to be killed and no call is made between.
pub every_thread_runs :
    (frames : ℕ → FaultFrame) (s : Sched) (j : ℕ)
    → IsValid s
    → ((k : ℕ) → (frames k).cs ≡ user_cs)
    → IsReady s j
    → j < max_threads
    → (n : ℕ) × (n ≤ 7) × ((after_ticks frames n s).current_tid ≡ j)
every_thread_runs frames s j v user r lt = elim (ℕ_discrete s.current_tid j) [
  | yes e ↦ (0, omega arith, e)
  | no ne ↦
      let d : ℕ = (j + 7 - s.current_tid) % max_threads in
      let (n, few, there) =
        turn_comes d d frames s j (omega arith) v user r (omega (arith, v.current_in))
          (omega (arith, v.current_in)) in
      (n, omega (arith, v.current_in), there)
]
