-- ===== src/Kernel/Threads/Calls.antt =====
-- The calls on threads, of syscall_dispatch in kernel/kernel.c: SYS_TCREATE, SYS_TEXIT, SYS_SLEEPF.
use mini_os.Base.{
  ℕ, zero, suc, ◌+◌, ◌/◌, ◌≤◌, ◌<◌, ◌≡◌, ◌≢◌, inl, inr, refl, sym, ap, ◌∙◌, Bool, true, false, not,
  ◌||◌, ◌==◌, leb, if◌then◌else◌, arith, none, some, Bool-cases, get_or-set_self, get_or-set_ne,
}
use mini_os.Base.Words.{add32, u32_mod}
use mini_os.Kernel.Layout.{err}
use mini_os.Kernel.UserMemory.{user_range_ok}
use mini_os.Kernel.Threads.{
  Sched, Thread, thread_at, put_thread, max_threads, empty_thread, thread_create,
  thread_is_runnable, reached,
}
use mini_os.Kernel.Threads.Slots.{can_run, thread_is_runnable-Keeps, thread_is_runnable_lem}
use mini_os.Kernel.Threads.Invariant.{IsValid}
use mini_os.Kernel.Threads.Next.{Runs, Keeps-can_run}

unfoldable pub sys_tcreate : ℕ → ℕ → Sched → ℕ × Sched
sys_tcreate entry stack s =
    if not (user_range_ok entry 1) || not (user_range_ok stack 1) then (err, s) else (
      elim ((thread_create entry stack s).0) [ none ↦ err | some tid ↦ tid ],
      (thread_create entry stack s).1,
    )

unfoldable pub sys_texit : Sched → ℕ × Sched
sys_texit s = (0, record s { thread_exit_pending = true })

-- The loop of SYS_SLEEPF with `k` threads left, from thread `i` on: whether another one may run.
unfoldable pub other_runs : ℕ → ℕ → Sched → Bool × Sched
other_runs zero i s = (false, s)
other_runs (suc k) i s =
    let r = thread_is_runnable i s in
    let skipped = other_runs k (i + 1) s in
    let rest = other_runs k (i + 1) (r.1) in
    if i == s.current_tid then skipped else if r.0 then (true, r.1) else rest

-- SYS_SLEEPF, where `timer_alive` is whether the clock runs. Without a clock it is a delay. If no
-- other thread may run, the processor halts until tick `now`, the first one that has reached the
-- target.
unfoldable pub sys_sleepf : Bool → ℕ → ℕ → Sched → ℕ × Sched
sys_sleepf timer_alive ms now s =
    let target = add32 s.timer_ticks (add32 ms 9 / 10) in
    let asleep =
      put_thread s s.current_tid (record (thread_at s s.current_tid) { sleep_until = target }) in
    let r = other_runs max_threads 0 asleep in
    let woken =
      put_thread (r.1) s.current_tid (record (thread_at (r.1) s.current_tid) { sleep_until = 0 }) in
    if (ms == 0) || not timer_alive || leb max_threads s.current_tid
    then (0, s)
    else if r.0
    then (0, r.1)
    else (0, record woken { timer_ticks = now })

-- The test of another thread leaves this one alone.
other_untouched :
    (i j : ℕ) (s : Sched) → j ≢ i → thread_at (thread_is_runnable i s).1 j ≡ thread_at s j
unfolding thread_is_runnable
other_untouched i j s ne =
    let t = record (thread_at s i) { sleep_until = 0 } in
    let e = get_or-set_ne s.threads i j t empty_thread (λ same. ne (sym same)) in ground (arith, e)

other_runs-current :
    (k i : ℕ) (s : Sched)
    → (thread_at (other_runs k i s).1 s.current_tid ≡ thread_at s s.current_tid)
      × ((other_runs k i s).1.timer_ticks ≡ s.timer_ticks)
unfolding other_runs
other_runs-current zero i s = (refl, refl)
other_runs-current (suc k) i s = elim (Bool-cases (i == s.current_tid)) [
  | inl e ↦ rw (e) (other_runs-current k (i + 1) s)
  | inr e ↦
      let t = (thread_is_runnable i s).1 in
      let p = thread_is_runnable-Keeps i s in
      let same = other_untouched i s.current_tid s (λ h. absurd (ground arith)) in
      let ih = other_runs-current k (i + 1) t in
      elim (Bool-cases ((thread_is_runnable i s).0)) [
        | inl h ↦ rw (e, h) (same, p.ticks)
        | inr h ↦
            rw (e, h)
              (
                ap (λ c. thread_at (other_runs k (i + 1) t).1 c) (sym p.current)
                    ∙ ih.0
                    ∙ ap (λ c. thread_at t c) p.current
                    ∙ same,
                ih.1 ∙ p.ticks,
              )
      ]
]

other_runs-finds :
    (k i j : ℕ) (s : Sched)
    → i ≤ j
    → j < i + k
    → i + k ≤ max_threads
    → j ≢ s.current_tid
    → Runs s j
    → (other_runs k i s).0 ≡ true
unfolding other_runs
other_runs-finds zero i j s le lt in_ ne runs = absurd (omega arith)
other_runs-finds (suc k) i j s le lt in_ ne runs = elim (Bool-cases (i == s.current_tid)) [
  | inl e ↦
      rw (e) (other_runs-finds k (i + 1) j s (ground arith) (omega arith) (omega arith) ne runs)
  | inr e ↦
      let t = (thread_is_runnable i s).1 in
      let p = thread_is_runnable-Keeps i s in
      elim (Bool-cases ((thread_is_runnable i s).0)) [
        | inl h ↦ rw (e, h) refl
        | inr h ↦
            let w = sym (thread_is_runnable_lem i s (omega arith)) ∙ h in
            let later : j ≢ i = λ same. absurd (
              ground
                (arith, sym runs ∙ ap (λ x. can_run s.timer_ticks (thread_at s x)) same ∙ w)) in
            rw (e, h)
              (other_runs-finds k (i + 1) j t (omega arith) (omega arith) (omega arith)
                (λ x. ne (x ∙ p.current)) (Keeps-can_run j p ∙ runs))
      ]
]

abbrev asleep_until : ℕ → Sched → Sched
asleep_until target s =
    put_thread s s.current_tid (record (thread_at s s.current_tid) { sleep_until = target })

asleep_self :
    (target : ℕ) (s : Sched)
    → IsValid s
    → thread_at (asleep_until target s) s.current_tid
      ≡ record (thread_at s s.current_tid) { sleep_until = target }
asleep_self target s v =
    get_or-set_self s.threads s.current_tid
      (record (thread_at s s.current_tid) { sleep_until = target }) empty_thread
      (omega (arith, v.size, v.current_in))

asleep_other :
    (target : ℕ) (s : Sched) (j : ℕ) → j ≢ s.current_tid → Runs s j → Runs (asleep_until target s) j
asleep_other target s j ne runs =
    ap (can_run s.timer_ticks) (
      get_or-set_ne s.threads s.current_tid j
        (record (thread_at s s.current_tid) { sleep_until = target }) empty_thread
        (λ e. ne (sym e)))
    ∙ runs

-- A thread that sleeps `n` ticks from tick `start` on.
sleeps :
    (t : Thread) (start n k : ℕ)
    → t.used ≡ true
    → n < 2147483648
    → k < n
    → start < u32_mod
    → t.sleep_until ≡ add32 start n
    → add32 start n ≢ 0
    → (can_run (add32 start k) t ≡ false) × (can_run (add32 start n) t ≡ true)
sleeps t start n k u small lt low e ne =
    let z : (add32 start n == 0) ≡ false = ground arith in
    let early : reached (add32 start k) (add32 start n) ≡ false = ground arith in
    let due : reached (add32 start n) (add32 start n) ≡ true = ground arith in
    rw (u, e, z, early, due) (refl, refl)

sys_sleepf_other :
    (ms now j : ℕ) (s : Sched)
    → IsValid s
    → 0 < ms
    → j < max_threads
    → j ≢ s.current_tid
    → Runs s j
    → let target = add32 s.timer_ticks (add32 ms 9 / 10) in
      (sys_sleepf true ms now s).1 ≡ (other_runs max_threads 0 (asleep_until target s)).1
unfolding sys_sleepf
sys_sleepf_other ms now j s v pos lt ne runs =
    let target = add32 s.timer_ticks (add32 ms 9 / 10) in
    let found =
      other_runs-finds max_threads 0 j (asleep_until target s) (omega arith) lt (omega arith) ne
        (asleep_other target s j ne runs) in
    let z : (ms == 0) ≡ false = ground arith in
    let c : leb max_threads s.current_tid ≡ false = ground (arith, v.current_in) in
    rw (found, z, c) refl

-- SYS_SLEEPF on a valid table, while another thread may run: the thread that calls it may not run in
-- any of the ticks before the first one that is `ms` milliseconds later, rounded up to ticks of 10,
-- and may run in that tick. The clock runs, `ms + 9` has 32 bits and the number of that
-- tick is not 0.
pub sys_sleepf_lem :
    (ms now j k : ℕ) (s : Sched)
    → IsValid s
    → (thread_at s s.current_tid).used ≡ true
    → 0 < ms
    → ms + 9 < u32_mod
    → s.timer_ticks < u32_mod
    → add32 s.timer_ticks ((ms + 9) / 10) ≢ 0
    → j < max_threads
    → j ≢ s.current_tid
    → Runs s j
    → k < (ms + 9) / 10
    → let t = thread_at (sys_sleepf true ms now s).1 s.current_tid in
      (can_run (add32 s.timer_ticks k) t ≡ false)
      × (can_run (add32 s.timer_ticks ((ms + 9) / 10)) t ≡ true)
sys_sleepf_lem ms now j k s v u pos small low ne lt other runs less =
    let n = (ms + 9) / 10 in
    let same : add32 ms 9 / 10 ≡ n = omega arith in
    let target = add32 s.timer_ticks (add32 ms 9 / 10) in
    let kept = other_runs-current max_threads 0 (asleep_until target s) in
    let t : thread_at (sys_sleepf true ms now s).1 s.current_tid
        ≡ record (thread_at s s.current_tid) { sleep_until = target } =
      ap (λ x. thread_at x s.current_tid) (sys_sleepf_other ms now j s v pos lt other runs)
      ∙ kept.0
      ∙ asleep_self target s v in
    rw (t) (
      sleeps (record (thread_at s s.current_tid) { sleep_until = target }) s.timer_ticks n k u
        (omega arith) less low (ap (add32 s.timer_ticks) same) ne)
