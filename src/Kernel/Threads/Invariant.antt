-- ===== src/Kernel/Threads/Invariant.antt =====
-- The table's invariant, and that every operation of the scheduler keeps it.
use mini_os.Base.{
  ℕ, zero, suc, ◌+◌, ◌%◌, ◌<◌, ◌≡◌, refl, Bool, true, false, arith, Option-cases, inl, inr, length,
  ap, length-set, some, get_or,
}
use mini_os.Kernel.Threads.{
  Sched, Thread, FaultFrame, thread_at, max_threads, thread_is_runnable, next_runnable,
  empty_thread, start_frame, clear_used, thread_clear_all, thread_init_main, thread_create,
  start_thread, free_slot, thread_kill, save_current, switch_to, thread_schedule, exit_to,
  thread_exit_switch,
}
use mini_os.Kernel.Threads.Count.{
  count_used, count_used-set, count_used-set_same, count_used-clear_used, length-clear_used,
  free_slot-some, one_if, used-clear_used,
}
use mini_os.Kernel.Threads.Slots.{Keeps, thread_is_runnable-Keeps}
use mini_os.Kernel.Threads.Next.{next_runnable-Keeps}
use mini_os.Base.{List, [], ◌∷◌}

pub record IsValid (s : Sched) : Type 0 where
  pub size : length s.threads ≡ max_threads
  pub current_in : s.current_tid < max_threads
  pub counted : s.thread_count ≡ count_used s.threads

-- Two tables with the same flags hold as many threads.
count_used_same :
    (ts us : List Thread)
    → length us ≡ length ts
    → ((j : ℕ) → (get_or us j empty_thread).used ≡ (get_or ts j empty_thread).used)
    → count_used us ≡ count_used ts
count_used_same [] [] e h = refl
count_used_same [] (u ∷ us) e h = absurd (omega arith)
count_used_same (t ∷ ts) [] e h = absurd (omega arith)
count_used_same (t ∷ ts) (u ∷ us) e h =
    ground (arith, h 0, count_used_same ts us (omega arith) (λ j. h (suc j)))

pub Keeps-IsValid : {s s' : Sched} → Keeps s s' → IsValid s → IsValid s'
Keeps-IsValid {s} {s'} p v =
    omega
      (arith, p.size, p.current, p.count, count_used_same s.threads s'.threads p.size p.same_used)

pub thread_init_main-IsValid :
    (entry stack : ℕ) (s : Sched)
    → length s.threads ≡ max_threads
    → IsValid (thread_init_main entry stack s)
unfolding thread_init_main thread_clear_all
thread_init_main-IsValid entry stack s h = omega (
  arith,
  length-clear_used s.threads,
  count_used-clear_used s.threads,
  length-set (clear_used s.threads) 0 main,
  count_used-set (clear_used s.threads) 0 main (omega (arith, length-clear_used s.threads)),
  ap one_if (used-clear_used s.threads 0),
)
  where
    main : Thread
    main = record { used = true; ctx = start_frame entry stack; sleep_until = 0 }

-- A new thread takes a free entry.
pub start_thread-IsValid :
    (entry stack j : ℕ) {s : Sched}
    → free_slot s.threads 0 ≡ some j
    → IsValid s
    → IsValid (start_thread entry stack s (some j)).1
unfolding start_thread
start_thread-IsValid entry stack j {s} e v =
    let (k, at, small, free) = free_slot-some s.threads 0 j e in
    let at' : j ≡ k = omega arith in
    let t : Thread = record { used = true; ctx = start_frame entry stack; sleep_until = 0 } in
    let free' : (get_or s.threads j empty_thread).used ≡ false = rw at' free in
    ground (arith, length-set s.threads j t, count_used-set s.threads j t)

-- The start of a thread, on a full table too, keeps the thread table valid.
pub thread_create-IsValid :
    (entry stack : ℕ) {s : Sched} → IsValid s → IsValid (thread_create entry stack s).1
unfolding thread_create start_thread
thread_create-IsValid entry stack {s} v = elim (Option-cases (free_slot s.threads 0)) [
  | inl e ↦ ground arith
  | inr (j, e) ↦ ground (arith, start_thread-IsValid entry stack j e v)
]

next_runnable-lt : (k next : ℕ) (s : Sched) → (next_runnable (suc k) next s).0 < max_threads
unfolding next_runnable
next_runnable-lt zero next s = ground arith
next_runnable-lt (suc k) next s =
    let n = (next + 1) % max_threads in
    ground (arith, next_runnable-lt k n (thread_is_runnable n s).1)

-- The end of any thread, also of one that is not in use, keeps the thread table valid.
pub thread_kill-IsValid : (tid : ℕ) {s : Sched} → IsValid s → IsValid (thread_kill tid s)
unfolding thread_kill
thread_kill-IsValid tid {s} v = ground (
  arith,
  length-set s.threads tid (record (thread_at s tid) { used = false; sleep_until = 0 }),
  count_used-set s.threads tid (record (thread_at s tid) { used = false; sleep_until = 0 }),
)

save_current-IsValid : (f : FaultFrame) {s : Sched} → IsValid s → IsValid (save_current f s)
unfolding save_current
save_current-IsValid f {s} v = ground (
  arith,
  length-set s.threads s.current_tid (record (thread_at s s.current_tid) { ctx = f }),
  count_used-set_same s.threads s.current_tid (record (thread_at s s.current_tid) { ctx = f }) refl,
)

switch_to-IsValid :
    (b : Bool) (next : ℕ) (f : FaultFrame) {s : Sched}
    → next < max_threads
    → IsValid s
    → IsValid (switch_to b next f s).1
unfolding switch_to
switch_to-IsValid b next f {s} h v =
    let first = thread_is_runnable next s in
    let v1 = Keeps-IsValid (thread_is_runnable-Keeps next s) v in
    let v2 = Keeps-IsValid (thread_is_runnable-Keeps first.1.current_tid first.1) v1 in
    ground (arith, v1, v2)

exit_to-IsValid :
    (next : ℕ) {s : Sched} → next < max_threads → IsValid s → IsValid (exit_to next s).1
unfolding exit_to
exit_to-IsValid next {s} h v = ground (arith, Keeps-IsValid (thread_is_runnable-Keeps next s) v)

-- A timer tick keeps the thread table valid: eight entries, a current thread inside it, and a
-- count that is the number of entries in use.
pub thread_schedule-IsValid :
    (f : FaultFrame) {s : Sched} → IsValid s → IsValid (thread_schedule f s).1
unfolding thread_schedule
thread_schedule-IsValid f {s} v =
    let saved = save_current f s in
    let vs = save_current-IsValid f v in
    let vn = Keeps-IsValid (next_runnable-Keeps max_threads s.current_tid saved) vs in
    let lt = next_runnable-lt 7 s.current_tid saved in
    let vw = switch_to-IsValid (thread_at s s.current_tid).used _ f lt vn in ground (arith, vw)

-- The exit of the current thread keeps the thread table valid.
pub thread_exit_switch-IsValid : {s : Sched} → IsValid s → IsValid (thread_exit_switch s).1
unfolding thread_exit_switch
thread_exit_switch-IsValid {s} v =
    let start : Sched = record s { thread_exit_pending = false } in
    let killed = thread_kill s.current_tid start in
    let vk =
      thread_kill-IsValid s.current_tid {s = start}
        (record { size = v.size; current_in = v.current_in; counted = v.counted }) in
    let vn = Keeps-IsValid (next_runnable-Keeps max_threads killed.current_tid killed) vk in
    let lt = next_runnable-lt 7 killed.current_tid killed in
    let vw = exit_to-IsValid _ lt vn in ground (arith, vk, vw)

-- The start of a thread, on a full table too, the end of any thread, a timer tick and the exit of
-- the current thread keep the thread table valid: eight entries, a current thread inside it, and a
-- count that is the number of entries in use.
pub calls-IsValid :
    (entry stack tid : ℕ) (f : FaultFrame) (s : Sched)
    → IsValid s
    → IsValid (thread_create entry stack s).1
      × IsValid (thread_kill tid s)
      × IsValid (thread_schedule f s).1
      × IsValid (thread_exit_switch s).1
calls-IsValid entry stack tid f s v = (
  thread_create-IsValid entry stack v,
  thread_kill-IsValid tid v,
  thread_schedule-IsValid f v,
  thread_exit_switch-IsValid v,
)
