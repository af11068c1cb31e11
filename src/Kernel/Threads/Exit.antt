-- ===== src/Kernel/Threads/Exit.antt =====
-- The end of a thread: `thread_exit_switch` of kernel/kernel.c.
use mini_os.Base.{
  ℕ, zero, suc, ◌+◌, ◌-◌, ◌<◌, ◌≡◌, ◌≢◌, refl, true, false, arith, if◌then◌else◌, ◌==◌, ◌∙◌, sym,
  ap, none, some, get_or, set, List, [], ◌∷◌, get_or-set_ne, get_or-set_self,
}
use mini_os.Kernel.Threads.{
  Sched, Thread, thread_at, max_threads, next_runnable, empty_thread, exit_to, thread_exit_switch,
  thread_kill,
}
use mini_os.Kernel.Threads.Count.{count_used}
use mini_os.Kernel.Threads.Slots.{Keeps, can_run, thread_is_runnable-Keeps, thread_is_runnable_lem}
use mini_os.Kernel.Threads.Next.{
  next_runnable-Keeps, next_runnable-Found, Found, Runs, Waits, after, Keeps-can_run,
}
use mini_os.Kernel.Threads.Invariant.{IsValid, thread_kill-IsValid}
use mini_os.Kernel.Threads.Schedule.{first_unique, last_place, used_of_can_run}

-- The state in which the next thread is looked for.
killed : Sched → Sched
killed s = thread_kill s.current_tid (record s { thread_exit_pending = false })

search : Sched → ℕ × Sched
search s = next_runnable max_threads s.current_tid (killed s)

count_used_pos :
    (ts : List Thread) (j : ℕ) → (get_or ts j empty_thread).used ≡ true → count_used ts ≢ 0
count_used_pos [] j h = absurd (cc)
count_used_pos (t ∷ ts) zero h = ground arith
count_used_pos (t ∷ ts) (suc j) h = ground (arith, count_used_pos ts j h)

used-count : (s : Sched) → IsValid s → (j : ℕ) → (thread_at s j).used ≡ true → s.thread_count ≢ 0
used-count s v j h = omega (arith, count_used_pos s.threads j h)

record Kills (s s' : Sched) : Type 0 where
  others : (j : ℕ) → j ≢ s.current_tid → thread_at s' j ≡ thread_at s j
  own : (thread_at s' s.current_tid).used ≡ false
  ticks : s'.timer_ticks ≡ s.timer_ticks
  current : s'.current_tid ≡ s.current_tid
  fewer : s'.thread_count + 1 ≡ s.thread_count
  exits : s'.exit_requested ≡ s.exit_requested

module _ (s : Sched) (v : IsValid s) (live : (thread_at s s.current_tid).used ≡ true) where
  freed : Thread
  freed = record (thread_at s s.current_tid) { used = false; sleep_until = 0 }

  killed_lem : killed s ≡ record s {
    threads = set s.threads s.current_tid freed;
    thread_count = s.thread_count - 1;
    thread_exit_pending = false;
  }
  unfolding killed thread_kill freed
  killed_lem = ground arith

  counted_live : s.thread_count ≢ 0
  counted_live = used-count s v s.current_tid live

  killed-Kills : Kills s (killed s)
  unfolding freed
  killed-Kills = rw killed_lem (record {
    others = λ j ne. get_or-set_ne s.threads s.current_tid j _ empty_thread (λ p. ne (sym p));
    own =
        ap (λ (t : Thread). t.used)
          (get_or-set_self s.threads s.current_tid _ empty_thread (omega arith));
    ticks = refl;
    current = refl;
    fewer = omega (arith, counted_live);
    exits = refl;
  })

  killed-IsValid : IsValid (killed s)
  unfolding killed
  killed-IsValid =
      thread_kill-IsValid s.current_tid {s = record s { thread_exit_pending = false }}
        (record { size = v.size; current_in = v.current_in; counted = v.counted })

  killed-can_run :
      (j : ℕ)
      → j ≢ s.current_tid
      → can_run (killed s).timer_ticks (thread_at (killed s) j)
        ≡ can_run s.timer_ticks (thread_at s j)
  killed-can_run j ne = rw (killed-Kills.ticks, killed-Kills.others j ne)

  searched : Keeps (killed s) (search s).1
  unfolding search
  searched = next_runnable-Keeps max_threads s.current_tid (killed s)

  found : Found (killed s) s.current_tid max_threads (search s).0
  unfolding search
  found = next_runnable-Found max_threads s.current_tid (killed s) v.current_in

  -- Whatever else is in the table, the search of the code is `search`.
  thread_exit_switch_lem : thread_exit_switch s ≡ (
      if (killed s).thread_count == 0
      then (none, record (killed s) { exit_requested = true })
      else exit_to (search s).0 (search s).1)
  unfolding thread_exit_switch killed search
  thread_exit_switch_lem =
      ap
        (λ (c : ℕ).
          if (killed s).thread_count == 0
          then (none, record (killed s) { exit_requested = true })
          else exit_to (next_runnable max_threads c (killed s)).0
              (next_runnable max_threads c (killed s)).1)
        killed-Kills.current

  still_live : (d : ℕ) → d < 7 → Runs s (after s.current_tid (d + 1)) → (killed s).thread_count ≢ 0
  still_live d lt runs =
      let next = after s.current_tid (d + 1) in
      used-count (killed s) killed-IsValid next (
        used_of_can_run (killed s).timer_ticks (thread_at (killed s) next)
          (killed-can_run next (omega arith) ∙ runs))

  -- When a thread of a valid table exits, the program goes on with the first thread after it, in
  -- table order and round the table's end, that may run; the exited thread's entry is free.
  pub exit_round_robin :
      (d : ℕ)
      → d < 7
      → Runs s (after s.current_tid (d + 1))
      → ((e : ℕ) → e < d → Waits s (after s.current_tid (e + 1)))
      → ((thread_exit_switch s).0 ≡ some (thread_at s (after s.current_tid (d + 1))).ctx)
        × ((thread_exit_switch s).1.current_tid ≡ after s.current_tid (d + 1))
        × ((thread_at (thread_exit_switch s).1 s.current_tid).used ≡ false)
        × ((thread_exit_switch s).1.exit_requested ≡ s.exit_requested)
  unfolding exit_to
  exit_round_robin d lt runs waits =
      let next = after s.current_tid (d + 1) in
      let ne : next ≢ s.current_tid = omega arith in
      let at : (search s).0 ≡ next =
        first_unique (killed s) s.current_tid d _ (omega arith) (killed-can_run next ne ∙ runs)
          (λ e p. killed-can_run (after s.current_tid (e + 1)) (omega arith) ∙ waits e p) found in
      let r = (search s).1 in
      let keep = thread_is_runnable-Keeps next r in
      rw (thread_exit_switch_lem, at)
        (ground (
          arith,
          still_live d lt runs,
          thread_is_runnable_lem next r (omega arith)
              ∙ Keeps-can_run next searched
              ∙ killed-can_run next ne
              ∙ runs,
          keep.same_ctx next
              ∙ searched.same_ctx next
              ∙ ap (λ (t : Thread). t.ctx) (killed-Kills.others next ne),
          keep.same_used s.current_tid ∙ searched.same_used s.current_tid ∙ killed-Kills.own,
          keep.exits ∙ searched.exits ∙ killed-Kills.exits,
        ))

  -- When the current thread of a valid table exits while no other thread may run, also where the
  -- others only sleep, the whole program is asked to end.
  pub exit_ends_sleepers :
      ((e : ℕ) → e < 7 → Waits s (after s.current_tid (e + 1)))
      → ((thread_exit_switch s).0 ≡ none) × ((thread_exit_switch s).1.exit_requested ≡ true)
  unfolding exit_to
  exit_ends_sleepers waits =
      let at : (search s).0 ≡ s.current_tid =
        last_place (killed s) s.current_tid (search s).0 v.current_in
          (λ e p. killed-can_run (after s.current_tid (e + 1)) (omega arith) ∙ waits e p) found in
      let r = (search s).1 in
      rw (thread_exit_switch_lem, at)
        (ground (
          arith,
          thread_is_runnable_lem s.current_tid r v.current_in
              ∙ Keeps-can_run s.current_tid searched,
          killed-Kills.own,
        ))
