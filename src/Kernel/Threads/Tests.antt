-- ===== src/Kernel/Threads/Tests.antt =====
-- Two threads of a program, and what the scheduler does with them (kernel/kernel.c).
use mini_os.Base.Words.{add32}
use mini_os.Kernel.Threads.Slots.{can_run}
use mini_os.Kernel.Threads.Calls.{sys_sleepf, sys_sleepf_lem}
use mini_os.Base.{
  ◌/◌, ◌≢◌, ℕ, zero, suc, ◌+◌, ◌≤◌, ◌<◌, ◌≡◌, refl, true, false, arith, ◌∷◌, none, some, replicate,
}
use mini_os.Kernel.Threads.{
  FaultFrame, Thread, Sched, user_cs, zero_frame, empty_thread, thread_at, thread_create,
  thread_kill, thread_schedule, thread_exit_switch,
}
use mini_os.Kernel.Threads.Next.{after, Waits}
use mini_os.Kernel.Threads.Invariant.{IsValid, calls-IsValid}
use mini_os.Kernel.Threads.Schedule.{schedule_round_robin}
use mini_os.Kernel.Threads.Fair.{after_ticks, every_thread_runs}
use mini_os.Kernel.Threads.Exit.{exit_round_robin, exit_ends_sleepers}

abbrev user_frame : FaultFrame
user_frame = record zero_frame { cs = user_cs; eip = 4096 }

abbrev running : ℕ → Thread
running wake = record { used = true; ctx = user_frame; sleep_until = wake }

-- Thread 0 is current; thread 1 runs again at tick `wake`.
abbrev pair : ℕ → Sched
pair wake = record {
  threads = running 0 ∷ running wake ∷ replicate 6 empty_thread;
  current_tid = 0;
  thread_count = 2;
  thread_exit_pending = false;
  timer_ticks = 5;
  exit_requested = false;
}

pair-IsValid : (wake : ℕ) → IsValid (pair wake)
pair-IsValid wake = record { size = refl; current_in = omega arith; counted = refl }

nobody_nearer : (e : ℕ) → e < 0 → Waits (pair 0) (after 0 (e + 1))
nobody_nearer e lt = absurd (omega arith)

all_sleep : (e : ℕ) → e < 7 → Waits (pair 9) (after 0 (e + 1))
all_sleep zero lt = refl
all_sleep (suc zero) lt = refl
all_sleep (suc (suc zero)) lt = refl
all_sleep (suc (suc (suc zero))) lt = refl
all_sleep (suc (suc (suc (suc zero)))) lt = refl
all_sleep (suc (suc (suc (suc (suc zero))))) lt = refl
all_sleep (suc (suc (suc (suc (suc (suc zero)))))) lt = refl
all_sleep (suc (suc (suc (suc (suc (suc (suc e))))))) lt = absurd (omega arith)

schedule_round_robin_example :
    ((thread_schedule user_frame (pair 0)).0 ≡ (thread_at (pair 0) (after 0 1)).ctx)
    × ((thread_schedule user_frame (pair 0)).1.current_tid ≡ after 0 1)
    × ((thread_at (pair 0) 0).used ≡ true
        → (thread_at (thread_schedule user_frame (pair 0)).1 0).ctx ≡ user_frame)
schedule_round_robin_example =
    schedule_round_robin user_frame (pair 0) (pair-IsValid 0) refl (ground arith) 0 (omega arith)
      refl nobody_nearer

exit_round_robin_example :
    ((thread_exit_switch (pair 0)).0 ≡ some (thread_at (pair 0) (after 0 1)).ctx)
    × ((thread_exit_switch (pair 0)).1.current_tid ≡ after 0 1)
    × ((thread_at (thread_exit_switch (pair 0)).1 0).used ≡ false)
    × ((thread_exit_switch (pair 0)).1.exit_requested ≡ false)
exit_round_robin_example =
    exit_round_robin (pair 0) (pair-IsValid 0) refl 0 (omega arith) refl nobody_nearer

exit_ends_sleepers_example :
    ((thread_exit_switch (pair 9)).0 ≡ none)
    × ((thread_exit_switch (pair 9)).1.exit_requested ≡ true)
exit_ends_sleepers_example = exit_ends_sleepers (pair 9) (pair-IsValid 9) refl all_sleep

calls-IsValid_example :
    IsValid (thread_create 4096 8192 (pair 0)).1
    × IsValid (thread_kill 1 (pair 0))
    × IsValid (thread_schedule user_frame (pair 0)).1
    × IsValid (thread_exit_switch (pair 0)).1
calls-IsValid_example = calls-IsValid 4096 8192 1 user_frame (pair 0) (pair-IsValid 0)

every_thread_runs_example :
    (n : ℕ) × (n ≤ 7) × ((after_ticks (λ k. user_frame) n (pair 0)).current_tid ≡ 1)
every_thread_runs_example =
    every_thread_runs (λ k. user_frame) (pair 0) 1 (pair-IsValid 0) (λ k. refl) (refl, refl)
      (omega arith)

not_zero : add32 (pair 0).timer_ticks ((95 + 9) / 10) ≢ 0
not_zero = omega arith

sys_sleepf_lem_example :
    (can_run (add32 5 3) (thread_at (sys_sleepf true 95 0 (pair 0)).1 0) ≡ false)
    × (can_run (add32 5 ((95 + 9) / 10)) (thread_at (sys_sleepf true 95 0 (pair 0)).1 0) ≡ true)
sys_sleepf_lem_example =
    sys_sleepf_lem 95 0 1 3 (pair 0) (pair-IsValid 0) refl (omega arith) (omega arith) (omega arith)
      not_zero (omega arith) (omega arith) refl (omega arith)
