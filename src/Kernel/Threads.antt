-- ===== src/Kernel/Threads.antt =====
-- The threads of the running program (kernel/kernel.c): the table, the scheduler, the exits and
-- the sleeps. A thread id is an index into the table, so the model's is a natural number; the
-- functions that fail with -1 return `none`. `volatile` state that an interrupt changes, the tick
-- counter, is a field that the caller sets.
pub mod Slots
pub mod Count
pub mod Next
pub mod Invariant
pub mod Schedule
pub mod Exit
pub mod Fair
pub mod Calls
mod Tests
use mini_os.Base.{
  ℕ, zero, suc, ◌+◌, ◌-◌, ◌/◌, ◌%◌, ◌^◌, Bool, true, false, not, ◌&&◌, ◌||◌, Option, none, some,
  List, [], ◌∷◌, ◌==◌, ltb, leb, if◌then◌else◌, length, get_or, set, replicate,
}
use mini_os.Base.Words.{add32, sub32}
use mini_os.Kernel.Layout.{user_stack_guard_off}

-- `struct fault_frame`, the registers as an interrupt saves them.
pub record FaultFrame : Type 0 where
  pub gs : ℕ
  pub fs : ℕ
  pub es : ℕ
  pub ds : ℕ
  pub edi : ℕ
  pub esi : ℕ
  pub ebp : ℕ
  pub esp : ℕ
  pub ebx : ℕ
  pub edx : ℕ
  pub ecx : ℕ
  pub eax : ℕ
  pub int_no : ℕ
  pub err : ℕ
  pub eip : ℕ
  pub cs : ℕ
  pub eflags : ℕ
  pub useresp : ℕ
  pub ss : ℕ

-- `thread_t`.
pub record Thread : Type 0 where
  pub used : Bool
  pub ctx : FaultFrame
  pub sleep_until : ℕ

-- The scheduler's globals, with the two of the rest of the kernel that it touches.
pub record Sched : Type 0 where
  pub threads : List Thread
  pub current_tid : ℕ
  pub thread_count : ℕ
  pub thread_exit_pending : Bool
  pub timer_ticks : ℕ
  pub exit_requested : Bool

abbrev pub max_threads : ℕ
max_threads = 8

abbrev pub user_cs : ℕ
user_cs = 0x1B

abbrev pub user_ds : ℕ
user_ds = 0x23

-- What `memset(&ctx, 0, sizeof ctx)` leaves.
abbrev pub zero_frame : FaultFrame
zero_frame = record {
  gs = 0;
  fs = 0;
  es = 0;
  ds = 0;
  edi = 0;
  esi = 0;
  ebp = 0;
  esp = 0;
  ebx = 0;
  edx = 0;
  ecx = 0;
  eax = 0;
  int_no = 0;
  err = 0;
  eip = 0;
  cs = 0;
  eflags = 0;
  useresp = 0;
  ss = 0;
}

abbrev pub empty_thread : Thread
empty_thread = record { used = false; ctx = zero_frame; sleep_until = 0 }

-- `threads[tid]`; no call is made at an index outside the table.
abbrev pub thread_at : Sched → ℕ → Thread
thread_at s tid = get_or s.threads tid empty_thread

abbrev pub put_thread : Sched → ℕ → Thread → Sched
put_thread s tid t = record s { threads = set s.threads tid t }

-- The context that a thread starts with.
abbrev pub start_frame : ℕ → ℕ → FaultFrame
start_frame entry stack = record zero_frame {
  ds = user_ds;
  es = user_ds;
  fs = user_ds;
  gs = user_ds;
  eip = entry;
  cs = user_cs;
  eflags = 0x202;
  useresp = stack;
  ss = user_ds;
}

pub clear_used : List Thread → List Thread
clear_used [] = []
clear_used (t ∷ ts) = record t { used = false } ∷ clear_used ts

pub thread_clear_all : Sched → Sched
unfolding clear_used
thread_clear_all s = record s { threads = clear_used s.threads; thread_count = 0; current_tid = 0 }

pub thread_init_main : ℕ → ℕ → Sched → Sched
unfolding thread_clear_all
thread_init_main entry stack s =
    let s' = thread_clear_all s in
    let main : Thread = record { used = true; ctx = start_frame entry stack; sleep_until = 0 } in
    record s' { threads = set s'.threads 0 main; thread_count = 1; current_tid = 0 }

-- `for (i = 0; i < MAX_THREADS; i++) if (!threads[i].used) { tid = i; break; }`, from index `i` on.
pub free_slot : List Thread → ℕ → Option ℕ
free_slot [] i = none
free_slot (t ∷ ts) i = if t.used then free_slot ts (i + 1) else some i

pub start_thread : ℕ → ℕ → Sched → Option ℕ → Option ℕ × Sched
start_thread entry stack s none = (none, s)
start_thread entry stack s (some tid) =
    let t : Thread = record { used = true; ctx = start_frame entry stack; sleep_until = 0 } in
    (some tid, record s { threads = set s.threads tid t; thread_count = s.thread_count + 1 })

pub thread_create : ℕ → ℕ → Sched → Option ℕ × Sched
unfolding start_thread
thread_create entry stack s =
    if leb max_threads s.thread_count
    then (none, s)
    else start_thread entry stack s (free_slot s.threads 0)

-- `thread_count--`, with the reset to 0 below it.
pub thread_kill : ℕ → Sched → Sched
thread_kill tid s =
    if leb max_threads tid
    then s
    else if (thread_at s tid).used
    then record s {
      threads = set s.threads tid (record (thread_at s tid) { used = false; sleep_until = 0 });
      thread_count = s.thread_count - 1;
    }
    else s

-- `(int)(now - then) >= 0`: the clock has reached `then`, up to 2 ^ 31 ticks ago.
abbrev pub reached : ℕ → ℕ → Bool
reached now then_ = ltb (sub32 now then_) 2147483648

-- The test, and the table with an expired sleep cleared.
pub thread_is_runnable : ℕ → Sched → Bool × Sched
thread_is_runnable tid s =
    if leb max_threads tid
    then (false, s)
    else if (thread_at s tid).used
    then if (thread_at s tid).sleep_until == 0
      then (true, s)
      else if reached s.timer_ticks (thread_at s tid).sleep_until
      then (true, put_thread s tid (record (thread_at s tid) { sleep_until = 0 }))
      else (false, s)
    else (false, s)

-- `for (...) { next = (next + 1) % MAX_THREADS; if (thread_is_runnable(next)) break; }` with `k`
-- rounds left.
pub next_runnable : ℕ → ℕ → Sched → ℕ × Sched
next_runnable zero next s = (next, s)
next_runnable (suc k) next s =
    let n = (next + 1) % max_threads in
    let r = thread_is_runnable n s in
    let rest = next_runnable k n r.1 in if r.0 then (n, r.1) else rest

-- The lines of `thread_schedule` from the second test of `next` on.
pub switch_to : Bool → ℕ → FaultFrame → Sched → FaultFrame × Sched
switch_to cur_used next f s =
    let r = thread_is_runnable next s in
    let q = thread_is_runnable r.1.current_tid r.1 in
    let s' = if (next == r.1.current_tid) && cur_used then q.1 else r.1 in
    if r.0
    then if (next == r.1.current_tid) && cur_used && q.0
      then (f, s')
      else ((thread_at s' next).ctx, record s' { current_tid = next })
    else (f, r.1)

-- The current thread's registers are saved if it is still in use.
pub save_current : FaultFrame → Sched → Sched
save_current f s =
    if (thread_at s s.current_tid).used
    then put_thread s s.current_tid (record (thread_at s s.current_tid) { ctx = f })
    else s

pub thread_schedule : FaultFrame → Sched → FaultFrame × Sched
thread_schedule f s =
    if (s.thread_count == 0) || not (f.cs == user_cs) || leb max_threads s.current_tid
    then (f, s)
    else let saved = save_current f s in
      let found = next_runnable max_threads s.current_tid saved in
      switch_to (thread_at s s.current_tid).used found.0 f found.1

-- `thread_exit_switch`: the context to return to, or `none` where the program is over. The copy
-- into `r` and `frame` field by field is the context's.
pub exit_to : ℕ → Sched → Option FaultFrame × Sched
exit_to next s =
    let r = thread_is_runnable next s in
    if r.0
    then (some (thread_at r.1 next).ctx, record r.1 { current_tid = next })
    else (none, record r.1 { exit_requested = true })

pub thread_exit_switch : Sched → Option FaultFrame × Sched
thread_exit_switch s =
    let killed = thread_kill s.current_tid (record s { thread_exit_pending = false }) in
    if killed.thread_count == 0
    then (none, record killed { exit_requested = true })
    else let found = next_runnable max_threads killed.current_tid killed in exit_to found.0 found.1

-- USER_TRAMP_OFF
abbrev pub user_tramp_off : ℕ
user_tramp_off = user_stack_guard_off - 4096

-- The timer's part of `irq_handler`, without the count of interrupts and the acknowledgement:
-- `kill_program` afterwards, the registers to return to and the scheduler's globals.
unfoldable pub irq_timer : Bool → FaultFrame → Sched → Bool × (FaultFrame × Sched)
irq_timer kill_program f s =
    let ticked = record s { timer_ticks = add32 s.timer_ticks 1 } in
    if kill_program && (f.cs == user_cs)
    then (false, (record f { eip = user_tramp_off }, ticked))
    else (kill_program, thread_schedule f ticked)
