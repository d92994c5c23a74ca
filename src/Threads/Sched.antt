-- ===== src/Threads/Sched.antt =====
-- The scheduler of proj1/src/threads/thread.c. Each function here, but timer_sleep, runs with interrupts
-- off from its first to its last line, so it is one atomic step of the machine. A function that calls
-- `schedule` takes, as `r`, what its caller has still to do, and returns the state in which the
-- next thread is `current`; `r` is done when the thread runs again (`Synch.continue`).
pub mod Sound
pub mod Next
pub mod Wake
pub mod Schedule
pub mod Leaving
pub mod Calls
use pintos_proj.Prelude.{
  ℕ, ◌+◌, ◌-◌, ◌%◌, ◌^◌, Bool, false, not, ◌&&◌, ◌||◌, Option, none, some, List, [], ◌∷◌, ◌++◌, leb,
  ltb, ◌==◌, if◌then◌else◌, Outcome, ok, panic, ◌>>=◌, ◌>>◌, assert, deref,
}
use pintos_proj.Prelude.Int.{ℤ, pos, negsuc, ltb_ℤ, leb_ℤ}
use pintos_proj.Threads.State.{
  Status, is_running, is_blocked, is_dying, Resume, Kernel, set_thread, remove, is_thread,
  thread_current, thread_magic, time_slice, pri_min, pri_max,
}
use pintos_proj.Threads.Highest.{scan}

-- An optional pointer compared with a pointer.
abbrev pub points_to : Option ℕ → ℕ → Bool
points_to none t = false
points_to (some p) t = p == t

abbrev pub priority_of : Kernel → ℕ → ℤ
priority_of k t = (k.threads t).priority

-- thread_unblock
unfoldable pub thread_unblock : ℕ → Kernel → Outcome Kernel
thread_unblock t k = do
  assert (is_thread k t)
  assert (is_blocked (k.threads t).status)
  ok (
      set_thread t (record (k.threads t) { status = Status.ready })
        (record k { ready_list = k.ready_list ++ (t ∷ []) }))

-- The body of the loop of `schedule` when a sleeping thread is due.
unfoldable pub wake : ℕ → Kernel → Outcome Kernel
wake t k = thread_unblock t (
    set_thread t (record (k.threads t) { end_tick = negsuc 0 })
      (record k { sleep_list = remove t k.sleep_list }))

abbrev pub is_due : Kernel → ℕ → Bool
is_due k t = leb_ℤ (k.threads t).end_tick (pos k.ticks)

-- The loop of `schedule` over the sleeping threads.
unfoldable pub wake_sleepers : List ℕ → Kernel → Outcome Kernel
wake_sleepers [] k = ok k
wake_sleepers (t ∷ ts) k = do
  assert (leb_ℤ (pos 0) (k.threads t).end_tick)
  k' ← if is_due k t then wake t k else ok k
  wake_sleepers ts k'

-- The thread that is next, and the state without it in the ready list. `list_remove (NULL)` fails
-- its ASSERT.
unfoldable pub choose : List ℕ → Kernel → Outcome (Option ℕ × Kernel)
choose [] k = ok (k.idle_thread, k)
choose (t ∷ ts) k = elim (scan (priority_of k) (t ∷ ts) (negsuc 0) none) [
  | none ↦ panic
  | some best ↦ ok (some best, record k { ready_list = remove best (t ∷ ts) })
]

unfoldable pub next_thread_to_run : Kernel → Outcome (Option ℕ × Kernel)
unfolding choose
next_thread_to_run k = choose k.ready_list k

-- palloc_free_page on the page of a thread fills it with 0xcc.
abbrev pub destroy : ℕ → Kernel → Kernel
destroy t k = set_thread t (record (k.threads t) { magic = 0xcccccccc }) k

-- switch_threads and thread_schedule_tail, from `prev` to `next`.
unfoldable pub switch_to : ℕ → ℕ → Kernel → Kernel
switch_to prev next k =
    let k' =
      set_thread next (record (k.threads next) { status = Status.running })
        (record k { current = next; thread_ticks = 0 }) in
    if not (prev == next) && is_dying (k.threads prev).status && not (prev == k.initial_thread)
    then destroy prev k'
    else k'

-- schedule
unfoldable pub schedule : Kernel → Outcome Kernel
schedule k = do
  k' ← wake_sleepers k.sleep_list k
  (found, k'') ← next_thread_to_run k'
  assert (not (is_running (k''.threads k.current).status))
  next ← deref found
  assert (is_thread k'' next)
  ok (switch_to k.current next k'')

-- The running thread gives up the processor with `status`, and has `r` to do when it runs again.
abbrev pub suspend : Status → Resume → Kernel → Kernel
suspend status r k =
    set_thread k.current (record (k.threads k.current) { status = status; resume = r }) k

-- thread_block
unfoldable pub thread_block : Resume → Kernel → Outcome Kernel
thread_block r k = do
  assert (not k.intr_context)
  _ ← thread_current k
  schedule (suspend Status.blocked r k)

-- thread_yield
unfoldable pub thread_yield : Resume → Kernel → Outcome Kernel
thread_yield r k = do
  cur ← thread_current k
  assert (not k.intr_context)
  let ready = if points_to k.idle_thread cur then k.ready_list else k.ready_list ++ (cur ∷ [])
  schedule (suspend Status.ready r (record k { ready_list = ready }))

-- thread_yield_for_seconds
unfoldable pub thread_yield_for_seconds : ℤ → Kernel → Outcome Kernel
thread_yield_for_seconds end_tick k = do
  cur ← thread_current k
  assert (not k.intr_context)
  thread_block Resume.caller (
      set_thread cur (record (k.threads cur) { end_tick = end_tick })
        (record k { sleep_list = k.sleep_list ++ (cur ∷ []) }))

-- thread_exit, without process_exit, which only a build with USERPROG has.
unfoldable pub thread_exit : Kernel → Outcome Kernel
thread_exit k = do
  assert (not k.intr_context)
  cur ← thread_current k
  schedule (suspend Status.dying Resume.caller (record k { all_list = remove cur k.all_list }))

-- thread_set_priority
abbrev pub new_effective : ℤ → ℤ → ℤ → ℤ
new_effective priority base new =
    if ltb_ℤ base priority then (if ltb_ℤ new priority then priority else new) else new

unfoldable pub thread_set_priority : ℤ → Kernel → Outcome Kernel
thread_set_priority new k = do
  cur ← thread_current k
  let th = k.threads cur
  thread_yield Resume.caller (
      set_thread cur
        (record th {
          priority = new_effective th.priority th.base_priority new;
          base_priority = new;
        })
        k)

-- thread_tick, in the build without USERPROG. `++thread_ticks` wraps at 2^32.
unfoldable pub thread_tick : Kernel → Outcome Kernel
thread_tick k = do
  cur ← thread_current k
  let n = (k.thread_ticks + 1) % 2 ^ 32
  let idle = points_to k.idle_thread cur
  ok (record k {
    idle_ticks = if idle then k.idle_ticks + 1 else k.idle_ticks;
    kernel_ticks = if idle then k.kernel_ticks else k.kernel_ticks + 1;
    thread_ticks = n;
    yield_on_return = leb time_slice n || k.yield_on_return;
  })

-- init_thread: the struct that it leaves at `t`, and the entry in `all_list`.
unfoldable pub init_thread : ℕ → ℤ → Kernel → Outcome Kernel
init_thread t priority k = do
  assert (leb_ℤ pri_min priority && leb_ℤ priority pri_max)
  ok (
      set_thread t
        (record {
          tid = 0;
          status = Status.blocked;
          priority = priority;
          base_priority = priority;
          end_tick = pos 0;
          held_locks = [];
          waiting_lock = none;
          magic = thread_magic;
          resume = Resume.caller;
        })
        (record k { all_list = k.all_list ++ (t ∷ []) }))

-- timer_interrupt of devices/timer.c; interrupts.c runs it in an external interrupt.
unfoldable pub timer_interrupt : Kernel → Outcome Kernel
timer_interrupt k = thread_tick (record k { ticks = k.ticks + 1 })

-- (ticks > 0) ? ticks : 0
abbrev pub sleep_duration : ℤ → ℕ
sleep_duration (pos d) = d
sleep_duration (negsuc d) = 0

-- A natural number as an `int64_t`.
abbrev pub int64 : ℕ → ℤ
int64 n = let m = n % 2 ^ 64 in if ltb m (2 ^ 63) then pos m else negsuc (2 ^ 64 - 1 - m)

-- timer_sleep of devices/timer.c. `intr_on` says whether interrupts are on where it is called, and the
-- end of the sleep wraps as the machine's addition does. It is taken as one step, in which no interrupt
-- comes between the reading of the ticks and thread_yield_for_seconds.
unfoldable pub timer_sleep : Bool → ℤ → Kernel → Outcome Kernel
timer_sleep intr_on n k = do
  let end = int64 (k.ticks + sleep_duration n)
  assert intr_on
  thread_yield_for_seconds end k
