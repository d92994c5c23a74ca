-- ===== src/Threads/Tests.antt =====
-- Runs of the scheduler and of the locks on a small system, and each theorem at an input.
use pintos_proj.Prelude.{
  ℕ, ◌+◌, ◌≡◌, refl, ◌≢◌, ◌⊎◌, true, false, Option, none, some, List, [], ◌∷◌, ◌++◌, arith, ◌==◌,
  if◌then◌else◌, ok, panic, out_of_fuel,
}
use pintos_proj.Prelude.Int.{ℤ, pos, negsuc}
use pintos_proj.Threads.State.{
  Status, Resume, Thread, Semaphore, Lock, Kernel, thread_current, thread_magic, remove,
}
use pintos_proj.Threads.Highest.{scan, IsFirstHighest}
use pintos_proj.Threads.Sched.{
  priority_of, schedule, suspend, thread_block, thread_yield, timer_sleep, thread_exit,
  next_thread_to_run, wake_sleepers, wake, thread_unblock, switch_to,
}
use pintos_proj.Threads.Sched.Sound.{IsSound}
use pintos_proj.Threads.Sched.Next.{NextCases, next_thread_to_run_cases}
use pintos_proj.Threads.Sched.Schedule.{Scheduled, schedule_lem}
use pintos_proj.Threads.Sched.Leaving.{yielded, slept, exited, blocked-IsLeaving}
use pintos_proj.Threads.Sched.Calls.{
  Reschedules, thread_block_lem, thread_yield_lem, timer_sleep_lem, thread_exit_lem,
}
use pintos_proj.Threads.Synch.{
  lock_acquire, lock_release, sema_up, sema_up_internal, update_lock_max_priority, increment,
}
use pintos_proj.Threads.Synch.Donate.{lock_acquire_hangs, idle, held, NotHolder, raise_all}
use pintos_proj.Threads.Synch.Acquire.{IsTaken, lock_acquire_free, lock_acquire_held, Donated}
use pintos_proj.Threads.Synch.Highest.{IsMax, update_lock_max_priority_lem}
use pintos_proj.Threads.Synch.Release.{IsReleased, lock_release_lem}
use pintos_proj.Threads.Synch.Waiting.{IsWaiting}
use pintos_proj.Threads.Synch.Up.{sema_up_internal_lem, sema_up_in_interrupt, readied}

abbrev thread : ℕ → Status → ℕ → ℤ → Option ℕ → List ℕ → Thread
thread tid status priority end_tick waiting mine = record {
  tid = tid;
  status = status;
  priority = pos priority;
  base_priority = pos priority;
  end_tick = end_tick;
  held_locks = mine;
  waiting_lock = waiting;
  magic = thread_magic;
  resume = Resume.caller;
}

-- Thread 1 runs at priority 31; 2 and 3 are ready at 31 and 20; 4 sleeps until tick 7 and 5 until
-- tick 90; 6 waits at 10 for lock 20, which 7 holds at 5 while it waits for a semaphore; 9 is the
-- idle thread.
abbrev threads : ℕ → Thread
threads t =
    if t == 1
    then thread 1 Status.running 31 (pos 0) none []
    else if t == 2
    then thread 2 Status.ready 31 (negsuc 0) none []
    else if t == 3
    then thread 3 Status.ready 20 (negsuc 0) none []
    else if t == 4
    then thread 4 Status.blocked 31 (pos 7) none []
    else if t == 5
    then thread 5 Status.blocked 63 (pos 90) none []
    else if t == 6
    then thread 6 Status.blocked 10 (negsuc 0) (some 20) (21 ∷ [])
    else if t == 7
    then thread 7 Status.blocked 5 (negsuc 0) none (20 ∷ [])
    else thread t Status.blocked 0 (negsuc 0) none []

abbrev locks : ℕ → Lock
locks l =
    if l == 20
    then record { holder = some 7; semaphore = 120; max_waiter_priority = pos 10 }
    else if l == 21
    then record { holder = some 6; semaphore = 121; max_waiter_priority = negsuc 0 }
    else record { holder = none; semaphore = l + 100; max_waiter_priority = negsuc 0 }

abbrev semas : ℕ → Semaphore
semas s =
    if s == 120
    then record { value = 0; waiters = 6 ∷ [] }
    else if s == 121
    then record { value = 0; waiters = [] }
    else if s == 130
    then record { value = 0; waiters = 7 ∷ [] }
    else record { value = 1; waiters = [] }

abbrev system : Kernel
system = record {
  threads = threads;
  locks = locks;
  semas = semas;
  conds = λ c. [];
  ready_list = 3 ∷ 2 ∷ [];
  sleep_list = 4 ∷ 5 ∷ [];
  all_list = 1 ∷ 2 ∷ 3 ∷ 4 ∷ 5 ∷ 6 ∷ 7 ∷ 9 ∷ [];
  current = 1;
  idle_thread = some 9;
  initial_thread = 1;
  ticks = 8;
  thread_ticks = 2;
  idle_ticks = 0;
  kernel_ticks = 8;
  intr_context = false;
  yield_on_return = false;
}

system-IsSound : IsSound system
system-IsSound = record {
  queued = record {
    ready = ground arith;
    ready_distinct = omega arith;
    asleep = ground arith;
    asleep_distinct = omega arith;
    idle = 9;
    idle_set = refl;
    idle_usable = (refl, omega arith);
    idle_not_asleep = omega arith;
    in_thread = refl;
  };
  running = (refl, (refl, omega arith));
}

-- Thread 4 wakes at tick 8, behind 2 in the ready list at the same priority: 2 runs.
schedule_picks :
    elim (thread_yield Resume.caller system) [
      | ok j ↦ (j.current ∷ j.ready_list) ++ j.sleep_list
      | _ ↦ []
    ]
    ≡ 2 ∷ 3 ∷ 1 ∷ 4 ∷ 5 ∷ []
unfolding thread_yield schedule thread_current wake_sleepers wake thread_unblock next_thread_to_run
    scan remove switch_to
schedule_picks = refl

schedule_lem_example : (j : Kernel) × Scheduled (suspend Status.blocked Resume.caller system) j
schedule_lem_example =
    schedule_lem (suspend Status.blocked Resume.caller system)
      (blocked-IsLeaving system system-IsSound Resume.caller)

thread_block_lem_example :
    Reschedules (thread_block Resume.caller system) (suspend Status.blocked Resume.caller system)
thread_block_lem_example = thread_block_lem system system-IsSound Resume.caller

thread_yield_lem_example :
    Reschedules (thread_yield Resume.caller system) (yielded system system-IsSound Resume.caller)
thread_yield_lem_example = thread_yield_lem system system-IsSound Resume.caller

not_idle : ◌≢◌ {A = ℕ} 1 9
not_idle e = omega arith

timer_sleep_lem_example :
    Reschedules (timer_sleep true (pos 5) system) (slept system system-IsSound (pos 13))
unfolding system-IsSound
timer_sleep_lem_example = timer_sleep_lem system system-IsSound (pos 5) not_idle (omega arith)

thread_exit_lem_example : Reschedules (thread_exit system) (exited system system-IsSound)
unfolding system-IsSound
thread_exit_lem_example = thread_exit_lem system system-IsSound not_idle

next_thread_to_run_cases_example : NextCases system (3 ∷ 2 ∷ []) (next_thread_to_run system)
next_thread_to_run_cases_example = next_thread_to_run_cases system

running_now : thread_current system ≡ ok 1
unfolding thread_current
running_now = refl

-- Lock 21 is held by thread 6, of priority 10, and thread 6 waits for lock 20.
lock_acquire_held_example :
    let j = raise_all (pos 31) ((21, 6) ∷ (20, 7) ∷ []) system in
    (w : Kernel) × (lock_acquire 3 21 Resume.caller ok system
      ≡ thread_block (Resume.down 121 (some 21) (Resume.acquired 21 Resume.caller)) w)
    × IsWaiting 121 21 j w
    × Donated (pos 31) ((21, 6) ∷ (20, 7) ∷ []) j
    × ((t : ℕ) → NotHolder t ((21, 6) ∷ (20, 7) ∷ []) → j.threads t ≡ system.threads t)
    × (j.semas ≡ system.semas)
    × (j.current ≡ system.current)
lock_acquire_held_example =
    lock_acquire_held 3 21 6 ((21, 6) ∷ (20, 7) ∷ []) Resume.caller ok system refl running_now refl
      (λ e. omega arith) refl (held 6 refl (omega arith) (held 7 refl (omega arith) idle))
      (((λ e. omega arith), tt), (tt, tt)) (omega arith)

-- The same system with thread 7 at priority 31, the priority of thread 1.
abbrev rival : Kernel
rival = record system {
  threads = λ t. if t == 7 then thread 7 Status.blocked 31 (negsuc 0) none (20 ∷ []) else threads t;
}

rival_now : thread_current rival ≡ ok 1
unfolding thread_current
rival_now = refl

lock_acquire_hangs_example : lock_acquire 1000 20 Resume.caller ok rival ≡ out_of_fuel
lock_acquire_hangs_example =
    lock_acquire_hangs 1000 20 7 Resume.caller ok rival refl rival_now refl (λ e. omega arith)
      (omega arith)

lock_acquire_free_example :
    (m : Kernel) × (lock_acquire 1 31 Resume.caller ok system ≡ ok m) × IsTaken 131 31 0 system m
lock_acquire_free_example =
    lock_acquire_free 0 31 0 Resume.caller ok system refl running_now refl refl

-- Thread 1 ups the semaphore that threads 6 and 7 wait for; 6 has the higher priority.
abbrev two_wait : Kernel
two_wait = record system {
  semas = λ s. if s == 140 then record { value = 0; waiters = 7 ∷ 6 ∷ [] } else semas s;
}

sema_up_internal_lem_example :
    ((◌≡◌ {A = List ℕ} (7 ∷ 6 ∷ []) [])
      × (sema_up_internal 140 none Resume.caller two_wait
          ≡ thread_yield Resume.caller (increment 140 two_wait)))
    ⊎ ((top : ℕ) × (f : IsFirstHighest (priority_of two_wait) (7 ∷ 6 ∷ []) top) × (sema_up_internal
            140 none Resume.caller two_wait
          ≡ thread_yield Resume.caller
              (increment 140 (readied 140 top (f.before ++ f.after) two_wait))))
sema_up_internal_lem_example =
    sema_up_internal_lem 140 none Resume.caller two_wait
      ((refl, (refl, omega arith)), ((refl, (refl, omega arith)), tt))

-- The disk's interrupt handler ups a semaphore.
sema_up_in_interrupt_example :
    sema_up 140 Resume.caller (record two_wait { intr_context = true }) ≡ panic
sema_up_in_interrupt_example =
    sema_up_in_interrupt 140 Resume.caller (record two_wait { intr_context = true }) refl

update_lock_max_priority_lem_example :
    IsMax
      (priority_of system)
      (negsuc 0)
      (6 ∷ [])
      ((update_lock_max_priority 20 system).locks 20).max_waiter_priority
    × (((update_lock_max_priority 20 system).locks 20).holder ≡ some 7)
update_lock_max_priority_lem_example = update_lock_max_priority_lem 20 system

-- Thread 1 has locks 22 and 23; for 23 a thread of priority 40 waits.
abbrev owner : Kernel
owner = record system {
  threads =
      λ t. if t == 1 then thread 1 Status.running 31 (pos 0) none (22 ∷ 23 ∷ []) else threads t;
  locks = λ l.
      if l == 22
      then record { holder = some 1; semaphore = 122; max_waiter_priority = negsuc 0 }
      else if l == 23
      then record { holder = some 1; semaphore = 123; max_waiter_priority = pos 40 }
      else locks l;
}

owner_now : thread_current owner ≡ ok 1
unfolding thread_current
owner_now = refl

lock_release_lem_example :
    (j : Kernel) × (lock_release 22 Resume.caller owner
      ≡ sema_up_internal 122 (some 22) Resume.caller j)
    × IsReleased 22 owner j
lock_release_lem_example = lock_release_lem 22 Resume.caller owner owner_now refl
