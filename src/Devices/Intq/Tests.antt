-- ===== src/Devices/Intq/Tests.antt =====
-- devices/intq.c: two bytes on both sides of the end of the buffer, and a queue without bytes.
use pintos_proj.Prelude.{
  ℕ, ◌+◌, ◌≡◌, refl, true, false, [], ◌∷◌, none, some, ◌==◌, if◌then◌else◌, arith, ok, panic,
}
use pintos_proj.Prelude.Int.{pos, negsuc}
use pintos_proj.Threads.State.{Status, Resume, Thread, Kernel, thread_magic}
use pintos_proj.Threads.Sched.{suspend}
use pintos_proj.Threads.Sched.Sound.{IsSound}
use pintos_proj.Threads.Sched.Schedule.{Scheduled}
use pintos_proj.Threads.Synch.Acquire.{IsTaken}
use pintos_proj.Devices.Intq.{Station, sleep_for, intq_getc, intq_putc}
use pintos_proj.Devices.Intq.Holding.{Holds, IsWoken, intq_getc-Holds, intq_putc-Holds}
use pintos_proj.Devices.Intq.Sleeping.{intq_getc_sleeps}

abbrev thread : ℕ → Status → Thread
thread tid status = record {
  tid = tid;
  status = status;
  priority = pos 31;
  base_priority = pos 31;
  end_tick = negsuc 0;
  held_locks = [];
  waiting_lock = none;
  magic = thread_magic;
  resume = Resume.caller;
}

-- Thread 1 runs, and the others are blocked.
abbrev kernel : Kernel
kernel = record {
  threads = λ t. if t == 1 then thread 1 Status.running else thread t Status.blocked;
  locks = λ l. record { holder = none; semaphore = l + 100; max_waiter_priority = negsuc 0 };
  semas = λ s. record { value = 1; waiters = [] };
  conds = λ c. [];
  ready_list = [];
  sleep_list = [];
  all_list = 1 ∷ (5 ∷ (6 ∷ (9 ∷ [])));
  current = 1;
  idle_thread = some 9;
  initial_thread = 1;
  ticks = 8;
  thread_ticks = 2;
  idle_ticks = 0;
  kernel_ticks = 8;
  intr_context = false;
  yield_on_return = false;
}

-- Thread 5 waits for room, and thread 6 for a byte.
abbrev station : Station
station = record {
  queue = record {
    lock = 20;
    not_full = some 5;
    not_empty = some 6;
    buf = λ i. if i == 63 then 7 else 8;
    head = 1;
    tail = 63;
  };
  kernel = kernel;
}

station-Holds : Holds station.queue (7 ∷ (8 ∷ []))
station-Holds = record {
  place = omega arith;
  room = omega arith;
  end = refl;
  bytes = (refl, (refl, tt));
}

intq_getc-Holds_example :
    (s' : Station) × (intq_getc 9 station ≡ ok (s', some 7))
    × Holds s'.queue (8 ∷ [])
    × (s'.queue.not_full ≡ none)
    × (s'.queue.not_empty ≡ some 6)
    × IsWoken (some 5) kernel s'.kernel
intq_getc-Holds_example = intq_getc-Holds 9 station 7 (8 ∷ []) station-Holds (refl, refl)

intq_putc-Holds_example :
    (s' : Station) × (intq_putc 9 3 station ≡ ok (s', true))
    × Holds s'.queue (7 ∷ (8 ∷ (3 ∷ [])))
    × (s'.queue.not_empty ≡ none)
    × (s'.queue.not_full ≡ some 5)
    × IsWoken (some 6) kernel s'.kernel
intq_putc-Holds_example =
    intq_putc-Holds 9 3 station (7 ∷ (8 ∷ [])) station-Holds (omega arith) (refl, refl)

-- The same queue with no byte.
abbrev idle_station : Station
idle_station = record station { queue = record (station.queue) { head = 63 } }

idle_station-Holds : Holds idle_station.queue []
idle_station-Holds = record { place = omega arith; room = omega arith; end = refl; bytes = tt }

kernel-IsSound : IsSound kernel
kernel-IsSound = record {
  queued = record {
    ready = tt;
    ready_distinct = tt;
    asleep = tt;
    asleep_distinct = tt;
    idle = 9;
    idle_set = refl;
    idle_usable = (refl, omega arith);
    idle_not_asleep = tt;
    in_thread = refl;
  };
  running = (refl, (refl, omega arith));
}

intq_getc_sleeps_example :
    (k j : Kernel) × (intq_getc 9 idle_station
      ≡ ok
          (record { kernel = j; queue = record (idle_station.queue) { not_empty = some 1 } }, none))
    × IsTaken 120 20 0 kernel k
    × Scheduled (suspend Status.blocked Resume.caller k) j
intq_getc_sleeps_example =
    intq_getc_sleeps 8 0 idle_station idle_station-Holds kernel-IsSound refl refl

-- An interrupt handler must not take a byte from an empty queue.
empty_in_interrupt :
    intq_getc 9 (record idle_station { kernel = record kernel { intr_context = true } }) ≡ panic
unfolding intq_getc sleep_for
empty_in_interrupt = refl
