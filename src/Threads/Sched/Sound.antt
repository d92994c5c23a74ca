-- ===== src/Threads/Sched/Sound.antt =====
-- Well-formed scheduler states.
use pintos_proj.Prelude.{ℕ, ◌≡◌, some, false}
use pintos_proj.Prelude.Int.{pos, ◌≤ℤ◌}
use pintos_proj.Threads.State.{Status, Thread, Kernel, thread_magic}
use pintos_proj.Threads.Queues.{NotIn, Distinct, Each}

-- A thread struct that is intact and has a priority that the scans can choose.
abbrev pub IsUsable : Thread → Type 0
IsUsable th = (th.magic ≡ thread_magic) × (pos 0 ≤ℤ th.priority)

abbrev pub IsReady : Thread → Type 0
IsReady th = (th.status ≡ Status.ready) × IsUsable th

abbrev pub IsAsleep : Thread → Type 0
IsAsleep th = (th.status ≡ Status.blocked) × IsUsable th × (pos 0 ≤ℤ th.end_tick)

abbrev pub IsRunning : Thread → Type 0
IsRunning th = (th.status ≡ Status.running) × IsUsable th

-- The lists hold what they are for, each thread once, and there is an idle thread beside them.
pub record IsQueued (k : Kernel) : Type 0 where
  pub ready : Each IsReady k.threads k.ready_list
  pub ready_distinct : Distinct k.ready_list
  pub asleep : Each IsAsleep k.threads k.sleep_list
  pub asleep_distinct : Distinct k.sleep_list
  pub idle : ℕ
  pub idle_set : k.idle_thread ≡ some idle
  pub idle_usable : IsUsable (k.threads idle)
  pub idle_not_asleep : NotIn idle k.sleep_list
  pub in_thread : k.intr_context ≡ false

-- A state in which a thread runs.
pub record IsSound (k : Kernel) : Type 0 where
  pub queued : IsQueued k
  pub running : IsRunning (k.threads k.current)
