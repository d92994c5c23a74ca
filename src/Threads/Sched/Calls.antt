-- ===== src/Threads/Sched/Calls.antt =====
-- The calls by which a running thread gives up the processor: they return in every well-formed
-- state, keep it well formed, and choose the next thread as `schedule` does.
use pintos_proj.Prelude.{true, ◌<◌, ◌^◌, ◌+◌, ◌≡◌, ◌∙◌, ◌≢◌, arith, Outcome, ok, [], ◌∷◌, ◌++◌}
use pintos_proj.Prelude.Int.{ℤ, pos}
use pintos_proj.Threads.State.{Status, Resume, Kernel, set_thread, thread_current}
use pintos_proj.Threads.Sched.{
  suspend, schedule, thread_block, thread_yield, thread_yield_for_seconds, thread_exit, timer_sleep,
  sleep_duration, int64,
}
use pintos_proj.Threads.Sched.Sound.{IsSound}
use pintos_proj.Threads.Sched.Schedule.{IsLeaving, Scheduled, schedule_lem}
use pintos_proj.Threads.Sched.Leaving.{
  thread_current_lem, yielded, slept, exited, blocked-IsLeaving, yielded-IsLeaving, slept-IsLeaving,
  exited-IsLeaving,
}

-- A call that comes to `schedule` in the state `m`.
abbrev pub Reschedules : Outcome Kernel → Kernel → Type 0
Reschedules r m = (j : Kernel) × (r ≡ ok j) × Scheduled m j

reschedules : (r : Outcome Kernel) (m : Kernel) → r ≡ schedule m → IsLeaving m → Reschedules r m
reschedules r m e l = let (j, w) = schedule_lem m l in (j, e ∙ w.returned, w)

module _ (k : Kernel) (s : IsSound k) where
  -- In a well-formed state thread_block returns in a well-formed state: it blocks the running
  -- thread, which is to do `r` later, and runs the next one as `schedule` chooses it.
  pub thread_block_lem : (r : Resume) → Reschedules (thread_block r k) (suspend Status.blocked r k)
  unfolding thread_block
  thread_block_lem r =
      reschedules _ (suspend Status.blocked r k)
        (ground (arith, thread_current_lem k s, s.queued.in_thread)) (blocked-IsLeaving k s r)

  -- So does thread_yield, which puts the running thread last in the ready list, unless it is the
  -- idle thread.
  pub thread_yield_lem : (r : Resume) → Reschedules (thread_yield r k) (yielded k s r)
  unfolding thread_yield
  thread_yield_lem r =
      reschedules _ (yielded k s r) (ground (arith, thread_current_lem k s, s.queued.in_thread))
        (yielded-IsLeaving k s r)

  -- The state in which thread_yield_for_seconds calls thread_block.
  abbrev sleeper : ℤ → Kernel
  sleeper e =
      set_thread k.current (record (k.threads k.current) { end_tick = e })
        (record k { sleep_list = k.sleep_list ++ (k.current ∷ []) })

  slept_current : (e : ℤ) → thread_current (sleeper e) ≡ ok k.current
  unfolding thread_current
  slept_current e = ground (arith, s.running.0, s.running.1)

  -- So does timer_sleep, called with interrupts on by another thread than the idle one, where the
  -- tick at which the sleep is over is below 2^63: the running thread joins the sleep list with this
  -- tick, which is the present one for a duration that is not positive.
  pub timer_sleep_lem :
      (n : ℤ)
      → k.current ≢ s.queued.idle
      → k.ticks + sleep_duration n < 2 ^ 63
      → Reschedules (timer_sleep true n k) (slept k s (pos (k.ticks + sleep_duration n)))
  unfolding timer_sleep thread_yield_for_seconds thread_block
  timer_sleep_lem n h small =
      let e : int64 (k.ticks + sleep_duration n) ≡ pos (k.ticks + sleep_duration n) =
        ground (arith, small) in
      reschedules _ (slept k s (pos (k.ticks + sleep_duration n)))
        (rw e (
          ground (
            arith,
            thread_current_lem k s,
            s.queued.in_thread,
            slept_current (pos (k.ticks + sleep_duration n)),
          )))
        (slept-IsLeaving k s _ (omega arith) h)

  -- So does thread_exit, called by another thread than the idle one.
  pub thread_exit_lem : k.current ≢ s.queued.idle → Reschedules (thread_exit k) (exited k s)
  unfolding thread_exit
  thread_exit_lem h =
      reschedules _ (exited k s) (ground (arith, thread_current_lem k s, s.queued.in_thread))
        (exited-IsLeaving k s h)
