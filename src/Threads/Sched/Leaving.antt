-- ===== src/Threads/Sched/Leaving.antt =====
-- The states in which a running thread calls `schedule` are well formed.
use pintos_proj.Prelude.{
  ℕ, ◌≡◌, refl, sym, ◌∙◌, ◌≢◌, false, List, [], ◌∷◌, ◌++◌, arith, ok, if◌then◌else◌, Bool-cases,
  inl, inr,
}
use native.Mathlib.Decide.{ℕ_discrete}
use pintos_proj.Prelude.Int.{ℤ, pos, ◌≤ℤ◌}
use pintos_proj.Threads.State.{Status, Resume, Thread, Kernel, set_thread, remove, thread_current}
use pintos_proj.Threads.Queues.{
  NotIn, Each, Each-append, Each-NotIn, Distinct-append_one, NotIn-append, update_self, update_ne,
}
use pintos_proj.Threads.Sched.{points_to, suspend}
use pintos_proj.Threads.Sched.Sound.{IsUsable, IsReady, IsAsleep, IsQueued, IsSound}
use pintos_proj.Threads.Sched.Schedule.{IsLeaving}

module _ (k : Kernel) (s : IsSound k) where
  cur-not-ready : NotIn k.current k.ready_list
  cur-not-ready =
      Each-NotIn IsReady k.threads k.current k.ready_list (λ h. ground (arith, h.0, s.running.0))
        s.queued.ready

  cur-not-asleep : NotIn k.current k.sleep_list
  cur-not-asleep =
      Each-NotIn IsAsleep k.threads k.current k.sleep_list (λ h. ground (arith, h.0, s.running.0))
        s.queued.asleep

  -- In a well-formed state the assertions of thread_current hold.
  pub thread_current_lem : thread_current k ≡ ok k.current
  unfolding thread_current
  thread_current_lem = ground (arith, s.running.0, s.running.1)

  -- `m` differs from `k` in the struct of the running thread, and perhaps in a list.
  module _ (m : Kernel) (agree : (x : ℕ) → k.current ≢ x → m.threads x ≡ k.threads x)
      (same_idle : m.idle_thread ≡ k.idle_thread) (in_thread : m.intr_context ≡ false)
      (usable : IsUsable (m.threads k.current)) where
    kept :
        (P : Thread → Type 0) (xs : List ℕ)
        → NotIn k.current xs
        → Each P k.threads xs
        → Each P m.threads xs
    kept P [] n e = tt
    kept P (x ∷ xs) n e = (rw (agree x (λ h. n.0 (sym h))) e.0, kept P xs n.1 e.1)

    idle-IsUsable : IsUsable (m.threads s.queued.idle)
    idle-IsUsable = elim (ℕ_discrete k.current s.queued.idle) [
      | yes e ↦ rw e at usable
      | no n ↦ rw (agree s.queued.idle n) s.queued.idle_usable
    ]

    stays : m.ready_list ≡ k.ready_list → m.sleep_list ≡ k.sleep_list → IsQueued m
    stays er es = record {
      ready = rw er (kept IsReady k.ready_list cur-not-ready s.queued.ready);
      ready_distinct = rw er s.queued.ready_distinct;
      asleep = rw es (kept IsAsleep k.sleep_list cur-not-asleep s.queued.asleep);
      asleep_distinct = rw es s.queued.asleep_distinct;
      idle = s.queued.idle;
      idle_set = same_idle ∙ s.queued.idle_set;
      idle_usable = idle-IsUsable;
      idle_not_asleep = rw es s.queued.idle_not_asleep;
      in_thread = in_thread;
    }

    joins_ready :
        m.ready_list ≡ k.ready_list ++ (k.current ∷ [])
        → m.sleep_list ≡ k.sleep_list
        → IsReady (m.threads k.current)
        → IsQueued m
    joins_ready er es h = record {
      ready = rw er (
          Each-append IsReady m.threads k.ready_list (k.current ∷ [])
            (kept IsReady k.ready_list cur-not-ready s.queued.ready) (h, tt));
      ready_distinct =
          rw er (Distinct-append_one k.ready_list k.current s.queued.ready_distinct cur-not-ready);
      asleep = rw es (kept IsAsleep k.sleep_list cur-not-asleep s.queued.asleep);
      asleep_distinct = rw es s.queued.asleep_distinct;
      idle = s.queued.idle;
      idle_set = same_idle ∙ s.queued.idle_set;
      idle_usable = idle-IsUsable;
      idle_not_asleep = rw es s.queued.idle_not_asleep;
      in_thread = in_thread;
    }

    joins_sleep :
        m.ready_list ≡ k.ready_list
        → m.sleep_list ≡ k.sleep_list ++ (k.current ∷ [])
        → IsAsleep (m.threads k.current)
        → k.current ≢ s.queued.idle
        → IsQueued m
    joins_sleep er es h n = record {
      ready = rw er (kept IsReady k.ready_list cur-not-ready s.queued.ready);
      ready_distinct = rw er s.queued.ready_distinct;
      asleep = rw es (
          Each-append IsAsleep m.threads k.sleep_list (k.current ∷ [])
            (kept IsAsleep k.sleep_list cur-not-asleep s.queued.asleep) (h, tt));
      asleep_distinct =
          rw es
            (Distinct-append_one k.sleep_list k.current s.queued.asleep_distinct cur-not-asleep);
      idle = s.queued.idle;
      idle_set = same_idle ∙ s.queued.idle_set;
      idle_usable = idle-IsUsable;
      idle_not_asleep = rw es (
          NotIn-append s.queued.idle k.sleep_list (k.current ∷ []) s.queued.idle_not_asleep
            (n, tt));
      in_thread = in_thread;
    }

  -- The states in which the calls below call `schedule`.
  abbrev pub yielded : Resume → Kernel
  yielded r = suspend Status.ready r (record k {
    ready_list =
        if points_to k.idle_thread k.current
        then k.ready_list
        else k.ready_list ++ (k.current ∷ []);
  })

  abbrev pub slept : ℤ → Kernel
  slept end_tick = suspend Status.blocked Resume.caller (
      set_thread k.current (record (k.threads k.current) { end_tick = end_tick })
        (record k { sleep_list = k.sleep_list ++ (k.current ∷ []) }))

  abbrev pub exited : Kernel
  exited = suspend Status.dying Resume.caller (record k { all_list = remove k.current k.all_list })

  -- What `suspend` leaves in the struct of the running thread, and elsewhere.
  suspend_self :
      (st : Status) (r : Resume)
      → (suspend st r k).threads k.current
        ≡ record (k.threads k.current) { status = st; resume = r }
  suspend_self st r = update_self k.threads k.current _

  suspend_ne :
      (st : Status) (r : Resume) (x : ℕ) → k.current ≢ x → (suspend st r k).threads x ≡ k.threads x
  suspend_ne st r x n = update_ne k.threads k.current x _ n

  suspend-IsUsable : (st : Status) (r : Resume) → IsUsable ((suspend st r k).threads k.current)
  suspend-IsUsable st r = rw (suspend_self st r) s.running.1

  pub blocked-IsLeaving : (r : Resume) → IsLeaving (suspend Status.blocked r k)
  blocked-IsLeaving r = record {
    queued =
        stays _ (suspend_ne Status.blocked r) refl s.queued.in_thread
          (suspend-IsUsable Status.blocked r) refl refl;
    stopped = rw (suspend_self Status.blocked r);
    not_idle = rw (suspend_self Status.blocked r) (λ d. cc);
  }

  yielded-IsQueued : (r : Resume) → IsQueued (yielded r)
  yielded-IsQueued r = elim (Bool-cases (points_to k.idle_thread k.current)) [
    | inl h ↦
        stays _ (suspend_ne Status.ready r) refl s.queued.in_thread
          (suspend-IsUsable Status.ready r) (rw h) refl
    | inr h ↦
        joins_ready _ (suspend_ne Status.ready r) refl s.queued.in_thread
          (suspend-IsUsable Status.ready r) (rw h) refl
          (rw (suspend_self Status.ready r) (refl, s.running.1))
  ]

  pub yielded-IsLeaving : (r : Resume) → IsLeaving (yielded r)
  yielded-IsLeaving r = record {
    queued = yielded-IsQueued r;
    stopped = rw (suspend_self Status.ready r);
    not_idle = rw (suspend_self Status.ready r) (λ d. cc);
  }

  slept_self :
      (e : ℤ)
      → (slept e).threads k.current ≡ record (k.threads k.current) {
        end_tick = e;
        status = Status.blocked;
        resume = Resume.caller;
      }
  slept_self e = ground arith

  pub slept-IsLeaving : (e : ℤ) → pos 0 ≤ℤ e → k.current ≢ s.queued.idle → IsLeaving (slept e)
  slept-IsLeaving e h n = record {
    queued =
        joins_sleep (slept e) (λ x m. ground arith) refl s.queued.in_thread
          (rw (slept_self e) s.running.1) refl refl (rw (slept_self e) (refl, s.running.1, h)) n;
    stopped = rw (slept_self e);
    not_idle = rw (slept_self e) (λ d. cc);
  }

  pub exited-IsLeaving : k.current ≢ s.queued.idle → IsLeaving exited
  unfolding stays
  exited-IsLeaving n = record {
    queued =
        stays _ (suspend_ne Status.dying Resume.caller) refl s.queued.in_thread
          (suspend-IsUsable Status.dying Resume.caller) refl refl;
    stopped = rw (suspend_self Status.dying Resume.caller);
    not_idle = λ d. n;
  }
