-- ===== src/Threads/Sched/Schedule.antt =====
-- `schedule` as a whole: it never fails in a well-formed state, and which thread it runs.
use pintos_proj.Prelude.{
  ℕ, ◌≡◌, refl, sym, ◌∙◌, ap, ◌≢◌, ◌⊎◌, inl, inr, true, false, Option, some, List, [], ◌∷◌, ◌++◌,
  arith, Outcome, ok, not, ◌>>=◌, ◌>>◌, assert, deref,
}
use mathlib.Core.Path.{fun_ext}
use pintos_proj.Prelude.Int.{ℤ, negsuc}
use pintos_proj.Threads.State.{Status, is_running, is_dying, Thread, Kernel, is_thread}
use pintos_proj.Threads.Highest.{IsFirstHighest, AllLe}
use pintos_proj.Threads.Queues.{NotIn, Distinct, Each, Each-NotIn, Each-middle, Distinct-middle}
use pintos_proj.Threads.Sched.{priority_of, next_thread_to_run, wake_sleepers, schedule, switch_to}
use pintos_proj.Threads.Sched.Sound.{IsUsable, IsReady, IsAsleep, IsQueued, IsSound}
use pintos_proj.Threads.Sched.Next.{next_thread_to_run_cases}
use pintos_proj.Threads.Sched.Wake.{due, not_due, Woke, wake_sleepers_lem}

-- The state in which `schedule` may be called: the running thread has been given another status,
-- and it is not the idle thread that exits.
pub record IsLeaving (k : Kernel) : Type 0 where
  pub queued : IsQueued k
  pub stopped : is_running (k.threads k.current).status ≡ false
  pub not_idle : is_dying (k.threads k.current).status ≡ true → k.current ≢ queued.idle

-- The threads that may run next: those that are ready, then those that have slept long enough.
abbrev pub candidates : Kernel → List ℕ
candidates k = k.ready_list ++ due k k.sleep_list

-- The first candidate of the highest priority runs, and the others stay ready; the idle thread
-- runs if there is no candidate.
abbrev pub Runs : Kernel → Kernel → Type 0
Runs k j =
    ((candidates k ≡ []) × (k.idle_thread ≡ some j.current) × (j.ready_list ≡ []))
    ⊎ ((f : IsFirstHighest (priority_of k) (candidates k) j.current) × (j.ready_list
          ≡ f.before ++ f.after))

switch_to_next :
    (prev next : ℕ) (k : Kernel)
    → (switch_to prev next k).threads next ≡ record (k.threads next) { status = Status.running }
unfolding switch_to
switch_to_next prev next k = ground arith

switch_to_ne :
    (prev next x : ℕ) (k : Kernel)
    → x ≢ next
    → is_dying (k.threads x).status ≡ false
    → (switch_to prev next k).threads x ≡ k.threads x
unfolding switch_to
switch_to_ne prev next x k n h = ground arith

switch_to_rest :
    (prev next : ℕ) (k : Kernel)
    → let j = switch_to prev next k in
      (j.current ≡ next)
      × (j.ready_list ≡ k.ready_list)
      × (j.sleep_list ≡ k.sleep_list)
      × (j.idle_thread ≡ k.idle_thread)
      × (j.intr_context ≡ k.intr_context)
unfolding switch_to
switch_to_rest prev next k = ground arith

-- Structs of living threads other than `next` are left as they are.
switch_to-Each :
    (prev next : ℕ) (k : Kernel) (P : Thread → Type 0) (xs : List ℕ)
    → ((th : Thread) → P th → is_dying th.status ≡ false)
    → NotIn next xs
    → Each P k.threads xs
    → Each P (switch_to prev next k).threads xs
switch_to-Each prev next k P [] alive n e = tt
switch_to-Each prev next k P (x ∷ xs) alive n e = (
  rw (switch_to_ne prev next x k n.0 (alive _ e.0)) e.0,
  switch_to-Each prev next k P xs alive n.1 e.1,
)

switch_to-IsUsable :
    (prev next x : ℕ) (k : Kernel)
    → (is_dying (k.threads prev).status ≡ true → prev ≢ x)
    → IsUsable (k.threads x)
    → IsUsable ((switch_to prev next k).threads x)
unfolding switch_to
switch_to-IsUsable prev next x k d u = ground arith

-- A usable thread that is in none of the lists starts to run, and the lists stay well formed.
switch_to-IsSound :
    (prev next : ℕ) (k : Kernel) (q : IsQueued k)
    → IsUsable (k.threads next)
    → NotIn next k.ready_list
    → NotIn next k.sleep_list
    → (is_dying (k.threads prev).status ≡ true → prev ≢ q.idle)
    → IsSound (switch_to prev next k)
switch_to-IsSound prev next k q u nr ns di = record {
  queued = record {
    ready = rw r.1 (switch_to-Each prev next k IsReady k.ready_list ready_alive nr q.ready);
    ready_distinct = rw r.1 q.ready_distinct;
    asleep = rw r.2 (switch_to-Each prev next k IsAsleep k.sleep_list asleep_alive ns q.asleep);
    asleep_distinct = rw r.2 q.asleep_distinct;
    idle = q.idle;
    idle_set = r.3 ∙ q.idle_set;
    idle_usable = switch_to-IsUsable prev next q.idle k di q.idle_usable;
    idle_not_asleep = rw r.2 q.idle_not_asleep;
    in_thread = r.4 ∙ q.in_thread;
  };
  running = rw r.0 (rw (switch_to_next prev next k) (refl, u));
}
  where
    r :
        let j = switch_to prev next k in
        (j.current ≡ next)
        × (j.ready_list ≡ k.ready_list)
        × (j.sleep_list ≡ k.sleep_list)
        × (j.idle_thread ≡ k.idle_thread)
        × (j.intr_context ≡ k.intr_context)
    r = switch_to_rest prev next k

    ready_alive : (th : Thread) → IsReady th → is_dying th.status ≡ false
    ready_alive th h = ground (arith, h.0)

    asleep_alive : (th : Thread) → IsAsleep th → is_dying th.status ≡ false
    asleep_alive th h = ground (arith, h.0)

-- The ready list without an entry in its middle.
without-IsQueued :
    (k : Kernel) (t : ℕ) (xs ys : List ℕ)
    → k.ready_list ≡ xs ++ (t ∷ ys)
    → IsQueued k
    → IsQueued (record k { ready_list = xs ++ ys })
      × IsReady (k.threads t)
      × NotIn t (xs ++ ys)
      × NotIn t k.sleep_list
without-IsQueued k t xs ys e q = (
  record {
    ready = m.1;
    ready_distinct = d.2;
    asleep = q.asleep;
    asleep_distinct = q.asleep_distinct;
    idle = q.idle;
    idle_set = q.idle_set;
    idle_usable = q.idle_usable;
    idle_not_asleep = q.idle_not_asleep;
    in_thread = q.in_thread;
  },
  m.0,
  d.1,
  Each-NotIn IsAsleep k.threads t k.sleep_list (λ a. ground (arith, a.0, m.0.0)) q.asleep,
)
  where
    m : IsReady (k.threads t) × Each IsReady k.threads (xs ++ ys)
    m = Each-middle IsReady k.threads t xs ys (rw e at q.ready)

    d : NotIn t xs × NotIn t (xs ++ ys) × Distinct (xs ++ ys)
    d = Distinct-middle t xs ys (rw e at q.ready_distinct)

-- What `schedule` does once the sleeping threads are woken.
finish : ℕ → Option ℕ × Kernel → Outcome Kernel
finish cur (found, k) = do
  assert (not (is_running (k.threads cur).status))
  next ← deref found
  assert (is_thread k next)
  ok (switch_to cur next k)

finish-ok :
    (cur next : ℕ) (k : Kernel)
    → is_running (k.threads cur).status ≡ false
    → IsUsable (k.threads next)
    → finish cur (some next, k) ≡ ok (switch_to cur next k)
unfolding finish
finish-ok cur next k h u = rw h (ground (arith, u.0))

schedule-finish :
    (k j m : Kernel) (found : Option ℕ)
    → wake_sleepers k.sleep_list k ≡ ok j
    → next_thread_to_run j ≡ ok (found, m)
    → schedule k ≡ finish k.current (found, m)
unfolding schedule finish
schedule-finish k j m found w n = rw (w, n)

-- What is said of the result of `schedule`.
pub record Scheduled (k j : Kernel) : Type 0 where
  pub returned : schedule k ≡ ok j
  pub sound : IsSound j
  pub runs : Runs k j
  pub still_asleep : j.sleep_list ≡ not_due k k.sleep_list

priority_of-Woke : (k j : Kernel) (w : Woke k [] k.sleep_list j) → priority_of j ≡ priority_of k
priority_of-Woke k j w = fun_ext w.same_priority

restated :
    (p p' : ℕ → ℤ) (xs xs' : List ℕ) (t t' : ℕ)
    → p ≡ p'
    → xs ≡ xs'
    → t ≡ t'
    → (f : IsFirstHighest p xs t)
    → (g : IsFirstHighest p' xs' t') × (g.before ++ g.after ≡ f.before ++ f.after)
restated p p' xs xs' t t' ep ex et f = (
  record {
    before = f.before;
    after = f.after;
    split = sym ex ∙ (f.split ∙ ap (λ u. f.before ++ (u ∷ f.after)) et);
    above = rw (← ep, ← et) f.above;
    atleast = rw (← ep, ← et) f.atleast;
  },
  refl,
)

some_nonneg :
    (k : Kernel) (xs : List ℕ)
    → xs ≢ []
    → Each IsReady k.threads xs
    → ¬ (AllLe (priority_of k) (negsuc 0) xs)
some_nonneg k [] n e a = n refl
some_nonneg k (x ∷ xs) n e a = absurd (omega (arith, e.0.1.1, a.0))

module _ (k j : Kernel) (l : IsLeaving k) (w : Woke k [] k.sleep_list j) where
  cur_not_idle :
      (i : ℕ)
      → j.idle_thread ≡ some i
      → is_dying (j.threads k.current).status ≡ true
      → k.current ≢ i
  cur_not_idle i h d e =
      let same : some i ≡ some l.queued.idle = sym h ∙ (w.same_idle ∙ l.queued.idle_set) in
      let met : i ≡ l.queued.idle = cc in l.not_idle (w.not_revived k.current d) (e ∙ met)

  idle_runs :
      j.ready_list ≡ []
      → next_thread_to_run j ≡ ok (j.idle_thread, j)
      → Scheduled k (switch_to k.current w.queued.idle j)
  idle_runs e n = record {
    returned =
        schedule-finish k j j (some w.queued.idle) w.returned (rw (← w.queued.idle_set) n)
        ∙ finish-ok k.current w.queued.idle j (w.not_running k.current l.stopped)
            w.queued.idle_usable;
    sound =
        switch_to-IsSound k.current w.queued.idle j w.queued w.queued.idle_usable (rw e tt)
          w.queued.idle_not_asleep (cur_not_idle w.queued.idle w.queued.idle_set);
    runs =
        inl (sym w.ready_now ∙ e, sym w.same_idle ∙ w.queued.idle_set ∙ ap some (sym r.0), r.1 ∙ e);
    still_asleep = r.2 ∙ w.sleep_left;
  }
    where
      r :
          let i = switch_to k.current w.queued.idle j in
          (i.current ≡ w.queued.idle)
          × (i.ready_list ≡ j.ready_list)
          × (i.sleep_list ≡ j.sleep_list)
          × (i.idle_thread ≡ j.idle_thread)
          × (i.intr_context ≡ j.intr_context)
      r = switch_to_rest k.current w.queued.idle j

  candidate_runs :
      (t : ℕ) (f : IsFirstHighest (priority_of j) j.ready_list t)
      → next_thread_to_run j ≡ ok (some t, record j { ready_list = f.before ++ f.after })
      → Scheduled k (switch_to k.current t (record j { ready_list = f.before ++ f.after }))
  candidate_runs t f n = record {
    returned =
        schedule-finish k j m (some t) w.returned n
        ∙ finish-ok k.current t m (w.not_running k.current l.stopped) q.1.1;
    sound = switch_to-IsSound k.current t m q.0 q.1.1 q.2 q.3 (cur_not_idle q.0.idle q.0.idle_set);
    runs = inr (g.0, r.1 ∙ sym g.1);
    still_asleep = r.2 ∙ w.sleep_left;
  }
    where
      m : Kernel
      m = record j { ready_list = f.before ++ f.after }

      q : IsQueued m × IsReady (j.threads t) × NotIn t m.ready_list × NotIn t j.sleep_list
      q = without-IsQueued j t f.before f.after f.split w.queued

      r :
          let i = switch_to k.current t m in
          (i.current ≡ t)
          × (i.ready_list ≡ m.ready_list)
          × (i.sleep_list ≡ m.sleep_list)
          × (i.idle_thread ≡ m.idle_thread)
          × (i.intr_context ≡ m.intr_context)
      r = switch_to_rest k.current t m

      g :
          (g : IsFirstHighest (priority_of k) (candidates k) (switch_to k.current t m).current)
          × (g.before ++ g.after ≡ f.before ++ f.after)
      g =
          restated (priority_of j) (priority_of k) j.ready_list (candidates k) t
            (switch_to k.current t m).current (priority_of-Woke k j w) w.ready_now (sym r.0) f

-- From a well-formed state `schedule` returns, and the state that it leaves is well formed. It
-- runs the earliest thread of the highest priority among those that are ready and those whose
-- sleep is over, in this order, or the idle thread if there are none. It leaves the other
-- candidates ready in their order, and it leaves asleep just those whose time has not come.
pub schedule_lem : (k : Kernel) → IsLeaving k → (j : Kernel) × Scheduled k j
schedule_lem k l =
    let (j, w) = wake_sleepers_lem k [] k.sleep_list refl l.queued in
    elim (next_thread_to_run_cases j) [
      | inl (e, n) ↦ (switch_to k.current w.queued.idle j, idle_runs k j l w e n)
      | inr (inl (n, a, _)) ↦ absurd (some_nonneg j j.ready_list n w.queued.ready a)
      | inr (inr (t, f, _, n)) ↦ (
        switch_to k.current t (record j { ready_list = f.before ++ f.after }),
        candidate_runs k j l w t f n,
      )
    ]
