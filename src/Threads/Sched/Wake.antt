-- ===== src/Threads/Sched/Wake.antt =====
-- The loop of `schedule` that wakes sleeping threads.
use pintos_proj.Prelude.{
  ℕ, ◌≡◌, refl, sym, ◌∙◌, ap, ◌≢◌, inl, inr, true, false, List, [], ◌∷◌, ◌++◌, append-nil,
  append_assoc, arith, Bool-cases, if◌then◌else◌, ok,
}
use pintos_proj.Prelude.Int.{negsuc}
use pintos_proj.Threads.State.{is_running, is_dying, Status, Thread, Kernel, set_thread, remove}
use pintos_proj.Threads.Queues.{
  Each-middle, NotIn-middle, NotIn-right, Distinct-middle, NotIn, Distinct, Each, Each-append,
  Each-update, Each-NotIn, Distinct-append_one, remove-split, update_self,
}
use pintos_proj.Threads.Sched.{thread_unblock, wake, is_due, wake_sleepers}
use pintos_proj.Threads.Sched.Sound.{IsReady, IsAsleep, IsQueued}

-- The state after `wake t`, with its two writes to the struct of `t`.
abbrev pub unslept : ℕ → Kernel → Kernel
unslept t k =
    set_thread t (record (k.threads t) { end_tick = negsuc 0 })
      (record k { sleep_list = remove t k.sleep_list })

abbrev pub woken : ℕ → Kernel → Kernel
woken t k =
    let j = unslept t k in
    set_thread t (record (j.threads t) { status = Status.ready })
      (record j { ready_list = j.ready_list ++ (t ∷ []) })

unslept_self :
    (t : ℕ) (k : Kernel) → (unslept t k).threads t ≡ record (k.threads t) { end_tick = negsuc 0 }
unslept_self t k = update_self k.threads t (record (k.threads t) { end_tick = negsuc 0 })

wake_lem : (t : ℕ) (k : Kernel) → IsAsleep (k.threads t) → wake t k ≡ ok (woken t k)
unfolding wake thread_unblock
wake_lem t k a = ground (arith, unslept_self t k)

woken_self : (t : ℕ) (k : Kernel) → IsAsleep (k.threads t) → IsReady ((woken t k).threads t)
woken_self t k a =
    rw
      (update_self (unslept t k).threads t
        (record ((unslept t k).threads t) { status = Status.ready }))
      (rw (unslept_self t k) (refl, a.1))

woken_ne : (t u : ℕ) (k : Kernel) → t ≢ u → (woken t k).threads u ≡ k.threads u
woken_ne t u k n = ground arith

-- A sleeping thread in the middle of the list leaves it, and stands last in the ready list.
module _ (t : ℕ) (k : Kernel) (done ts : List ℕ) (e : k.sleep_list ≡ done ++ (t ∷ ts)) where
  sleeping : IsQueued k → IsAsleep (k.threads t)
  sleeping q = (Each-middle IsAsleep k.threads t done ts (rw e at q.asleep)).0

  sleep_list-woken : IsQueued k → (woken t k).sleep_list ≡ done ++ ts
  sleep_list-woken q =
      ap (remove t) e
      ∙ remove-split t done ts (Distinct-middle t done ts (rw e at q.asleep_distinct)).0

  woken-IsQueued : IsQueued k → IsQueued (woken t k)
  woken-IsQueued q = record {
    ready =
        Each-append IsReady (woken t k).threads k.ready_list (t ∷ [])
          (others IsReady k.ready_list not_ready q.ready) (woken_self t k a, tt);
    ready_distinct = Distinct-append_one k.ready_list t q.ready_distinct not_ready;
    asleep = rw (sleep_list-woken q) (
        others IsAsleep (done ++ ts) m.1
          (Each-middle IsAsleep k.threads t done ts (rw e at q.asleep)).1);
    asleep_distinct = rw (sleep_list-woken q) m.2;
    idle = q.idle;
    idle_set = q.idle_set;
    idle_usable = rw (woken_ne t q.idle k i.0) q.idle_usable;
    idle_not_asleep = rw (sleep_list-woken q) i.1;
    in_thread = q.in_thread;
  }
    where
      a : IsAsleep (k.threads t)
      a = sleeping q

      m : NotIn t done × NotIn t (done ++ ts) × Distinct (done ++ ts)
      m = Distinct-middle t done ts (rw e at q.asleep_distinct)

      i : (t ≢ q.idle) × NotIn q.idle (done ++ ts)
      i = NotIn-middle t q.idle done ts (rw e at q.idle_not_asleep)

      not_ready : NotIn t k.ready_list
      not_ready =
          Each-NotIn IsReady k.threads t k.ready_list (λ r. ground (arith, r.0, a.0)) q.ready

      others :
          (P : Thread → Type 0) (xs : List ℕ)
          → NotIn t xs
          → Each P k.threads xs
          → Each P (woken t k).threads xs
      others P xs n h = Each-update P _ t _ xs n (Each-update P k.threads t _ xs n h)

-- The threads of a list that are due, and those that are not, in the list's order.
unfoldable pub due : Kernel → List ℕ → List ℕ
due k [] = []
due k (t ∷ ts) = if is_due k t then t ∷ due k ts else due k ts

unfoldable pub not_due : Kernel → List ℕ → List ℕ
not_due k [] = []
not_due k (t ∷ ts) = if is_due k t then not_due k ts else t ∷ not_due k ts

due-woken : (t : ℕ) (k : Kernel) (xs : List ℕ) → NotIn t xs → due (woken t k) xs ≡ due k xs
unfolding due
due-woken t k [] n = refl
due-woken t k (x ∷ xs) n = rw (woken_ne t x k (λ e. n.0 (sym e)), due-woken t k xs n.1)

not_due-woken :
    (t : ℕ) (k : Kernel) (xs : List ℕ) → NotIn t xs → not_due (woken t k) xs ≡ not_due k xs
unfolding not_due
not_due-woken t k [] n = refl
not_due-woken t k (x ∷ xs) n = rw (woken_ne t x k (λ e. n.0 (sym e)), not_due-woken t k xs n.1)

woken-not_running :
    (t u : ℕ) (k : Kernel)
    → is_running (k.threads u).status ≡ false
    → is_running ((woken t k).threads u).status ≡ false
woken-not_running t u k h = ground arith

woken-not_revived :
    (t u : ℕ) (k : Kernel)
    → is_dying ((woken t k).threads u).status ≡ true
    → is_dying (k.threads u).status ≡ true
woken-not_revived t u k h = ground arith

-- What the loop leaves: the due threads of `ts` are ready, in order, behind those that were.
pub record Woke (k : Kernel) (done ts : List ℕ) (j : Kernel) : Type 0 where
  pub returned : wake_sleepers ts k ≡ ok j
  pub queued : IsQueued j
  pub sleep_left : j.sleep_list ≡ done ++ not_due k ts
  pub ready_now : j.ready_list ≡ k.ready_list ++ due k ts
  pub same_current : j.current ≡ k.current
  pub same_others : (u : ℕ) → NotIn u ts → j.threads u ≡ k.threads u
  pub not_running :
      (u : ℕ) → is_running (k.threads u).status ≡ false → is_running (j.threads u).status ≡ false
  pub not_revived :
      (u : ℕ) → is_dying (j.threads u).status ≡ true → is_dying (k.threads u).status ≡ true
  pub same_idle : j.idle_thread ≡ k.idle_thread
  pub same_priority : (u : ℕ) → (j.threads u).priority ≡ (k.threads u).priority

wake_sleepers_due :
    (t : ℕ) (ts : List ℕ) (k : Kernel)
    → IsAsleep (k.threads t)
    → is_due k t ≡ true
    → wake_sleepers (t ∷ ts) k ≡ wake_sleepers ts (woken t k)
unfolding wake_sleepers
wake_sleepers_due t ts k a h = rw (h, wake_lem t k a) (ground arith)

wake_sleepers_later :
    (t : ℕ) (ts : List ℕ) (k : Kernel)
    → IsAsleep (k.threads t)
    → is_due k t ≡ false
    → wake_sleepers (t ∷ ts) k ≡ wake_sleepers ts k
unfolding wake_sleepers
wake_sleepers_later t ts k a h = rw h (ground arith)

priority-woken : (t u : ℕ) (k : Kernel) → ((woken t k).threads u).priority ≡ (k.threads u).priority
priority-woken t u k = ground arith

pub wake_sleepers_lem :
    (k : Kernel) (done ts : List ℕ)
    → k.sleep_list ≡ done ++ ts
    → IsQueued k
    → (j : Kernel) × Woke k done ts j
unfolding wake_sleepers due not_due
wake_sleepers_lem k done [] e q = (
  k,
  record {
    returned = refl;
    queued = q;
    sleep_left = e;
    ready_now = sym (append-nil k.ready_list);
    same_current = refl;
    same_others = λ u n. refl;
    not_running = λ u h. h;
    not_revived = λ u h. h;
    same_idle = refl;
    same_priority = λ u. refl;
  },
)
wake_sleepers_lem k done (t ∷ ts) e q = elim (Bool-cases (is_due k t)) [
  | inl h ↦
      let (j, w) =
        wake_sleepers_lem (woken t k) done ts (sleep_list-woken t k done ts e q)
          (woken-IsQueued t k done ts e q) in
      (
        j,
        record {
          returned = wake_sleepers_due t ts k a h ∙ w.returned;
          queued = w.queued;
          sleep_left = w.sleep_left ∙ rw (h, not_due-woken t k ts n);
          ready_now =
              w.ready_now
              ∙ rw (h, due-woken t k ts n) (append_assoc k.ready_list (t ∷ []) (due k ts));
          same_current = w.same_current;
          same_others = λ u m. w.same_others u m.1 ∙ woken_ne t u k m.0;
          not_running = λ u r. w.not_running u (woken-not_running t u k r);
          not_revived = λ u r. woken-not_revived t u k (w.not_revived u r);
          same_idle = w.same_idle;
          same_priority = λ u. w.same_priority u ∙ priority-woken t u k;
        },
      )
  | inr h ↦
      let (j, w) =
        wake_sleepers_lem k (done ++ (t ∷ [])) ts (e ∙ sym (append_assoc done (t ∷ []) ts)) q in
      (
        j,
        record {
          returned = wake_sleepers_later t ts k a h ∙ w.returned;
          queued = w.queued;
          sleep_left = w.sleep_left ∙ append_assoc done (t ∷ []) (not_due k ts) ∙ rw h;
          ready_now = w.ready_now ∙ rw h;
          same_current = w.same_current;
          same_others = λ u m. w.same_others u m.1;
          not_running = w.not_running;
          not_revived = w.not_revived;
          same_idle = w.same_idle;
          same_priority = w.same_priority;
        },
      )
]
  where
    a : IsAsleep (k.threads t)
    a = sleeping t k done ts e q

    n : NotIn t ts
    n = NotIn-right t done ts (Distinct-middle t done ts (rw e at q.asleep_distinct)).1
