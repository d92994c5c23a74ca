-- ===== src/Threads/Synch/Up.antt =====
-- sema_up and lock_release: which waiter is woken, and where the calls may not be made.
use pintos_proj.Prelude.{
  ℕ, ◌≡◌, refl, ◌∙◌, ◌⊎◌, inl, inr, true, Option, none, List, [], ◌∷◌, ◌++◌, arith, Option-cases,
  Bool-cases, Outcome, ok, panic,
}
use pintos_proj.Prelude.Int.{negsuc}
use pintos_proj.Threads.State.{
  Status, is_thread, is_blocked, Resume, Thread, Kernel, set_thread, set_sema, remove,
  thread_current,
}
use pintos_proj.Threads.Highest.{scan, scan_cases, IsFirstHighest, AllLe}
use pintos_proj.Threads.Queues.{Each, Each-middle}
use pintos_proj.Threads.Sched.{priority_of, thread_unblock, thread_yield}
use pintos_proj.Threads.Sched.Sound.{IsUsable}
use pintos_proj.Threads.Sched.Next.{remove-first_highest}
use pintos_proj.Threads.Synch.{
  with_lock, update_lock_max_priority, wake_waiter, increment, sema_up_internal, sema_up, wake_best,
}

-- A thread that waits: blocked, and chosen by the scan.
abbrev pub IsWaiting : Thread → Type 0
IsWaiting th = (th.status ≡ Status.blocked) × IsUsable th

-- The waiter `top` has left the semaphore for the end of the ready list.
abbrev pub readied : ℕ → ℕ → List ℕ → Kernel → Kernel
readied s top rest k =
    let j = set_sema s (record (k.semas s) { waiters = rest }) k in
    set_thread top (record (k.threads top) { status = Status.ready })
      (record j { ready_list = j.ready_list ++ (top ∷ []) })

first_highest-Each :
    (P : Thread → Type 0) (k : Kernel) (xs : List ℕ) (t : ℕ)
    (f : IsFirstHighest (priority_of k) xs t)
    → Each P k.threads xs
    → P (k.threads t)
first_highest-Each P k xs t f e = (Each-middle P k.threads t f.before f.after (rw f.split at e)).0

abbrev pub UpCases : ℕ → Option ℕ → Kernel → List ℕ → Outcome Kernel → Type 0
UpCases s l k ws r =
    ((ws ≡ []) × (r ≡ ok k))
    ⊎ ((top : ℕ) × (f : IsFirstHighest (priority_of k) ws top) × (r
          ≡ ok (with_lock update_lock_max_priority l (readied s top (f.before ++ f.after) k))))

all_negative :
    (k : Kernel) (x : ℕ) (xs : List ℕ)
    → Each IsWaiting k.threads (x ∷ xs)
    → ¬ (AllLe (priority_of k) (negsuc 0) (x ∷ xs))
all_negative k x xs e a = absurd (omega (arith, e.0.1.1, a.0))

thread_unblock_lem :
    (t : ℕ) (k : Kernel)
    → IsWaiting (k.threads t)
    → thread_unblock t k
      ≡ ok (
          set_thread t
            (record (k.threads t) { status = Status.ready })
            (record k { ready_list = k.ready_list ++ (t ∷ []) }))
unfolding thread_unblock
thread_unblock_lem t k w = ground (arith, w.0, w.1)

wake_best_cases :
    (ws : List ℕ) (s : ℕ) (l : Option ℕ) (k : Kernel)
    → Each IsWaiting k.threads ws
    → UpCases s l k ws (wake_best ws s l k)
unfolding wake_best
wake_best_cases [] s l k e = inl (refl, refl)
wake_best_cases (x ∷ xs) s l k e = elim (scan_cases (priority_of k) (x ∷ xs) (negsuc 0) none) [
  | inl (a, _) ↦ absurd (all_negative k x xs e a)
  | inr (t, h, lt, f) ↦ inr (
    t,
    f,
    rw (h, wake_best)
        (rw (remove-first_highest (priority_of k) t (x ∷ xs) f) (
          rw (
            thread_unblock_lem t
              (set_sema s (record (k.semas s) { waiters = f.before ++ f.after }) k)
              (first_highest-Each IsWaiting k (x ∷ xs) t f e)))),
  )
]

-- With no waiters sema_up_internal adds one to the count and yields. With waiters, all of them
-- blocked and with priorities of at least 0, it makes ready the earliest of those of the highest
-- priority and no other, takes it out of the waiters, brings the lock's max_waiter_priority up to
-- date, adds one to the count and yields.
pub sema_up_internal_lem :
    (s : ℕ) (l : Option ℕ) (r : Resume) (k : Kernel)
    → Each IsWaiting k.threads (k.semas s).waiters
    → (((k.semas s).waiters ≡ []) × (sema_up_internal s l r k ≡ thread_yield r (increment s k)))
      ⊎ ((top : ℕ) × (f : IsFirstHighest (priority_of k) (k.semas s).waiters top)
          × (sema_up_internal s l r k
              ≡ thread_yield r (
                  increment s (
                    with_lock update_lock_max_priority l (readied s top (f.before ++ f.after) k)))))
unfolding sema_up_internal wake_waiter
sema_up_internal_lem s l r k e = elim (wake_best_cases (k.semas s).waiters s l k e) [
  | inl (n, h) ↦ inl (n, rw h)
  | inr (t, f, h) ↦ inr (t, f, rw h)
]

-- Waking a waiter fails, or leaves the interrupt context as it was.
wake_best_context :
    (ws : List ℕ) (s : ℕ) (k : Kernel)
    → (wake_best ws s none k ≡ panic)
      ⊎ ((j : Kernel) × (wake_best ws s none k ≡ ok j) × (j.intr_context ≡ k.intr_context))
unfolding wake_best thread_unblock
wake_best_context [] s k = inr (k, refl, refl)
wake_best_context (w ∷ ws) s k =
    elim (Option-cases (scan (priority_of k) (w ∷ ws) (negsuc 0) none)) [
      | inl e ↦ inl (rw (e, wake_best))
      | inr (t, e) ↦
          let m = set_sema s (record (k.semas s) { waiters = remove t (w ∷ ws) }) k in
          elim (Bool-cases (is_thread m t)) [
            | inr h ↦ inl (rw (e, wake_best) (rw h))
            | inl h ↦ elim (Bool-cases (is_blocked (m.threads t).status)) [
              | inr g ↦ inl (rw (e, wake_best) (rw (h, g)))
              | inl g ↦ inr (
                set_thread t (record (m.threads t) { status = Status.ready })
                    (record m { ready_list = m.ready_list ++ (t ∷ []) }),
                rw (e, wake_best) (rw (h, g)),
                refl,
              )
            ]
          ]
    ]

-- A call of sema_up in an interrupt handler never returns: it ends in a failed assertion.
thread_yield_in_interrupt :
    (r : Resume) (k : Kernel) → k.intr_context ≡ true → thread_yield r k ≡ panic
unfolding thread_yield thread_current
thread_yield_in_interrupt r k i = ground arith

pub sema_up_in_interrupt :
    (s : ℕ) (r : Resume) (k : Kernel) → k.intr_context ≡ true → sema_up s r k ≡ panic
unfolding sema_up sema_up_internal wake_waiter
sema_up_in_interrupt s r k i = elim (wake_best_context (k.semas s).waiters s k) [
  | inl e ↦ rw e
  | inr (j, e, h) ↦ rw e (thread_yield_in_interrupt r (increment s j) (h ∙ i))
]
