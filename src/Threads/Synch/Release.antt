-- ===== src/Threads/Synch/Release.antt =====
-- synch.c: what lock_release does before it wakes a waiter of the lock.
use native.Mathlib.Decide.{ℕ_discrete}
use pintos_proj.Prelude.{
  ℕ, ◌≡◌, refl, sym, ◌∙◌, ◌≢◌, ◌⊎◌, ◌↔◌, true, false, none, some, inl, inr, List, [], ◌∷◌, arith,
  ◌==◌, ok,
}
use pintos_proj.Threads.State.{Resume, Kernel, thread_current}
use pintos_proj.Threads.Queues.{update_self}
use pintos_proj.Threads.Synch.{others, drop_lock, sema_up_internal, lock_release}
use pintos_proj.Threads.Synch.Highest.{Among, IsMax, held_priority-IsMax}

-- The list that the loop of lock_release leaves has just the other locks.
others-Among : (l m : ℕ) (ms : List ℕ) → Among m (others l ms) ↔ (Among m ms × (m ≢ l))
unfolding others
others-Among l m [] = (λ a. absurd a, λ p. absurd p.0)
others-Among l m (n ∷ ms) =
    let ih = others-Among l m ms in
    elim (ℕ_discrete n l) [
      | yes e ↦
          let t : (n == l) ≡ true = ground (arith, e) in
          rw t (
            λ a. (inr (ih.0 a).0, (ih.0 a).1),
            λ p. elim p.0 [ inl q ↦ absurd (p.1 (sym q ∙ e)) | inr a ↦ ih.1 (a, p.1) ],
          )
      | no e ↦
          let t : (n == l) ≡ false = ground (arith, e) in
          rw t (
            λ x. elim x [ inl q ↦ (inl q, λ u. e (q ∙ u)) | inr a ↦ (inr (ih.0 a).0, (ih.0 a).1) ],
            λ p. elim p.0 [ inl q ↦ inl q | inr a ↦ inr (ih.1 (a, p.1)) ],
          )
    ]

-- In `j` the lock `l` is free, the running thread of `k` has just the other locks of its list, and its
-- priority is the largest of its base priority and the waiters' priorities of these locks. No other
-- thread's struct or lock differs, and nothing else of the state.
pub record IsReleased (l : ℕ) (k j : Kernel) : Type 0 where
  pub holder : j.locks l ≡ record (k.locks l) { holder = none }
  pub held_locks :
      (m : ℕ)
      → Among m (j.threads k.current).held_locks
        ↔ (Among m (k.threads k.current).held_locks × (m ≢ l))
  pub priority :
      IsMax
        (λ m. (k.locks m).max_waiter_priority)
        (k.threads k.current).base_priority
        (j.threads k.current).held_locks
        (j.threads k.current).priority
  pub member : j.threads k.current ≡ record (k.threads k.current) {
    priority = (j.threads k.current).priority;
    held_locks = (j.threads k.current).held_locks;
  }
  pub other_threads : (t : ℕ) → (t ≡ k.current) ⊎ (j.threads t ≡ k.threads t)
  pub other_locks : (m : ℕ) → (m ≡ l) ⊎ (j.locks m ≡ k.locks m)
  pub rest : j ≡ record k { threads = j.threads; locks = j.locks }

drop_lock-IsReleased : (l : ℕ) (k : Kernel) → IsReleased l k (drop_lock k.current l k)
unfolding drop_lock
drop_lock-IsReleased l k = record {
  holder = ground arith;
  held_locks = λ m. rw (update_self k.threads k.current _) (others-Among l m _);
  priority = rw (update_self k.threads k.current _) (
      held_priority-IsMax (λ m. (k.locks m).max_waiter_priority) l (k.threads k.current).held_locks
        (k.threads k.current).base_priority);
  member = ground arith;
  other_threads = λ t. ground arith;
  other_locks = λ m. ground arith;
  rest = refl;
}

-- lock_release by the holder ups the lock's semaphore in a state in which the lock is free, the running
-- thread has just the other locks of its list, its priority is the largest of its base priority and
-- the waiters' priorities of these locks, and nothing else differs.
pub lock_release_lem :
    (l : ℕ) (r : Resume) (k : Kernel)
    → thread_current k ≡ ok k.current
    → (k.locks l).holder ≡ some k.current
    → (j : Kernel) × (lock_release l r k ≡ sema_up_internal (k.locks l).semaphore (some l) r j)
      × IsReleased l k j
unfolding lock_release
lock_release_lem l r k c h =
    let e : lock_release l r k
        ≡ sema_up_internal (k.locks l).semaphore (some l) r (drop_lock k.current l k) =
      ground arith in
    (drop_lock k.current l k, e, drop_lock-IsReleased l k)
