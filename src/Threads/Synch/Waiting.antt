-- ===== src/Threads/Synch/Waiting.antt =====
-- synch.c: the state in which sema_down_internal blocks a thread that waits for a lock.
use mathlib.Core.List.{reverse}
use mathlib.Core.Path.{fun_ext}
use pintos_proj.Prelude.{ℕ, ◌≡◌, refl, ◌⊎◌, some, [], ◌∷◌, ◌++◌, arith}
use pintos_proj.Prelude.Int.{negsuc}
use pintos_proj.Threads.State.{Kernel, set_sema}
use pintos_proj.Threads.Queues.{update_self}
use pintos_proj.Threads.Sched.{priority_of}
use pintos_proj.Threads.Synch.{set_waiting_lock, enqueue_waiter, update_lock_max_priority}
use pintos_proj.Threads.Synch.Highest.{IsMax, max_over-IsMax}

-- The running thread of `k` waits in `w` for the lock `l`, as the last waiter of its semaphore `s`,
-- and the lock has the highest priority of the waiters. No other thread's struct, lock or
-- semaphore differs.
pub record IsWaiting (s l : ℕ) (k w : Kernel) : Type 0 where
  pub waiters : (w.semas s).waiters ≡ (k.semas s).waiters ++ (k.current ∷ [])
  pub value : (w.semas s).value ≡ (k.semas s).value
  pub waits : w.threads k.current ≡ record (k.threads k.current) { waiting_lock = some l }
  pub best :
      IsMax (priority_of k) (negsuc 0) (reverse (w.semas s).waiters) (w.locks l).max_waiter_priority
  pub holder : (w.locks l).holder ≡ (k.locks l).holder
  pub other_threads : (t : ℕ) → (t ≡ k.current) ⊎ (w.threads t ≡ k.threads t)
  pub other_locks : (m : ℕ) → (m ≡ l) ⊎ (w.locks m ≡ k.locks m)
  pub other_semas : (m : ℕ) → (m ≡ s) ⊎ (w.semas m ≡ k.semas m)
  pub current : w.current ≡ k.current
  pub queues : (w.ready_list ≡ k.ready_list) × (w.sleep_list ≡ k.sleep_list)

pub enqueue_waiter-IsWaiting :
    (s l : ℕ) (k : Kernel)
    → (k.locks l).semaphore ≡ s
    → IsWaiting s l k (enqueue_waiter s (some l) k)
unfolding enqueue_waiter update_lock_max_priority
enqueue_waiter-IsWaiting s l k e = record {
  waiters = ground arith;
  value = ground arith;
  waits = ground arith;
  best =
      rw (update_self k.locks l _, e, same_priorities)
        (max_over-IsMax (priority_of k) _ (negsuc 0));
  holder = ground arith;
  other_threads = λ t. ground arith;
  other_locks = λ m. ground arith;
  other_semas = λ m. ground arith;
  current = refl;
  queues = (refl, refl);
}
  where
    queued : Kernel
    queued = set_sema s (record (k.semas s) { waiters = (k.semas s).waiters ++ (k.current ∷ []) }) k

    same_priorities : priority_of (set_waiting_lock (some l) queued) ≡ priority_of k
    same_priorities = fun_ext (λ t. ground arith)
