-- ===== src/Threads/Cond.antt =====
-- Condition variables of proj1/src/threads/synch.c, and what a thread does when it runs again.
use pintos_proj.Prelude.{
  ℕ, not, none, some, List, [], ◌∷◌, ◌++◌, ◌==◌, if◌then◌else◌, Outcome, ok, panic, ◌>>=◌, ◌>>◌,
  assert,
}
use pintos_proj.Prelude.Int.{negsuc}
use pintos_proj.Threads.State.{Resume, SemaphoreElem, Kernel, update, set_thread, thread_current}
use pintos_proj.Threads.Highest.{scan}
use pintos_proj.Threads.Sched.{points_to, priority_of}
use pintos_proj.Threads.Synch.{
  sema_init, sema_up, set_waiting_lock, with_lock, down_loop, sema_down_internal, take_lock,
  lock_acquire, lock_release,
}

abbrev pub set_cond : ℕ → List SemaphoreElem → Kernel → Kernel
set_cond c ws k = record k { conds = update k.conds c ws }

-- list_remove (&topElem->elem)
unfoldable pub remove_elem : ℕ → List SemaphoreElem → List SemaphoreElem
remove_elem s [] = []
remove_elem s (w ∷ ws) = if w.semaphore == s then ws else w ∷ remove_elem s ws

-- cond_init
unfoldable pub cond_init : ℕ → Kernel → Kernel
cond_init c k = set_cond c [] k

-- cond_wait; `s` is the address of the semaphore in the caller's stack frame.
unfoldable pub cond_wait : ℕ → ℕ → ℕ → Resume → Kernel → Outcome Kernel
cond_wait c l s r k = do
  assert (not k.intr_context)
  cur ← thread_current k
  assert (points_to (k.locks l).holder cur)
  let k' = sema_init s 0 k
  let waiter : SemaphoreElem = record { semaphore = s; priority = priority_of k cur }
  lock_release l (Resume.wait_down s l r) (set_cond c (k'.conds c ++ (waiter ∷ [])) k')

-- cond_signal. With no waiter it returns at once, so what comes after is done by `next`.
unfoldable pub cond_signal : ℕ → ℕ → Resume → (Kernel → Outcome Kernel) → Kernel → Outcome Kernel
cond_signal c l r next k = do
  assert (not k.intr_context)
  cur ← thread_current k
  assert (points_to (k.locks l).holder cur)
  elim (k.conds c) [
    | [] ↦ next k
    | w ∷ ws ↦ elim (scan SemaphoreElem.priority (w ∷ ws) (negsuc 0) none) [
      | none ↦ panic
      | some top ↦ sema_up top.semaphore r (set_cond c (remove_elem top.semaphore (k.conds c)) k)
    ]
  ]

-- cond_broadcast: its loop, which a thread comes back to after each cond_signal.
unfoldable pub cond_broadcast : ℕ → ℕ → Resume → (Kernel → Outcome Kernel) → Kernel → Outcome Kernel
cond_broadcast c l r next k = elim (k.conds c) [
  | [] ↦ next k
  | w ∷ ws ↦ cond_signal c l (Resume.broadcasting c l r) next k
]

-- What is left to do when a thread runs again.
unfoldable pub run : ℕ → Resume → Kernel → Outcome Kernel
run fuel Resume.caller k = ok k
run fuel (Resume.down s l r) k =
    down_loop s l r (run fuel r) (with_lock (λ _ j. set_waiting_lock none j) l k)
run fuel (Resume.acquired l r) k = run fuel r (take_lock l k)
run fuel (Resume.wait_down s l r) k =
    sema_down_internal s none (Resume.wait_acquire l r) (lock_acquire fuel l r (run fuel r)) k
run fuel (Resume.wait_acquire l r) k = lock_acquire fuel l r (run fuel r) k
run fuel (Resume.broadcasting c l r) k = cond_broadcast c l r (run fuel r) k

-- The running thread goes on from where it called `schedule`.
unfoldable pub continue : ℕ → Kernel → Outcome Kernel
continue fuel k =
    run fuel (k.threads k.current).resume
      (set_thread k.current (record (k.threads k.current) { resume = Resume.caller }) k)
