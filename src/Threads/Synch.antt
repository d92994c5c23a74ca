-- ===== src/Threads/Synch.antt =====
-- Semaphores, locks with priority donation and condition variables: proj1/src/threads/synch.c.
-- As in `Sched`, `r` is what the caller has still to do when the running thread has to wait.
pub mod Donate
pub mod Acquire
pub mod Highest
pub mod Up
pub mod Release
pub mod Waiting
use mathlib.Core.List.{reverse}
use pintos_proj.Prelude.{
  ℕ, zero, suc, ◌+◌, ◌-◌, ◌%◌, ◌^◌, Bool, true, false, not, Option, none, some, List, [], ◌∷◌, ◌++◌,
  ltb, ◌==◌, if◌then◌else◌, Outcome, ok, panic, out_of_fuel, ◌>>=◌, ◌>>◌, assert,
}
use pintos_proj.Prelude.Int.{ℤ, negsuc, ltb_ℤ}
use pintos_proj.Threads.State.{
  Resume, Kernel, set_thread, set_lock, set_sema, remove, thread_current,
}
use pintos_proj.Threads.Highest.{scan}
use pintos_proj.Threads.Sched.{points_to, priority_of, thread_unblock, thread_block, thread_yield}

-- sema_init
unfoldable pub sema_init : ℕ → ℕ → Kernel → Kernel
sema_init s value k = set_sema s (record { value = value; waiters = [] }) k

-- lock_init; `s` is the address of the lock's semaphore.
unfoldable pub lock_init : ℕ → ℕ → Kernel → Kernel
unfolding sema_init
lock_init l s k =
    sema_init s 1
      (set_lock l (record { holder = none; semaphore = s; max_waiter_priority = negsuc 0 }) k)

-- The loop of update_lock_max_priority.
unfoldable pub max_over : (ℕ → ℤ) → List ℕ → ℤ → ℤ
max_over prio [] top = top
max_over prio (t ∷ ts) top = max_over prio ts (if ltb_ℤ (prio t) top then top else prio t)

-- update_lock_max_priority, which goes from the back of the list to its front.
unfoldable pub update_lock_max_priority : ℕ → Kernel → Kernel
update_lock_max_priority l k =
    let lock = k.locks l in
    set_lock l
      (record lock {
        max_waiter_priority =
            max_over (priority_of k) (reverse (k.semas lock.semaphore).waiters) (negsuc 0);
      })
      k

-- A call with the lock of a semaphore, if there is one.
abbrev pub with_lock : (ℕ → Kernel → Kernel) → Option ℕ → Kernel → Kernel
with_lock f none k = k
with_lock f (some l) k = f l k

abbrev pub set_waiting_lock : Option ℕ → Kernel → Kernel
set_waiting_lock w k = set_thread k.current (record (k.threads k.current) { waiting_lock = w }) k

-- The body of the loop of sema_down_internal, up to its thread_block.
unfoldable pub enqueue_waiter : ℕ → Option ℕ → Kernel → Kernel
enqueue_waiter s l k =
    let sema = k.semas s in
    with_lock (λ m k'. update_lock_max_priority m (set_waiting_lock (some m) k')) l
      (set_sema s (record sema { waiters = sema.waiters ++ (k.current ∷ []) }) k)

-- The loop of sema_down_internal, and its `value--`. `next` is what `r` describes.
unfoldable pub down_loop :
    ℕ → Option ℕ → Resume → (Kernel → Outcome Kernel) → Kernel → Outcome Kernel
down_loop s l r next k =
    if (k.semas s).value == 0
    then thread_block (Resume.down s l r) (enqueue_waiter s l k)
    else next (set_sema s (record (k.semas s) { value = (k.semas s).value - 1 }) k)

unfoldable pub sema_down_internal :
    ℕ → Option ℕ → Resume → (Kernel → Outcome Kernel) → Kernel → Outcome Kernel
sema_down_internal s l r next k = do
  assert (not k.intr_context)
  _ ← thread_current k
  down_loop s l r next k

-- sema_try_down
unfoldable pub sema_try_down : ℕ → Kernel → Kernel × Bool
sema_try_down s k =
    if ltb 0 (k.semas s).value
    then (set_sema s (record (k.semas s) { value = (k.semas s).value - 1 }) k, true)
    else (k, false)

-- The part of sema_up_internal that wakes one of the waiters. `list_remove (&NULL->elem)` fails.
unfoldable pub wake_best : List ℕ → ℕ → Option ℕ → Kernel → Outcome Kernel
wake_best [] s l k = ok k
wake_best (w ∷ ws) s l k = elim (scan (priority_of k) (w ∷ ws) (negsuc 0) none) [
  | none ↦ panic
  | some top ↦ do
    k' ← thread_unblock top (set_sema s (record (k.semas s) { waiters = remove top (w ∷ ws) }) k)
    ok (with_lock update_lock_max_priority l k')
]

unfoldable pub wake_waiter : ℕ → Option ℕ → Kernel → Outcome Kernel
unfolding wake_best
wake_waiter s l k = wake_best (k.semas s).waiters s l k

-- `sema->value++` on an unsigned int.
abbrev pub increment : ℕ → Kernel → Kernel
increment s k = set_sema s (record (k.semas s) { value = ((k.semas s).value + 1) % 2 ^ 32 }) k

unfoldable pub sema_up_internal : ℕ → Option ℕ → Resume → Kernel → Outcome Kernel
sema_up_internal s l r k = do k' ← wake_waiter s l k; thread_yield r (increment s k')

-- sema_up
unfoldable pub sema_up : ℕ → Resume → Kernel → Outcome Kernel
sema_up s r k = sema_up_internal s none r k

-- One pass of the loop of lock_acquire at a lock with a holder of lower priority.
abbrev pub raise : ℕ → ℕ → ℤ → Kernel → Kernel
raise l h p k =
    set_thread h (record (k.threads h) { priority = p })
      (set_lock l (record (k.locks l) { max_waiter_priority = p }) k)

-- The loop of lock_acquire. Where the holder's priority is not lower, the loop goes round with
-- nothing changed.
unfoldable pub donate : ℕ → ℕ → Option ℕ → Kernel → Outcome Kernel
donate zero cur l k = out_of_fuel
donate (suc f) cur none k = ok k
donate (suc f) cur (some l) k = elim (k.locks l).holder [
  | none ↦ ok k
  | some h ↦ elim (ltb_ℤ (priority_of k h) (priority_of k cur)) [
    | true ↦ donate f cur (k.threads h).waiting_lock (raise l h (priority_of k cur) k)
    | false ↦ donate f cur (some l) k
  ]
]

-- The end of lock_acquire, once sema_down_internal has returned.
unfoldable pub take_lock : ℕ → Kernel → Kernel
take_lock l k =
    let th = k.threads k.current in
    set_thread k.current (record th { held_locks = th.held_locks ++ (l ∷ []) })
      (set_lock l (record (k.locks l) { holder = some k.current }) k)

-- lock_acquire
unfoldable pub lock_acquire : ℕ → ℕ → Resume → (Kernel → Outcome Kernel) → Kernel → Outcome Kernel
lock_acquire fuel l r next k = do
  assert (not k.intr_context)
  cur ← thread_current k
  assert (not (points_to (k.locks l).holder cur))
  k' ← donate fuel cur (some l) k
  sema_down_internal (k'.locks l).semaphore (some l) (Resume.acquired l r)
      (λ j. next (take_lock l j)) k'

-- lock_try_acquire
unfoldable pub lock_try_acquire : ℕ → Kernel → Outcome (Kernel × Bool)
lock_try_acquire l k = do
  cur ← thread_current k
  assert (not (points_to (k.locks l).holder cur))
  let (k', success) = sema_try_down (k.locks l).semaphore k
  ok (if success then set_lock l (record (k'.locks l) { holder = some cur }) k' else k', success)

-- The loop of lock_release: the priority that the locks still held call for.
unfoldable pub held_priority : (ℕ → ℤ) → ℕ → List ℕ → ℤ → ℤ
held_priority waiting l [] p = p
held_priority waiting l (m ∷ ms) p =
    held_priority waiting l ms
      (if m == l then p else (if ltb_ℤ p (waiting m) then waiting m else p))

-- The locks that the same loop leaves in the list.
unfoldable pub others : ℕ → List ℕ → List ℕ
others l [] = []
others l (m ∷ ms) = let rest = others l ms in if m == l then rest else m ∷ rest

-- The state in which lock_release calls sema_up_internal.
unfoldable pub drop_lock : ℕ → ℕ → Kernel → Kernel
drop_lock cur l k =
    let th = k.threads cur in
    let waiting = λ (m : ℕ). (k.locks m).max_waiter_priority in
    set_lock l (record (k.locks l) { holder = none })
      (set_thread cur
        (record th {
          priority = held_priority waiting l th.held_locks th.base_priority;
          held_locks = others l th.held_locks;
        })
        k)

-- lock_release
unfoldable pub lock_release : ℕ → Resume → Kernel → Outcome Kernel
lock_release l r k = do
  cur ← thread_current k
  assert (points_to (k.locks l).holder cur)
  sema_up_internal (k.locks l).semaphore (some l) r (drop_lock cur l k)
