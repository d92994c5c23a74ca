-- ===== src/Threads/Synch/Acquire.antt =====
-- What lock_acquire does with a free lock, and with a lock whose holder has a lower priority.
use pintos_proj.Prelude.{
  ℕ, suc, ◌<◌, ◌≡◌, refl, sym, ap, ◌∙◌, ◌≢◌, false, ◌⊎◌, ◌++◌, Option, none, some, List, [], ◌∷◌,
  length, arith, Outcome, ok,
}
use pintos_proj.Prelude.Int.{ℤ, ◌<ℤ◌}
use pintos_proj.Threads.State.{Resume, Kernel, set_sema, thread_current}
use pintos_proj.Threads.Sched.{priority_of, thread_block}
use pintos_proj.Threads.Synch.{
  raise, donate, enqueue_waiter, down_loop, sema_down_internal, take_lock, lock_acquire,
}
use pintos_proj.Threads.Synch.Waiting.{IsWaiting, enqueue_waiter-IsWaiting}
use pintos_proj.Threads.Synch.Donate.{
  Chain, idle, free, held, NotHolder, DistinctHolders, raise_all, donate-raise_all,
}

-- Every holder of the chain has the priority `p`, and every lock of it has it as its waiters' best.
abbrev pub Donated : ℤ → List (ℕ × ℕ) → Kernel → Type 0
Donated p [] k = Unit
Donated p ((l, h) ∷ ls) k =
    (priority_of k h ≡ p) × ((k.locks l).max_waiter_priority ≡ p) × Donated p ls k

raise_all-keeps :
    (p : ℤ) (ls : List (ℕ × ℕ)) (l h : ℕ) (k : Kernel)
    → priority_of k h ≡ p
    → (k.locks l).max_waiter_priority ≡ p
    → (priority_of (raise_all p ls k) h ≡ p) × ((raise_all p ls k).locks l).max_waiter_priority ≡ p
unfolding raise_all
raise_all-keeps p [] l h k a b = (a, b)
raise_all-keeps p ((m, t) ∷ ls) l h k a b =
    raise_all-keeps p ls l h (raise m t p k) (ground arith) (ground arith)

raise_all-Donated : (p : ℤ) (ls : List (ℕ × ℕ)) (k : Kernel) → Donated p ls (raise_all p ls k)
unfolding raise_all
raise_all-Donated p [] k = tt
raise_all-Donated p ((l, h) ∷ ls) k =
    let r = raise_all-keeps p ls l h (raise l h p k) (ground arith) (ground arith) in
    (r.0, r.1, raise_all-Donated p ls (raise l h p k))

raise_all-others :
    (p : ℤ) (ls : List (ℕ × ℕ)) (t : ℕ) (k : Kernel)
    → NotHolder t ls
    → (raise_all p ls k).threads t ≡ k.threads t
unfolding raise_all
raise_all-others p [] t k n = refl
raise_all-others p ((l, h) ∷ ls) t k n =
    let one : (raise l h p k).threads t ≡ k.threads t = ground arith in
    raise_all-others p ls t (raise l h p k) n.1 ∙ one

-- What the donations leave alone.
raise_all_rest :
    (p : ℤ) (ls : List (ℕ × ℕ)) (k : Kernel) (l : ℕ)
    → let j = raise_all p ls k in
      (j.semas ≡ k.semas)
      × (j.current ≡ k.current)
      × (j.intr_context ≡ k.intr_context)
      × (j.ready_list ≡ k.ready_list)
      × (j.sleep_list ≡ k.sleep_list)
      × ((j.locks l).semaphore ≡ (k.locks l).semaphore)
      × ((j.locks l).holder ≡ (k.locks l).holder)
unfolding raise_all
raise_all_rest p [] k l = (refl, refl, refl, refl, refl, refl, refl)
raise_all_rest p ((m, t) ∷ ls) k l =
    let r = raise_all_rest p ls (raise m t p k) l in
    (r.0, r.1, r.2, r.3, r.4, r.5 ∙ ground arith, r.6 ∙ ground arith)

-- The thread that donates holds no lock of the chain.
Chain-NotHolder :
    (cur : ℕ) (p : ℤ) (k : Kernel) (o : Option ℕ) (ls : List (ℕ × ℕ))
    → priority_of k cur ≡ p
    → Chain k p o ls
    → NotHolder cur ls
Chain-NotHolder cur p k o ls e idle = tt
Chain-NotHolder cur p k o ls e (free h) = tt
Chain-NotHolder cur p k o ls e (held {ls = rest} t h lt c) =
    (other, Chain-NotHolder cur p k (k.threads t).waiting_lock rest e c)
  where
    other : t ≢ cur
    other q =
        let a : priority_of k cur <ℤ p = rw q at lt in
        let b : p <ℤ p = rw e at a in absurd (omega arith)

-- The running thread of `k` has the lock `l`, with the semaphore `s`, in `m`, last in its list, and
-- the count of the semaphore is `v`. No other thread's struct, lock or semaphore differs, and nothing
-- else of the state.
pub record IsTaken (s l v : ℕ) (k m : Kernel) : Type 0 where
  pub holder : m.locks l ≡ record (k.locks l) { holder = some k.current }
  pub held_locks :
      m.threads k.current
      ≡ record (k.threads k.current) { held_locks = (k.threads k.current).held_locks ++ (l ∷ []) }
  pub count : m.semas s ≡ record (k.semas s) { value = v }
  pub other_threads : (t : ℕ) → (t ≡ k.current) ⊎ (m.threads t ≡ k.threads t)
  pub other_locks : (n : ℕ) → (n ≡ l) ⊎ (m.locks n ≡ k.locks n)
  pub other_semas : (n : ℕ) → (n ≡ s) ⊎ (m.semas n ≡ k.semas n)
  pub rest : m ≡ record k { threads = m.threads; locks = m.locks; semas = m.semas }

take_lock-IsTaken :
    (s l v : ℕ) (k : Kernel)
    → IsTaken s l v k (take_lock l (set_sema s (record (k.semas s) { value = v }) k))
unfolding take_lock
take_lock-IsTaken s l v k = record {
  holder = ground arith;
  held_locks = ground arith;
  count = ground arith;
  other_threads = λ t. ground arith;
  other_locks = λ n. ground arith;
  other_semas = λ n. ground arith;
  rest = refl;
}

-- Calling lock_acquire for a free lock takes it at once: the call goes on to `next` in a state in
-- which the count of its semaphore is one less, the running thread is its holder and has it last in
-- its list, and nothing else differs.
pub lock_acquire_free :
    (fuel l v : ℕ) (r : Resume) (next : Kernel → Outcome Kernel) (k : Kernel)
    → k.intr_context ≡ false
    → thread_current k ≡ ok k.current
    → (k.locks l).holder ≡ none
    → (k.semas (k.locks l).semaphore).value ≡ suc v
    → (m : Kernel) × (lock_acquire (suc fuel) l r next k ≡ next m)
      × IsTaken (k.locks l).semaphore l v k m
unfolding lock_acquire donate sema_down_internal down_loop
lock_acquire_free fuel l v r next k i c h e =
    let s = (k.locks l).semaphore in
    let m = take_lock l (set_sema s (record (k.semas s) { value = v }) k) in
    let returns : lock_acquire (suc fuel) l r next k ≡ next m = ground arith in
    (m, returns, take_lock-IsTaken s l v k)

thread_current_same :
    (j k : Kernel)
    → j.current ≡ k.current
    → j.threads k.current ≡ k.threads k.current
    → thread_current j ≡ thread_current k
unfolding thread_current
thread_current_same j k e t = rw (e, t)

-- sema_down_internal at a count of 0.
sema_down_waits :
    (s : ℕ) (l : Option ℕ) (r : Resume) (next : Kernel → Outcome Kernel) (k : Kernel)
    → k.intr_context ≡ false
    → thread_current k ≡ ok k.current
    → (k.semas s).value ≡ 0
    → sema_down_internal s l r next k ≡ thread_block (Resume.down s l r) (enqueue_waiter s l k)
unfolding sema_down_internal down_loop
sema_down_waits s l r next k i c z = ground arith

lock_acquire-donated :
    (fuel l h : ℕ) (r : Resume) (next : Kernel → Outcome Kernel) (k j : Kernel)
    → k.intr_context ≡ false
    → thread_current k ≡ ok k.current
    → (k.locks l).holder ≡ some h
    → h ≢ k.current
    → donate fuel k.current (some l) k ≡ ok j
    → lock_acquire fuel l r next k
      ≡ sema_down_internal
          (j.locks l).semaphore
          (some l)
          (Resume.acquired l r)
          (λ m. next (take_lock l m))
          j
unfolding lock_acquire
lock_acquire-donated fuel l h r next k j i c e n d = ground arith

-- Let the running thread call lock_acquire for a lock that another thread holds, where the holder,
-- and each further holder along the chain of locks that holders wait for, has a lower priority
-- than the running thread, and the holders are distinct. Then the loop ends, all those holders
-- have been given the priority of the running thread and their locks have it as the highest of
-- their waiters, no other thread's struct has changed, and the call comes to thread_block in a state
-- in which the running thread also is the last waiter of the lock's semaphore and waits for the lock,
-- the lock has the highest priority of its waiters, and no other struct, lock or semaphore differs.
pub lock_acquire_held :
    (fuel l h : ℕ) (ls : List (ℕ × ℕ)) (r : Resume) (next : Kernel → Outcome Kernel) (k : Kernel)
    → k.intr_context ≡ false
    → thread_current k ≡ ok k.current
    → (k.locks l).holder ≡ some h
    → h ≢ k.current
    → (k.semas (k.locks l).semaphore).value ≡ 0
    → Chain k (priority_of k k.current) (some l) ls
    → DistinctHolders ls
    → length ls < fuel
    → let j = raise_all (priority_of k k.current) ls k in
      let s = (k.locks l).semaphore in
      (w : Kernel) × (lock_acquire fuel l r next k
        ≡ thread_block (Resume.down s (some l) (Resume.acquired l r)) w)
      × IsWaiting s l j w
      × Donated (priority_of k k.current) ls j
      × ((t : ℕ) → NotHolder t ls → j.threads t ≡ k.threads t)
      × (j.semas ≡ k.semas)
      × (j.current ≡ k.current)
lock_acquire_held fuel l h ls r next k i c e n z chain d enough = (
  enqueue_waiter (k.locks l).semaphore (some l) j,
  lock_acquire-donated fuel l h r next k j i c e n
        (donate-raise_all fuel k.current p (some l) ls k refl d enough chain)
      ∙ rw rest.5 (
          sema_down_waits (k.locks l).semaphore (some l) (Resume.acquired l r) _ j (rest.2 ∙ i)
            (thread_current_same j k rest.1 (
                raise_all-others p ls k.current k
                  (Chain-NotHolder k.current p k (some l) ls refl chain))
              ∙ c
              ∙ ap ok (sym rest.1))
            (rw rest.0 z)),
  enqueue_waiter-IsWaiting (k.locks l).semaphore l j rest.5,
  raise_all-Donated p ls k,
  λ t. raise_all-others p ls t k,
  rest.0,
  rest.1,
)
  where
    p : ℤ
    p = priority_of k k.current

    j : Kernel
    j = raise_all p ls k

    rest :
        (j.semas ≡ k.semas)
        × (j.current ≡ k.current)
        × (j.intr_context ≡ k.intr_context)
        × (j.ready_list ≡ k.ready_list)
        × (j.sleep_list ≡ k.sleep_list)
        × ((j.locks l).semaphore ≡ (k.locks l).semaphore)
        × ((j.locks l).holder ≡ (k.locks l).holder)
    rest = raise_all_rest p ls k l
