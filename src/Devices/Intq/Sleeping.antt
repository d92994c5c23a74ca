-- ===== src/Devices/Intq/Sleeping.antt =====
-- devices/intq.c: what a call does that has to wait for the queue.
use pintos_proj.Prelude.{
  ℕ, suc, ◌≡◌, refl, ap, ◌∙◌, inl, inr, Bool, true, false, List, [], ◌∷◌, none, some, ◌==◌, arith,
  Outcome, ok, panic, out_of_fuel, ◌>>=◌,
}
use pintos_proj.Threads.State.{Resume, Status, Thread, Kernel, thread_current}
use pintos_proj.Threads.Sched.{thread_block, suspend}
use pintos_proj.Threads.Queues.{Each}
use pintos_proj.Threads.Sched.Sound.{IsUsable, IsReady, IsAsleep, IsSound}
use pintos_proj.Threads.Sched.Schedule.{Scheduled}
use pintos_proj.Threads.Sched.Calls.{thread_block_lem}
use pintos_proj.Threads.Sched.Leaving.{thread_current_lem}
use pintos_proj.Threads.Synch.{lock_acquire}
use pintos_proj.Threads.Synch.Acquire.{IsTaken, lock_acquire_free}
use pintos_proj.Devices.Intq.{Station, intq_empty, awaited, set_waiter, wait, sleep_for, intq_getc}
use pintos_proj.Devices.Intq.Holding.{Holds}

taken_current :
    (s l v : ℕ) (k m : Kernel)
    → IsTaken s l v k m
    → thread_current k ≡ ok k.current
    → thread_current m ≡ ok k.current
unfolding thread_current
taken_current s l v k m t c =
    let e : m.current ≡ k.current = ap (λ n. n.current) t.rest in rw (e, t.held_locks) c

-- A lock that the running thread takes leaves the state well formed.
Each-all :
    (P : Thread → Type 0) (f g : ℕ → Thread) (xs : List ℕ)
    → ((t : ℕ) → P (f t) → P (g t))
    → Each P f xs
    → Each P g xs
Each-all P f g [] h e = tt
Each-all P f g (x ∷ xs) h e = (h x e.0, Each-all P f g xs h e.1)

taken-IsSound : (s l v : ℕ) (k m : Kernel) → IsTaken s l v k m → IsSound k → IsSound m
taken-IsSound s l v k m t w = record {
  queued = record {
    ready =
        rw (ap (λ n. n.ready_list) t.rest)
          (Each-all IsReady k.threads m.threads k.ready_list ready w.queued.ready);
    ready_distinct = rw (ap (λ n. n.ready_list) t.rest) w.queued.ready_distinct;
    asleep =
        rw (ap (λ n. n.sleep_list) t.rest)
          (Each-all IsAsleep k.threads m.threads k.sleep_list asleep w.queued.asleep);
    asleep_distinct = rw (ap (λ n. n.sleep_list) t.rest) w.queued.asleep_distinct;
    idle = w.queued.idle;
    idle_set = ap (λ n. n.idle_thread) t.rest ∙ w.queued.idle_set;
    idle_usable = usable w.queued.idle w.queued.idle_usable;
    idle_not_asleep = rw (ap (λ n. n.sleep_list) t.rest) w.queued.idle_not_asleep;
    in_thread = ap (λ n. n.intr_context) t.rest ∙ w.queued.in_thread;
  };
  running = rw (ap (λ n. n.current) t.rest, t.held_locks) w.running;
}
  where
    ready : (u : ℕ) → IsReady (k.threads u) → IsReady (m.threads u)
    ready u a = elim (t.other_threads u) [
      | inl e ↦ rw (e, t.held_locks) (rw e at a)
      | inr e ↦ rw e a
    ]

    asleep : (u : ℕ) → IsAsleep (k.threads u) → IsAsleep (m.threads u)
    asleep u a = elim (t.other_threads u) [
      | inl e ↦ rw (e, t.held_locks) (rw e at a)
      | inr e ↦ rw e a
    ]

    usable : (u : ℕ) → IsUsable (k.threads u) → IsUsable (m.threads u)
    usable u a = elim (t.other_threads u) [
      | inl e ↦ rw (e, t.held_locks) (rw e at a)
      | inr e ↦ rw e a
    ]

sleep_for_lem :
    (c : Bool) (fuel : ℕ) (s : Station) (k : Kernel)
    → lock_acquire fuel s.queue.lock Resume.caller ok s.kernel ≡ ok k
    → ((s.kernel.semas (s.kernel.locks s.queue.lock).semaphore).value == 0) ≡ false
    → thread_current k ≡ ok s.kernel.current
    → k.intr_context ≡ false
    → awaited c s.queue ≡ true
    → s.kernel.intr_context ≡ false
    → sleep_for fuel c s ≡ (do
      j ← thread_block Resume.caller k
      ok (record { kernel = j; queue = set_waiter c (some s.kernel.current) s.queue }))
unfolding sleep_for wait
sleep_for_lem c fuel s k e z now i waits thread = ground arith

two_steps :
    {A B C : Type 0} (o : Outcome A) (f : A → B) (g : B → C)
    → ((o >>= λ a. ok (f a)) >>= λ b. ok (g b)) ≡ (o >>= λ a. ok (g (f a)))
two_steps (ok a) f g = refl
two_steps panic f g = refl
two_steps out_of_fuel f g = refl

getc_waits :
    (fuel : ℕ) (s : Station) (k : Kernel)
    → intq_empty s.queue ≡ true
    → sleep_for fuel true s ≡ (do
      j ← thread_block Resume.caller k
      ok (record { kernel = j; queue = record (s.queue) { not_empty = some s.kernel.current } }))
    → intq_getc fuel s ≡ (do
      j ← thread_block Resume.caller k
      ok (
        record { kernel = j; queue = record (s.queue) { not_empty = some s.kernel.current } },
        none,
      ))
unfolding intq_getc
getc_waits fuel s k empty e =
    rw empty (ap (λ o. o >>= λ s'. ok (s', none)) e ∙ two_steps (thread_block Resume.caller k) _ _)

-- On a queue that holds no byte, in a well-formed state of the threads, and where the queue's lock is
-- free, intq_getc comes to no byte: the running thread has taken the lock, is the one that waits for a
-- byte, and is blocked, and the next thread runs as `schedule` chooses it, in a well-formed state.
pub intq_getc_sleeps :
    (fuel v : ℕ) (s : Station)
    → Holds s.queue []
    → IsSound s.kernel
    → (s.kernel.locks s.queue.lock).holder ≡ none
    → (s.kernel.semas (s.kernel.locks s.queue.lock).semaphore).value ≡ suc v
    → (k j : Kernel) × (intq_getc (suc fuel) s
        ≡ ok (
          record { kernel = j; queue = record (s.queue) { not_empty = some s.kernel.current } },
          none,
        ))
      × IsTaken (s.kernel.locks s.queue.lock).semaphore s.queue.lock v s.kernel k
      × Scheduled (suspend Status.blocked Resume.caller k) j
intq_getc_sleeps fuel v s h sound free count =
    let empty : intq_empty s.queue ≡ true = ground (arith, h.end, h.place) in
    let sema = (s.kernel.locks s.queue.lock).semaphore in
    let now = thread_current_lem s.kernel sound in
    let i : s.kernel.intr_context ≡ false = sound.queued.in_thread in
    let (k, e, t) =
      lock_acquire_free fuel s.queue.lock v Resume.caller ok s.kernel i now free count in
    let (j, returns, scheduled) =
      thread_block_lem k (taken-IsSound sema s.queue.lock v s.kernel k t sound) Resume.caller in
    (
      k,
      j,
      getc_waits (suc fuel) s k empty (
            sleep_for_lem true (suc fuel) s k e (ground (arith, count))
              (taken_current sema s.queue.lock v s.kernel k t now)
              (ap (λ n. n.intr_context) t.rest ∙ i) empty i)
          ∙ rw returns refl,
      t,
      scheduled,
    )
