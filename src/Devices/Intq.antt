-- ===== src/Devices/Intq.antt =====
-- devices/intq.c: queues of bytes between interrupt handlers and threads. A call runs with interrupts
-- off up to the place where it sleeps, if it does: then it comes to `none`, in the state in which
-- another thread runs. The thread that sleeps in `lock_acquire` goes on with `wait` when it runs again,
-- and the one that sleeps in `wait` with `release_queue` and then with the call from its start. `fuel`
-- bounds the loop of `lock_acquire`.
pub mod Holding
pub mod Sleeping
mod Tests
use pintos_proj.Prelude.{
  ℕ, ◌+◌, ◌%◌, Bool, true, false, not, Option, none, some, ◌==◌, if◌then◌else◌, Outcome, ok, ◌>>=◌,
  ◌>>◌, assert,
}
use pintos_proj.Threads.State.{Resume, Kernel, thread_current}
use pintos_proj.Threads.Sched.{thread_block, thread_unblock}
use pintos_proj.Threads.Synch.{lock_init, lock_acquire, lock_release}

abbrev pub intq_bufsize : ℕ
intq_bufsize = 64

-- struct intq, with the address of its lock.
pub record Intq : Type 0 where
  pub lock : ℕ
  pub not_full : Option ℕ
  pub not_empty : Option ℕ
  pub buf : ℕ → ℕ
  pub head : ℕ
  pub tail : ℕ

-- A queue and the threads that use it.
pub record Station : Type 0 where
  pub queue : Intq
  pub kernel : Kernel

abbrev pub next : ℕ → ℕ
next pos = (pos + 1) % intq_bufsize

-- intq_init; `sema` is the address of the semaphore of the queue's lock.
abbrev pub intq_init : ℕ → Station → Station
intq_init sema s = record {
  queue = record (s.queue) { not_full = none; not_empty = none; head = 0; tail = 0 };
  kernel = lock_init s.queue.lock sema s.kernel;
}

abbrev pub intq_empty : Intq → Bool
intq_empty q = q.head == q.tail

abbrev pub intq_full : Intq → Bool
intq_full q = next q.head == q.tail

-- The waiter of one of the two conditions: not_empty for `true`, not_full for `false`.
abbrev pub waiter : Bool → Intq → Option ℕ
waiter true q = q.not_empty
waiter false q = q.not_full

abbrev pub set_waiter : Bool → Option ℕ → Intq → Intq
set_waiter true w q = record q { not_empty = w }
set_waiter false w q = record q { not_full = w }

abbrev pub awaited : Bool → Intq → Bool
awaited true q = intq_empty q
awaited false q = intq_full q

unfoldable pub wait : Bool → Station → Outcome Station
wait c s = do
  assert (not s.kernel.intr_context)
  assert (awaited c s.queue)
  cur ← thread_current s.kernel
  k ← thread_block Resume.caller s.kernel
  ok (record { kernel = k; queue = set_waiter c (some cur) s.queue })

unfoldable pub signal : Bool → Station → Outcome Station
signal c s = assert (not (awaited c s.queue)) >> (elim (waiter c s.queue) [
  | none ↦ ok s
  | some t ↦ do
    k ← thread_unblock t s.kernel
    ok (record { kernel = k; queue = set_waiter c none s.queue })
])

-- The body of the loops of intq_getc and intq_putc up to where the caller sleeps. lock_acquire
-- returns at once if the count of the lock's semaphore is not 0, and otherwise another thread runs.
unfoldable pub sleep_for : ℕ → Bool → Station → Outcome Station
sleep_for fuel c s = do
  assert (not s.kernel.intr_context)
  k ← lock_acquire fuel s.queue.lock Resume.caller ok s.kernel
  let sema = (s.kernel.locks s.queue.lock).semaphore
  if (s.kernel.semas sema).value == 0
      then ok (record s { kernel = k })
      else wait c (record s { kernel = k })

-- intq_getc, with the byte.
unfoldable pub intq_getc : ℕ → Station → Outcome (Station × Option ℕ)
intq_getc fuel s =
    if intq_empty s.queue then (do s' ← sleep_for fuel true s; ok (s', none)) else (do
      s' ← signal false (record s { queue = record (s.queue) { tail = next s.queue.tail } })
      ok (s', some (s.queue.buf s.queue.tail)))

-- intq_putc, and whether it is done.
unfoldable pub intq_putc : ℕ → ℕ → Station → Outcome (Station × Bool)
intq_putc fuel byte s =
    if intq_full s.queue then (do s' ← sleep_for fuel false s; ok (s', false)) else (do
      s' ← signal true (record s {
        queue = record (s.queue) {
          buf = λ i. if s.queue.head == i then byte else s.queue.buf i;
          head = next s.queue.head;
        };
      })
      ok (s', true))

-- The end of the body of the loops, for a thread that wakes up in `wait`.
unfoldable pub release_queue : Station → Outcome Station
release_queue s = do
  k ← lock_release s.queue.lock Resume.caller s.kernel
  ok (record s { kernel = k })
