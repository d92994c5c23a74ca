-- ===== src/Threads/State.antt =====
-- The data of proj1/src/threads/thread.h and synch.h, and the static variables of thread.c and
-- timer.c, as one record. A pointer to a struct is a number, and a store gives what it points to.
-- The members `elem`, `allelem` and `held_locks` of the intrusive lists are lists of such pointers.
use pintos_proj.Prelude.{
  ℕ, Bool, true, false, ◌&&◌, Option, List, [], ◌∷◌, ◌==◌, if◌then◌else◌, Outcome, ok, panic,
}
use pintos_proj.Prelude.Int.{ℤ, pos}

-- enum thread_status
pub data Status : Type 0 where
  running ready blocked dying : Status

abbrev pub is_running : Status → Bool
is_running Status.running = true
is_running _ = false

abbrev pub is_blocked : Status → Bool
is_blocked Status.blocked = true
is_blocked _ = false

abbrev pub is_dying : Status → Bool
is_dying Status.dying = true
is_dying _ = false

-- What a thread that has called `schedule` has still to do in the kernel when it runs again: the
-- part of its kernel stack that matters. `down s l r` is the loop of sema_down_internal (s, l).
pub data Resume : Type 0 where
  caller : Resume
  down : ℕ → Option ℕ → Resume → Resume
  acquired : ℕ → Resume → Resume
  wait_down : ℕ → ℕ → Resume → Resume
  wait_acquire : ℕ → Resume → Resume
  broadcasting : ℕ → ℕ → Resume → Resume

-- struct thread, with the saved part of its stack for `stack`.
pub record Thread : Type 0 where
  pub tid : ℕ
  pub status : Status
  pub priority : ℤ
  pub base_priority : ℤ
  pub end_tick : ℤ
  pub held_locks : List ℕ
  pub waiting_lock : Option ℕ
  pub magic : ℕ
  pub resume : Resume

-- struct semaphore
pub record Semaphore : Type 0 where
  pub value : ℕ
  pub waiters : List ℕ

-- struct lock. `semaphore` is the address of the member of that name.
pub record Lock : Type 0 where
  pub holder : Option ℕ
  pub semaphore : ℕ
  pub max_waiter_priority : ℤ

-- struct semaphore_elem, with the address of its semaphore.
pub record SemaphoreElem : Type 0 where
  pub semaphore : ℕ
  pub priority : ℤ

pub record Kernel : Type 0 where
  pub threads : ℕ → Thread
  pub locks : ℕ → Lock
  pub semas : ℕ → Semaphore
  pub conds : ℕ → List SemaphoreElem
  pub ready_list : List ℕ
  pub sleep_list : List ℕ
  pub all_list : List ℕ
  pub current : ℕ
  pub idle_thread : Option ℕ
  pub initial_thread : ℕ
  pub ticks : ℕ
  pub thread_ticks : ℕ
  pub idle_ticks : ℕ
  pub kernel_ticks : ℕ
  pub intr_context : Bool
  pub yield_on_return : Bool

-- A store with the value at one address changed.
abbrev pub update {ℓ} : {A : Type ℓ} → (ℕ → A) → ℕ → A → ℕ → A
update f p v q = if p == q then v else f q

abbrev pub set_thread : ℕ → Thread → Kernel → Kernel
set_thread t th k = record k { threads = update k.threads t th }

abbrev pub set_lock : ℕ → Lock → Kernel → Kernel
set_lock l v k = record k { locks = update k.locks l v }

abbrev pub set_sema : ℕ → Semaphore → Kernel → Kernel
set_sema s v k = record k { semas = update k.semas s v }

-- list_remove (&t->elem) on the list that holds t.
unfoldable pub remove : ℕ → List ℕ → List ℕ
remove t [] = []
remove t (x ∷ xs) = if x == t then xs else x ∷ remove t xs

abbrev pub thread_magic : ℕ
thread_magic = 0xcd6abf4b

abbrev pub time_slice : ℕ
time_slice = 4

abbrev pub pri_min : ℤ
pri_min = pos 0

abbrev pub pri_default : ℤ
pri_default = pos 31

abbrev pub pri_max : ℤ
pri_max = pos 63

-- is_thread of thread.c, at a pointer that is not null.
abbrev pub is_thread : Kernel → ℕ → Bool
is_thread k t = (k.threads t).magic == thread_magic

-- thread_current
unfoldable pub thread_current : Kernel → Outcome ℕ
thread_current k =
    if is_thread k k.current && is_running (k.threads k.current).status then ok k.current else panic
