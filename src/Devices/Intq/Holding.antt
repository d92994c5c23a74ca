-- ===== src/Devices/Intq/Holding.antt =====
-- devices/intq.c: the sequence of bytes in a queue.
use pintos_proj.Prelude.{
  ℕ, ◌+◌, ◌%◌, ◌≤◌, ◌<◌, ◌≡◌, refl, sym, subst, ap, ◌⊎◌, Bool, true, false, List, [], ◌∷◌, ◌++◌,
  Option, none, some, ◌==◌, if◌then◌else◌, length, arith, ok, ◌>>=◌,
}
use pintos_proj.Threads.State.{Status, Kernel, is_thread, is_blocked, set_thread}
use pintos_proj.Threads.Sched.{thread_unblock}
use pintos_proj.Devices.Intq.{
  Intq, Station, next, intq_empty, intq_full, waiter, set_waiter, signal, awaited, intq_getc,
  intq_putc,
}

-- The bytes of the buffer from a place on.
abbrev pub FromPlace : (ℕ → ℕ) → ℕ → List ℕ → Type 0
FromPlace buf t [] = Unit
FromPlace buf t (x ∷ xs) = (buf t ≡ x) × FromPlace buf (next t) xs

pub record Holds (q : Intq) (xs : List ℕ) : Type 0 where
  pub place : q.tail < 64
  pub room : length xs ≤ 63
  pub end : q.head ≡ (q.tail + length xs) % 64
  pub bytes : FromPlace q.buf q.tail xs

-- A thread that waits for the queue is a thread that is blocked.
abbrev pub IsWaiter : Kernel → Option ℕ → Type 0
IsWaiter k none = Unit
IsWaiter k (some t) = (is_thread k t ≡ true) × (is_blocked (k.threads t).status ≡ true)

-- The thread, if there is one, is ready in `k'` and last in the ready list; nothing else differs.
abbrev pub IsWoken : Option ℕ → Kernel → Kernel → Type 0
IsWoken none k k' = k' ≡ k
IsWoken (some t) k k' =
    (k' ≡ record k { threads = k'.threads; ready_list = k.ready_list ++ (t ∷ []) })
    × (k'.threads t ≡ record (k.threads t) { status = Status.ready })
    × ((u : ℕ) → (u ≡ t) ⊎ (k'.threads u ≡ k.threads u))

FromPlace-append :
    (buf : ℕ → ℕ) (t : ℕ) (xs : List ℕ) (h byte : ℕ)
    → t < 64
    → length xs ≤ 63
    → h ≡ (t + length xs) % 64
    → FromPlace buf t xs
    → FromPlace (λ i. if h == i then byte else buf i) t (xs ++ (byte ∷ []))
FromPlace-append buf t [] h byte small room e f =
    let at : (h == t) ≡ true = ground (arith, e, small) in (rw at refl, tt)
FromPlace-append buf t (x ∷ xs) h byte small room e (first, rest) =
    let other : (h == t) ≡ false = ground (arith, e, small, room) in
    (
      rw other first,
      FromPlace-append buf (next t) xs h byte (omega arith) (omega (arith, room)) (omega (arith, e))
          rest,
    )

length-last : (xs : List ℕ) (x : ℕ) → length (xs ++ (x ∷ [])) ≡ length xs + 1
length-last [] x = refl
length-last (y ∷ xs) x = omega (arith, length-last xs x)

thread_unblock-IsWoken :
    (t : ℕ) (k : Kernel)
    → IsWaiter k (some t)
    → (k' : Kernel) × (thread_unblock t k ≡ ok k') × IsWoken (some t) k k'
unfolding thread_unblock
thread_unblock-IsWoken t k (usable, blocked) =
    let woken : Kernel =
      set_thread t (record (k.threads t) { status = Status.ready })
        (record k { ready_list = k.ready_list ++ (t ∷ []) }) in
    (woken, rw (usable, blocked) refl, (refl, ground arith, λ u. ground arith))

-- Signalling a condition that holds, to a waiter that is blocked or to none, returns.
signal-IsWoken :
    (c : Bool) (s : Station)
    → awaited c s.queue ≡ false
    → IsWaiter s.kernel (waiter c s.queue)
    → (s' : Station) × (signal c s ≡ ok s')
      × (s'.queue ≡ set_waiter c none s.queue)
      × IsWoken (waiter c s.queue) s.kernel s'.kernel
unfolding signal
signal-IsWoken c s a b = go (waiter c s.queue) refl b
  where
    same : (c : Bool) → waiter c s.queue ≡ none → s.queue ≡ set_waiter c none s.queue
    same true e = ap (λ w. record (s.queue) { not_empty = w }) e
    same false e = ap (λ w. record (s.queue) { not_full = w }) e

    go :
        (w : Option ℕ)
        → waiter c s.queue ≡ w
        → IsWaiter s.kernel w
        → (s' : Station) × (signal c s ≡ ok s')
          × (s'.queue ≡ set_waiter c none s.queue)
          × IsWoken w s.kernel s'.kernel
    go none e b = (s, rw (a, e) refl, same c e, refl)
    go (some t) e b =
        let (k, q, woken) = thread_unblock-IsWoken t s.kernel b in
        (record { kernel = k; queue = set_waiter c none s.queue }, rw (a, e, q) refl, refl, woken)

Holds-set_waiter :
    (c : Bool) (q q' : Intq) (xs : List ℕ) → q' ≡ set_waiter c none q → Holds q xs → Holds q' xs
Holds-set_waiter true q q' xs e h =
    subst (λ q. Holds q xs) (sym e)
      (record { place = h.place; room = h.room; end = h.end; bytes = h.bytes })
Holds-set_waiter false q q' xs e h =
    subst (λ q. Holds q xs) (sym e)
      (record { place = h.place; room = h.room; end = h.end; bytes = h.bytes })

-- On a queue that holds a sequence of at least one byte, and where the thread that waits for room, if
-- there is one, is blocked, intq_getc returns the first byte and leaves the others. The thread that
-- waited for room waits no more, and is ready and last in the ready list, and nothing else of the
-- threads has changed.
pub intq_getc-Holds :
    (fuel : ℕ) (s : Station) (x : ℕ) (xs : List ℕ)
    → Holds s.queue (x ∷ xs)
    → IsWaiter s.kernel s.queue.not_full
    → (s' : Station) × (intq_getc fuel s ≡ ok (s', some x))
      × Holds s'.queue xs
      × (s'.queue.not_full ≡ none)
      × (s'.queue.not_empty ≡ s.queue.not_empty)
      × IsWoken s.queue.not_full s.kernel s'.kernel
unfolding intq_getc
intq_getc-Holds fuel s x xs h b =
    let filled : intq_empty s.queue ≡ false = ground (arith, h.end, h.place, h.room) in
    let s₁ : Station = record s { queue = record (s.queue) { tail = next s.queue.tail } } in
    let q₁ : Holds s₁.queue xs = record {
      place = omega arith;
      room = omega (arith, h.room);
      end = omega (arith, h.end);
      bytes = h.bytes.1;
    } in
    let not_full : intq_full s₁.queue ≡ false = ground (arith, h.end, h.place, h.room) in
    let (s', e, q, woken) = signal-IsWoken false s₁ not_full b in
    (
      s',
      rw (filled, e, ◌>>=◌, h.bytes.0) refl,
      Holds-set_waiter false s₁.queue s'.queue xs q q₁,
      ap (λ q. q.not_full) q,
      ap (λ q. q.not_empty) q,
      woken,
    )

-- On a queue that holds a sequence of less than 63 bytes, and where the thread that waits for a byte,
-- if there is one, is blocked, intq_putc adds the byte at the end. The thread that waited for a byte
-- waits no more, and is ready and last in the ready list, and nothing else of the threads has changed.
pub intq_putc-Holds :
    (fuel byte : ℕ) (s : Station) (xs : List ℕ)
    → Holds s.queue xs
    → length xs < 63
    → IsWaiter s.kernel s.queue.not_empty
    → (s' : Station) × (intq_putc fuel byte s ≡ ok (s', true))
      × Holds s'.queue (xs ++ (byte ∷ []))
      × (s'.queue.not_empty ≡ none)
      × (s'.queue.not_full ≡ s.queue.not_full)
      × IsWoken s.queue.not_empty s.kernel s'.kernel
unfolding intq_putc
intq_putc-Holds fuel byte s xs h less b =
    let not_full : intq_full s.queue ≡ false = ground (arith, h.end, h.place, less) in
    let s₁ : Station = record s {
      queue = record (s.queue) {
        buf = λ i. if s.queue.head == i then byte else s.queue.buf i;
        head = next s.queue.head;
      };
    } in
    let q₁ : Holds s₁.queue (xs ++ (byte ∷ [])) = record {
      place = h.place;
      room = omega (arith, length-last xs byte, less);
      end = omega (arith, length-last xs byte, h.end);
      bytes =
          FromPlace-append s.queue.buf s.queue.tail xs s.queue.head byte h.place h.room h.end
            h.bytes;
    } in
    let filled : intq_empty s₁.queue ≡ false = ground (arith, h.end, h.place, less) in
    let (s', e, q, woken) = signal-IsWoken true s₁ filled b in
    (
      s',
      rw (not_full, e, ◌>>=◌) refl,
      Holds-set_waiter true s₁.queue s'.queue (xs ++ (byte ∷ [])) q q₁,
      ap (λ q. q.not_empty) q,
      ap (λ q. q.not_full) q,
      woken,
    )
