-- ===== src/Threads/Synch/Donate.antt =====
-- The donation loop of lock_acquire: what it does along a chain of waiting holders, and the inputs
-- at which it never ends.
use pintos_proj.Prelude.{
  ℕ, zero, suc, ◌<◌, ◌≡◌, refl, sym, ◌∙◌, ◌≢◌, false, Option, none, some, List, [], ◌∷◌, length,
  arith, Outcome, ok, out_of_fuel,
}
use pintos_proj.Prelude.Int.{ℤ, ◌≤ℤ◌, ◌<ℤ◌}
use pintos_proj.Threads.State.{Resume, Kernel, thread_current}
use pintos_proj.Threads.Sched.{priority_of}
use pintos_proj.Threads.Synch.{raise, donate, lock_acquire}

-- A lock whose holder does not have a lower priority than the thread that wants it is never left.
pub donate_hangs :
    (fuel cur l h : ℕ) (k : Kernel)
    → (k.locks l).holder ≡ some h
    → priority_of k cur ≤ℤ priority_of k h
    → donate fuel cur (some l) k ≡ out_of_fuel
unfolding donate
donate_hangs zero cur l h k e p = refl
donate_hangs (suc f) cur l h k e p = ground (arith, donate_hangs f cur l h k e p)

-- If a thread calls lock_acquire for a lock that another thread holds, and the holder's priority is
-- not lower than its own, the call never returns and never blocks: it is still in its loop, with
-- interrupts off, after any number of rounds.
pub lock_acquire_hangs :
    (fuel l h : ℕ) (r : Resume) (next : Kernel → Outcome Kernel) (k : Kernel)
    → k.intr_context ≡ false
    → thread_current k ≡ ok k.current
    → (k.locks l).holder ≡ some h
    → h ≢ k.current
    → priority_of k k.current ≤ℤ priority_of k h
    → lock_acquire fuel l r next k ≡ out_of_fuel
unfolding lock_acquire
lock_acquire_hangs fuel l h r next k i c e n p =
    ground (arith, donate_hangs fuel k.current l h k e p)

-- The chain of locks and their holders from a lock on: each holder waits for the next lock, and has
-- a lower priority than `p`. It ends at a lock that is free, or at a holder that does not wait.
pub data Chain (k : Kernel) (p : ℤ) : Option ℕ → List (ℕ × ℕ) → Type 0 where
  idle : Chain k p none []
  free : {l : ℕ} → (k.locks l).holder ≡ none → Chain k p (some l) []
  held :
      {l : ℕ} {ls : List (ℕ × ℕ)} (h : ℕ)
      → (k.locks l).holder ≡ some h
      → priority_of k h <ℤ p
      → Chain k p (k.threads h).waiting_lock ls
      → Chain k p (some l) ((l, h) ∷ ls)

-- The holders of a chain are distinct.
abbrev pub NotHolder : ℕ → List (ℕ × ℕ) → Type 0
NotHolder t [] = Unit
NotHolder t ((l, h) ∷ ls) = (h ≢ t) × NotHolder t ls

abbrev pub DistinctHolders : List (ℕ × ℕ) → Type 0
DistinctHolders [] = Unit
DistinctHolders ((l, h) ∷ ls) = NotHolder h ls × DistinctHolders ls

-- The donation to each holder of a chain, in turn.
unfoldable pub raise_all : ℤ → List (ℕ × ℕ) → Kernel → Kernel
raise_all p [] k = k
raise_all p ((l, h) ∷ ls) k = raise_all p ls (raise l h p k)

-- Raising one holder changes nothing that the chain of the others rests on.
waiting_lock-raise :
    (l h t : ℕ) (k : Kernel) (p : ℤ)
    → ((raise l h p k).threads t).waiting_lock ≡ (k.threads t).waiting_lock
waiting_lock-raise l h t k p = ground arith

holder-raise :
    (l h m : ℕ) (k : Kernel) (p : ℤ) → ((raise l h p k).locks m).holder ≡ (k.locks m).holder
holder-raise l h m k p = ground arith

priority_of-raise_ne :
    (l h t : ℕ) (k : Kernel) (p : ℤ) → h ≢ t → priority_of (raise l h p k) t ≡ priority_of k t
priority_of-raise_ne l h t k p n = ground arith

Chain-raise :
    (l h : ℕ) (k : Kernel) (p : ℤ) (o : Option ℕ) (ls : List (ℕ × ℕ))
    → NotHolder h ls
    → Chain k p o ls
    → Chain (raise l h p k) p o ls
Chain-raise l h k p o ls n idle = idle
Chain-raise l h k p o ls n (free {l = m} e) = free (holder-raise l h m k p ∙ e)
Chain-raise l h k p o ls n (held {l = m} {ls = rest} t e lt c) =
    held t (holder-raise l h m k p ∙ e) (rw (priority_of-raise_ne l h t k p (λ q. n.0 (sym q))) lt)
      (rw (waiting_lock-raise l h t k p)
        (Chain-raise l h k p (k.threads t).waiting_lock rest n.1 c))

-- Along a chain with distinct holders the loop ends, given one round more than the chain is long,
-- and has raised every holder of it.
pub donate-raise_all :
    (f cur : ℕ) (p : ℤ) (o : Option ℕ) (ls : List (ℕ × ℕ)) (k : Kernel)
    → priority_of k cur ≡ p
    → DistinctHolders ls
    → length ls < f
    → Chain k p o ls
    → donate f cur o k ≡ ok (raise_all p ls k)
unfolding donate raise_all
donate-raise_all zero cur p o ls k pc d b c = absurd (omega arith)
donate-raise_all (suc f) cur p o ls k pc d b idle = refl
donate-raise_all (suc f) cur p o ls k pc d b (free e) = rw (e, donate)
donate-raise_all (suc f) cur p o ls k pc d b (held {l = l} {ls = rest} h e lt c) = ground (
  arith,
  donate-raise_all f cur p (k.threads h).waiting_lock rest (raise l h p k)
      (priority_of-raise_ne l h cur k p other ∙ pc) d.1 (omega arith)
      (Chain-raise l h k p (k.threads h).waiting_lock rest d.0 c),
)
  where
    other : h ≢ cur
    other q =
        let bad : priority_of k cur <ℤ p = rw q at lt in
        absurd (let x = rw pc at bad in omega arith)
