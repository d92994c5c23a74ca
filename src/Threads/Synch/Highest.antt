-- ===== src/Threads/Synch/Highest.antt =====
-- The two loops of synch.c that compute a priority: update_lock_max_priority over the waiters of a
-- lock, and lock_release over the locks still held.
use mathlib.Core.List.{reverse}
use pintos_proj.Prelude.{ℕ, ◌≡◌, refl, ◌⊎◌, inl, inr, List, [], ◌∷◌, arith, Bool-cases, ◌==◌}
use pintos_proj.Prelude.Int.{ℤ, negsuc, ◌≤ℤ◌, ltb_ℤ, ltb_ℤ→lt, ltb_ℤ-false}
use pintos_proj.Threads.State.{Kernel}
use pintos_proj.Threads.Highest.{AllLe}
use pintos_proj.Threads.Queues.{update_self}
use pintos_proj.Threads.Sched.{priority_of}
use pintos_proj.Threads.Synch.{max_over, update_lock_max_priority, held_priority, others}

abbrev pub Among : ℕ → List ℕ → Type 0
Among t [] = ⊥
Among t (x ∷ xs) = (x ≡ t) ⊎ Among t xs

-- `q` is the largest of `base` and the values of `f` on the list.
pub record IsMax (f : ℕ → ℤ) (base : ℤ) (xs : List ℕ) (q : ℤ) : Type 0 where
  pub from_base : base ≤ℤ q
  pub bounds : AllLe f q xs
  pub attained : (q ≡ base) ⊎ ((t : ℕ) × Among t xs × (q ≡ f t))

-- One more value at the front, where the maximum of the rest starts from the larger one.
IsMax-keep :
    (f : ℕ → ℤ) (base : ℤ) (x : ℕ) (xs : List ℕ) (q : ℤ)
    → f x ≤ℤ base
    → IsMax f base xs q
    → IsMax f base (x ∷ xs) q
IsMax-keep f base x xs q h m = record {
  from_base = m.from_base;
  bounds = (omega (arith, m.from_base), m.bounds);
  attained = elim m.attained [ inl e ↦ inl e | inr (t, a, e) ↦ inr (t, inr a, e) ];
}

IsMax-take :
    (f : ℕ → ℤ) (base : ℤ) (x : ℕ) (xs : List ℕ) (q : ℤ)
    → base ≤ℤ f x
    → IsMax f (f x) xs q
    → IsMax f base (x ∷ xs) q
IsMax-take f base x xs q h m = record {
  from_base = omega (arith, m.from_base);
  bounds = (m.from_base, m.bounds);
  attained = elim m.attained [ inl e ↦ inr (x, inl refl, e) | inr (t, a, e) ↦ inr (t, inr a, e) ];
}

pub max_over-IsMax : (f : ℕ → ℤ) (xs : List ℕ) (base : ℤ) → IsMax f base xs (max_over f xs base)
unfolding max_over
max_over-IsMax f [] base = record { from_base = omega arith; bounds = tt; attained = inl refl }
max_over-IsMax f (x ∷ xs) base = elim (Bool-cases (ltb_ℤ (f x) base)) [
  | inl h ↦
      rw h
        (IsMax-keep f base x xs _ (omega (arith, ltb_ℤ→lt (f x) base h)) (max_over-IsMax f xs base))
  | inr h ↦ rw h (IsMax-take f base x xs _ (ltb_ℤ-false (f x) base h) (max_over-IsMax f xs (f x)))
]

-- The loop of lock_release computes the largest of the start value and the waiters' priorities of
-- the other locks of the list.
pub held_priority-IsMax :
    (f : ℕ → ℤ) (l : ℕ) (ms : List ℕ) (base : ℤ)
    → IsMax f base (others l ms) (held_priority f l ms base)
unfolding held_priority others
held_priority-IsMax f l [] base = record {
  from_base = omega arith;
  bounds = tt;
  attained = inl refl;
}
held_priority-IsMax f l (m ∷ ms) base = elim (Bool-cases (m == l)) [
  | inl e ↦ rw e (held_priority-IsMax f l ms base)
  | inr e ↦ elim (Bool-cases (ltb_ℤ base (f m))) [
    | inl h ↦
        rw (e, h)
          (IsMax-take f base m (others l ms) _ (omega (arith, ltb_ℤ→lt base (f m) h))
            (held_priority-IsMax f l ms (f m)))
    | inr h ↦
        rw (e, h)
          (IsMax-keep f base m (others l ms) _ (ltb_ℤ-false base (f m) h)
            (held_priority-IsMax f l ms base))
  ]
]

-- update_lock_max_priority sets the lock's max_waiter_priority to the highest priority of its
-- waiters, or -1 if there are none, and leaves the lock's holder as it is.
pub update_lock_max_priority_lem :
    (l : ℕ) (k : Kernel)
    → let j = update_lock_max_priority l k in
      IsMax
        (priority_of k)
        (negsuc 0)
        (reverse (k.semas (k.locks l).semaphore).waiters)
        (j.locks l).max_waiter_priority
      × ((j.locks l).holder ≡ (k.locks l).holder)
unfolding update_lock_max_priority
update_lock_max_priority_lem l k = rw (update_self k.locks l _) (
  max_over-IsMax (priority_of k) (reverse (k.semas (k.locks l).semaphore).waiters) (negsuc 0),
  refl,
)
