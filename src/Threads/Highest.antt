-- ===== src/Threads/Highest.antt =====
-- The scan that next_thread_to_run, sema_up_internal and cond_signal make over a list: keep the
-- first element whose priority exceeds every one before it, starting from -1.
use pintos_proj.Prelude.{
  ◌≡◌, refl, ap, ◌⊎◌, inl, inr, true, false, Option, some, List, [], ◌∷◌, ◌++◌, arith, Bool-cases,
}
use pintos_proj.Prelude.Int.{ℤ, ◌≤ℤ◌, ◌<ℤ◌, ltb_ℤ, ltb_ℤ→lt, ltb_ℤ-false}

module _ {A : Type 0} (prio : A → ℤ) where
  unfoldable pub scan : List A → ℤ → Option A → Option A
  scan [] top best = best
  scan (t ∷ ts) top best = elim (ltb_ℤ top (prio t)) [
    | true ↦ scan ts (prio t) (some t)
    | false ↦ scan ts top best
  ]

  abbrev pub AllLt : ℤ → List A → Type 0
  AllLt p [] = Unit
  AllLt p (x ∷ xs) = (prio x <ℤ p) × AllLt p xs

  abbrev pub AllLe : ℤ → List A → Type 0
  AllLe p [] = Unit
  AllLe p (x ∷ xs) = (prio x ≤ℤ p) × AllLe p xs

  -- `t` is the earliest of the elements with the highest priority.
  pub record IsFirstHighest (xs : List A) (t : A) : Type 0 where
    pub before : List A
    pub after : List A
    pub split : xs ≡ before ++ (t ∷ after)
    pub above : AllLt (prio t) before
    pub atleast : AllLe (prio t) after

  AllLt-mono : (p q : ℤ) (xs : List A) → p ≤ℤ q → AllLt p xs → AllLt q xs
  AllLt-mono p q [] h a = tt
  AllLt-mono p q (x ∷ xs) h a = (omega arith, AllLt-mono p q xs h a.1)

  -- What the scan returns: the best so far if nothing exceeds `top`, or the first highest element.
  pub scan_cases :
      (xs : List A) (top : ℤ) (best : Option A)
      → (AllLe top xs × (scan xs top best ≡ best))
        ⊎ ((t : A) × (scan xs top best ≡ some t) × (top <ℤ prio t) × IsFirstHighest xs t)
  unfolding scan
  scan_cases [] top best = inl (tt, refl)
  scan_cases (x ∷ xs) top best = elim (Bool-cases (ltb_ℤ top (prio x))) [
    | inl h ↦ inr (elim (scan_cases xs (prio x) (some x)) [
      | inl (le, e) ↦ (
        x,
        rw (h, scan) e,
        ltb_ℤ→lt top (prio x) h,
        record { before = []; after = xs; split = refl; above = tt; atleast = le },
      )
      | inr (t, e, lt, f) ↦ (
        t,
        rw (h, scan) e,
        omega (arith, ltb_ℤ→lt top (prio x) h),
        record {
          before = x ∷ f.before;
          after = f.after;
          split = ap (λ l. x ∷ l) f.split;
          above = (lt, f.above);
          atleast = f.atleast;
        },
      )
    ])
    | inr h ↦ elim (scan_cases xs top best) [
      | inl (le, e) ↦ inl ((ltb_ℤ-false top (prio x) h, le), rw (h, scan) e)
      | inr (t, e, lt, f) ↦ inr (
        t,
        rw (h, scan) e,
        lt,
        record {
          before = x ∷ f.before;
          after = f.after;
          split = ap (λ l. x ∷ l) f.split;
          above = (omega (arith, ltb_ℤ-false top (prio x) h), f.above);
          atleast = f.atleast;
        },
      )
    ]
  ]
