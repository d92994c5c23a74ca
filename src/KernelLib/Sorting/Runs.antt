-- ===== src/KernelLib/Sorting/Runs.antt =====
-- lib/kernel/list.c: the runs of nondecreasing elements of a sequence, and the merge of two.
use mathlib.Core.List.{Perm, perm_middle}
use mathlib.Core.List.Perm
use pintos_proj.Prelude.{
  ℕ, suc, ◌+◌, ◌≤◌, ◌≡◌, sym, subst, Bool, true, false, List, [], ◌∷◌, ◌++◌, if◌then◌else◌,
  append-nil, length, arith,
}

module _ (less : ℕ → ℕ → Bool) where
  -- The number of elements of a sequence after `p` that are less than the one before.
  unfoldable pub descents : ℕ → List ℕ → ℕ
  descents p [] = 0
  descents p (x ∷ xs) = (if less x p then 1 else 0) + descents x xs

  -- The number of maximal runs of a sequence.
  unfoldable pub run_count : List ℕ → ℕ
  run_count [] = 0
  run_count (x ∷ xs) = suc (descents x xs)

  -- Each element is not less than the one before.
  abbrev pub IsSorted : List ℕ → Type 0
  IsSorted xs = run_count xs ≤ 1

  -- A step of inplace_merge takes the first element of the second run where it is less than that of
  -- the first.
  pub data IsMerge : List ℕ → List ℕ → List ℕ → Type 0 where
    left : {vs : List ℕ} → IsMerge [] vs vs
    right : {us : List ℕ} → IsMerge us [] us
    take_left :
        {a b : ℕ} {us vs ws : List ℕ}
        → less b a ≡ false
        → IsMerge us (b ∷ vs) ws
        → IsMerge (a ∷ us) (b ∷ vs) (a ∷ ws)
    take_right :
        {a b : ℕ} {us vs ws : List ℕ}
        → less b a ≡ true
        → IsMerge (a ∷ us) vs ws
        → IsMerge (a ∷ us) (b ∷ vs) (b ∷ ws)

  abbrev pub IsAsymmetric : Type 0
  IsAsymmetric = (x y : ℕ) → less x y ≡ true → less y x ≡ false

  pub descents-append :
      (p : ℕ) (xs ys : List ℕ) → descents p (xs ++ ys) ≤ descents p xs + run_count ys
  unfolding descents run_count
  descents-append p [] [] = omega arith
  descents-append p [] (y ∷ ys) = ground arith
  descents-append p (x ∷ xs) ys = omega (arith, descents-append x xs ys)

  pub run_count-append : (xs ys : List ℕ) → run_count (xs ++ ys) ≤ run_count xs + run_count ys
  unfolding run_count
  run_count-append [] ys = omega arith
  run_count-append (x ∷ xs) ys = omega (arith, descents-append x xs ys)

  pub run_count-le : (xs : List ℕ) → run_count xs ≤ length xs
  unfolding run_count descents
  run_count-le [] = omega arith
  run_count-le (x ∷ xs) = omega (arith, descents-le x xs)
    where
      descents-le : (p : ℕ) (xs : List ℕ) → descents p xs ≤ length xs
      descents-le p [] = omega arith
      descents-le p (x ∷ xs) = ground (arith, descents-le x xs)

  module _ (asym : IsAsymmetric) where
    descents-IsMerge :
        (p : ℕ) {us vs ws : List ℕ}
        → IsMerge us vs ws
        → descents p us ≡ 0
        → descents p vs ≡ 0
        → descents p ws ≡ 0
    unfolding descents
    descents-IsMerge p left ha hb = hb
    descents-IsMerge p right ha hb = ha
    descents-IsMerge p (take_left {a} {b} {us} {vs} e g) ha hb =
        let r = descents-IsMerge a g (ground (arith, ha)) (ground (arith, hb, e)) in
        ground (arith, ha, r)
    descents-IsMerge p (take_right {a} {b} {us} {vs} e g) ha hb =
        let r = descents-IsMerge b g (ground (arith, ha, asym b a e)) (ground (arith, hb)) in
        ground (arith, hb, r)

    -- The merge of two runs is a run.
    pub IsMerge-IsSorted :
        {us vs ws : List ℕ} → IsMerge us vs ws → IsSorted us → IsSorted vs → IsSorted ws
    unfolding descents run_count
    IsMerge-IsSorted left ha hb = hb
    IsMerge-IsSorted right ha hb = ha
    IsMerge-IsSorted (take_left {a} {b} e g) ha hb =
        omega (arith, descents-IsMerge a g (omega arith) (ground (arith, hb, e)))
    IsMerge-IsSorted (take_right {a} {b} e g) ha hb =
        omega (arith, descents-IsMerge b g (ground (arith, ha, asym b a e)) (omega arith))

  pub IsMerge-Perm : {us vs ws : List ℕ} → IsMerge us vs ws → Perm ws (us ++ vs)
  IsMerge-Perm (left {vs}) = Perm.refl vs
  IsMerge-Perm (right {us}) = subst (Perm us) (sym (append-nil us)) (Perm.refl us)
  IsMerge-Perm (take_left {a} e g) = Perm.cons a (IsMerge-Perm g)
  IsMerge-Perm (take_right {a} {b} {us} {vs} e g) =
      Perm.trans (Perm.cons b (IsMerge-Perm g)) (Perm.symm (perm_middle (a ∷ us) vs))
