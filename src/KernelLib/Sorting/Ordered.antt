-- ===== src/KernelLib/Sorting/Ordered.antt =====
-- lib/kernel/list.c: list_insert_ordered.
use pintos_proj.Prelude.{
  ℕ, zero, suc, ◌<◌, ◌≡◌, ◌≢◌, refl, subst, ap, Bool, true, false, not, inl, inr, List, [], ◌∷◌,
  ◌++◌, ◌==◌, length, Bool-cases, arith, ok, ◌>>=◌,
}
use pintos_proj.KernelLib.Links.{Links, KernelList}
use pintos_proj.KernelLib.Links.Seg.{first, has, nodes, IsList}
use pintos_proj.KernelLib.Links.Steps.{shift, list_next-at, not_tail}
use pintos_proj.KernelLib.Links.Deque.{at_begin, list_insert-IsList}
use pintos_proj.KernelLib.Sorting.{place_loop, list_insert_ordered}
use pintos_proj.KernelLib.Sorting.Runs.{descents, run_count, IsSorted, IsAsymmetric}

module _ (less : ℕ → ℕ → Bool) (e : ℕ) where
  -- A sequence in two parts: `e` is less than no element of the first, and than the first of the second.
  pub data IsPlace : List ℕ → List ℕ → List ℕ → Type 0 where
    at_end : IsPlace [] [] []
    here : {z : ℕ} {zs : List ℕ} → less e z ≡ true → IsPlace (z ∷ zs) [] (z ∷ zs)
    later :
        {y : ℕ} {xs ys zs : List ℕ}
        → less e y ≡ false
        → IsPlace xs ys zs
        → IsPlace (y ∷ xs) (y ∷ ys) zs

  IsPlace-append : {xs ys zs : List ℕ} → IsPlace xs ys zs → xs ≡ ys ++ zs
  IsPlace-append at_end = refl
  IsPlace-append (here t) = refl
  IsPlace-append (later {y} t p) = ap (◌∷◌ y) (IsPlace-append p)

  module _ (asym : IsAsymmetric less) where
    descents-IsPlace :
        (p : ℕ) {xs ys zs : List ℕ}
        → IsPlace xs ys zs
        → less e p ≡ false
        → descents less p xs ≡ 0
        → descents less p (ys ++ (e ∷ zs)) ≡ 0
    unfolding descents
    descents-IsPlace p at_end t d = ground (arith, t)
    descents-IsPlace p (here {z} s) t d = ground (arith, t, s, d, asym e z s)
    descents-IsPlace p (later {y} s q) t d =
        let r = descents-IsPlace y q s (ground (arith, d)) in ground (arith, d, r)

    IsPlace-IsSorted :
        {xs ys zs : List ℕ} → IsPlace xs ys zs → IsSorted less xs → IsSorted less (ys ++ (e ∷ zs))
    unfolding run_count descents
    IsPlace-IsSorted at_end h = omega arith
    IsPlace-IsSorted (here {z} t) h = ground (arith, h, asym e z t)
    IsPlace-IsSorted (later {y} t p) h = omega (arith, descents-IsPlace y p t (omega arith))

  module _ (m : Links) (l : KernelList) where
    place_loop-IsPlace :
        (f : ℕ) (ys xs : List ℕ)
        → IsList m l (ys ++ xs)
        → length xs < f
        → (us : List ℕ) × (zs : List ℕ) × (place_loop less f l e (first xs l.tail) m
            ≡ ok (first zs l.tail))
          × IsPlace xs us zs
    unfolding place_loop
    place_loop-IsPlace zero ys xs v h = absurd (omega arith)
    place_loop-IsPlace (suc f) ys [] v h = ([], [], ground arith, at_end)
    place_loop-IsPlace (suc f) ys (x ∷ xs) v h = elim (Bool-cases (less e x)) [
      | inl t ↦ ([], x ∷ xs, rw (place_loop, not_tail m l ys x xs v, t) refl, here t)
      | inr t ↦
          let (us, zs, q, p) =
            place_loop-IsPlace f (ys ++ (x ∷ [])) xs (subst (IsList m l) (shift ys x xs) v)
              (omega arith) in
          (
            x ∷ us,
            zs,
            rw (place_loop, not_tail m l ys x xs v, t, list_next-at m l ys x xs v, ◌>>=◌) q,
            later t p,
          )
    ]

    -- list_insert_ordered puts an element, which is not NULL and has no place in the list yet, after
    -- the elements that it is not less than and before the first that it is less than. If no element
    -- of the list is less than the one before it, that also holds of the list with the new element.
    -- The order is one in which no two elements are each less than the other.
    pub list_insert_ordered-IsPlace :
        IsAsymmetric less
        → (n : ℕ) (xs : List ℕ) → IsList m l xs
        → length xs < n
        → e ≢ 0
        → has e (nodes l.head xs l.tail) ≡ false
        → IsSorted less xs
        → (m' : Links) × (ys : List ℕ) × (zs : List ℕ) × (list_insert_ordered less n l e m ≡ ok m')
          × IsPlace xs ys zs
          × IsList m' l (ys ++ (e ∷ zs))
          × IsSorted less (ys ++ (e ∷ zs))
    unfolding list_insert_ordered
    list_insert_ordered-IsPlace asym n xs v h some_e new sorted =
        let (ys, zs, q, p) = place_loop-IsPlace n [] xs v h in
        let parts = IsPlace-append p in
        let (m', i, r, o) =
          list_insert-IsList m l ys zs e (subst (IsList m l) parts v) some_e
            (subst (λ xs. has e (nodes l.head xs l.tail) ≡ false) parts new) in
        let t : not (e == 0) ≡ true = ground (arith, some_e) in
        (m', ys, zs, rw (t, at_begin m l xs v, q, ◌>>=◌) i, p, r, IsPlace-IsSorted asym p sorted)
