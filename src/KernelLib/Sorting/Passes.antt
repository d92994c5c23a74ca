-- ===== src/KernelLib/Sorting/Passes.antt =====
-- lib/kernel/list.c: the passes of list_sort.
use mathlib.Core.List.{Perm}
use mathlib.Core.List.Perm
use pintos_proj.Prelude.{
  ℕ, zero, suc, ◌+◌, ◌≤◌, ◌<◌, ◌≡◌, refl, sym, subst, ap, ◌∙◌, Bool, true, false, inl, inr, List,
  [], ◌∷◌, ◌++◌, ◌==◌, append_assoc, append-nil, length, length-append, ltb, Bool-cases, arith, ok,
  ◌>>=◌,
}
use pintos_proj.KernelLib.Links.{Links, KernelList, list_begin}
use pintos_proj.KernelLib.Links.Seg.{first, IsList}
use pintos_proj.KernelLib.Links.Deque.{at_begin}
use pintos_proj.KernelLib.Sorting.{
  inplace_merge, pass_loop, sort_loop, list_sort, is_sorted, find_end_of_run,
}
use pintos_proj.KernelLib.Sorting.Runs.{
  descents, run_count, IsSorted, IsMerge, left, right, take_left, take_right, IsAsymmetric,
  run_count-append, run_count-le, IsMerge-IsSorted, IsMerge-Perm,
}
use pintos_proj.KernelLib.Links.Steps.{element_some, not_tail, tail_some}
use pintos_proj.KernelLib.Sorting.Merging.{
  is_sorted-true, IsRun, find_end_of_run-IsRun, merge_loop-IsMerge,
}

IsMerge-length :
    {less : ℕ → ℕ → Bool} {us vs ws : List ℕ}
    → IsMerge less us vs ws
    → length ws ≡ length us + length vs
IsMerge-length left = omega arith
IsMerge-length right = omega arith
IsMerge-length (take_left e g) = omega (arith, IsMerge-length g)
IsMerge-length (take_right e g) = omega (arith, IsMerge-length g)

self_equal : (x : ℕ) → (x == x) ≡ true
self_equal x = ground arith

length-parts : {xs : List ℕ} (us zs : List ℕ) → xs ≡ us ++ zs → length xs ≡ length us + length zs
length-parts us zs e = ap length e ∙ length-append us zs

module _ (less : ℕ → ℕ → Bool) (l : KernelList) (n : ℕ) where
  inplace_merge-IsMerge :
      (m : Links) (ys : List ℕ) (a : ℕ) (us : List ℕ) (b : ℕ) (vs zs : List ℕ)
      → IsList m l (ys ++ (a ∷ (us ++ (b ∷ (vs ++ zs)))))
      → descents less a us ≡ 0
      → descents less b vs ≡ 0
      → length us + length vs + 2 < n
      → (m' : Links) × (ws : List ℕ) × (inplace_merge less n a b (first zs l.tail) m ≡ ok m')
        × IsMerge less (a ∷ us) (b ∷ vs) ws
        × IsList m' l (ys ++ (ws ++ zs))
  unfolding inplace_merge
  inplace_merge-IsMerge m ys a us b vs zs v da db h =
      let w = subst (IsList m l) (sym (append_assoc ys (a ∷ us) (b ∷ (vs ++ zs)))) v in
      let w' = subst (IsList m l) (sym (append_assoc (ys ++ (a ∷ us)) (b ∷ vs) zs)) w in
      let (m', ws, e, g, r) =
        merge_loop-IsMerge less l n m ys (a ∷ us) (b ∷ vs) zs v (omega arith) in
      (
        m',
        ws,
        rw
            (
              element_some m l ys a (us ++ (b ∷ (vs ++ zs))) v,
              element_some m l (ys ++ (a ∷ us)) b (vs ++ zs) w,
              place_some zs ((ys ++ (a ∷ us)) ++ (b ∷ vs)) m w',
              is_sorted-true less l n m ys a us (b ∷ (vs ++ zs)) v da (omega arith),
              ◌>>=◌,
              is_sorted-true less l n m (ys ++ (a ∷ us)) b vs zs w db (omega arith),
              ◌>>=◌,
            )
            e,
        g,
        r,
      )
    where
      place_some :
          (zs us : List ℕ) (m : Links) → IsList m l (us ++ zs) → (first zs l.tail == 0) ≡ false
      place_some [] us m v = tail_some m l (us ++ []) v
      place_some (z ∷ zs) us m v = element_some m l us z zs v

  -- What a pass makes of the rest of a list, with `cnt` runs put out before and `cnt'` after.
  pub record IsPass (rest ws : List ℕ) (cnt cnt' : ℕ) : Type 0 where
    pub elements : Perm ws rest
    pub size : length ws ≡ length rest
    pub runs : run_count less ws + cnt ≤ cnt'
    pub halved : cnt' + cnt' ≤ cnt + cnt + run_count less rest + 1

  module _ (asym : IsAsymmetric less) where
    IsPass-pair :
        {a b : ℕ} {rest us bs vs zs ws₁ ws : List ℕ} {cnt cnt' : ℕ}
        → IsRun less l a rest us (b ∷ bs)
        → IsRun less l b bs vs zs
        → IsMerge less (a ∷ us) (b ∷ vs) ws₁
        → IsPass zs ws (cnt + 1) cnt'
        → IsPass (a ∷ rest) (ws₁ ++ ws) cnt cnt'
    unfolding run_count
    IsPass-pair {a} {b} {rest} {us} {bs} {vs} {zs} {ws₁} {ws} r r₂ g done =
        let e : a ∷ rest ≡ ((a ∷ us) ++ (b ∷ vs)) ++ zs =
          ap (◌∷◌ a) r.parts
          ∙ ap (λ xs. a ∷ (us ++ (b ∷ xs))) r₂.parts
          ∙ sym (append_assoc (a ∷ us) (b ∷ vs) zs) in
        let sorted =
          IsMerge-IsSorted less asym g (omega (arith, r.nondecreasing))
            (omega (arith, r₂.nondecreasing)) in
        record {
          elements =
              subst (Perm (ws₁ ++ ws)) (sym e) (Perm.append (IsMerge-Perm less g) done.elements);
          size = omega (
            arith,
            length-append ws₁ ws,
            IsMerge-length g,
            length-parts us (b ∷ bs) r.parts,
            length-parts vs zs r₂.parts,
            done.size,
          );
          runs = omega (arith, run_count-append less ws₁ ws, sorted, done.runs);
          halved = omega (arith, done.halved, r.maximal, r₂.maximal);
        }

    pass_loop-IsPass :
        (f cnt : ℕ) (m : Links) (ys rest : List ℕ)
        → IsList m l (ys ++ rest)
        → length rest < f
        → f ≤ n
        → (m' : Links) × (ws : List ℕ) × (cnt' : ℕ) × (pass_loop less n l f
              (first rest l.tail)
              cnt
              m
            ≡ ok (m', cnt'))
          × IsList m' l (ys ++ ws)
          × IsPass rest ws cnt cnt'
    unfolding pass_loop run_count
    pass_loop-IsPass zero cnt m ys rest v h k = absurd (omega arith)
    pass_loop-IsPass (suc f) cnt m ys [] v h k = (
      m,
      [],
      cnt,
      rw (pass_loop, self_equal l.tail) refl,
      v,
      record { elements = Perm.refl []; size = refl; runs = omega arith; halved = omega arith },
    )
    pass_loop-IsPass (suc f) cnt m ys (a ∷ rest) v h k =
        let (us, zs, e, r) = find_end_of_run-IsRun less l n m ys a rest v (omega arith) in
        elim zs
            as (λ zs.
              find_end_of_run less n a l.tail m ≡ ok (first zs l.tail)
              → IsRun less l a rest us zs
              → (m' : Links) × (ws : List ℕ) × (cnt' : ℕ) × (pass_loop less n l (suc f) a cnt m
                  ≡ ok (m', cnt'))
                × IsList m' l (ys ++ ws)
                × IsPass (a ∷ rest) ws cnt cnt') [
                  | [] ↦ λ e r. (
                    m,
                    a ∷ rest,
                    cnt + 1,
                    rw (pass_loop, not_tail m l ys a rest v, e, ◌>>=◌, self_equal l.tail) refl,
                    v,
                    record {
                      elements = Perm.refl (a ∷ rest);
                      size = refl;
                      runs = omega (arith, r.maximal);
                      halved = omega arith;
                    },
                  )
                  | (b ∷ bs) ↦ λ e r.
                      let w = subst (λ xs. IsList m l (ys ++ (a ∷ xs))) r.parts v in
                      let w₁ = subst (IsList m l) (sym (append_assoc ys (a ∷ us) (b ∷ bs))) w in
                      let size = length-parts us (b ∷ bs) r.parts in
                      let (vs, zs, e₂, r₂) =
                        find_end_of_run-IsRun less l n m (ys ++ (a ∷ us)) b bs w₁ (omega arith) in
                      let size₂ = length-parts vs zs r₂.parts in
                      let (m₁, ws₁, e₁, g, v₁) =
                        inplace_merge-IsMerge m ys a us b vs zs
                          (subst (λ xs. IsList m l (ys ++ (a ∷ (us ++ (b ∷ xs))))) r₂.parts w)
                          r.nondecreasing r₂.nondecreasing (omega arith) in
                      let (m', ws, cnt', e', v', done) =
                        pass_loop-IsPass f (cnt + 1) m₁ (ys ++ ws₁) zs
                          (subst (IsList m₁ l) (sym (append_assoc ys ws₁ zs)) v₁) (omega arith)
                          (omega arith) in
                      (
                        m',
                        ws₁ ++ ws,
                        cnt',
                        rw
                            (
                              pass_loop,
                              not_tail m l ys a rest v,
                              e,
                              ◌>>=◌,
                              not_tail m l (ys ++ (a ∷ us)) b bs w₁,
                              e₂,
                              ◌>>=◌,
                              e₁,
                              ◌>>=◌,
                            )
                            e',
                        subst (IsList m' l) (append_assoc ys ws₁ ws) v',
                        IsPass-pair r r₂ g done,
                      )
                ]
          e r

    -- Each pass but the last leaves fewer runs.
    sort_loop-IsSorted :
        (f : ℕ) (m : Links) (xs : List ℕ)
        → IsList m l xs
        → length xs < n
        → run_count less xs < f
        → (m' : Links) × (ys : List ℕ) × (sort_loop less n l f m ≡ ok m')
          × IsList m' l ys
          × Perm ys xs
          × (length ys ≡ length xs)
          × IsSorted less ys
    unfolding sort_loop
    sort_loop-IsSorted zero m xs v h k = absurd (omega arith)
    sort_loop-IsSorted (suc f) m xs v h k =
        let (m₁, ws, cnt, e, v₁, done) = pass_loop-IsPass n 0 m [] xs v h (omega arith) in
        elim (Bool-cases (ltb 1 cnt)) [
          | inr last ↦ (
            m₁,
            ws,
            rw (at_begin m l xs v, e, ◌>>=◌, last) refl,
            v₁,
            done.elements,
            done.size,
            ground (arith, last, done.runs),
          )
          | inl more ↦
              let (m', ys, e', v', p, size, sorted) =
                sort_loop-IsSorted f m₁ ws v₁ (omega (arith, done.size))
                  (ground (arith, more, done.runs, done.halved, k)) in
              (
                m',
                ys,
                rw (at_begin m l xs v, e, ◌>>=◌, more) e',
                v',
                Perm.trans p done.elements,
                size ∙ done.size,
                sorted,
              )
        ]

    -- list_sort, with enough fuel for a list of that length, returns: the list then holds the same
    -- elements, and no element is less than the one before it. The order is one in which no two
    -- elements are each less than the other.
    pub list_sort-IsSorted :
        (m : Links) (xs : List ℕ)
        → IsList m l xs
        → length xs < n
        → (m' : Links) × (ys : List ℕ) × (list_sort less n l m ≡ ok m')
          × IsList m' l ys
          × Perm ys xs
          × IsSorted less ys
    unfolding list_sort run_count is_sorted
    list_sort-IsSorted m xs v h =
        let (m', ys, e, v', p, size, sorted) =
          sort_loop-IsSorted n m xs v h (omega (arith, run_count-le less xs, h)) in
        (
          m',
          ys,
          rw (e, ◌>>=◌, sorted_asserted m' ys v' (omega (arith, size, h)) sorted),
          v',
          p,
          sorted,
        )
      where
        no_descents : (x : ℕ) (xs : List ℕ) → IsSorted less (x ∷ xs) → descents less x xs ≡ 0
        no_descents x xs k = omega (arith, k)

        sorted_asserted :
            (m : Links) (xs : List ℕ)
            → IsList m l xs
            → length xs < n
            → IsSorted less xs
            → is_sorted less n (list_begin l m) l.tail m ≡ ok true
        sorted_asserted m [] v h k = rw (at_begin m l [] v, is_sorted, self_equal l.tail) refl
        sorted_asserted m (x ∷ xs) v h k = rw (at_begin m l (x ∷ xs) v) (
            is_sorted-true less l n m [] x xs []
              (subst (λ ys. IsList m l (x ∷ ys)) (sym (append-nil xs)) v) (no_descents x xs k)
              (omega arith))
