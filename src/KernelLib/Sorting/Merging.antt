-- ===== src/KernelLib/Sorting/Merging.antt =====
-- lib/kernel/list.c: what is_sorted, find_end_of_run and inplace_merge do to a sequence.
use pintos_proj.Prelude.{
  ℕ, zero, suc, ◌+◌, ◌<◌, ◌≡◌, refl, sym, subst, ap, Bool, true, false, ◌||◌, inl, inr, List, [],
  ◌∷◌, ◌++◌, ◌==◌, append_assoc, length, Bool-cases, arith, ok, ◌>>=◌,
}
use pintos_proj.KernelLib.Links.{Links, KernelList}
use pintos_proj.KernelLib.Links.Seg.{first, IsList}
use pintos_proj.KernelLib.Sorting.{is_sorted_loop, is_sorted, run_loop, find_end_of_run, merge_loop}
use pintos_proj.KernelLib.Sorting.Runs.{
  descents, run_count, IsMerge, left, right, take_left, take_right,
}
use pintos_proj.KernelLib.Links.Steps.{
  shift, list_next-at, list_prev-at, place_differs, element_some, not_tail, tail_some,
  list_splice-one,
}

self_equal : (x : ℕ) → (x == x) ≡ true
self_equal x = ground arith

module _ (less : ℕ → ℕ → Bool) (l : KernelList) where
  is_sorted_loop-true :
      (f : ℕ) (m : Links) (ys : List ℕ) (a : ℕ) (us zs : List ℕ)
      → IsList m l (ys ++ (a ∷ (us ++ zs)))
      → descents less a us ≡ 0
      → length us < f
      → is_sorted_loop less f a (first zs l.tail) m ≡ ok true
  unfolding is_sorted_loop descents
  is_sorted_loop-true zero m ys a us zs v d h = absurd (omega arith)
  is_sorted_loop-true (suc f) m ys a [] zs v d h = rw (list_next-at m l ys a zs v) (ground arith)
  is_sorted_loop-true (suc f) m ys a (x ∷ us) zs v d h =
      let w = subst (IsList m l) (shift ys a (x ∷ (us ++ zs))) v in
      let up : less x a ≡ false = ground (arith, d) in
      rw
        (
          list_next-at m l ys a (x ∷ (us ++ zs)) v,
          ◌>>=◌,
          place_differs m l (ys ++ (a ∷ [])) x us zs w,
          list_prev-at m l ys a (x ∷ (us ++ zs)) v,
          up,
        )
        (is_sorted_loop-true f m (ys ++ (a ∷ [])) x us zs w (ground (arith, d)) (omega arith))

  pub is_sorted-true :
      (n : ℕ) (m : Links) (ys : List ℕ) (a : ℕ) (us zs : List ℕ)
      → IsList m l (ys ++ (a ∷ (us ++ zs)))
      → descents less a us ≡ 0
      → length us < n
      → is_sorted less n a (first zs l.tail) m ≡ ok true
  unfolding is_sorted
  is_sorted-true n m ys a us zs v d h =
      rw (is_sorted, place_differs m l ys a us zs v) (is_sorted_loop-true n m ys a us zs v d h)

  -- The rest of a list from `a` on is a maximal run `us`, of which `a` is the first, and what follows.
  pub record IsRun (a : ℕ) (rest us zs : List ℕ) : Type 0 where
    pub parts : rest ≡ us ++ zs
    pub nondecreasing : descents less a us ≡ 0
    pub maximal : descents less a rest ≡ run_count less zs

  run_loop-IsRun :
      (f : ℕ) (m : Links) (ys : List ℕ) (a : ℕ) (rest : List ℕ)
      → IsList m l (ys ++ (a ∷ rest))
      → length rest < f
      → (us : List ℕ) × (zs : List ℕ) × (run_loop less f a l.tail m ≡ ok (first zs l.tail))
        × IsRun a rest us zs
  unfolding run_loop descents run_count
  run_loop-IsRun zero m ys a rest v h = absurd (omega arith)
  run_loop-IsRun (suc f) m ys a [] v h = (
    [],
    [],
    rw (list_next-at m l ys a [] v) (ground arith),
    record { parts = refl; nondecreasing = refl; maximal = refl },
  )
  run_loop-IsRun (suc f) m ys a (x ∷ rest) v h =
      let w = subst (IsList m l) (shift ys a (x ∷ rest)) v in
      elim (Bool-cases (less x a)) [
        | inl down ↦ (
          [],
          x ∷ rest,
          rw (
            list_next-at m l ys a (x ∷ rest) v,
            ◌>>=◌,
            not_tail m l (ys ++ (a ∷ [])) x rest w,
            list_prev-at m l ys a (x ∷ rest) v,
            down,
          ),
          record { parts = refl; nondecreasing = refl; maximal = ground (arith, down) },
        )
        | inr up ↦
            let (us, zs, e, r) = run_loop-IsRun f m (ys ++ (a ∷ [])) x rest w (omega arith) in
            (
              x ∷ us,
              zs,
              rw
                  (
                    list_next-at m l ys a (x ∷ rest) v,
                    ◌>>=◌,
                    not_tail m l (ys ++ (a ∷ [])) x rest w,
                    list_prev-at m l ys a (x ∷ rest) v,
                    up,
                  )
                  e,
              record {
                parts = ap (◌∷◌ x) r.parts;
                nondecreasing = ground (arith, up, r.nondecreasing);
                maximal = ground (arith, up, r.maximal);
              },
            )
      ]

  pub find_end_of_run-IsRun :
      (n : ℕ) (m : Links) (ys : List ℕ) (a : ℕ) (rest : List ℕ)
      → IsList m l (ys ++ (a ∷ rest))
      → length rest < n
      → (us : List ℕ) × (zs : List ℕ) × (find_end_of_run less n a l.tail m ≡ ok (first zs l.tail))
        × IsRun a rest us zs
  unfolding find_end_of_run
  find_end_of_run-IsRun n m ys a rest v h =
      let (us, zs, e, r) = run_loop-IsRun n m ys a rest v h in
      (
        us,
        zs,
        rw
            (
              element_some m l ys a rest v,
              tail_some m l (ys ++ (a ∷ rest)) v,
              not_tail m l ys a rest v,
            )
            e,
        r,
      )

  pub merge_loop-IsMerge :
      (f : ℕ) (m : Links) (ys us vs zs : List ℕ)
      → IsList m l (ys ++ (us ++ (vs ++ zs)))
      → length us + length vs < f
      → (m' : Links) × (ws : List ℕ) × (merge_loop less f
            (first (us ++ (vs ++ zs)) l.tail)
            (first (vs ++ zs) l.tail)
            (first zs l.tail)
            m
          ≡ ok m')
        × IsMerge less us vs ws
        × IsList m' l (ys ++ (ws ++ zs))
  unfolding merge_loop
  merge_loop-IsMerge zero m ys us vs zs v h = absurd (omega arith)
  merge_loop-IsMerge (suc f) m ys [] vs zs v h =
      (m, vs, rw (merge_loop, self_equal (first (vs ++ zs) l.tail)) refl, left, v)
  merge_loop-IsMerge (suc f) m ys (a ∷ us) [] zs v h =
      let t : ((a == first zs l.tail) || (first zs l.tail == first zs l.tail)) ≡ true =
        ground arith in
      (m, a ∷ us, rw (merge_loop, t) refl, right, v)
  merge_loop-IsMerge (suc f) m ys (a ∷ us) (b ∷ vs) zs v h =
      let e : ys ++ (a ∷ (us ++ (b ∷ (vs ++ zs)))) ≡ (ys ++ (a ∷ us)) ++ (b ∷ (vs ++ zs)) =
        sym (append_assoc ys (a ∷ us) (b ∷ (vs ++ zs))) in
      let w = subst (IsList m l) e v in
      let go : ((a == b) || (b == first zs l.tail)) ≡ false = ground (
        arith,
        place_differs m l ys a us (b ∷ (vs ++ zs)) v,
        place_differs m l (ys ++ (a ∷ us)) b vs zs w,
      ) in
      elim (Bool-cases (less b a)) [
        | inr keep ↦
            let (m', ws, q, g, r) =
              merge_loop-IsMerge f m (ys ++ (a ∷ [])) us (b ∷ vs) zs
                (subst (IsList m l) (shift ys a (us ++ (b ∷ (vs ++ zs)))) v) (omega arith) in
            (
              m',
              a ∷ ws,
              rw (merge_loop, go, keep, list_next-at m l ys a (us ++ (b ∷ (vs ++ zs))) v) q,
              take_left keep g,
              subst (IsList m' l) (sym (shift ys a (ws ++ zs))) r,
            )
        | inl move ↦
            let (m₁, s, v₁) = list_splice-one m l ys a us b (vs ++ zs) v in
            let (m', ws, q, g, r) =
              merge_loop-IsMerge f m₁ (ys ++ (b ∷ [])) (a ∷ us) vs zs
                (subst (IsList m₁ l) (shift ys b (a ∷ (us ++ (vs ++ zs)))) v₁) (omega arith) in
            (
              m',
              b ∷ ws,
              rw
                  (
                    merge_loop,
                    go,
                    move,
                    list_next-at m l (ys ++ (a ∷ us)) b (vs ++ zs) w,
                    list_prev-at m l (ys ++ (a ∷ us)) b (vs ++ zs) w,
                    s,
                  )
                  q,
              take_right move g,
              subst (IsList m' l) (sym (shift ys b (ws ++ zs))) r,
            )
      ]
