-- ===== src/KernelLib/Links/Steps.antt =====
-- lib/kernel/list.c: moving along a list and moving one element of it, as changes of a sequence.
use pintos_proj.Prelude.{
  ℕ, ◌≡◌, refl, sym, subst, ap, true, false, ◌||◌, List, [], ◌∷◌, ◌++◌, ◌==◌, append_assoc, arith,
  ok,
}
use pintos_proj.KernelLib.Links.{
  Links, KernelList, is_head, is_interior, is_tail, list_next, list_prev, list_splice, link_before,
  unlink,
}
use pintos_proj.KernelLib.Links.Seg.{has, Seg, first, nodes, IsList, has-append, has-first}
use pintos_proj.KernelLib.Links.Insert.{IsList-link_before, place_asserted, has-nodes}
use pintos_proj.KernelLib.Links.Remove.{
  next_is_first, Distinct-middle, element-is_interior, IsList-unlink, element_not_null, element_out,
}

-- The element `a` at the end of what goes before.
pub shift : (ys : List ℕ) (a : ℕ) (zs : List ℕ) → ys ++ (a ∷ zs) ≡ (ys ++ (a ∷ [])) ++ zs
shift ys a zs = sym (append_assoc ys (a ∷ []) zs)

prev_is_last :
    (m : Links) (h : ℕ) (ys : List ℕ) (a : ℕ) (zs : List ℕ) (t : ℕ)
    → Seg m h (ys ++ (a ∷ zs)) t
    → m.prev (first zs t) ≡ a
unfolding Seg
prev_is_last m h [] a [] t (n, p, (n', p')) = p'
prev_is_last m h [] a (z ∷ zs) t (n, p, (n', p', s)) = p'
prev_is_last m h (y ∷ ys) a zs t (n, p, s) = prev_is_last m y ys a zs t s

module _ (m : Links) (l : KernelList) where
  pub list_next-at :
      (ys : List ℕ) (a : ℕ) (zs : List ℕ)
      → IsList m l (ys ++ (a ∷ zs))
      → list_next m a ≡ ok (first zs l.tail)
  unfolding list_next
  list_next-at ys a zs v =
      let t : (is_head m a || is_interior m a) ≡ true =
        ground (arith, element-is_interior m l ys zs a v) in
      rw t (ap ok (next_is_first m l.head ys a zs l.tail v.seg))

  pub list_prev-at :
      (ys : List ℕ) (a : ℕ) (zs : List ℕ)
      → IsList m l (ys ++ (a ∷ zs))
      → list_prev m (first zs l.tail) ≡ ok a
  unfolding list_prev
  list_prev-at ys a zs v =
      rw (place_asserted m l (ys ++ (a ∷ [])) zs (subst (IsList m l) (shift ys a zs) v))
        (ap ok (prev_is_last m l.head ys a zs l.tail v.seg))

  -- An element is not the place after some elements that follow it.
  pub place_differs :
      (ys : List ℕ) (a : ℕ) (us zs : List ℕ)
      → IsList m l (ys ++ (a ∷ (us ++ zs)))
      → (a == first zs l.tail) ≡ false
  place_differs ys a us zs v =
      let (b, c) = Distinct-middle (l.head ∷ ys) (us ++ zs) a l.tail v.distinct in
      let f = has-first zs l.tail in ground (arith, c, f, has-nodes a us zs l.tail)

  pub element_some :
      (ys : List ℕ) (a : ℕ) (zs : List ℕ) → IsList m l (ys ++ (a ∷ zs)) → (a == 0) ≡ false
  element_some ys a zs v = let n = element_not_null m l ys zs a v in ground (arith, n)

  pub not_tail :
      (ys : List ℕ) (a : ℕ) (zs : List ℕ) → IsList m l (ys ++ (a ∷ zs)) → (a == l.tail) ≡ false
  not_tail ys a zs v =
      let (b, c) = Distinct-middle (l.head ∷ ys) zs a l.tail v.distinct in
      ground (arith, c, has-append a zs (l.tail ∷ []))

  pub tail_some : (xs : List ℕ) → IsList m l xs → (l.tail == 0) ≡ false
  tail_some xs v = ground (arith, v.not_null, has-append 0 xs (l.tail ∷ []))

  -- Moving one element to an earlier place, as inplace_merge does.
  pub list_splice-one :
      (ys : List ℕ) (a : ℕ) (us : List ℕ) (x : ℕ) (zs : List ℕ)
      → IsList m l (ys ++ (a ∷ (us ++ (x ∷ zs))))
      → (m' : Links) × (list_splice a x (first zs l.tail) m ≡ ok m')
        × IsList m' l (ys ++ (x ∷ (a ∷ (us ++ zs))))
  unfolding list_splice
  list_splice-one ys a us x zs v =
      let e : ys ++ (a ∷ (us ++ (x ∷ zs))) ≡ (ys ++ (a ∷ us)) ++ (x ∷ zs) =
        sym (append_assoc ys (a ∷ us) (x ∷ zs)) in
      let e' : (ys ++ (a ∷ us)) ++ zs ≡ ys ++ (a ∷ (us ++ zs)) = append_assoc ys (a ∷ us) zs in
      let w = subst (IsList m l) e v in
      let without = subst (IsList (unlink x m) l) e' (IsList-unlink m l (ys ++ (a ∷ us)) zs x w) in
      let out =
        subst (λ xs. has x (nodes l.head xs l.tail) ≡ false) e'
          (element_out m l (ys ++ (a ∷ us)) zs x w) in
      let asserted : (is_interior m a || is_tail m a) ≡ true =
        ground (arith, element-is_interior m l ys (us ++ (x ∷ zs)) a v) in
      (
        link_before a x (unlink x m),
        rw (asserted, place_differs (ys ++ (a ∷ us)) x [] zs w)
            (rw
              (
                list_prev-at (ys ++ (a ∷ us)) x zs w,
                element-is_interior m l (ys ++ (a ∷ us)) zs x w,
              )
              refl),
        IsList-link_before (unlink x m) l ys (a ∷ (us ++ zs)) x without
            (element_not_null m l (ys ++ (a ∷ us)) zs x w) out,
      )
