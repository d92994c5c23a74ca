-- ===== src/KernelLib/Links/Deque.antt =====
-- lib/kernel/list.c: the operations on a list as operations on the sequence of its elements.
use pintos_proj.Prelude.{
  ℕ, zero, suc, ◌+◌, ◌%◌, ◌^◌, ◌<◌, ◌≡◌, ◌≢◌, refl, sym, subst, ap, ◌∙◌, true, false, List, [], ◌∷◌,
  ◌++◌, append-nil, length, arith, ok, panic, ◌>>=◌,
}
use pintos_proj.KernelLib.Links.{
  Links, KernelList, list_begin, list_insert, list_remove, list_push_front, list_push_back,
  list_pop_front, list_front, list_empty, size_loop, list_size, link_before, unlink,
}
use pintos_proj.KernelLib.Links.Seg.{has, Seg, first, nodes, IsList, has-append}
use pintos_proj.KernelLib.Links.Insert.{
  SameOutside, IsList-link_before, link_before-SameOutside, list_insert-ok,
}
use pintos_proj.KernelLib.Links.Remove.{
  IsList-unlink, unlink-SameOutside, list_remove-ok, Distinct-middle,
}
use pintos_proj.KernelLib.Links.Steps.{list_next-at, not_tail, shift}

pub at_begin :
    (m : Links) (l : KernelList) (xs : List ℕ) → IsList m l xs → list_begin l m ≡ first xs l.tail
unfolding Seg
at_begin m l [] v = v.seg.0
at_begin m l (x ∷ xs) v = v.seg.0

module _ (m : Links) (l : KernelList) where
  -- Inserting an element, which is not NULL and has no place in the list yet, before the place where
  -- `zs` starts puts it there in the sequence, and changes no link of an element outside the list.
  pub list_insert-IsList :
      (ys zs : List ℕ) (e : ℕ)
      → IsList m l (ys ++ zs)
      → e ≢ 0
      → has e (nodes l.head (ys ++ zs) l.tail) ≡ false
      → (m' : Links) × (list_insert (first zs l.tail) e m ≡ ok m')
        × IsList m' l (ys ++ (e ∷ zs))
        × SameOutside (e ∷ nodes l.head (ys ++ zs) l.tail) m m'
  list_insert-IsList ys zs e v some_e new = (
    link_before (first zs l.tail) e m,
    list_insert-ok m l ys zs e v some_e new,
    IsList-link_before m l ys zs e v some_e new,
    link_before-SameOutside m l ys zs e v some_e new,
  )

  -- Removing an element of a list takes it out of the sequence, returns the element after it or the
  -- end of the list, and changes no link of an element outside the list.
  pub list_remove-IsList :
      (ys : List ℕ) (e : ℕ) (zs : List ℕ)
      → IsList m l (ys ++ (e ∷ zs))
      → (m' : Links) × (list_remove e m ≡ ok (m', first zs l.tail))
        × IsList m' l (ys ++ zs)
        × SameOutside (nodes l.head (ys ++ (e ∷ zs)) l.tail) m m'
  list_remove-IsList ys e zs v = (
    unlink e m,
    list_remove-ok m l ys zs e v,
    IsList-unlink m l ys zs e v,
    unlink-SameOutside m l ys zs e v,
  )

  -- Pushing at either end.
  push_front :
      (xs : List ℕ) (e : ℕ)
      → IsList m l xs
      → e ≢ 0
      → has e (nodes l.head xs l.tail) ≡ false
      → (m' : Links) × (list_push_front l e m ≡ ok m') × IsList m' l (e ∷ xs)
  unfolding list_push_front
  push_front xs e v some_e new =
      let (m', q, r, o) = list_insert-IsList [] xs e v some_e new in
      (m', ap (λ p. list_insert p e m) (at_begin m l xs v) ∙ q, r)

  push_back :
      (xs : List ℕ) (e : ℕ)
      → IsList m l xs
      → e ≢ 0
      → has e (nodes l.head xs l.tail) ≡ false
      → (m' : Links) × (list_push_back l e m ≡ ok m') × IsList m' l (xs ++ (e ∷ []))
  unfolding list_push_back
  push_back xs e v some_e new =
      let same = sym (append-nil xs) in
      let (m', q, r, o) =
        list_insert-IsList xs [] e (subst (IsList m l) same v) some_e
          (subst (λ ys. has e (nodes l.head ys l.tail) ≡ false) same new) in
      (m', q, r)

  -- What list_pop_front does to a list that holds a sequence.
  abbrev pub FrontPopped : List ℕ → Type 0
  FrontPopped [] = list_pop_front l m ≡ panic
  FrontPopped (x ∷ xs) = (m' : Links) × (list_pop_front l m ≡ ok (m', x)) × IsList m' l xs

  pop_front : (xs : List ℕ) → IsList m l xs → FrontPopped xs
  unfolding list_pop_front list_front
  pop_front [] v = let e : list_empty l m ≡ true = ground (arith, at_begin m l [] v) in rw e refl
  pop_front (x ∷ xs) v =
      let (m', q, r, o) = list_remove-IsList [] x xs v in
      let e : list_empty l m ≡ false = ground (
        arith,
        at_begin m l (x ∷ xs) v,
        (Distinct-middle (l.head ∷ []) xs x l.tail v.distinct).1,
        has-append x xs (l.tail ∷ []),
      ) in
      (m', rw (e, ◌>>=◌, at_begin m l (x ∷ xs) v, q) refl, r)

  size_loop-length :
      (f : ℕ) (ys zs : List ℕ) (c : ℕ)
      → IsList m l (ys ++ zs)
      → length zs < f
      → size_loop f l m (first zs l.tail) (c % 2 ^ 32) ≡ ok ((c + length zs) % 2 ^ 32)
  unfolding size_loop
  size_loop-length zero ys zs c v h = absurd (omega arith)
  size_loop-length (suc f) ys [] c v h = ground arith
  size_loop-length (suc f) ys (z ∷ zs) c v h =
      let wraps : (c % 2 ^ 32 + 1) % 2 ^ 32 ≡ (c + 1) % 2 ^ 32 = omega arith in
      let adds : c + 1 + length zs ≡ c + suc (length zs) = omega arith in
      rw (size_loop, not_tail m l ys z zs v, list_next-at m l ys z zs v, ◌>>=◌, wraps)
        (size_loop-length f (ys ++ (z ∷ [])) zs (c + 1) (subst (IsList m l) (shift ys z zs) v)
            (omega arith)
          ∙ ap (λ k. ok (k % 2 ^ 32)) adds)

  list_size-length :
      (f : ℕ) (xs : List ℕ)
      → IsList m l xs
      → length xs < f
      → list_size f l m ≡ ok (length xs % 2 ^ 32)
  unfolding list_size
  list_size-length f xs v h =
      rw (at_begin m l xs v)
        (size_loop-length f [] xs 0 v h ∙ ap (λ k. ok (k % 2 ^ 32)) (omega arith))
