-- ===== src/KernelLib/Links/Remove.antt =====
-- lib/kernel/list.c: removing an element, and the ends of a list.
use pintos_proj.Prelude.{
  ℕ, zero, suc, ◌≡◌, ◌≢◌, refl, sym, subst, true, false, List, [], ◌∷◌, ◌++◌, ◌==◌, arith, ok,
}
use pintos_proj.KernelLib.Links.{Links, KernelList, update, unlink, is_interior, list_remove}
use pintos_proj.KernelLib.Links.Seg.{
  has, Distinct, Seg, first, nodes, IsList, has-append, has-first, Seg-frame, has-prev,
}
use pintos_proj.KernelLib.Links.Insert.{SameOutside, has-nodes, Distinct-last, head_out}

-- The links that list_remove leaves, between `p` and `q`.
abbrev removed : Links → ℕ → ℕ → Links
removed m p q = record { next = update m.next p q; prev = update m.prev q p }

pub next_is_first :
    (m : Links) (a : ℕ) (ys : List ℕ) (e : ℕ) (zs : List ℕ) (t : ℕ)
    → Seg m a (ys ++ e ∷ zs) t
    → m.next e ≡ first zs t
unfolding Seg
next_is_first m a [] e [] t (n, p, (n', p')) = n'
next_is_first m a [] e (z ∷ zs) t (n, p, (n', p', s)) = n'
next_is_first m a (y ∷ ys) e zs t (n, p, s) = next_is_first m y ys e zs t s

Seg-removed :
    (m : Links) (a e t : ℕ) (ys zs : List ℕ)
    → Seg m a (ys ++ e ∷ zs) t
    → Distinct (nodes a (ys ++ e ∷ zs) t)
    → Seg (removed m (m.prev e) (first zs t)) a (ys ++ zs) t
unfolding Seg Distinct
Seg-removed m a e t [] [] (n, p, (n', p')) (out, d) = (ground (arith, p), ground (arith, p))
Seg-removed m a e t [] (z ∷ zs) (n, p, (n', p', s)) (out, (out', (out'', d))) = (
  ground (arith, p),
  ground (arith, p),
  Seg-frame m _ z zs t s (λ w h. ground (arith, p, out, h, has-append w zs (t ∷ [])))
      (λ w h. ground (arith, out'', h)),
)
Seg-removed m a e t (y ∷ ys) zs (n, p, s) (out, d) =
    let j = has-prev m y ys (e ∷ zs) t s in
    let i = has-first zs t in
    (
      ground (arith, n, out, j, has-nodes a ys (e ∷ zs) t),
      ground (arith, p, d.0, i, has-nodes y ys (e ∷ zs) t),
      Seg-removed m y e t ys zs s d,
    )

Distinct-remove :
    (ys zs : List ℕ) (e t : ℕ)
    → Distinct ((ys ++ e ∷ zs) ++ t ∷ [])
    → Distinct ((ys ++ zs) ++ t ∷ [])
unfolding Distinct
Distinct-remove [] zs e t (out, d) = d
Distinct-remove (y ∷ ys) zs e t (out, d) = (
  ground (arith, out, has-nodes y ys zs t, has-nodes y ys (e ∷ zs) t),
  Distinct-remove ys zs e t d,
)

-- An element of a list stands nowhere else in it.
pub Distinct-middle :
    (ys zs : List ℕ) (e t : ℕ)
    → Distinct ((ys ++ e ∷ zs) ++ t ∷ [])
    → (has e ys ≡ false) × (has e (zs ++ t ∷ []) ≡ false)
unfolding Distinct
Distinct-middle [] zs e t (out, d) = (refl, out)
Distinct-middle (y ∷ ys) zs e t (out, d) =
    let (a, b) = Distinct-middle ys zs e t d in
    (ground (arith, a, out, has-nodes y ys (e ∷ zs) t), b)

module _ (m : Links) (l : KernelList) (ys zs : List ℕ) (e : ℕ) (v : IsList m l (ys ++ e ∷ zs)) where
  pub element-is_interior : is_interior m e ≡ true
  element-is_interior =
      let p = has-prev m l.head ys (e ∷ zs) l.tail v.seg in
      let q = next_is_first m l.head ys e zs l.tail v.seg in
      let h = has-nodes (m.prev e) (l.head ∷ ys) (e ∷ zs) l.tail in
      let k = has-nodes (m.next e) (l.head ∷ ys) (e ∷ zs) l.tail in
      let f = has-first zs l.tail in
      let a : (e == 0) ≡ false =
        not_zero e (ground (arith, has-nodes e (l.head ∷ ys) (e ∷ zs) l.tail)) in
      let b : (m.prev e == 0) ≡ false = not_zero (m.prev e) (ground (arith, p, h)) in
      let c : (m.next e == 0) ≡ false = not_zero (m.next e) (ground (arith, q, f, k)) in
      ground (arith, a, b, c)
    where
      not_zero : (z : ℕ) → has z (nodes l.head (ys ++ e ∷ zs) l.tail) ≡ true → (z == 0) ≡ false
      not_zero zero t = ground (arith, t, v.not_null)
      not_zero (suc z) t = ground arith

  unlinked : unlink e m ≡ removed m (m.prev e) (first zs l.tail)
  unlinked =
      let p = has-prev m l.head ys (e ∷ zs) l.tail v.seg in
      let q = next_is_first m l.head ys e zs l.tail v.seg in
      let (before_e, after_e) = Distinct-middle (l.head ∷ ys) zs e l.tail v.distinct in
      let other : (m.prev e == e) ≡ false = ground (arith, p, before_e) in rw (q, other)

  IsList-removed : IsList (removed m (m.prev e) (first zs l.tail)) l (ys ++ zs)
  IsList-removed =
      let p = has-prev m l.head ys (e ∷ zs) l.tail v.seg in
      let f = has-first zs l.tail in
      let front = head_out l.head ((ys ++ e ∷ zs) ++ l.tail ∷ []) v.distinct in
      let last = Distinct-last (l.head ∷ (ys ++ e ∷ zs)) l.tail v.distinct in
      record {
        seg = Seg-removed m l.head e l.tail ys zs v.seg v.distinct;
        distinct = Distinct-remove (l.head ∷ ys) zs e l.tail v.distinct;
        not_null = ground (
          arith,
          v.not_null,
          has-nodes 0 (l.head ∷ ys) zs l.tail,
          has-nodes 0 (l.head ∷ ys) (e ∷ zs) l.tail,
        );
        before = ground (arith, v.before, f, front, has-nodes l.head ys (e ∷ zs) l.tail);
        after = ground (arith, v.after, p, last, has-append l.tail ys (e ∷ zs));
      }

  -- The links of list_remove.
  pub IsList-unlink : IsList (unlink e m) l (ys ++ zs)
  IsList-unlink = subst (λ k. IsList k l (ys ++ zs)) (sym unlinked) IsList-removed

  pub unlink-SameOutside : SameOutside (nodes l.head (ys ++ e ∷ zs) l.tail) m (unlink e m)
  unlink-SameOutside =
      let p = has-prev m l.head ys (e ∷ zs) l.tail v.seg in
      let f = has-first zs l.tail in
      subst (SameOutside (nodes l.head (ys ++ e ∷ zs) l.tail) m) (sym unlinked) (λ w out. (
        ground (arith, out, p, has-nodes w ys (e ∷ zs) l.tail),
        ground (arith, out, f, has-nodes w ys (e ∷ zs) l.tail),
      ))

  pub list_remove-ok : list_remove e m ≡ ok (unlink e m, first zs l.tail)
  unfolding list_remove
  list_remove-ok =
      let p = has-prev m l.head ys (e ∷ zs) l.tail v.seg in
      let q = next_is_first m l.head ys e zs l.tail v.seg in
      let (before_e, after_e) = Distinct-middle (l.head ∷ ys) zs e l.tail v.distinct in
      let other : (m.prev e == e) ≡ false = ground (arith, p, before_e) in
      rw (element-is_interior, q, other)

  -- The element is not NULL, and not in the list without it.
  pub element_not_null : e ≢ 0
  element_not_null q = ground (arith, q, element-is_interior)

  pub element_out : has e (nodes l.head (ys ++ zs) l.tail) ≡ false
  element_out =
      let (a, b) = Distinct-middle (l.head ∷ ys) zs e l.tail v.distinct in
      ground (arith, a, b, has-nodes e (l.head ∷ ys) zs l.tail)
