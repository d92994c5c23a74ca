-- ===== src/KernelLib/Links/Insert.antt =====
-- lib/kernel/list.c: inserting and removing an element.
use pintos_proj.Prelude.{
  ℕ, zero, suc, ◌≡◌, ◌≢◌, refl, sym, subst, true, false, ◌||◌, not, List, [], ◌∷◌, ◌++◌, ◌==◌,
  arith, ok,
}
use pintos_proj.KernelLib.Links.{
  Links, KernelList, update, is_interior, is_tail, link_before, list_insert,
}
use pintos_proj.KernelLib.Links.Seg.{
  has, Distinct, Seg, first, nodes, IsList, has-append, has-first, Seg-frame, has-prev,
}

-- Links that are the same but at the addresses of a list.
abbrev pub SameOutside : List ℕ → Links → Links → Type 0
SameOutside xs m m' = (z : ℕ) → has z xs ≡ false → (m'.next z ≡ m.next z) × (m'.prev z ≡ m.prev z)

-- The links that list_insert leaves, with `p` before the place.
abbrev inserted : Links → ℕ → ℕ → ℕ → Links
inserted m p e b = record {
  next = update (update m.next e b) p e;
  prev = update (update m.prev e p) b e;
}

link_before-inserted : (m : Links) (b e : ℕ) → e ≢ b → link_before b e m ≡ inserted m (m.prev b) e b
link_before-inserted m b e ne = let t : (e == b) ≡ false = ground (arith, ne) in rw t

pub has-nodes :
    (w : ℕ) (ys zs : List ℕ) (t : ℕ)
    → has w ((ys ++ zs) ++ t ∷ []) ≡ (has w ys || has w (zs ++ t ∷ []))
has-nodes w [] zs t = refl
has-nodes w (y ∷ ys) zs t = let e = has-nodes w ys zs t in ground (arith, e)

Seg-inserted :
    (m : Links) (a e t : ℕ) (ys zs : List ℕ)
    → Seg m a (ys ++ zs) t
    → Distinct (nodes a (ys ++ zs) t)
    → has e (nodes a (ys ++ zs) t) ≡ false
    → Seg (inserted m (m.prev (first zs t)) e (first zs t)) a (ys ++ e ∷ zs) t
unfolding Seg Distinct
Seg-inserted m a e t [] [] (n, p) (out, d) new = (
  ground (arith, p, out, new),
  ground (arith, p, out, new),
  (ground (arith, p, out, new), ground (arith, p, out, new)),
)
Seg-inserted m a e t [] (z ∷ zs) (n, p, s) (out, (out', d)) new = (
  ground (arith, p, out, new),
  ground (arith, p, out, new),
  (
    ground (arith, p, out, new),
    ground (arith, p, out, new),
    Seg-frame m _ z zs t s (λ w h. ground (arith, p, out, out', new, h, has-append w zs (t ∷ [])))
        (λ w h. ground (arith, p, out, out', new, h)),
  ),
)
Seg-inserted m a e t (y ∷ ys) zs (n, p, s) (out, d) new =
    let i = has-first zs t in
    let j = has-prev m y ys zs t s in
    (
      ground (arith, n, out, new, j, has-nodes a ys zs t, has-nodes e ys zs t),
      ground (arith, p, d.0, new, i, has-nodes y ys zs t, has-nodes e ys zs t),
      Seg-inserted m y e t ys zs s d (ground (arith, new)),
    )

Distinct-insert :
    (ys zs : List ℕ) (e t : ℕ)
    → Distinct ((ys ++ zs) ++ t ∷ [])
    → has e ((ys ++ zs) ++ t ∷ []) ≡ false
    → Distinct ((ys ++ e ∷ zs) ++ t ∷ [])
unfolding Distinct
Distinct-insert [] zs e t d new = (new, d)
Distinct-insert (y ∷ ys) zs e t (out, d) new = (
  ground (arith, out, new, has-nodes y ys zs t, has-nodes y ys (e ∷ zs) t),
  Distinct-insert ys zs e t d (ground (arith, new)),
)

pub head_out : (x : ℕ) (xs : List ℕ) → Distinct (x ∷ xs) → has x xs ≡ false
unfolding Distinct
head_out x xs d = d.0

pub Distinct-last : (xs : List ℕ) (t : ℕ) → Distinct (xs ++ t ∷ []) → has t xs ≡ false
unfolding Distinct
Distinct-last [] t d = refl
Distinct-last (x ∷ xs) t (out, d) =
    let e = Distinct-last xs t d in ground (arith, e, out, has-append x xs (t ∷ []))

module _ (m : Links) (l : KernelList) (ys zs : List ℕ) (v : IsList m l (ys ++ zs)) where
  abbrev place : ℕ
  place = first zs l.tail

  -- The place of an insertion, and the element before it.
  pub place_in : has place ((ys ++ zs) ++ l.tail ∷ []) ≡ true
  place_in = ground (arith, has-first zs l.tail, has-nodes place ys zs l.tail)

  pub prev_in : has (m.prev place) (l.head ∷ (ys ++ zs)) ≡ true
  prev_in = ground (arith, has-prev m l.head ys zs l.tail v.seg, has-append (m.prev place) ys zs)

  pub place_asserted : (is_interior m place || is_tail m place) ≡ true
  place_asserted =
      let i = place_in in
      let j = prev_in in
      let k = has-append (m.prev place) (ys ++ zs) (l.tail ∷ []) in
      let h = v.not_null in
      let b : (place == 0) ≡ false = not_zero place (ground (arith, i)) in
      let c : (m.prev place == 0) ≡ false = not_zero (m.prev place) (ground (arith, j, k)) in
      ground (arith, b, c)
    where
      not_zero : (z : ℕ) → has z (nodes l.head (ys ++ zs) l.tail) ≡ true → (z == 0) ≡ false
      not_zero zero t = ground (arith, t, v.not_null)
      not_zero (suc z) t = ground arith

module _ (m : Links) (l : KernelList) (ys zs : List ℕ) (e : ℕ) (v : IsList m l (ys ++ zs))
    (some_e : e ≢ 0) (new : has e (nodes l.head (ys ++ zs) l.tail) ≡ false) where
  abbrev after_insert : Links
  after_insert = inserted m (m.prev (first zs l.tail)) e (first zs l.tail)

  linked : link_before (first zs l.tail) e m ≡ after_insert
  linked =
      link_before-inserted m (first zs l.tail) e (λ q. ground (arith, q, place_in m l ys zs v, new))

  IsList-inserted : IsList after_insert l (ys ++ e ∷ zs)
  IsList-inserted =
      let i = place_in m l ys zs v in
      let j = prev_in m l ys zs v in
      let last = Distinct-last (l.head ∷ (ys ++ zs)) l.tail v.distinct in
      let front = head_out l.head ((ys ++ zs) ++ l.tail ∷ []) v.distinct in
      record {
        seg = Seg-inserted m l.head e l.tail ys zs v.seg v.distinct new;
        distinct = Distinct-insert (l.head ∷ ys) zs e l.tail v.distinct new;
        not_null = ground (
          arith,
          v.not_null,
          some_e,
          has-nodes 0 (l.head ∷ ys) zs l.tail,
          has-nodes 0 (l.head ∷ ys) (e ∷ zs) l.tail,
        );
        before = ground (arith, v.before, i, new, front);
        after = ground (arith, v.after, j, new, last, has-append e (ys ++ zs) (l.tail ∷ []));
      }

  -- The links of list_insert.
  pub IsList-link_before : IsList (link_before (first zs l.tail) e m) l (ys ++ e ∷ zs)
  IsList-link_before = subst (λ k. IsList k l (ys ++ e ∷ zs)) (sym linked) IsList-inserted

  pub link_before-SameOutside :
      SameOutside (e ∷ nodes l.head (ys ++ zs) l.tail) m (link_before (first zs l.tail) e m)
  link_before-SameOutside =
      let i = place_in m l ys zs v in
      let j = prev_in m l ys zs v in
      subst (SameOutside (e ∷ nodes l.head (ys ++ zs) l.tail) m) (sym linked) (λ w out.
        (ground (arith, out, j, has-append w (ys ++ zs) (l.tail ∷ [])), ground (arith, out, i)))

  pub list_insert-ok : list_insert (first zs l.tail) e m ≡ ok (link_before (first zs l.tail) e m)
  unfolding list_insert
  list_insert-ok =
      let t : not (e == 0) ≡ true = ground (arith, some_e) in rw (place_asserted m l ys zs v, t)
