-- ===== src/KernelLib/Links/Seg.antt =====
-- lib/kernel/list.c: which sequence of elements a list's links stand for.
use pintos_proj.Prelude.{
  ℕ, ◌≡◌, refl, ◌∙◌, Bool, true, false, ◌||◌, List, [], ◌∷◌, ◌++◌, ◌==◌, arith,
}
use pintos_proj.KernelLib.Links.{Links, KernelList}

abbrev pub has : ℕ → List ℕ → Bool
has z [] = false
has z (x ∷ xs) = (z == x) || has z xs

unfoldable pub Distinct : List ℕ → Type 0
Distinct [] = Unit
Distinct (x ∷ xs) = (has x xs ≡ false) × Distinct xs

-- The links lead from `a` through `xs` to `b`, and back.
unfoldable pub Seg : Links → ℕ → List ℕ → ℕ → Type 0
Seg m a [] b = (m.next a ≡ b) × (m.prev b ≡ a)
Seg m a (x ∷ xs) b = (m.next a ≡ x) × (m.prev x ≡ a) × Seg m x xs b

-- The element at which a list goes on, or the end.
abbrev pub first : List ℕ → ℕ → ℕ
first [] t = t
first (x ∷ xs) t = x

-- All addresses of a list.
abbrev pub nodes : ℕ → List ℕ → ℕ → List ℕ
nodes a xs b = a ∷ (xs ++ b ∷ [])

pub record IsList (m : Links) (l : KernelList) (xs : List ℕ) : Type 0 where
  pub seg : Seg m l.head xs l.tail
  pub distinct : Distinct (nodes l.head xs l.tail)
  pub not_null : has 0 (nodes l.head xs l.tail) ≡ false
  pub before : m.prev l.head ≡ 0
  pub after : m.next l.tail ≡ 0

pub has-append : (z : ℕ) (xs ys : List ℕ) → has z (xs ++ ys) ≡ (has z xs || has z ys)
has-append z [] ys = refl
has-append z (x ∷ xs) ys = let e = has-append z xs ys in ground (arith, e)

pub has-first : (zs : List ℕ) (t : ℕ) → has (first zs t) (zs ++ t ∷ []) ≡ true
has-first [] t = ground arith
has-first (z ∷ zs) t = ground arith

-- A segment depends on `next` of all its nodes but the last, and on `prev` of all but the first.
pub Seg-frame :
    (m m' : Links) (a : ℕ) (xs : List ℕ) (t : ℕ)
    → Seg m a xs t
    → ((z : ℕ) → has z (a ∷ xs) ≡ true → m'.next z ≡ m.next z)
    → ((z : ℕ) → has z (xs ++ t ∷ []) ≡ true → m'.prev z ≡ m.prev z)
    → Seg m' a xs t
unfolding Seg
Seg-frame m m' a [] t (n, p) hn hp = (hn a (ground arith) ∙ n, hp t (ground arith) ∙ p)
Seg-frame m m' a (x ∷ xs) t (n, p, s) hn hp = (
  hn a (ground arith) ∙ n,
  hp x (ground arith) ∙ p,
  Seg-frame m m' x xs t s (λ z h. hn z (ground (arith, h))) (λ z h. hp z (ground (arith, h))),
)

-- The element before the place where `zs` starts is one of those before it.
pub has-prev :
    (m : Links) (a : ℕ) (ys zs : List ℕ) (t : ℕ)
    → Seg m a (ys ++ zs) t
    → has (m.prev (first zs t)) (a ∷ ys) ≡ true
unfolding Seg
has-prev m a [] [] t (n, p) = ground (arith, p)
has-prev m a [] (z ∷ zs) t (n, p, s) = ground (arith, p)
has-prev m a (y ∷ ys) zs t (n, p, s) = let e = has-prev m y ys zs t s in ground (arith, e)

pub Seg-append :
    (m : Links) (a : ℕ) (ys : List ℕ) (z : ℕ) (zs : List ℕ) (t : ℕ)
    → Seg m a ys z
    → Seg m z zs t
    → Seg m a (ys ++ z ∷ zs) t
unfolding Seg
Seg-append m a [] z zs t (n, p) s = (n, p, s)
Seg-append m a (y ∷ ys) z zs t (n, p, r) s = (n, p, Seg-append m y ys z zs t r s)

pub Seg-split :
    (m : Links) (a : ℕ) (ys : List ℕ) (z : ℕ) (zs : List ℕ) (t : ℕ)
    → Seg m a (ys ++ z ∷ zs) t
    → Seg m a ys z × Seg m z zs t
unfolding Seg
Seg-split m a [] z zs t (n, p, s) = ((n, p), s)
Seg-split m a (y ∷ ys) z zs t (n, p, s) = let (r, q) = Seg-split m y ys z zs t s in ((n, p, r), q)
