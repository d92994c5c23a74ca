-- ===== src/FileSys/Inodes/Sharing.antt =====
-- filesys/inode.c: the list of open inodes, with the sector of each and its count of openers.
use native.Mathlib.Decide.{ℕ_discrete}
use pintos_proj.Prelude.{
  ℕ, ◌≤◌, ◌<◌, ◌≡◌, ◌≢◌, refl, sym, subst, ap, ◌∙◌, ◌⊎◌, inl, inr, true, false, List, [], ◌∷◌, none,
  some, ◌==◌, arith,
}
use pintos_proj.FileSys.Inode.{Inode}
use pintos_proj.FileSys.Store.{update}
use pintos_proj.FileSys.Inodes.{find_open}

-- An inode that is in use: it has an opener, and at most as many of them deny writes.
pub record IsInUse (v : Inode) : Type 0 where
  pub opened : 0 < v.open_cnt
  pub denied : v.deny_write_cnt ≤ v.open_cnt

-- None of the list is `i` or has the sector.
unfoldable pub IsApart : (ℕ → Inode) → ℕ → ℕ → List ℕ → Type 0
IsApart inodes sector i [] = Unit
IsApart inodes sector i (x ∷ xs) =
    (x ≢ i) × ((inodes x).sector ≢ sector) × IsApart inodes sector i xs

-- All of the list are in use, and no two of them are one inode or have one sector.
unfoldable pub AreShared : (ℕ → Inode) → List ℕ → Type 0
AreShared inodes [] = Unit
AreShared inodes (x ∷ xs) =
    IsInUse (inodes x) × IsApart inodes (inodes x).sector x xs × AreShared inodes xs

unfoldable pub IsNotIn : ℕ → List ℕ → Type 0
IsNotIn p [] = Unit
IsNotIn p (x ∷ xs) = (x ≢ p) × IsNotIn p xs

unfoldable pub IsIn : ℕ → List ℕ → Type 0
IsIn p [] = ⊥
IsIn p (x ∷ xs) = (x ≡ p) ⊎ IsIn p xs

-- An update keeps the sectors of the list: at an address that is not in it, or one that keeps its own.
pub update_other : (f : ℕ → Inode) (p q : ℕ) (v : Inode) → p ≢ q → update f p v q ≡ f q
update_other f p q v h = let e : (p == q) ≡ false = ground (arith, h) in rw e

pub update_self : (f : ℕ → Inode) (p : ℕ) (v : Inode) → update f p v p ≡ v
update_self f p v = let e : (p == p) ≡ true = ground arith in rw e

sector-update :
    (f : ℕ → Inode) (p q : ℕ) (v : Inode)
    → v.sector ≡ (f p).sector
    → (update f p v q).sector ≡ (f q).sector
sector-update f p q v h = elim (ℕ_discrete p q) [
  | yes e ↦
      subst (λ x. (update f p v x).sector ≡ (f x).sector) e
        (ap (λ w. w.sector) (update_self f p v) ∙ h)
  | no n ↦ ap (λ w. w.sector) (update_other f p q v n)
]

IsApart-update :
    (f : ℕ → Inode) (p : ℕ) (v : Inode) (sector i : ℕ) (xs : List ℕ)
    → v.sector ≡ (f p).sector
    → IsApart f sector i xs
    → IsApart (update f p v) sector i xs
unfolding IsApart
IsApart-update f p v sector i [] h a = tt
IsApart-update f p v sector i (x ∷ xs) h (ne, differs, rest) =
    (ne, λ e. differs (sym (sector-update f p x v h) ∙ e), IsApart-update f p v sector i xs h rest)

-- A change of an inode that keeps its sector and leaves it in use keeps the sharing.
pub AreShared-update :
    (f : ℕ → Inode) (p : ℕ) (v : Inode) (xs : List ℕ)
    → v.sector ≡ (f p).sector
    → IsInUse v
    → AreShared f xs
    → AreShared (update f p v) xs
unfolding AreShared
AreShared-update f p v [] h u a = tt
AreShared-update f p v (x ∷ xs) h u (used, apart, rest) = (
  used_after (ℕ_discrete p x),
  subst (λ s. IsApart (update f p v) s x xs) (sym (sector-update f p x v h))
      (IsApart-update f p v (f x).sector x xs h apart),
  AreShared-update f p v xs h u rest,
)
  where
    used_after : Dec (p ≡ x) → IsInUse (update f p v x)
    used_after (yes e) =
        subst (λ y. IsInUse (update f p v y)) e (subst IsInUse (sym (update_self f p v)) u)
    used_after (no n) = subst IsInUse (sym (update_other f p x v n)) used

-- What inode_open finds is in the list and has the sector; if it finds nothing, no inode has it.
pub find_open_cases :
    (f : ℕ → Inode) (sector : ℕ) (xs : List ℕ)
    → ((i : ℕ) × (find_open f sector xs ≡ some i) × IsIn i xs × ((f i).sector ≡ sector))
      ⊎ ((find_open f sector xs ≡ none) × ((i : ℕ) → IsNotIn i xs → IsApart f sector i xs))
unfolding find_open IsIn IsApart IsNotIn
find_open_cases f sector [] = inr (refl, λ i h. tt)
find_open_cases f sector (x ∷ xs) = elim (ℕ_discrete (f x).sector sector) [
  | yes e ↦
      let t : ((f x).sector == sector) ≡ true = ground (arith, e) in inl (x, rw t, inl refl, e)
  | no n ↦
      let t : ((f x).sector == sector) ≡ false = ground (arith, n) in
      elim (find_open_cases f sector xs) [
        | inl (i, q, m, s) ↦ inl (i, rw t q, inr m, s)
        | inr (q, a) ↦ inr (rw t q, λ i (ne, h). (ne, n, a i h))
      ]
]

pub IsInUse-IsIn :
    (f : ℕ → Inode) (i : ℕ) (xs : List ℕ) → AreShared f xs → IsIn i xs → IsInUse (f i)
unfolding AreShared IsIn
IsInUse-IsIn f i [] a m = elim m [ ]
IsInUse-IsIn f i (x ∷ xs) (used, apart, rest) (inl e) = subst (λ y. IsInUse (f y)) e used
IsInUse-IsIn f i (x ∷ xs) (used, apart, rest) (inr m) = IsInUse-IsIn f i xs rest m

pub IsApart-new :
    (f : ℕ → Inode) (p : ℕ) (v : Inode) (sector i : ℕ) (xs : List ℕ)
    → IsNotIn p xs
    → IsApart f sector i xs
    → IsApart (update f p v) sector i xs
unfolding IsApart IsNotIn
IsApart-new f p v sector i [] h a = tt
IsApart-new f p v sector i (x ∷ xs) (other, h) (ne, differs, rest) = (
  ne,
  λ e. differs (sym (ap (λ w. w.sector) (update_other f p x v (λ q. other (sym q)))) ∙ e),
  IsApart-new f p v sector i xs h rest,
)

pub AreShared-new :
    (f : ℕ → Inode) (p : ℕ) (v : Inode) (xs : List ℕ)
    → IsNotIn p xs
    → AreShared f xs
    → AreShared (update f p v) xs
unfolding AreShared IsNotIn
AreShared-new f p v [] h a = tt
AreShared-new f p v (x ∷ xs) (other, h) (used, apart, rest) =
    let e = update_other f p x v (λ q. other (sym q)) in
    (
      subst IsInUse (sym e) used,
      subst (λ s. IsApart (update f p v) s x xs) (sym (ap (λ w. w.sector) e))
          (IsApart-new f p v (f x).sector x xs h apart),
      AreShared-new f p v xs h rest,
    )

outside :
    (f : ℕ → Inode) (x sector j : ℕ) (xs : List ℕ)
    → IsApart f sector x xs
    → IsIn j xs
    → (f j).sector ≢ sector
unfolding IsApart IsIn
outside f x sector j [] a m e = elim m [ ]
outside f x sector j (y ∷ ys) (ne, differs, rest) (inl q) e = differs (ap (λ z. (f z).sector) q ∙ e)
outside f x sector j (y ∷ ys) (ne, differs, rest) (inr m) e = outside f x sector j ys rest m e

pub finds :
    (f : ℕ → Inode) (sector i : ℕ) (xs : List ℕ)
    → IsIn i xs
    → (f i).sector ≡ sector
    → find_open f sector xs ≢ none
unfolding find_open IsIn
finds f sector i [] m s e = elim m [ ]
finds f sector i (x ∷ xs) (inl q) s e =
    let t : ((f x).sector == sector) ≡ true = ground (arith, ap (λ z. (f z).sector) q, s) in
    ground (arith, e, t)
finds f sector i (x ∷ xs) (inr m) s e = let h = finds f sector i xs m s in ground (arith, e, h)

-- Two inodes of the list that have one sector are one inode.
pub one_of_sector :
    (f : ℕ → Inode) (i j : ℕ) (xs : List ℕ)
    → AreShared f xs
    → IsIn i xs
    → IsIn j xs
    → (f i).sector ≡ (f j).sector
    → i ≡ j
unfolding AreShared IsIn
one_of_sector f i j [] a m n e = elim m [ ]
one_of_sector f i j (x ∷ xs) a (inl p) (inl q) e = sym p ∙ q
one_of_sector f i j (x ∷ xs) (u, apart, a) (inl p) (inr n) e =
    absurd (outside f x (f x).sector j xs apart n (sym e ∙ ap (λ y. (f y).sector) (sym p)))
one_of_sector f i j (x ∷ xs) (u, apart, a) (inr m) (inl q) e =
    absurd (outside f x (f x).sector i xs apart m (e ∙ ap (λ y. (f y).sector) (sym q)))
one_of_sector f i j (x ∷ xs) (u, apart, a) (inr m) (inr n) e = one_of_sector f i j xs a m n e
