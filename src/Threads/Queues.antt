-- ===== src/Threads/Queues.antt =====
-- Facts about lists of threads: membership, distinct entries, removal, and predicates that hold of
-- the struct of every thread of a list while the store changes elsewhere.
use pintos_proj.Prelude.{
  ℕ, ◌≡◌, sym, ap, ◌≢◌, inl, inr, true, false, List, [], ◌∷◌, ◌++◌, arith, ◌==◌, ==_iff, Bool-cases,
}
use pintos_proj.Threads.State.{update, remove}

abbrev pub NotIn : ℕ → List ℕ → Type 0
NotIn t [] = Unit
NotIn t (x ∷ xs) = (x ≢ t) × NotIn t xs

abbrev pub Distinct : List ℕ → Type 0
Distinct [] = Unit
Distinct (x ∷ xs) = NotIn x xs × Distinct xs

-- `P` holds of what the store has for each pointer of the list.
abbrev pub Each {ℓ} : {A : Type ℓ} → (A → Type 0) → (ℕ → A) → List ℕ → Type 0
Each P f [] = Unit
Each P f (x ∷ xs) = P (f x) × Each P f xs

pub ==-refl : (x : ℕ) → (x == x) ≡ true
==-refl x = ground arith

pub ==-ne : (x y : ℕ) → x ≢ y → (x == y) ≡ false
==-ne x y h = ground arith

pub update_self {ℓ} : {A : Type ℓ} (f : ℕ → A) (t : ℕ) (v : A) → update f t v t ≡ v
update_self f t v = ground arith

pub update_ne {ℓ} : {A : Type ℓ} (f : ℕ → A) (t x : ℕ) (v : A) → t ≢ x → update f t v x ≡ f x
update_ne f t x v h = ground arith

module _ {ℓ} {A : Type ℓ} (P : A → Type 0) where
  pub Each-update :
      (f : ℕ → A) (t : ℕ) (v : A) (xs : List ℕ)
      → NotIn t xs
      → Each P f xs
      → Each P (update f t v) xs
  Each-update f t v [] n e = tt
  Each-update f t v (x ∷ xs) n e =
      (rw (update_ne f t x v (λ p. n.0 (sym p))) e.0, Each-update f t v xs n.1 e.1)

  pub Each-append : (f : ℕ → A) (xs ys : List ℕ) → Each P f xs → Each P f ys → Each P f (xs ++ ys)
  Each-append f [] ys ex ey = ey
  Each-append f (x ∷ xs) ys ex ey = (ex.0, Each-append f xs ys ex.1 ey)

  pub Each-remove : (f : ℕ → A) (t : ℕ) (xs : List ℕ) → Each P f xs → Each P f (remove t xs)
  unfolding remove
  Each-remove f t [] e = tt
  Each-remove f t (x ∷ xs) e = elim (Bool-cases (x == t)) [
    | inl h ↦ rw h e.1
    | inr h ↦ rw h (e.0, Each-remove f t xs e.1)
  ]

  -- A pointer of whose struct `P` fails is not in a list of structs with `P`.
  pub Each-NotIn : (f : ℕ → A) (t : ℕ) (xs : List ℕ) → ¬ (P (f t)) → Each P f xs → NotIn t xs
  Each-NotIn f t [] n e = tt
  Each-NotIn f t (x ∷ xs) n e = ((λ p. n (rw (← p) e.0)), Each-NotIn f t xs n e.1)

pub NotIn-append : (t : ℕ) (xs ys : List ℕ) → NotIn t xs → NotIn t ys → NotIn t (xs ++ ys)
NotIn-append t [] ys nx ny = ny
NotIn-append t (x ∷ xs) ys nx ny = (nx.0, NotIn-append t xs ys nx.1 ny)

pub NotIn-remove : (t u : ℕ) (xs : List ℕ) → NotIn t xs → NotIn t (remove u xs)
unfolding remove
NotIn-remove t u [] n = tt
NotIn-remove t u (x ∷ xs) n = elim (Bool-cases (x == u)) [
  | inl h ↦ rw h n.1
  | inr h ↦ rw h (n.0, NotIn-remove t u xs n.1)
]

pub Distinct-append_one :
    (xs : List ℕ) (t : ℕ) → Distinct xs → NotIn t xs → Distinct (xs ++ (t ∷ []))
Distinct-append_one [] t d n = (tt, tt)
Distinct-append_one (x ∷ xs) t d n =
    (NotIn-append x xs (t ∷ []) d.0 ((λ e. n.0 (sym e)), tt), Distinct-append_one xs t d.1 n.1)

pub Distinct-remove : (t : ℕ) (xs : List ℕ) → Distinct xs → Distinct (remove t xs)
unfolding remove
Distinct-remove t [] d = tt
Distinct-remove t (x ∷ xs) d = elim (Bool-cases (x == t)) [
  | inl h ↦ rw h d.1
  | inr h ↦ rw h (NotIn-remove x t xs d.0, Distinct-remove t xs d.1)
]

-- In a list with distinct entries nothing of a removed entry is left.
pub NotIn-remove_self : (t : ℕ) (xs : List ℕ) → Distinct xs → NotIn t (remove t xs)
unfolding remove
NotIn-remove_self t [] d = tt
NotIn-remove_self t (x ∷ xs) d = elim (Bool-cases (x == t)) [
  | inl h ↦ rw h (let e : x ≡ t = (==_iff x t).0 h in rw e at d.0)
  | inr h ↦ rw h ((λ (e : x ≡ t). ground arith), NotIn-remove_self t xs d.1)
]

-- An entry that does not stand before it is cut out of the middle.
pub remove-split : (t : ℕ) (xs ys : List ℕ) → NotIn t xs → remove t (xs ++ (t ∷ ys)) ≡ xs ++ ys
unfolding remove
remove-split t [] ys n = rw (==-refl t)
remove-split t (x ∷ xs) ys n = rw (==-ne x t n.0) (ap (λ l. x ∷ l) (remove-split t xs ys n.1))

-- An entry in the middle of a list, and the rest.
pub Each-middle {ℓ} :
    {A : Type ℓ} (P : A → Type 0) (f : ℕ → A) (t : ℕ) (xs ys : List ℕ)
    → Each P f (xs ++ (t ∷ ys))
    → P (f t) × Each P f (xs ++ ys)
Each-middle P f t [] ys e = e
Each-middle P f t (x ∷ xs) ys e = let r = Each-middle P f t xs ys e.1 in (r.0, (e.0, r.1))

pub NotIn-middle :
    (t u : ℕ) (xs ys : List ℕ) → NotIn u (xs ++ (t ∷ ys)) → (t ≢ u) × NotIn u (xs ++ ys)
NotIn-middle t u [] ys n = n
NotIn-middle t u (x ∷ xs) ys n = let r = NotIn-middle t u xs ys n.1 in (r.0, (n.0, r.1))

pub Distinct-middle :
    (t : ℕ) (xs ys : List ℕ)
    → Distinct (xs ++ (t ∷ ys))
    → NotIn t xs × NotIn t (xs ++ ys) × Distinct (xs ++ ys)
Distinct-middle t [] ys d = (tt, d.0, d.1)
Distinct-middle t (x ∷ xs) ys d =
    let r = Distinct-middle t xs ys d.1 in
    let n = NotIn-middle t x xs ys d.0 in
    ((λ e. n.0 (sym e), r.0), (λ e. n.0 (sym e), r.1), (n.1, r.2))

pub NotIn-right : (t : ℕ) (xs ys : List ℕ) → NotIn t (xs ++ ys) → NotIn t ys
NotIn-right t [] ys n = n
NotIn-right t (x ∷ xs) ys n = NotIn-right t xs ys n.1
