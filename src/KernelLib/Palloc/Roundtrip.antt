-- ===== src/KernelLib/Palloc/Roundtrip.antt =====
-- Pages that are handed out and given back.
use pintos_proj.Prelude.{
  ℕ, ◌+◌, ◌*◌, ◌<◌, ◌≡◌, refl, sym, subst, ap, ◌∙◌, inl, inr, Bool, true, false, some, arith, ok,
}
use pintos_proj.KernelLib.Bitmap.{Bitmap}
use pintos_proj.KernelLib.Bitmap.Single.{bit, IsValid}
use pintos_proj.KernelLib.Bitmap.Range.{undone, Run, IsRangeSet}
use pintos_proj.KernelLib.Bitmap.Scan.{NoRun}
use pintos_proj.KernelLib.Palloc.{
  Flags, Pages, pool_of, set_used, palloc_get_multiple, palloc_free_multiple,
}
use pintos_proj.KernelLib.Palloc.Freeing.{IsLaidOut, page_at, palloc_free_multiple_lem}
use pintos_proj.KernelLib.Palloc.Getting.{palloc_get_multiple-Gets}

set_used-base :
    (u user : Bool) (b : Bitmap) (s : Pages)
    → (pool_of user (set_used u b s)).base ≡ (pool_of user s).base
set_used-base true true b s = refl
set_used-base true false b s = refl
set_used-base false true b s = refl
set_used-base false false b s = refl

set_used-bit_cnt :
    (u user : Bool) (b : Bitmap) (s : Pages)
    → b.bit_cnt ≡ (pool_of u s).used_map.bit_cnt
    → (pool_of user (set_used u b s)).used_map.bit_cnt ≡ (pool_of user s).used_map.bit_cnt
set_used-bit_cnt true true b s size = size
set_used-bit_cnt true false b s size = refl
set_used-bit_cnt false true b s size = refl
set_used-bit_cnt false false b s size = size

IsValid-set_used :
    (u user : Bool) (b : Bitmap) (s : Pages)
    → IsLaidOut s
    → IsValid b
    → IsValid (pool_of user (set_used u b s)).used_map
IsValid-set_used true true b s v valid = valid
IsValid-set_used true false b s v valid = v.valid false
IsValid-set_used false true b s v valid = v.valid true
IsValid-set_used false false b s v valid = valid

used_map-set_used : (u : Bool) (b : Bitmap) (s : Pages) → (pool_of u (set_used u b s)).used_map ≡ b
used_map-set_used true b s = refl
used_map-set_used false b s = refl

-- The pools are laid out as before when the map of one is replaced by one of its size.
laid_out :
    (u : Bool) (b : Bitmap) (s s' : Pages)
    → IsLaidOut s
    → IsValid b
    → b.bit_cnt ≡ (pool_of u s).used_map.bit_cnt
    → ((user : Bool) → pool_of user s' ≡ pool_of user (set_used u b s))
    → IsLaidOut s'
laid_out u b s s' v valid size same = record {
  valid = λ user.
      subst (λ p. IsValid p.used_map) (sym (same user)) (IsValid-set_used u user b s v valid);
  aligned = λ user. omega (arith, base_same user, v.aligned user);
  not_null = λ user. omega (arith, base_same user, v.not_null user);
  order = omega (arith, base_same false, base_same true, count_same false, v.order);
}
  where
    base_same : (user : Bool) → (pool_of user s').base ≡ (pool_of user s).base
    base_same user = ap (λ p. p.base) (same user) ∙ set_used-base u user b s

    count_same :
        (user : Bool) → (pool_of user s').used_map.bit_cnt ≡ (pool_of user s).used_map.bit_cnt
    count_same user = ap (λ p. p.used_map.bit_cnt) (same user) ∙ set_used-bit_cnt u user b s size

-- What comes of freeing the pages that palloc_get_multiple returned.
abbrev pub GivesBack : Flags → ℕ → Pages → Type 0
GivesBack flags cnt s =
    (s' : Pages) × (s'' : Pages) × (page : ℕ) × (palloc_get_multiple flags cnt s
      ≡ ok (s', some page))
    × (palloc_free_multiple page cnt s' ≡ ok s'')
    × ((user : Bool) (j : ℕ) → bit (pool_of user s'').used_map j ≡ bit (pool_of user s).used_map j)

gives_back :
    (u : Bool) (s s' s'' : Pages) (b b' : Bitmap) (idx cnt : ℕ)
    → Run (pool_of u s).used_map idx cnt false
    → IsRangeSet (pool_of u s).used_map idx cnt true b
    → IsRangeSet b idx cnt false b'
    → ((user : Bool) → pool_of user s' ≡ pool_of user (set_used u b s))
    → ((user : Bool) → pool_of user s'' ≡ pool_of user (set_used u b' s'))
    → (user : Bool) (j : ℕ) → bit (pool_of user s'').used_map j ≡ bit (pool_of user s).used_map j
gives_back true s s' s'' b b' idx cnt free r₁ r₂ e₁ e₂ true j =
    ap (λ p. bit p.used_map j) (e₂ true) ∙ undone s.user_pool.used_map b b' idx cnt free r₁ r₂ j
gives_back true s s' s'' b b' idx cnt free r₁ r₂ e₁ e₂ false j =
    ap (λ p. bit p.used_map j) (e₂ false) ∙ ap (λ p. bit p.used_map j) (e₁ false)
gives_back false s s' s'' b b' idx cnt free r₁ r₂ e₁ e₂ true j =
    ap (λ p. bit p.used_map j) (e₂ true) ∙ ap (λ p. bit p.used_map j) (e₁ true)
gives_back false s s' s'' b b' idx cnt free r₁ r₂ e₁ e₂ false j =
    ap (λ p. bit p.used_map j) (e₂ false) ∙ undone s.kernel_pool.used_map b b' idx cnt free r₁ r₂ j

-- Where there is a run of unused pages of that length, palloc_get_multiple returns pages, and
-- palloc_free_multiple of just these pages returns with the maps of both pools as they were before.
pub palloc_free_multiple-palloc_get_multiple :
    (flags : Flags) (cnt : ℕ) (s : Pages)
    → IsLaidOut s
    → 0 < cnt
    → ¬ (NoRun (pool_of flags.pal_user s).used_map 0 cnt false)
    → GivesBack flags cnt s
palloc_free_multiple-palloc_get_multiple flags cnt s v pos room =
    elim (palloc_get_multiple-Gets flags cnt s v pos) [
      | inl (none_free, e) ↦ absurd (room none_free)
      | inr (s', idx, b, e, first, taken, same, zeros) ↦
          let u = flags.pal_user in
          let map_is : (pool_of u s').used_map ≡ b =
            ap (λ p. p.used_map) (same u) ∙ used_map-set_used u b s in
          let base_is : (pool_of u s').base ≡ (pool_of u s).base =
            ap (λ p. p.base) (same u) ∙ set_used-base u u b s in
          let (s'', b', f, r, on_user, on_kernel) =
            palloc_free_multiple_lem u idx cnt s' (laid_out u b s s' v taken.valid taken.size same)
              pos (omega (arith, ap (λ m. m.bit_cnt) map_is, taken.size, first.fits))
              (subst (λ m. Run m idx cnt true) (sym map_is) (all_used u idx b taken)) in
          (
            s',
            s'',
            page_at (pool_of u s) idx,
            e,
            ap (λ a. palloc_free_multiple (a + 4096 * idx) cnt s') (sym base_is) ∙ f,
            gives_back u s s' s'' b b' idx cnt first.run taken
                (subst (λ m. IsRangeSet m idx cnt false b') map_is r) same
                (both (λ w. pool_of w s'' ≡ pool_of w (set_used u b' s')) on_user on_kernel),
          )
    ]
  where
    all_used :
        (u : Bool) (idx : ℕ) (b : Bitmap)
        → IsRangeSet (pool_of u s).used_map idx cnt true b
        → Run b idx cnt true
    all_used u idx b taken j lo hi = taken.bits_are j ∙ ground (arith, lo, hi)

    both : (P : Bool → Type 0) → P true → P false → (w : Bool) → P w
    both P t f true = t
    both P t f false = f
