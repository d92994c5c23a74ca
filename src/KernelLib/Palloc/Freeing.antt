-- ===== src/KernelLib/Palloc/Freeing.antt =====
-- Giving pages back: palloc_free_multiple.
use pintos_proj.Prelude.{
  ℕ, ◌+◌, ◌-◌, ◌*◌, ◌≤◌, ◌<◌, ◌≡◌, refl, Bool, true, false, ◌||◌, ◌==◌, arith, ok,
}
use pintos_proj.KernelLib.Bitmap.{Bitmap}
use pintos_proj.KernelLib.Bitmap.Single.{IsValid}
use pintos_proj.KernelLib.Bitmap.Range.{Run, IsRangeSet, all_set, bitmap_set_multiple_lem}
use pintos_proj.KernelLib.Palloc.{
  Pool, Pages, pg_ofs, pg_no, pool_of, set_used, fill, page_from_pool, find_pool,
  palloc_free_multiple,
}

-- The pools start at pages, and the user's comes after the kernel's.
pub record IsLaidOut (s : Pages) : Type 0 where
  pub valid : (user : Bool) → IsValid (pool_of user s).used_map
  pub aligned : (user : Bool) → pg_ofs (pool_of user s).base ≡ 0
  pub not_null : (user : Bool) → 0 < (pool_of user s).base
  pub order : pg_no s.kernel_pool.base + s.kernel_pool.used_map.bit_cnt ≤ pg_no s.user_pool.base

-- The address of a page of a pool.
abbrev pub page_at : Pool → ℕ → ℕ
page_at pool idx = pool.base + 4096 * idx

module _ (s : Pages) (v : IsLaidOut s) (idx : ℕ) where
  pg_no-page_at :
      (user : Bool) → pg_no (page_at (pool_of user s) idx) ≡ pg_no (pool_of user s).base + idx
  pg_no-page_at user = omega (arith, v.aligned user)

  find_pool-page_at :
      (user : Bool)
      → idx < (pool_of user s).used_map.bit_cnt
      → find_pool s (page_at (pool_of user s) idx) ≡ ok user
  unfolding find_pool page_from_pool
  find_pool-page_at false h = ground (arith, pg_no-page_at false, h)
  find_pool-page_at true h = ground (arith, pg_no-page_at true, h, v.order)

-- palloc_free_multiple of pages of a pool that are in use returns with just their bits cleared in the
-- map of that pool, and the pools otherwise as they were.
pub palloc_free_multiple_lem :
    (user : Bool) (idx cnt : ℕ) (s : Pages)
    → IsLaidOut s
    → 0 < cnt
    → idx + cnt ≤ (pool_of user s).used_map.bit_cnt
    → Run (pool_of user s).used_map idx cnt true
    → (s' : Pages) × (b : Bitmap) × (palloc_free_multiple (page_at (pool_of user s) idx) cnt s
        ≡ ok s')
      × IsRangeSet (pool_of user s).used_map idx cnt false b
      × (pool_of true s' ≡ pool_of true (set_used user b s))
      × (pool_of false s' ≡ pool_of false (set_used user b s))
unfolding palloc_free_multiple fill
palloc_free_multiple_lem user idx cnt s v pos fits used =
    let page = page_at (pool_of user s) idx in
    let (b, e, r) =
      bitmap_set_multiple_lem (pool_of user s).used_map idx cnt false (v.valid user) fits in
    let aligned : (pg_ofs page == 0) ≡ true = ground (arith, v.aligned user) in
    let some_page : ((page == 0) || (cnt == 0)) ≡ false = ground (arith, v.not_null user) in
    let place : pg_no page - pg_no (pool_of user s).base ≡ idx =
      omega (arith, pg_no-page_at s v idx user) in
    (
      set_used user b (fill page 0xcc (4096 * cnt) s),
      b,
      rw (aligned, some_page, find_pool-page_at s v idx user (omega arith), place)
          (rw (all_set (pool_of user s).used_map idx cnt (v.valid user) fits used, e)),
      r,
      same_pool user true b,
      same_pool user false b,
    )
  where
    same_pool :
        (u w : Bool) (b : Bitmap)
        → pool_of w (set_used u b (fill (page_at (pool_of user s) idx) 0xcc (4096 * cnt) s))
          ≡ pool_of w (set_used u b s)
    same_pool true true b = refl
    same_pool true false b = refl
    same_pool false true b = refl
    same_pool false false b = refl
