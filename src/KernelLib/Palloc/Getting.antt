-- ===== src/KernelLib/Palloc/Getting.antt =====
-- Handing pages out: palloc_get_multiple.
use pintos_proj.Prelude.{
  ℕ, ◌+◌, ◌*◌, ◌<◌, ◌≡◌, refl, ap, ◌⊎◌, inl, inr, Bool, true, false, ◌&&◌, Option, none, some, leb,
  ltb, ◌==◌, if◌then◌else◌, arith, Outcome, ok, panic,
}
use pintos_proj.KernelLib.Bitmap.{Bitmap}
use pintos_proj.KernelLib.Bitmap.Range.{IsRangeSet}
use pintos_proj.KernelLib.Bitmap.Scan.{IsFirstRun, NoRun, bitmap_scan_and_flip_lem, differs}
use pintos_proj.KernelLib.Palloc.{
  Flags, Pages, pool_of, set_used, fill, hand_out, palloc_get_multiple,
}
use pintos_proj.KernelLib.Palloc.Freeing.{IsLaidOut, page_at}

-- What palloc_get_multiple comes to.
abbrev pub Gets : Flags → ℕ → Pages → Outcome (Pages × Option ℕ) → Type 0
Gets flags cnt s r =
    (NoRun (pool_of flags.pal_user s).used_map 0 cnt false
      × (r ≡ (if flags.pal_assert then panic else ok (s, none))))
    ⊎ ((s' : Pages) × (idx : ℕ) × (b : Bitmap) × (r
          ≡ ok (s', some (page_at (pool_of flags.pal_user s) idx)))
        × IsFirstRun (pool_of flags.pal_user s).used_map 0 cnt false idx
        × IsRangeSet (pool_of flags.pal_user s).used_map idx cnt true b
        × ((user : Bool) → pool_of user s' ≡ pool_of user (set_used flags.pal_user b s))
        × ((a : ℕ)
            → s'.memory a ≡ (
                if flags.pal_zero
                  && (leb (page_at (pool_of flags.pal_user s) idx) a
                      && ltb a (page_at (pool_of flags.pal_user s) idx + 4096 * cnt))
                then 0
                else s.memory a)))

unchanged : (user : Bool) (s : Pages) → set_used user (pool_of user s).used_map s ≡ s
unchanged true s = refl
unchanged false s = refl

abbrev zeroed : Bool → ℕ → ℕ → Pages → Pages
zeroed zero_fill page cnt s = if zero_fill then fill page 0 (4096 * cnt) s else s

zeroed-pool_of :
    (z u user : Bool) (b : Bitmap) (page cnt : ℕ) (s : Pages)
    → pool_of user (zeroed z page cnt (set_used u b s)) ≡ pool_of user (set_used u b s)
unfolding fill
zeroed-pool_of true true true b page cnt s = refl
zeroed-pool_of true true false b page cnt s = refl
zeroed-pool_of true false true b page cnt s = refl
zeroed-pool_of true false false b page cnt s = refl
zeroed-pool_of false u user b page cnt s = refl

zeroed_memory :
    (z u : Bool) (b : Bitmap) (page cnt a : ℕ) (s : Pages)
    → (zeroed z page cnt (set_used u b s)).memory a
      ≡ (if z && (leb page a && ltb a (page + 4096 * cnt)) then 0 else s.memory a)
unfolding fill
zeroed_memory true true b page cnt a s = refl
zeroed_memory true false b page cnt a s = refl
zeroed_memory false true b page cnt a s = refl
zeroed_memory false false b page cnt a s = refl

-- For at least one page, palloc_get_multiple finds the first run of unused pages of that length in the
-- pool that the flags name, marks just these as used, fills them with zeros if the flags ask for it,
-- changes nothing else and returns the address of the first; if there is no such run it returns NULL
-- with nothing changed, or panics if the flags ask for that.
pub palloc_get_multiple-Gets :
    (flags : Flags) (cnt : ℕ) (s : Pages)
    → IsLaidOut s
    → 0 < cnt
    → Gets flags cnt s (palloc_get_multiple flags cnt s)
unfolding palloc_get_multiple hand_out
palloc_get_multiple-Gets flags cnt s v pos =
    let u = flags.pal_user in
    let pages : (cnt == 0) ≡ false = ground (arith, pos) in
    elim (bitmap_scan_and_flip_lem (pool_of u s).used_map 0 cnt false (v.valid u) (omega arith)
      pos) [
        | inl (e, none_free) ↦ inl (
          none_free,
          rw (pages, e)
              (ap (λ t. if flags.pal_assert then panic else ok (t, none)) (unchanged u s)),
        )
        | inr (idx, b, e, first, taken) ↦
            let page = page_at (pool_of u s) idx in
            inr (
              zeroed flags.pal_zero page cnt (set_used u b s),
              idx,
              b,
              rw (pages, e, differs (pool_of u s).used_map idx cnt (v.valid u) first.fits pos),
              first,
              taken,
              λ user. zeroed-pool_of flags.pal_zero u user b page cnt s,
              λ a. zeroed_memory flags.pal_zero u b page cnt a s,
            )
      ]
