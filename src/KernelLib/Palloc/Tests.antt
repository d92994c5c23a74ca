-- ===== src/KernelLib/Palloc/Tests.antt =====
-- Two small pools, and each theorem at an input.
use pintos_proj.Prelude.{zero, suc, ◌*◌, ◌%◌, ◌<◌, ◌≡◌, refl, Bool, true, false, [], ◌∷◌, arith, ok}
use pintos_proj.KernelLib.Bitmap.{Bitmap}
use pintos_proj.KernelLib.Bitmap.Single.{bit, IsValid}
use pintos_proj.KernelLib.Bitmap.Range.{Run, IsRangeSet}
use pintos_proj.KernelLib.Bitmap.Scan.{NoRun}
use pintos_proj.KernelLib.Palloc.{
  Flags, Pages, pool_of, set_used, palloc_get_multiple, palloc_free_multiple,
}
use pintos_proj.KernelLib.Palloc.Freeing.{IsLaidOut, page_at, palloc_free_multiple_lem}
use pintos_proj.KernelLib.Palloc.Getting.{Gets, palloc_get_multiple-Gets}
use pintos_proj.KernelLib.Palloc.Roundtrip.{GivesBack, palloc_free_multiple-palloc_get_multiple}

-- Eight pages for the kernel, of which the first two are in use, and four for the user.
abbrev pools : Pages
pools = record {
  kernel_pool = record { used_map = record { bit_cnt = 8; bits = 3 ∷ [] }; base = 4096 * 10 };
  user_pool = record { used_map = record { bit_cnt = 4; bits = 0 ∷ [] }; base = 4096 * 18 };
  memory = λ a. 1;
}

abbrev for_kernel : Flags
for_kernel = record { pal_assert = false; pal_zero = true; pal_user = false }

pools-IsLaidOut : IsLaidOut pools
pools-IsLaidOut = record {
  valid = valid;
  aligned = aligned;
  not_null = not_null;
  order = omega arith;
}
  where
    valid : (user : Bool) → IsValid (pool_of user pools).used_map
    valid true = record { stored = omega arith; small = omega arith }
    valid false = record { stored = omega arith; small = omega arith }

    aligned : (user : Bool) → (pool_of user pools).base % 4096 ≡ 0
    aligned true = refl
    aligned false = refl

    not_null : (user : Bool) → 0 < (pool_of user pools).base
    not_null true = omega arith
    not_null false = omega arith

two_used : Run pools.kernel_pool.used_map 0 2 true
unfolding bit
two_used zero lo hi = refl
two_used (suc zero) lo hi = refl
two_used (suc (suc j)) lo hi = absurd (omega arith)

two_free : Run pools.kernel_pool.used_map 2 2 false
unfolding bit
two_free zero lo hi = absurd (omega arith)
two_free (suc zero) lo hi = absurd (omega arith)
two_free (suc (suc zero)) lo hi = refl
two_free (suc (suc (suc zero))) lo hi = refl
two_free (suc (suc (suc (suc j)))) lo hi = absurd (omega arith)

palloc_free_multiple_lem_example :
    (s' : Pages) × (b : Bitmap) × (palloc_free_multiple (page_at pools.kernel_pool 0) 2 pools
      ≡ ok s')
    × IsRangeSet pools.kernel_pool.used_map 0 2 false b
    × (pool_of true s' ≡ pool_of true (set_used false b pools))
    × (pool_of false s' ≡ pool_of false (set_used false b pools))
palloc_free_multiple_lem_example =
    palloc_free_multiple_lem false 0 2 pools pools-IsLaidOut (omega arith) (omega arith) two_used

palloc_get_multiple-Gets_example : Gets for_kernel 3 pools (palloc_get_multiple for_kernel 3 pools)
palloc_get_multiple-Gets_example =
    palloc_get_multiple-Gets for_kernel 3 pools pools-IsLaidOut (omega arith)

room_for_two : ¬ (NoRun pools.kernel_pool.used_map 0 2 false)
room_for_two h = h 2 (omega arith) (omega arith) two_free

palloc_free_multiple-palloc_get_multiple_example : GivesBack for_kernel 2 pools
palloc_free_multiple-palloc_get_multiple_example =
    palloc_free_multiple-palloc_get_multiple for_kernel 2 pools pools-IsLaidOut (omega arith)
      room_for_two
