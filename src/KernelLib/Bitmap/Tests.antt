-- ===== src/KernelLib/Bitmap/Tests.antt =====
-- Runs on a bitmap of two words, and each theorem at an input.
use pintos_proj.Prelude.{
  ℕ, ◌≡◌, refl, ◌⊎◌, true, false, not, [], ◌∷◌, ◌==◌, arith, ok, if◌then◌else◌,
}
use pintos_proj.KernelLib.Bitmap.{
  Bitmap, bitmap_error, bitmap_test, bitmap_contains, bitmap_count, bitmap_scan,
  bitmap_scan_and_flip, bitmap_set_multiple, bitmap_flip, scan_from, find_range,
}
use pintos_proj.KernelLib.Bitmap.Single.{
  bit, IsValid, IsSetTo, bitmap_set_lem, bitmap_test-bit, bit-flip,
}
use pintos_proj.KernelLib.Bitmap.Range.{
  Finds, IsRangeSet, bitmap_contains-Finds, bitmap_count-number, number, bitmap_set_multiple_lem,
}
use pintos_proj.KernelLib.Bitmap.Scan.{
  Scans, NoRun, IsFirstRun, bitmap_scan-Scans, bitmap_scan_and_flip_lem,
}

-- 40 bits, of which 0, 1, 31 and 32 are set.
abbrev sample : Bitmap
sample = record { bit_cnt = 40; bits = 0x8000_0003 ∷ 1 ∷ [] }

sample-IsValid : IsValid sample
sample-IsValid = omega arith

scan_finds : bitmap_scan sample 0 3 false ≡ ok 2
unfolding bitmap_scan scan_from bitmap_contains find_range bitmap_test
scan_finds = refl

scan_crosses : bitmap_scan sample 5 2 true ≡ ok 31
unfolding bitmap_scan scan_from bitmap_contains find_range bitmap_test
scan_crosses = refl

bitmap_set_lem_example : (b : Bitmap) × IsSetTo sample 33 true b
bitmap_set_lem_example = bitmap_set_lem sample 33 true sample-IsValid (omega arith)

bitmap_test-bit_example : bitmap_test sample 32 ≡ ok (bit sample 32)
bitmap_test-bit_example = bitmap_test-bit sample 32 (omega arith)

bit-flip_example :
    bit (bitmap_flip sample 31) 7 ≡ (if 31 == 7 then not (bit sample 7) else bit sample 7)
bit-flip_example = bit-flip sample 31 7 sample-IsValid (omega arith)

bitmap_set_multiple_lem_example :
    (b : Bitmap) × (bitmap_set_multiple sample 30 5 false ≡ ok b) × IsRangeSet sample 30 5 false b
bitmap_set_multiple_lem_example =
    bitmap_set_multiple_lem sample 30 5 false sample-IsValid (omega arith)

bitmap_contains-Finds_example : Finds sample 2 30 true (bitmap_contains sample 2 30 true)
bitmap_contains-Finds_example = bitmap_contains-Finds sample 2 30 true sample-IsValid (omega arith)

bitmap_count-number_example : bitmap_count sample 0 40 true ≡ ok (number (bit sample) 0 40 true)
bitmap_count-number_example = bitmap_count-number sample 0 40 true sample-IsValid (omega arith)

bitmap_scan-Scans_example : Scans sample 5 2 true (bitmap_scan sample 5 2 true)
bitmap_scan-Scans_example = bitmap_scan-Scans sample 5 2 true sample-IsValid (omega arith)

bitmap_scan_and_flip_lem_example :
    ((bitmap_scan_and_flip sample 0 3 false ≡ ok (bitmap_error, sample)) × NoRun sample 0 3 false)
    ⊎ ((i : ℕ) × (b : Bitmap) × (bitmap_scan_and_flip sample 0 3 false ≡ ok (i, b))
        × IsFirstRun sample 0 3 false i
        × IsRangeSet sample i 3 true b)
bitmap_scan_and_flip_lem_example =
    bitmap_scan_and_flip_lem sample 0 3 false sample-IsValid (omega arith) (omega arith)
