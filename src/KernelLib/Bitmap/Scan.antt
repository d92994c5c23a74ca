-- ===== src/KernelLib/Bitmap/Scan.antt =====
-- Searching a bitmap for a run of bits: bitmap_scan and bitmap_scan_and_flip.
use native.Mathlib.Decide.{ℕ_discrete, dec_le}
use pintos_proj.Prelude.{
  le→leb, ℕ, zero, suc, ◌+◌, ◌-◌, ◌≤◌, ◌<◌, ◌≡◌, refl, ◌∙◌, ◌⊎◌, inl, inr, Bool, true, false, not,
  arith, leb, leb→le, ◌==◌, Bool-cases, Outcome, ok,
}
use pintos_proj.KernelLib.Bitmap.{
  Bitmap, bitmap_error, scan_from, bitmap_scan, bitmap_scan_and_flip,
}
use pintos_proj.KernelLib.Bitmap.Single.{bit, IsValid}
use pintos_proj.KernelLib.Bitmap.Range.{
  Run, IsRangeSet, bitmap_contains-Finds, bitmap_set_multiple_lem,
}

-- No run of `cnt` bits of the value starts at or after `start`.
abbrev pub NoRun : Bitmap → ℕ → ℕ → Bool → Type 0
NoRun b start cnt value = (i : ℕ) → start ≤ i → i + cnt ≤ b.bit_cnt → ¬ (Run b i cnt value)

-- `i` is the first place at or after `start` where such a run starts.
pub record IsFirstRun (b : Bitmap) (start cnt : ℕ) (value : Bool) (i : ℕ) : Type 0 where
  pub from : start ≤ i
  pub fits : i + cnt ≤ b.bit_cnt
  pub run : Run b i cnt value
  pub first : (j : ℕ) → start ≤ j → j < i → ¬ (Run b j cnt value)

abbrev pub Scans : Bitmap → ℕ → ℕ → Bool → Outcome ℕ → Type 0
Scans b start cnt value r =
    ((r ≡ ok bitmap_error) × NoRun b start cnt value)
    ⊎ ((i : ℕ) × (r ≡ ok i) × IsFirstRun b start cnt value i)

not-not : (v : Bool) → not (not v) ≡ v
not-not true = refl
not-not false = refl

broken :
    (b : Bitmap) (i j cnt : ℕ) (value : Bool)
    → i ≤ j
    → j < i + cnt
    → bit b j ≡ not value
    → ¬ (Run b i cnt value)
broken b i j cnt value lo hi h r = let e = r j lo hi in ground (arith, e, h)

scan_from-Scans :
    (n i cnt : ℕ) (value : Bool) (b : Bitmap)
    → IsValid b
    → ((n ≡ 0) ⊎ (i + n + cnt ≤ b.bit_cnt + 1))
    → b.bit_cnt < i + n + cnt
    → Scans b i cnt value (scan_from n i cnt value b)
unfolding scan_from
scan_from-Scans zero i cnt value b v d h = inl (refl, λ j lo fits. absurd (omega arith))
scan_from-Scans (suc n) i cnt value b v d h =
    elim (bitmap_contains-Finds b i cnt (not value) v fits) [
      | inr (e, r) ↦ inr (
        i,
        rw e,
        record {
          from = omega arith;
          fits = fits;
          run = λ j lo hi. r j lo hi ∙ not-not value;
          first = λ j lo hi. absurd (omega arith);
        },
      )
      | inl (e, (j, lo, hi, w)) ↦
          let here = broken b i j cnt value lo hi w in
          elim (scan_from-Scans n (suc i) cnt value b v (inr (omega arith)) (omega arith)) [
            | inl (s, none) ↦ inl (
              rw e s,
              λ m a f. elim (ℕ_discrete i m) [
                | yes q ↦ rw (← q) here
                | no q ↦ none m (omega arith) f
              ],
            )
            | inr (m, s, f) ↦ inr (
              m,
              rw e s,
              record {
                from = omega (arith, f.from);
                fits = f.fits;
                run = f.run;
                first = λ p a c. elim (ℕ_discrete i p) [
                  | yes q ↦ rw (← q) here
                  | no q ↦ f.first p (omega arith) c
                ];
              },
            )
          ]
    ]
  where
    fits : i + cnt ≤ b.bit_cnt
    fits = elim d [ inl e ↦ absurd (omega arith) | inr l ↦ omega arith ]

places :
    (start cnt n : ℕ)
    → cnt ≤ n
    → (n - cnt + 1 - start ≡ 0) ⊎ (start + (n - cnt + 1 - start) + cnt ≤ n + 1)
places start cnt n h = elim (dec_le start (n - cnt)) [
  | yes l ↦ inr (omega arith)
  | no m ↦ inl (omega arith)
]

-- bitmap_scan returns the first index at or after `start` where `cnt` bits of the value stand in a
-- row within the bitmap, or BITMAP_ERROR if there is none.
pub bitmap_scan-Scans :
    (b : Bitmap) (start cnt : ℕ) (value : Bool)
    → IsValid b
    → start ≤ b.bit_cnt
    → Scans b start cnt value (bitmap_scan b start cnt value)
unfolding bitmap_scan
bitmap_scan-Scans b start cnt value v h = elim (Bool-cases (leb cnt b.bit_cnt)) [
  | inl e ↦
      rw (le→leb start b.bit_cnt h, e)
        (scan_from-Scans (b.bit_cnt - cnt + 1 - start) start cnt value b v
          (places start cnt b.bit_cnt (leb→le cnt b.bit_cnt e))
          (omega (arith, leb→le cnt b.bit_cnt e)))
  | inr e ↦ inl (rw (le→leb start b.bit_cnt h, e), λ i lo fits. ground (arith, e))
]

-- An index that leaves room for a bit is not BITMAP_ERROR.
pub differs :
    (b : Bitmap) (i cnt : ℕ)
    → IsValid b
    → i + cnt ≤ b.bit_cnt
    → 0 < cnt
    → (i == bitmap_error) ≡ false
differs b i cnt v h p = ground (arith, v.small)

-- bitmap_scan_and_flip, for at least one bit, returns BITMAP_ERROR and the bitmap as it was if there
-- is no run of `cnt` bits of the value at or after `start`. Otherwise it returns the index of the
-- first such run, and the bitmap in which just the bits of that run have the other value.
pub bitmap_scan_and_flip_lem :
    (b : Bitmap) (start cnt : ℕ) (value : Bool)
    → IsValid b
    → start ≤ b.bit_cnt
    → 0 < cnt
    → ((bitmap_scan_and_flip b start cnt value ≡ ok (bitmap_error, b)) × NoRun b start cnt value)
      ⊎ ((i : ℕ) × (b' : Bitmap) × (bitmap_scan_and_flip b start cnt value ≡ ok (i, b'))
          × IsFirstRun b start cnt value i
          × IsRangeSet b i cnt (not value) b')
unfolding bitmap_scan_and_flip
bitmap_scan_and_flip_lem b start cnt value v h pos =
    elim (bitmap_scan-Scans b start cnt value v h) [
      | inl (e, n) ↦ inl (rw e, n)
      | inr (i, e, f) ↦
          let (b', s, r) = bitmap_set_multiple_lem b i cnt (not value) v f.fits in
          inr (i, b', rw e (rw (differs b i cnt v f.fits pos) (rw s)), f, r)
    ]
