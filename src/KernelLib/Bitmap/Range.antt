-- ===== src/KernelLib/Bitmap/Range.antt =====
-- The operations on a range of bits: setting, testing, counting and searching.
use native.Mathlib.Decide.{ℕ_discrete}
use pintos_proj.Prelude.{
  sym, le→leb, ℕ, zero, suc, ◌+◌, ◌%◌, ◌≤◌, ◌<◌, ◌≡◌, refl, ap, ◌∙◌, ◌⊎◌, inl, inr, Bool, true,
  false, not, ◌&&◌, arith, ltb, leb, Bool-cases, if◌then◌else◌, Outcome, ok,
}
use pintos_proj.KernelLib.Bitmap.{
  bitmap_all, Bitmap, word_mod, check_range, set_range, bitmap_set_multiple, same, find_range,
  bitmap_contains, count_range, bitmap_count,
}
use pintos_proj.KernelLib.Bitmap.Single.{bit, IsValid, bitmap_set_lem, bitmap_test-bit}

-- Whether `j` is one of the `cnt` indices from `start` on.
abbrev pub within : ℕ → ℕ → ℕ → Bool
within start cnt j = leb start j && ltb j (start + cnt)

-- Every bit of the range has the value.
abbrev pub Run : Bitmap → ℕ → ℕ → Bool → Type 0
Run b start cnt value = (j : ℕ) → start ≤ j → j < start + cnt → bit b j ≡ value

pub record IsRangeSet (b : Bitmap) (start cnt : ℕ) (value : Bool) (b' : Bitmap) : Type 0 where
  pub valid : IsValid b'
  pub size : b'.bit_cnt ≡ b.bit_cnt
  pub bits_are : (j : ℕ) → bit b' j ≡ (if within start cnt j then value else bit b j)

set_range_lem :
    (n i : ℕ) (value : Bool) (b : Bitmap)
    → IsValid b
    → i + n ≤ b.bit_cnt
    → (b' : Bitmap) × (set_range n i value b ≡ ok b') × IsRangeSet b i n value b'
unfolding set_range
set_range_lem zero i value b v h =
    (b, refl, record { valid = v; size = refl; bits_are = λ j. ground arith })
set_range_lem (suc n) i value b v h =
    let (b₁, s) = bitmap_set_lem b i value v (omega arith) in
    let (b₂, e, r) = set_range_lem n (suc i) value b₁ s.valid (omega (arith, s.size)) in
    (
      b₂,
      rw s.returned e,
      record {
        valid = r.valid;
        size = r.size ∙ s.size;
        bits_are = λ j. r.bits_are j ∙ ground (arith, s.bits_are j);
      },
    )

-- The assertions on a range hold where it lies within the bitmap.
check_range-ok :
    (b : Bitmap) (start cnt : ℕ)
    → IsValid b
    → start + cnt ≤ b.bit_cnt
    → check_range b start cnt ≡ ok tt
check_range-ok b start cnt v h = rw (
  le→leb start b.bit_cnt (omega arith),
  le→leb ((start + cnt) % word_mod) b.bit_cnt (omega (arith, v.small)),
)

-- bitmap_set_multiple returns for a range within the bitmap, gives every bit of the range the
-- value, and changes no other bit and not the size.
pub bitmap_set_multiple_lem :
    (b : Bitmap) (start cnt : ℕ) (value : Bool)
    → IsValid b
    → start + cnt ≤ b.bit_cnt
    → (b' : Bitmap) × (bitmap_set_multiple b start cnt value ≡ ok b')
      × IsRangeSet b start cnt value b'
unfolding bitmap_set_multiple
bitmap_set_multiple_lem b start cnt value v h =
    let (b', e, r) = set_range_lem cnt start value b v h in
    (b', rw (check_range-ok b start cnt v h) e, r)

-- Whether the range has a bit of the value, with one such bit, or with all bits of the other value.
abbrev pub Finds : Bitmap → ℕ → ℕ → Bool → Outcome Bool → Type 0
Finds b start cnt value r =
    ((r ≡ ok true) × ((j : ℕ) × (start ≤ j) × (j < start + cnt) × (bit b j ≡ value)))
    ⊎ ((r ≡ ok false) × Run b start cnt (not value))

same-true : (t value : Bool) → same t value ≡ true → t ≡ value
same-true t value h = ground arith

same-false : (t value : Bool) → same t value ≡ false → t ≡ not value
same-false t value h = ground arith

Run-cons :
    (b : Bitmap) (i n : ℕ) (value : Bool)
    → bit b i ≡ value
    → Run b (suc i) n value
    → Run b i (suc n) value
Run-cons b i n value h r j lo hi = elim (ℕ_discrete i j) [
  | yes e ↦ rw (← e) h
  | no m ↦ r j (omega arith) (omega arith)
]

find_range-Finds :
    (n i : ℕ) (value : Bool) (b : Bitmap)
    → i + n ≤ b.bit_cnt
    → Finds b i n value (find_range n i value b)
unfolding find_range
find_range-Finds zero i value b h = inr (refl, λ j lo hi. absurd (omega arith))
find_range-Finds (suc n) i value b h = elim (Bool-cases (same (bit b i) value)) [
  | inl s ↦ inl (
    rw (bitmap_test-bit b i (omega arith)) (rw s),
    (i, omega arith, omega arith, same-true (bit b i) value s),
  )
  | inr s ↦ elim (find_range-Finds n (suc i) value b (omega arith)) [
    | inl (e, (j, lo, hi, w)) ↦
        inl (rw (bitmap_test-bit b i (omega arith)) (rw s e), (j, omega arith, omega arith, w))
    | inr (e, r) ↦ inr (
      rw (bitmap_test-bit b i (omega arith)) (rw s e),
      Run-cons b i n (not value) (same-false (bit b i) value s) r,
    )
  ]
]

-- For a range within the bitmap, bitmap_contains returns true if some bit of the range has the
-- value, and false if every bit of it has the other value.
pub bitmap_contains-Finds :
    (b : Bitmap) (start cnt : ℕ) (value : Bool)
    → IsValid b
    → start + cnt ≤ b.bit_cnt
    → Finds b start cnt value (bitmap_contains b start cnt value)
unfolding bitmap_contains
bitmap_contains-Finds b start cnt value v h =
    rw (check_range-ok b start cnt v h) (find_range-Finds cnt start value b h)

-- The number of bits of the value among `n` bits from `i` on.
pub number : (ℕ → Bool) → ℕ → ℕ → Bool → ℕ
number f i zero value = 0
number f i (suc n) value = (if same (f i) value then 1 else 0) + number f (suc i) n value

count_range-number :
    (n i : ℕ) (value : Bool) (b : Bitmap) (acc : ℕ)
    → i + n ≤ b.bit_cnt
    → count_range n i value b acc ≡ ok (acc + number (bit b) i n value)
unfolding count_range number
count_range-number zero i value b acc h = ap ok (omega arith)
count_range-number (suc n) i value b acc h =
    rw (bitmap_test-bit b i (omega arith))
      (count_range-number n (suc i) value b _ (omega arith) ∙ ap ok (ground arith))

-- bitmap_count returns the number of bits of the range that have the value.
pub bitmap_count-number :
    (b : Bitmap) (start cnt : ℕ) (value : Bool)
    → IsValid b
    → start + cnt ≤ b.bit_cnt
    → bitmap_count b start cnt value ≡ ok (number (bit b) start cnt value)
unfolding bitmap_count
bitmap_count-number b start cnt value v h =
    rw (check_range-ok b start cnt v h)
      (count_range-number cnt start value b 0 h ∙ ap ok (omega arith))

-- Setting a free run and clearing it again gives the map that was.
pub undone :
    (b b₁ b₂ : Bitmap) (sector cnt : ℕ)
    → Run b sector cnt false
    → IsRangeSet b sector cnt true b₁
    → IsRangeSet b₁ sector cnt false b₂
    → (j : ℕ) → bit b₂ j ≡ bit b j
undone b b₁ b₂ sector cnt free r₁ r₂ j = elim (Bool-cases (within sector cnt j)) [
  | inl e ↦ r₂.bits_are j ∙ rw e (sym (free j (ground (arith, e)) (ground (arith, e))))
  | inr e ↦ r₂.bits_are j ∙ rw e (r₁.bits_are j ∙ rw e)
]

-- bitmap_all on a range whose bits are all set.
pub all_set :
    (b : Bitmap) (start cnt : ℕ)
    → IsValid b
    → start + cnt ≤ b.bit_cnt
    → Run b start cnt true
    → bitmap_all b start cnt ≡ ok true
unfolding bitmap_all
all_set b start cnt v fits used = elim (bitmap_contains-Finds b start cnt false v fits) [
  | inl (e, (j, lo, hi, bit_false)) ↦ absurd (let t = used j lo hi in ground (arith, t, bit_false))
  | inr (e, r) ↦ rw e
]
