-- ===== src/KernelLib/Bitmap/Single.antt =====
-- The operations on one bit of a bitmap, in terms of the bits that it stands for.
use Prim.Native.Nat.{differ}
use native.Mathlib.Decide.{ℕ_discrete}
use native.Mathlib.Nat.{pow-suc}
use pintos_proj.Prelude.{
  ℕ, zero, suc, ◌-◌, ◌*◌, ◌/◌, ◌%◌, ◌^◌, ◌≤◌, ◌<◌, ◌≡◌, refl, ap, ◌∙◌, ◌≢◌, Bool, true, false, not,
  List, [], ◌∷◌, arith, ◌==◌, lt→ltb, if◌then◌else◌, get_or, set, length, length-set, ok,
}
use pintos_proj.KernelLib.Bits.{
  bit_of, bit_of-lt, bit_of-bit_and, bit_of-bit_or, bit_of-bit_xor, bit_of-pow, bit_of-complement,
  masked_zero_iff,
}
use pintos_proj.KernelLib.Bitmap.{
  Bitmap, word_at, word_mod, bit_mask, bitmap_mark, bitmap_reset, bitmap_flip, bitmap_set,
  bitmap_test,
}

-- Bit `i` of the set that the bitmap stands for.
unfoldable pub bit : Bitmap → ℕ → Bool
bit b i = not (bit_of (word_at b i) (i % 32) == 0)

-- The words hold every bit, and the number of bits is a `size_t`.
pub record IsValid (b : Bitmap) : Type 0 where
  pub stored : b.bit_cnt ≤ 32 * length b.bits
  pub small : b.bit_cnt < word_mod

-- bitmap_test returns the bit, if its index is in the bitmap.
pub bitmap_test-bit : (b : Bitmap) (i : ℕ) → i < b.bit_cnt → bitmap_test b i ≡ ok (bit b i)
unfolding bitmap_test bit
bitmap_test-bit b i h = rw (lt→ltb i b.bit_cnt h, masked_zero_iff (word_at b i) (i % 32))

get_or-set :
    (xs : List ℕ) (i j w : ℕ)
    → i < length xs
    → get_or (set xs i w) j 0 ≡ (if i == j then w else get_or xs j 0)
get_or-set [] i j w h = absurd (omega arith)
get_or-set (x ∷ xs) zero zero w h = refl
get_or-set (x ∷ xs) zero (suc j) w h = ground arith
get_or-set (x ∷ xs) (suc i) zero w h = ground arith
get_or-set (x ∷ xs) (suc i) (suc j) w h = get_or-set xs i j w (omega arith) ∙ ground arith

-- Each operation changes one digit of one word.
word_at-set :
    (b : Bitmap) (i j w : ℕ)
    → i / 32 < length b.bits
    → get_or (set b.bits (i / 32) w) (j / 32) 0 ≡ (if i / 32 == j / 32 then w else word_at b j)
word_at-set b i j w h = get_or-set b.bits (i / 32) (j / 32) w h

-- Two indices are equal if they lie in one word at one place.
index_eq : (i j : ℕ) → i / 32 ≡ j / 32 → i % 32 ≡ j % 32 → i ≡ j
index_eq i j h k = omega arith

test_true : (a b : ℕ) → a ≡ b → (a == b) ≡ true
test_true a b e = ground arith

test_false : (a b : ℕ) → a ≢ b → (a == b) ≡ false
test_false a b n = ground arith

-- A mask is a word.
pow_pos : (n : ℕ) → 0 < 2 ^ n
pow_pos zero = omega arith
pow_pos (suc n) = omega (arith, pow-suc 2 n, pow_pos n)

pow_mono : (k n : ℕ) → k < n → 2 ^ k < 2 ^ n
pow_mono k zero h = absurd (omega arith)
pow_mono k (suc n) h = elim (ℕ_discrete k n) [
  | yes e ↦ rw e (omega (arith, pow-suc 2 n, pow_pos n))
  | no m ↦ omega (arith, pow-suc 2 n, pow_mono k n (omega arith))
]

mask-lt : (i : ℕ) → bit_mask i < 2 ^ 32
mask-lt i = pow_mono (i % 32) 32 (omega arith)

-- What one of the operations makes of each bit: `g` of the old bit at `i`, and the old bit elsewhere.
changed :
    (b : Bitmap) (i j w : ℕ) (g : ℕ → ℕ)
    → i / 32 < length b.bits
    → ((m : ℕ)
        → m < 32
        → bit_of w m ≡ (if i % 32 == m then g (bit_of (word_at b i) m) else bit_of (word_at b i) m))
    → bit_of (get_or (set b.bits (i / 32) w) (j / 32) 0) (j % 32)
      ≡ (if i == j then g (bit_of (word_at b j) (j % 32)) else bit_of (word_at b j) (j % 32))
changed b i j w g h d = rw (word_at-set b i j w h) (elim (ℕ_discrete (i / 32) (j / 32)) [
  | yes e ↦
      let same : word_at b i ≡ word_at b j = ap (λ q. get_or b.bits q 0) e in
      rw (test_true _ _ e) (d (j % 32) (omega arith) ∙ rw same (inside e))
  | no n ↦ rw (test_false _ _ n, test_false i j (λ (e : i ≡ j). n (ap (λ q. q / 32) e)))
])
  where
    inside :
        i / 32 ≡ j / 32
        → (if i % 32 == j % 32
            then g (bit_of (word_at b j) (j % 32))
            else bit_of (word_at b j) (j % 32))
          ≡ (if i == j then g (bit_of (word_at b j) (j % 32)) else bit_of (word_at b j) (j % 32))
    inside e = elim (ℕ_discrete (i % 32) (j % 32)) [
      | yes r ↦ rw (test_true _ _ r, test_true i j (index_eq i j e r))
      | no r ↦ rw (test_false _ _ r, test_false i j (λ (q : i ≡ j). r (ap (λ q. q % 32) q)))
    ]

in_words : (b : Bitmap) (i : ℕ) → IsValid b → i < b.bit_cnt → i / 32 < length b.bits
in_words b i v h = omega (arith, v.stored)

pub bit-mark :
    (b : Bitmap) (i j : ℕ)
    → IsValid b
    → i < b.bit_cnt
    → bit (bitmap_mark b i) j ≡ (if i == j then true else bit b j)
unfolding bit bitmap_mark
bit-mark b i j v h =
    rw
      (changed b i j _ (λ _. 1) (in_words b i v h)
        (λ m k.
          bit_of-bit_or (word_at b i) (bit_mask i) m
          ∙ ground (arith, bit_of-pow (i % 32) m, bit_of-lt (word_at b i) m)))
      (ground arith)

pub bit-reset :
    (b : Bitmap) (i j : ℕ)
    → IsValid b
    → i < b.bit_cnt
    → bit (bitmap_reset b i) j ≡ (if i == j then false else bit b j)
unfolding bit bitmap_reset
bit-reset b i j v h =
    rw
      (changed b i j _ (λ _. 0) (in_words b i v h)
        (λ m k.
          bit_of-bit_and (word_at b i) (word_mod - 1 - bit_mask i) m
          ∙ ground (
            arith,
            bit_of-complement 32 (bit_mask i) m (mask-lt i) k,
            bit_of-pow (i % 32) m,
            bit_of-lt (word_at b i) m,
          )))
      (ground arith)

differ_bit : (x : ℕ) (t : Bool) → x < 2 → differ x (if t then 1 else 0) ≡ (if t then 1 - x else x)
differ_bit zero true h = refl
differ_bit zero false h = refl
differ_bit (suc zero) true h = refl
differ_bit (suc zero) false h = refl
differ_bit (suc (suc x)) t h = absurd (omega arith)

-- In a valid bitmap, for an index within it, bitmap_flip changes the bit at the index to the other
-- value and leaves every other bit as it is.
pub bit-flip :
    (b : Bitmap) (i j : ℕ)
    → IsValid b
    → i < b.bit_cnt
    → bit (bitmap_flip b i) j ≡ (if i == j then not (bit b j) else bit b j)
unfolding bit bitmap_flip
bit-flip b i j v h =
    rw
      (changed b i j _ (λ d. 1 - d) (in_words b i v h)
        (λ m k.
          bit_of-bit_xor (word_at b i) (bit_mask i) m
          ∙ (rw (bit_of-pow (i % 32) m)
              (differ_bit (bit_of (word_at b i) m) (i % 32 == m) (bit_of-lt (word_at b i) m)))))
      (ground (arith, bit_of-lt (word_at b j) (j % 32)))

-- bitmap_set returns for an index in the bitmap, gives that bit the value, and changes no other
-- bit and not the size.
pub record IsSetTo (b : Bitmap) (i : ℕ) (value : Bool) (b' : Bitmap) : Type 0 where
  pub returned : bitmap_set b i value ≡ ok b'
  pub valid : IsValid b'
  pub size : b'.bit_cnt ≡ b.bit_cnt
  pub bits_are : (j : ℕ) → bit b' j ≡ (if i == j then value else bit b j)

IsValid-set : (b : Bitmap) (i w : ℕ) → IsValid b → IsValid (record b { bits = set b.bits i w })
IsValid-set b i w v = record {
  stored = omega (arith, v.stored, length-set b.bits i w);
  small = v.small;
}

pub bitmap_set_lem :
    (b : Bitmap) (i : ℕ) (value : Bool)
    → IsValid b
    → i < b.bit_cnt
    → (b' : Bitmap) × IsSetTo b i value b'
unfolding bitmap_set bitmap_mark bitmap_reset
bitmap_set_lem b i true v h = (
  bitmap_mark b i,
  record {
    returned = rw (lt→ltb i b.bit_cnt h);
    valid = IsValid-set b (i / 32) _ v;
    size = refl;
    bits_are = λ j. bit-mark b i j v h;
  },
)
bitmap_set_lem b i false v h = (
  bitmap_reset b i,
  record {
    returned = rw (lt→ltb i b.bit_cnt h);
    valid = IsValid-set b (i / 32) _ v;
    size = refl;
    bits_are = λ j. bit-reset b i j v h;
  },
)
