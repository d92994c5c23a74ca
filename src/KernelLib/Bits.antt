-- ===== src/KernelLib/Bits.antt =====
-- The digits of a machine word, and what the bit operations do to each of them.
use Prim.Native.Nat.{bit_and, bit_or, bit_xor, digits, differ}
use Prim.Native.Nat.{bit_and-bitwise, bit_or-bitwise, bit_xor-bitwise}
use native.Mathlib.Nat.{pow-suc}
use native.Mathlib.Decide.{ℕ_discrete}
use pintos_proj.Prelude.{
  ℕ, zero, suc, ◌+◌, ◌-◌, ◌*◌, ◌/◌, ◌%◌, ◌^◌, ◌≤◌, ◌<◌, min, max, ◌≡◌, refl, ap, ◌∙◌, ◌≢◌, arith,
  ◌==◌, if◌then◌else◌,
}

-- Bit `i` of `x`, as 0 or 1.
abbrev pub bit_of : ℕ → ℕ → ℕ
bit_of x zero = x % 2
bit_of x (suc i) = bit_of (x / 2) i

pub bit_of-lt : (x i : ℕ) → bit_of x i < 2
bit_of-lt x zero = omega arith
bit_of-lt x (suc i) = bit_of-lt (x / 2) i

pub bit_of-zero : (i : ℕ) → bit_of 0 i ≡ 0
bit_of-zero zero = refl
bit_of-zero (suc i) = bit_of-zero i

-- An operation on digits that the native operations are made of.
module _ (z : ℕ → ℕ) (f : ℕ → ℕ → ℕ) (small : (x y : ℕ) → x < 2 → y < 2 → f x y < 2)
    (rest : (b i : ℕ) → bit_of (z b) i ≡ f 0 (bit_of b i)) where
  low : (q x y : ℕ) → (q * 2 + f (x % 2) (y % 2)) % 2 ≡ f (x % 2) (y % 2)
  low q x y = omega (arith, small (x % 2) (y % 2) (omega arith) (omega arith))

  high : (q x y : ℕ) → (q * 2 + f (x % 2) (y % 2)) / 2 ≡ q
  high q x y = omega (arith, small (x % 2) (y % 2) (omega arith) (omega arith))

  bit_of-digits : (n a b i : ℕ) → a ≤ n → bit_of (digits z f n a b) i ≡ f (bit_of a i) (bit_of b i)
  bit_of-digits zero zero b i h = rw (bit_of-zero i) (rest b i)
  bit_of-digits zero (suc a) b i h = absurd (omega arith)
  bit_of-digits (suc n) zero b i h = rw (bit_of-zero i) (rest b i)
  bit_of-digits (suc n) (suc a) b zero h = low _ (suc a) b
  bit_of-digits (suc n) (suc a) b (suc i) h =
      rw (high (digits z f n (suc a / 2) (b / 2)) (suc a) b)
        (bit_of-digits n (suc a / 2) (b / 2) i (omega arith))

pub bit_of-bit_and : (a b i : ℕ) → bit_of (bit_and a b) i ≡ min (bit_of a i) (bit_of b i)
bit_of-bit_and a b i = rw (bit_and-bitwise a b) (
    bit_of-digits (λ _. zero) min (λ x y h k. omega arith) (λ c j. omega (arith, bit_of-zero j)) a a
      b i (omega arith))

pub bit_of-bit_or : (a b i : ℕ) → bit_of (bit_or a b) i ≡ max (bit_of a i) (bit_of b i)
bit_of-bit_or a b i =
    rw (bit_or-bitwise a b) (
      bit_of-digits (λ c. c) max (λ x y h k. omega arith) (λ c j. omega arith) a a b i
        (omega arith))

pub bit_of-bit_xor : (a b i : ℕ) → bit_of (bit_xor a b) i ≡ differ (bit_of a i) (bit_of b i)
bit_of-bit_xor a b i =
    rw (bit_xor-bitwise a b)
      (bit_of-digits (λ c. c) differ differ-lt (λ c j. refl) a a b i (omega arith))
  where
    differ-lt : (x y : ℕ) → x < 2 → y < 2 → differ x y < 2
    differ-lt zero y h k = k
    differ-lt (suc x) zero h k = h
    differ-lt (suc zero) (suc y) h k = omega arith
    differ-lt (suc (suc x)) (suc y) h k = absurd (omega arith)

two_pow_suc : (k : ℕ) → 2 ^ suc k ≡ 2 ^ k * 2
two_pow_suc k = pow-suc 2 k

-- A power of two has one bit.
pub bit_of-pow : (k i : ℕ) → bit_of (2 ^ k) i ≡ (if k == i then 1 else 0)
bit_of-pow zero zero = refl
bit_of-pow zero (suc i) = bit_of-zero i ∙ ground arith
bit_of-pow (suc k) zero =
    let e : 2 ^ suc k % 2 ≡ 0 = omega (arith, two_pow_suc k) in e ∙ ground arith
bit_of-pow (suc k) (suc i) =
    let e : 2 ^ suc k / 2 ≡ 2 ^ k = omega (arith, two_pow_suc k) in
    rw e (bit_of-pow k i ∙ ground arith)

-- The complement of a w-bit word, 2 ^ w - 1 - x, in each of its digits.
pub bit_of-complement : (w x i : ℕ) → x < 2 ^ w → i < w → bit_of (2 ^ w - 1 - x) i ≡ 1 - bit_of x i
bit_of-complement zero x i h k = absurd (omega arith)
bit_of-complement (suc w) x zero h k = omega (arith, two_pow_suc w)
bit_of-complement (suc w) x (suc i) h k =
    let e : (2 ^ suc w - 1 - x) / 2 ≡ 2 ^ w - 1 - x / 2 = omega (arith, two_pow_suc w) in
    rw e (bit_of-complement w (x / 2) i (omega (arith, two_pow_suc w)) (omega arith))

-- A number none of whose digits is 1 is 0.
zero_of_bits_fuel : (n x : ℕ) → x ≤ n → ((i : ℕ) → bit_of x i ≡ 0) → x ≡ 0
zero_of_bits_fuel n zero h z = refl
zero_of_bits_fuel zero (suc x) h z = absurd (omega arith)
zero_of_bits_fuel (suc n) (suc x) h z =
    omega (arith, z 0, zero_of_bits_fuel n (suc x / 2) (omega arith) (λ i. z (suc i)))

pub zero_of_bits : (x : ℕ) → ((i : ℕ) → bit_of x i ≡ 0) → x ≡ 0
zero_of_bits x z = zero_of_bits_fuel x x (omega arith) z

pow_self : (k : ℕ) → bit_of (2 ^ k) k ≡ 1
pow_self k = bit_of-pow k k ∙ ground arith

differ_zero : (a b : ℕ) → a ≢ 0 → b ≢ 0 → (a == 0) ≡ (b == 0)
differ_zero a b ha hb = ground arith

-- A word masked by one bit is that bit.
pub masked_zero_iff : (x k : ℕ) → (bit_and x (2 ^ k) == 0) ≡ (bit_of x k == 0)
masked_zero_iff x k = elim (ℕ_discrete (bit_of x k) 0) [
  | yes e ↦ rw (zero_of_bits (bit_and x (2 ^ k)) (none_set e), e)
  | no n ↦
      differ_zero (bit_and x (2 ^ k)) (bit_of x k)
        (λ e. n (masked_bit ∙ ap (λ y. bit_of y k) e ∙ bit_of-zero k)) n
]
  where
    masked_bit : bit_of x k ≡ bit_of (bit_and x (2 ^ k)) k
    masked_bit = omega (arith, bit_of-bit_and x (2 ^ k) k, pow_self k, bit_of-lt x k)

    none_set : bit_of x k ≡ 0 → (i : ℕ) → bit_of (bit_and x (2 ^ k)) i ≡ 0
    none_set e i = bit_of-bit_and x (2 ^ k) i ∙ ground (arith, bit_of-pow k i, bit_of-lt x i)
