-- ===== src/SharedLib/Arithmetic/Unsigned.antt =====
-- lib/arithmetic.c: udiv64 and umod64.
use native.Mathlib.Nat.{
  mul-div-le, mod-eq_of_lt, div-lt_iff_lt-mul, div-add-mod, mod-lt, div-eq_of_lt, div-le_self,
}
use pintos_proj.Prelude.{
  ℕ, zero, suc, ◌+◌, ◌-◌, ◌*◌, ◌/◌, ◌%◌, ◌^◌, ◌≤◌, ◌<◌, ◌≡◌, refl, sym, ap, ◌∙◌, true, false, inl,
  inr, ltb, ◌==◌, Bool-cases, arith, ok, panic, ◌>>=◌,
}
use pintos_proj.SharedLib.Arithmetic.{minus, nlz, udiv64, umod64}
use pintos_proj.SharedLib.Arithmetic.Trial.{divl-ok, long_division, second_branch, minus-le}
use pintos_proj.SharedLib.Arithmetic.Leading.{nlz_lem, pow_add}

module _ (n d : ℕ) (n_small : n < 2 ^ 64) (d_pos : 0 < d) (d_small : d < 2 ^ 64) where
  udiv64_short : d < 2 ^ 32 → udiv64 n d ≡ ok (n / d)
  unfolding udiv64
  udiv64_short h =
      let z : (d / 2 ^ 32 == 0) ≡ true = ground (arith, h) in
      let same : d % 2 ^ 32 ≡ d = mod-eq_of_lt h in
      let r = (n / 2 ^ 32) % d in
      let r_small : r < d = mod-lt (n / 2 ^ 32) d_pos in
      let e : ((2 ^ 32 * r) % 2 ^ 64 + n % 2 ^ 32) % 2 ^ 64 ≡ 2 ^ 32 * r + n % 2 ^ 32 =
        omega (arith, r_small, h) in
      let m = 2 ^ 32 * r + n % 2 ^ 32 in
      let q_small : m / d < 2 ^ 32 = (div-lt_iff_lt-mul d_pos).1 (omega (arith, r_small)) in
      let sum : n / d ≡ m / d + 2 ^ 32 * ((n / 2 ^ 32) / d) =
        ap (λ z. z / d) halves
        ∙ long_division d (n / 2 ^ 32) (n % 2 ^ 32) r ((n / 2 ^ 32) / d) (m / d) (m % d) d_pos
            (div-add-mod _ _) r_small (div-add-mod _ _) (mod-lt m d_pos) in
      let final : (m / d + (2 ^ 32 * ((n / 2 ^ 32) / d)) % 2 ^ 64) % 2 ^ 64 ≡ n / d =
        omega (arith, sum, div-le_self n d, n_small) in
      rw (z, same, e, divl-ok m d d_pos q_small) (ap ok final)
    where
      halves : n ≡ 2 ^ 32 * (n / 2 ^ 32) + n % 2 ^ 32
      halves = omega arith

  udiv64_long : 2 ^ 32 ≤ d → udiv64 n d ≡ ok (n / d)
  unfolding udiv64
  udiv64_long h =
      let x = d / 2 ^ 32 in
      let (lo, hi, few) = nlz_lem x (omega (arith, h)) (omega (arith, d_small)) in
      let a = 2 ^ nlz x in
      let b = 2 ^ (31 - nlz x) in
      let ab : a * b ≡ 2 ^ 31 =
        sym (pow_add (nlz x) (31 - nlz x)) ∙ ap (λ k. 2 ^ k) (all_bits (nlz x) few) in
      let z : (x == 0) ≡ false = ground (arith, h) in
      elim (Bool-cases (ltb n d)) [
        | inl t ↦ rw (z, t) (ap ok (sym (div-eq_of_lt (less t))))
        | inr t ↦
            let d_le : d ≤ n = not_less t in
            rw (z, t) (second_branch n d a b ab lo hi n_small d_le h)
      ]
    where
      less : ltb n d ≡ true → n < d
      less t = ground (arith, t)

      not_less : ltb n d ≡ false → d ≤ n
      not_less t = ground (arith, t)

      all_bits : (s : ℕ) → s ≤ 31 → s + (31 - s) ≡ 31
      all_bits s h = omega (arith, h)

  pub udiv64-ok : udiv64 n d ≡ ok (n / d)
  udiv64-ok = elim (Bool-cases (ltb d (2 ^ 32))) [
    | inl t ↦ udiv64_short (below t)
    | inr t ↦ udiv64_long (above t)
  ]
    where
      below : ltb d (2 ^ 32) ≡ true → d < 2 ^ 32
      below t = ground (arith, t)

      above : ltb d (2 ^ 32) ≡ false → 2 ^ 32 ≤ d
      above t = ground (arith, t)

  umod64-ok : umod64 n d ≡ ok ((n % d) % 2 ^ 32)
  unfolding umod64
  umod64-ok =
      let whole : (d * (n / d)) % 2 ^ 64 ≡ d * (n / d) =
        mod-eq_of_lt (omega (arith, mul-div-le n d, n_small)) in
      let rest : minus n (d * (n / d)) ≡ n % d =
        minus-le n (d * (n / d)) (mul-div-le n d) n_small ∙ omega (arith, div-add-mod n d) in
      rw (udiv64-ok, ◌>>=◌, whole, rest)

-- What the unsigned routines come to: a divide error where the divisor is zero, and otherwise the
-- quotient, and the lower 32 bits of the remainder.
abbrev pub UnsignedDivision : ℕ → ℕ → Type 0
UnsignedDivision n zero = (udiv64 n 0 ≡ panic) × (umod64 n 0 ≡ panic)
UnsignedDivision n (suc d) =
    (udiv64 n (suc d) ≡ ok (n / suc d)) × (umod64 n (suc d) ≡ ok ((n % suc d) % 2 ^ 32))

-- For numbers of 64 bits, udiv64 and umod64 stop at a divide error if the divisor is zero. If it is
-- not, no DIVL traps, udiv64 returns the quotient, and umod64 the lower 32 bits of the remainder.
pub udiv64-UnsignedDivision : (n d : ℕ) → n < 2 ^ 64 → d < 2 ^ 64 → UnsignedDivision n d
unfolding udiv64 umod64
udiv64-UnsignedDivision n zero h k = (refl, refl)
udiv64-UnsignedDivision n (suc d) h k =
    (udiv64-ok n (suc d) h (omega arith) k, umod64-ok n (suc d) h (omega arith) k)
