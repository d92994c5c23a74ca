-- ===== src/SharedLib/Arithmetic/Trial.antt =====
-- lib/arithmetic.c: the two branches of udiv64.
use native.Mathlib.Nat.{
  mul-le-mul, mul-le-mul_left, mul-le-mul_right, mul-div-le, lt-mul-div-succ, div-eq_of_lt-le,
  div-div-eq-div-mul, mod-eq_of_lt, le_of_mul-le-mul_right, lt_of_mul-lt-mul_left,
  div-lt_iff_lt-mul, le-div_iff_mul-le, div-le_self,
}
use pintos_proj.Prelude.{
  ℕ, zero, suc, ◌+◌, ◌-◌, ◌*◌, ◌/◌, ◌%◌, ◌^◌, ◌≤◌, ◌<◌, ◌≡◌, ◌≢◌, sym, ap, ◌∙◌, true, false, ◌⊎◌,
  inl, inr, ltb, leb, ◌==◌, if◌then◌else◌, Bool-cases, arith, ok, ◌>>=◌,
}
use pintos_proj.SharedLib.Arithmetic.{divl, minus}

-- DIVL does not trap where the quotient has 32 bits.
pub divl-ok : (n d : ℕ) → 0 < d → n / d < 2 ^ 32 → divl n d ≡ ok (n / d)
divl-ok n zero h k = absurd (omega arith)
divl-ok n (suc d) h k = ground (arith, k)

-- The first branch: the quotient from the two halves of a number, of which `r` and `c` are the
-- remainder and the quotient of the upper one.
pub long_division :
    (d h l r c q s : ℕ)
    → 0 < d
    → d * c + r ≡ h
    → r < d
    → d * q + s ≡ 2 ^ 32 * r + l
    → s < d
    → (2 ^ 32 * h + l) / d ≡ q + 2 ^ 32 * c
long_division d h l r c q s pos a b e f = div-eq_of_lt-le d (omega arith) (omega arith)

left_distrib : (x y z : ℕ) → x * (y + z) ≡ x * y + x * z
left_distrib x y z = omega arith

-- The second branch: the quotient by the upper bits of the divisor is at most one too large. `v` has
-- 32 bits, of which the upper one is set, and `2 * v * b` is the divisor without its lower bits.
module _ (n d v a b k : ℕ) (ab : a * b ≡ 2 ^ 31) (large : 2 ^ 31 ≤ v) (le : 2 * (v * b) ≤ d)
    (lt : d < 2 * (v * b) + 2 * b) (small : n < 2 ^ 64) (under : k * d ≤ n)
    (over : n < (k + 1) * d) where
  few : k + 1 ≤ 2 * a
  few = elim (Bool-cases (leb (k + 1) (2 * a))) [
    | inl t ↦ ground (arith, t)
    | inr t ↦
        let many : 2 * a ≤ k = ground (arith, t) in
        absurd (
          omega (
            arith,
            mul-le-mul many le,
            mul-le-mul_left (2 * (2 * a)) (mul-le-mul_right b large),
            ab,
            under,
            small,
          ))
  ]

  square : (c : ℕ) → 2 * c ≤ c * c + 1
  square zero = omega arith
  square (suc c) = omega arith

  trial_quotient : n < (k + 2) * (2 * (v * b))
  trial_quotient =
      let w = 2 * b - 1 in
      let b_pos : 1 ≤ 2 * b = omega (arith, lt, le) in
      let odd : w + 1 ≡ 2 * b = omega (arith, b_pos) in
      let d' : d ≤ 2 * (v * b) + w = omega (arith, lt, odd) in
      let at_most : n < (k + 1) * (2 * (v * b)) + 2 * a * w = omega (
        arith,
        over,
        mul-le-mul_left (k + 1) d',
        mul-le-mul_right w few,
        left_distrib (k + 1) (2 * (v * b)) w,
      ) in
      let bound : 2 * a * w ≤ 2 * (v * b) = omega (
        arith,
        ap (λ z. 2 * a * z) odd,
        mul-le-mul_left (2 * a) (square b),
        ab,
        ap (λ z. z * b) ab,
        mul-le-mul_right b large,
      ) in
      omega (arith, at_most, bound)

pub minus-le : (a b : ℕ) → b ≤ a → a < 2 ^ 64 → minus a b ≡ a - b
minus-le a b h k = omega arith

-- The last step of udiv64: a quotient that is one too large is put right.
correct :
    (n d p k : ℕ)
    → n < 2 ^ 64
    → p < 2 ^ 64
    → k * d ≤ n
    → n < (k + 1) * d
    → (k ≡ p) ⊎ (k ≡ p + 1)
    → (if ltb (minus n ((p * d) % 2 ^ 64)) d then p else p + 1) ≡ k
correct n d p k small fits under over (inl e) =
    let whole : (p * d) % 2 ^ 64 ≡ p * d = mod-eq_of_lt (omega (arith, ap (λ z. z * d) e)) in
    let less : ltb (minus n (p * d)) d ≡ true = ground (
      arith,
      minus-le n (p * d) (omega (arith, ap (λ z. z * d) e)) small,
      over,
      ap (λ z. z * d) e,
    ) in
    rw (whole, less) (sym e)
correct n d p k small fits under over (inr e) =
    let whole : (p * d) % 2 ^ 64 ≡ p * d = mod-eq_of_lt (omega (arith, ap (λ z. z * d) e)) in
    let less : ltb (minus n (p * d)) d ≡ false = ground (
      arith,
      minus-le n (p * d) (omega (arith, ap (λ z. z * d) e)) small,
      under,
      ap (λ z. z * d) e,
    ) in
    rw (whole, less) (sym e)

-- The upper 32 bits of a number shifted.
abbrev upper : ℕ → ℕ → ℕ
upper d a = (d * a) / 2 ^ 32

-- The numbers of the second branch, with `a` and `b` for the two shifts.
module _ (n d a b : ℕ) (ab : a * b ≡ 2 ^ 31) (shift_large : 2 ^ 31 ≤ (d / 2 ^ 32) * a)
    (shift_small : (d / 2 ^ 32) * a < 2 ^ 32) (n_small : n < 2 ^ 64) (d_le : d ≤ n)
    (d_large : 2 ^ 32 ≤ d) where
  a_pos : 0 < a
  a_pos = positive a ab
    where
      positive : (a : ℕ) → a * b ≡ 2 ^ 31 → 0 < a
      positive zero e = omega (arith, e)
      positive (suc a) e = omega arith

  b_pos : 0 < b
  b_pos = positive b ab
    where
      positive : (b : ℕ) → a * b ≡ 2 ^ 31 → 0 < b
      positive zero e = omega (arith, e)
      positive (suc b) e = omega arith

  fits : d * a < 2 ^ 64
  fits =
      let x = d / 2 ^ 32 in
      let room : x < 2 * b = lt_of_mul-lt-mul_left a (omega (arith, shift_small, ab)) in
      let top : d + 1 ≤ 2 ^ 32 * (x + 1) = omega arith in
      omega (arith, mul-le-mul_right a top, mul-le-mul_left (2 ^ 32 * a) room, a_pos, ab)

  upper_large : 2 ^ 31 ≤ (upper d a)
  upper_large =
      let whole : 2 ^ 32 * (d / 2 ^ 32) ≤ d = omega arith in
      omega (arith, mul-le-mul_right a whole, shift_large)

  divisor_le : 2 * ((upper d a) * b) ≤ d
  divisor_le =
      let down : 2 ^ 32 * (upper d a) ≤ d * a = omega arith in
      le_of_mul-le-mul_right (omega (arith, down, ap (λ z. (upper d a) * z) ab)) a_pos

  divisor_lt : d < 2 * ((upper d a) * b) + 2 * b
  divisor_lt =
      let up : d * a < 2 ^ 32 * (upper d a) + 2 ^ 32 = omega arith in
      lt_of_mul-lt-mul_left a (omega (arith, up, ap (λ z. (upper d a) * z) ab, ab))

  trial_small : (n / 2) / (upper d a) < 2 ^ 32
  trial_small =
      let pos : 0 < (upper d a) = omega (arith, upper_large) in
      (div-lt_iff_lt-mul pos).1 (omega (arith, upper_large, n_small))

  trial_shifted : (n / 2) / (upper d a) / b ≡ n / (2 * ((upper d a) * b))
  trial_shifted =
      div-div-eq-div-mul (n / 2) (upper d a) b ∙ div-div-eq-div-mul n 2 ((upper d a) * b)

  kept_pos : 0 < 2 * ((upper d a) * b)
  kept_pos = omega (arith, mul-le-mul upper_large b_pos)

  trial_ge : n / d ≤ n / (2 * ((upper d a) * b))
  trial_ge =
      (le-div_iff_mul-le kept_pos).1
        (omega (arith, mul-le-mul_left (n / d) divisor_le, mul-div-le n d))

  trial_lt : n / (2 * ((upper d a) * b)) < n / d + 2
  trial_lt = (div-lt_iff_lt-mul kept_pos).1 (
      trial_quotient n d (upper d a) a b (n / d) ab upper_large divisor_le divisor_lt n_small
        (omega (arith, mul-div-le n d))
        (omega (arith, lt-mul-div-succ n {b = d} (omega (arith, d_large)))))

  -- The trial quotient is the quotient or one more.
  trial_close : (p : ℕ) → n / (2 * ((upper d a) * b)) ≡ p + 1 → (n / d ≡ p) ⊎ (n / d ≡ p + 1)
  trial_close p e = elim (Bool-cases ((n / d) == p)) [
    | inl t ↦ inl (ground (arith, t))
    | inr t ↦
        let other : n / d ≢ p = λ q. ground (arith, q, t) in
        inr (omega (arith, other, trial_ge, trial_lt, e))
  ]

  trial_pos : 0 < n / (2 * ((upper d a) * b))
  trial_pos =
      let one_at_least : 1 ≤ n / d =
        (le-div_iff_mul-le (omega (arith, d_large))).1 (omega (arith, d_le)) in
      omega (arith, one_at_least, trial_ge)

  pub second_branch :
      (divl (n / 2) (((d * a) % 2 ^ 64) / 2 ^ 32) >>= λ q₁.
      ok (if ltb (minus n ((minus (q₁ / b) 1 * d) % 2 ^ 64)) d then minus (q₁ / b) 1 else q₁ / b))
      ≡ ok (n / d)
  second_branch =
      let q = n / (2 * (upper d a * b)) in
      let p = q - 1 in
      let e : q ≡ p + 1 = omega (arith, trial_pos) in
      let p_small : p < 2 ^ 64 = omega (arith, div-le_self n (2 * (upper d a * b)), n_small) in
      let less : minus (p + 1) 1 ≡ p = omega (arith, p_small) in
      rw
        (
          mod-eq_of_lt fits,
          divl-ok (n / 2) (upper d a) (omega (arith, upper_large)) trial_small,
          ◌>>=◌,
          trial_shifted,
          e,
          less,
        )
        (ap ok (
          correct n d p (n / d) n_small p_small (omega (arith, mul-div-le n d))
            (omega (arith, lt-mul-div-succ n {b = d} (omega (arith, d_large)))) (trial_close p e)))
