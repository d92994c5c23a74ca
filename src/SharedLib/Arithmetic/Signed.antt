-- ===== src/SharedLib/Arithmetic/Signed.antt =====
-- lib/arithmetic.c: sdiv64.
use native.Mathlib.Nat.{div-le_self, zero-div}
use pintos_proj.Prelude.{
  ℕ, zero, suc, ◌+◌, ◌-◌, ◌/◌, ◌%◌, ◌^◌, ◌<◌, ◌≡◌, refl, sym, subst, ap, ◌∙◌, Bool, true, false,
  not, ◌⊎◌, inl, inr, if◌then◌else◌, arith, ok, ◌>>=◌,
}
use pintos_proj.SharedLib.Arithmetic.{negate, is_negative, same, sdiv64}
use pintos_proj.SharedLib.Arithmetic.Unsigned.{udiv64-ok}

-- The bits of an int64_t of that magnitude, negative or not.
abbrev pub int_bits : Bool → ℕ → ℕ
int_bits false a = a
int_bits true a = (2 ^ 64 - a) % 2 ^ 64

-- The magnitude of an int64_t.
abbrev pub IsMagnitude : Bool → ℕ → Type 0
IsMagnitude s a = a < (if s then 2 ^ 63 + 1 else 2 ^ 63)

abbrev pub differ : Bool → Bool → Bool
differ true b = not b
differ false b = b

magnitude :
    (s : Bool) (a : ℕ)
    → IsMagnitude s a
    → (if is_negative (int_bits s a) then negate (int_bits s a) else int_bits s a) ≡ a
magnitude false a h = ground (arith, h)
magnitude true zero h = refl
magnitude true (suc a) h = ground (arith, h)

sign : (s : Bool) (a : ℕ) → IsMagnitude s (suc a) → is_negative (int_bits s (suc a)) ≡ s
sign false a h = ground (arith, h)
sign true a h = ground (arith, h)

bits-lt : (s : Bool) (a : ℕ) → IsMagnitude s a → a < 2 ^ 64
bits-lt false a h = omega (arith, h)
bits-lt true a h = omega (arith, h)

-- The sign of the quotient; that of zero does not matter.
signed :
    (s t u : Bool) (q : ℕ)
    → (u ≡ s) ⊎ (q ≡ 0)
    → q < 2 ^ 64
    → (if same u t then q else negate q) ≡ int_bits (differ s t) q
signed s t u q (inl e) h =
    subst (λ u. (if same u t then q else negate q) ≡ int_bits (differ s t) q) (sym e) (go s t)
  where
    go : (s t : Bool) → (if same s t then q else negate q) ≡ int_bits (differ s t) q
    go false false = refl
    go false true = ground (arith, h)
    go true false = ground (arith, h)
    go true true = refl
signed s t u q (inr e) h =
    subst (λ q. (if same u t then q else negate q) ≡ int_bits (differ s t) q) (sym e)
      (both (same u t) ∙ sym (zero_bits (differ s t)))
  where
    both : (c : Bool) → (if c then 0 else negate 0) ≡ 0
    both false = refl
    both true = refl

    zero_bits : (c : Bool) → int_bits c 0 ≡ 0
    zero_bits false = refl
    zero_bits true = refl

zero_or_sign :
    (s : Bool) (a b : ℕ) → IsMagnitude s a → 0 < b → (is_negative (int_bits s a) ≡ s) ⊎ (a / b ≡ 0)
zero_or_sign s zero b h pos = inr (zero-div b)
zero_or_sign s (suc a) b h pos = inl (sign s a h)

same_sign : (t : Bool) (b : ℕ) → IsMagnitude t b → 0 < b → is_negative (int_bits t b) ≡ t
same_sign t zero h pos = absurd (omega (arith, pos))
same_sign t (suc b) h pos = sign t b h

-- For two numbers of 64 bits with their signs, of which the divisor is not zero, sdiv64 returns the
-- quotient of the magnitudes, negative if just one of the two numbers is; the least number divided by
-- -1 gives the least number.
pub sdiv64-int_bits :
    (s t : Bool) (a b : ℕ)
    → IsMagnitude s a
    → IsMagnitude t b
    → 0 < b
    → sdiv64 (int_bits s a) (int_bits t b) ≡ ok (int_bits (differ s t) (a / b))
unfolding sdiv64
sdiv64-int_bits s t a b h k pos =
    rw
      (
        magnitude s a h,
        magnitude t b k,
        udiv64-ok a b (bits-lt s a h) pos (bits-lt t b k),
        ◌>>=◌,
        same_sign t b k pos,
      )
      (ap ok (
        signed s t (is_negative (int_bits s a)) (a / b) (zero_or_sign s a b h pos)
          (omega (arith, div-le_self a b, bits-lt s a h))))
