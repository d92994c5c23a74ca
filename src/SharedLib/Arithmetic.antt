-- ===== src/SharedLib/Arithmetic.antt =====
-- lib/arithmetic.c: division of 64-bit numbers by means of the DIVL instruction, which divides one of
-- 64 bits by one of 32. An int64_t stands as the uint64_t with the same bits.
pub mod Leading
pub mod Trial
pub mod Unsigned
pub mod Signed
mod Tests
use pintos_proj.Prelude.{
  ℕ, zero, suc, ◌+◌, ◌-◌, ◌*◌, ◌/◌, ◌%◌, ◌^◌, Bool, true, false, not, ltb, leb, ◌==◌, if◌then◌else◌,
  Outcome, ok, panic, ◌>>=◌,
}

-- The subtraction of 64-bit numbers.
abbrev pub minus : ℕ → ℕ → ℕ
minus a b = (a + (2 ^ 64 - b % 2 ^ 64)) % 2 ^ 64

-- A division by zero and a quotient of more than 32 bits are a divide error.
abbrev pub divl : ℕ → ℕ → Outcome ℕ
divl n zero = panic
divl n (suc d) = if ltb (n / suc d) (2 ^ 32) then ok (n / suc d) else panic

-- One of the tests of nlz: a number that is at most `bound` is shifted by `bits`.
abbrev pub nlz_step : ℕ → ℕ → ℕ × ℕ → ℕ × ℕ
nlz_step bound bits (n, x) = if leb x bound then (n + bits, (x * 2 ^ bits) % 2 ^ 32) else (n, x)

unfoldable pub nlz : ℕ → ℕ
nlz x =
    let (n, y) =
      nlz_step 1073741823 2
        (nlz_step 268435455 4 (nlz_step 16777215 8 (nlz_step 65535 16 (0, x)))) in
    if leb y 2147483647 then n + 1 else n

unfoldable pub udiv64 : ℕ → ℕ → Outcome ℕ
udiv64 n d =
    if d / 2 ^ 32 == 0
    then (do
      q ←
          divl (((2 ^ 32 * ((n / 2 ^ 32) % (d % 2 ^ 32))) % 2 ^ 64 + n % 2 ^ 32) % 2 ^ 64)
            (d % 2 ^ 32)
      ok ((q + (2 ^ 32 * ((n / 2 ^ 32) / (d % 2 ^ 32))) % 2 ^ 64) % 2 ^ 64))
    else if ltb n d
    then ok 0
    else (do
      q₁ ← divl (n / 2) (((d * 2 ^ nlz (d / 2 ^ 32)) % 2 ^ 64) / 2 ^ 32)
      let q = q₁ / 2 ^ (31 - nlz (d / 2 ^ 32))
      ok (if ltb (minus n ((minus q 1 * d) % 2 ^ 64)) d then minus q 1 else q))

-- The result is a uint32_t.
unfoldable pub umod64 : ℕ → ℕ → Outcome ℕ
umod64 n d = do q ← udiv64 n d; ok (minus n ((d * q) % 2 ^ 64) % 2 ^ 32)

abbrev pub is_negative : ℕ → Bool
is_negative n = leb (2 ^ 63) n

abbrev pub negate : ℕ → ℕ
negate n = minus 0 n

-- b == c, for the results of two comparisons
abbrev pub same : Bool → Bool → Bool
same true c = c
same false c = not c

unfoldable pub sdiv64 : ℕ → ℕ → Outcome ℕ
sdiv64 n d = do
  q_abs ← udiv64 (if is_negative n then negate n else n) (if is_negative d then negate d else d)
  ok (if same (is_negative n) (is_negative d) then q_abs else negate q_abs)

-- The result is an int32_t, which the caller widens with its sign.
unfoldable pub smod64 : ℕ → ℕ → Outcome ℕ
smod64 n d = do q ← sdiv64 n d; ok (minus n ((d * q) % 2 ^ 64) % 2 ^ 32)

-- __divdi3
abbrev divdi3 : ℕ → ℕ → Outcome ℕ
divdi3 n d = sdiv64 n d

-- __moddi3
abbrev pub moddi3 : ℕ → ℕ → Outcome ℕ
moddi3 n d = do r ← smod64 n d; ok (if ltb r (2 ^ 31) then r else r + (2 ^ 64 - 2 ^ 32))

-- __udivdi3
abbrev udivdi3 : ℕ → ℕ → Outcome ℕ
udivdi3 n d = udiv64 n d

-- __umoddi3
abbrev pub umoddi3 : ℕ → ℕ → Outcome ℕ
umoddi3 n d = umod64 n d
