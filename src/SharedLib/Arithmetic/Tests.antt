-- ===== src/SharedLib/Arithmetic/Tests.antt =====
-- lib/arithmetic.c: divisions of numbers of 64 bits.
use pintos_proj.Prelude.{◌+◌, ◌-◌, ◌/◌, ◌%◌, ◌^◌, ◌≡◌, refl, true, false, arith, ok}
use pintos_proj.SharedLib.Arithmetic.{nlz, udiv64, umod64, sdiv64, smod64, moddi3, umoddi3}
use pintos_proj.SharedLib.Arithmetic.Unsigned.{udiv64-UnsignedDivision}
use pintos_proj.SharedLib.Arithmetic.Signed.{int_bits, sdiv64-int_bits}

-- A quotient that is one too large before it is put right.
udiv64-UnsignedDivision_example :
    (udiv64 (2 ^ 64 - 1) (2 ^ 32 + 1) ≡ ok ((2 ^ 64 - 1) / (2 ^ 32 + 1)))
    × (umod64 (2 ^ 64 - 1) (2 ^ 32 + 1) ≡ ok (((2 ^ 64 - 1) % (2 ^ 32 + 1)) % 2 ^ 32))
udiv64-UnsignedDivision_example =
    udiv64-UnsignedDivision (2 ^ 64 - 1) (2 ^ 32 + 1) (omega arith) (omega arith)

sdiv64-int_bits_example :
    sdiv64 (int_bits true 100000000000) (int_bits false 7) ≡ ok (int_bits true (100000000000 / 7))
sdiv64-int_bits_example =
    sdiv64-int_bits true false 100000000000 7 (omega arith) (omega arith) (omega arith)

-- -7 % 4 is -3.
signed_remainder : moddi3 (2 ^ 64 - 7) 4 ≡ ok (2 ^ 64 - 3)
unfolding smod64 sdiv64 udiv64
signed_remainder = refl

-- The remainder of 2^32 by 2^33 is 2^32.
cut_remainder : umoddi3 (2 ^ 32) (2 ^ 33) ≡ ok 0
unfolding umod64 udiv64 nlz
cut_remainder = refl
