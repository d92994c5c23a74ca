-- ===== src/SharedLib/Arithmetic/Leading.antt =====
-- lib/arithmetic.c: the shift that nlz finds.
use native.Mathlib.Nat.{pow-suc, mul-le-mul_right, mod-eq_of_lt, mul_assoc, mul_comm, one-le-pow}
use pintos_proj.Prelude.{
  ℕ, zero, suc, ◌+◌, ◌*◌, ◌%◌, ◌^◌, ◌≤◌, ◌<◌, ◌≡◌, sym, subst, ap, ◌∙◌, true, inl, inr, leb,
  if◌then◌else◌, Bool-cases, arith,
}
use pintos_proj.SharedLib.Arithmetic.{nlz_step, nlz}

-- A number shifted by `s.0` bits, with no bit lost.
record IsShift (x low most : ℕ) (s : ℕ × ℕ) : Type 0 where
  pub value : s.1 ≡ x * 2 ^ s.0
  pub small : s.1 < 2 ^ 32
  pub large : low ≤ s.1
  pub few : s.0 ≤ most

pub pow_add : (m n : ℕ) → 2 ^ (m + n) ≡ 2 ^ m * 2 ^ n
pow_add m zero = ap (λ k. 2 ^ k) no_more ∙ sym (mul_comm (2 ^ m) 1 ∙ one_times)
  where
    no_more : m + 0 ≡ m
    no_more = omega arith

    one_times : 1 * 2 ^ m ≡ 2 ^ m
    one_times = omega arith
pow_add m (suc n) =
    ap (λ k. 2 ^ k) add_suc
    ∙ pow-suc 2 (m + n)
    ∙ ap (λ k. k * 2) (pow_add m n)
    ∙ mul_assoc (2 ^ m) (2 ^ n) 2
    ∙ ap (λ k. 2 ^ m * k) (sym (pow-suc 2 n))
  where
    add_suc : m + suc n ≡ suc (m + n)
    add_suc = omega arith

below : (bound y : ℕ) → leb y bound ≡ true → y < bound + 1
below bound y t = ground (arith, t)

pub pow_pos : (bits : ℕ) → 0 < 2 ^ bits
pow_pos bits = one-le-pow bits 2 (omega arith)

IsShift-step :
    (bound bits low most low' most' x : ℕ) (s : ℕ × ℕ)
    → IsShift x low most s
    → (bound + 1) * 2 ^ bits ≤ 2 ^ 32
    → low' ≤ low * 2 ^ bits
    → low' ≤ bound + 1
    → most + bits ≤ most'
    → IsShift x low' most' (nlz_step bound bits s)
IsShift-step bound bits low most low' most' x (n, y) s a b c d = elim (Bool-cases (leb y bound)) [
  | inl t ↦
      let fits : y * 2 ^ bits < 2 ^ 32 =
        omega (arith, mul-le-mul_right (2 ^ bits) (below bound y t), pow_pos bits, a) in
      let whole = mod-eq_of_lt fits in
      subst (IsShift x low' most')
        (sym (ap (λ c. if c then (n + bits, (y * 2 ^ bits) % 2 ^ 32) else (n, y)) t))
        (record {
          value =
              whole
              ∙ ap (λ z. z * 2 ^ bits) s.value
              ∙ mul_assoc x (2 ^ n) (2 ^ bits)
              ∙ ap (λ z. x * z) (sym (pow_add n bits));
          small = subst (λ z. z < 2 ^ 32) (sym whole) fits;
          large =
              subst (λ z. low' ≤ z) (sym whole)
                (omega (arith, b, mul-le-mul_right (2 ^ bits) s.large));
          few = omega (arith, d, s.few);
        })
  | inr t ↦
      subst (IsShift x low' most')
        (sym (ap (λ c. if c then (n + bits, (y * 2 ^ bits) % 2 ^ 32) else (n, y)) t))
        (record {
          value = s.value;
          small = s.small;
          large = ground (arith, t, c);
          few = omega (arith, d, s.few);
        })
]

-- nlz finds how far a number can be shifted.
pub nlz_lem :
    (x : ℕ)
    → 0 < x
    → x < 2 ^ 32
    → (2 ^ 31 ≤ x * 2 ^ nlz x) × (x * 2 ^ nlz x < 2 ^ 32) × (nlz x ≤ 31)
unfolding nlz
nlz_lem x h k =
    let a =
      IsShift-step 65535 16 1 0 65536 16 x (0, x)
        (record { value = omega arith; small = k; large = h; few = omega arith }) (omega arith)
        (omega arith) (omega arith) (omega arith) in
    let b =
      IsShift-step 16777215 8 65536 16 16777216 24 x _ a (omega arith) (omega arith) (omega arith)
        (omega arith) in
    let c =
      IsShift-step 268435455 4 16777216 24 268435456 28 x _ b (omega arith) (omega arith)
        (omega arith) (omega arith) in
    let d =
      IsShift-step 1073741823 2 268435456 28 1073741824 30 x _ c (omega arith) (omega arith)
        (omega arith) (omega arith) in
    last _ d
  where
    last :
        (s : ℕ × ℕ)
        → IsShift x 1073741824 30 s
        → (2 ^ 31 ≤ x * 2 ^ (if leb s.1 2147483647 then s.0 + 1 else s.0))
          × (x * 2 ^ (if leb s.1 2147483647 then s.0 + 1 else s.0) < 2 ^ 32)
          × ((if leb s.1 2147483647 then s.0 + 1 else s.0) ≤ 31)
    last (n, y) s = elim (Bool-cases (leb y 2147483647)) [
      | inl t ↦
          let e : x * 2 ^ (n + 1) ≡ 2 * y =
            ap (λ k. x * k) (pow_add n 1)
            ∙ sym (mul_assoc x (2 ^ n) 2)
            ∙ ap (λ k. k * 2) (sym s.value)
            ∙ mul_comm y 2 in
          rw t (ground (arith, e, t, s.large), ground (arith, e, t), omega (arith, s.few))
      | inr t ↦
          rw t (ground (arith, s.value, t), ground (arith, s.value, s.small), omega (arith, s.few))
    ]
