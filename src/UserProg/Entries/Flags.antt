-- ===== src/UserProg/Entries/Flags.antt =====
-- threads/pte.h: the address and the flags of an entry.
use Prim.Native.Nat.{bit_or, digits, bit_and-bitwise}
use pintos_proj.Prelude.{
  ℕ, zero, suc, ◌+◌, ◌-◌, ◌*◌, ◌/◌, ◌%◌, ◌^◌, ◌≤◌, ◌<◌, max, min, ◌≡◌, sym, subst, ap, ◌∙◌, Bool,
  true, false, not, ◌==◌, if◌then◌else◌, arith, ok,
}
use pintos_proj.KernelLib.Bits.{
  bit_of, bit_of-zero, zero_of_bits, bit_of-bit_and, bit_of-bit_or, masked_zero_iff,
}
use pintos_proj.UserProg.Entries.{
  phys_base, has_flag, clear_flag, pde_create, pde_get_pt, pte_create_kernel, pte_create_user,
  pte_get_page,
}

same_bits_fuel : (n x y : ℕ) → x ≤ n → ((i : ℕ) → bit_of x i ≡ bit_of y i) → x ≡ y
same_bits_fuel n zero y h e = sym (zero_of_bits y (λ i. sym (e i) ∙ bit_of-zero i))
same_bits_fuel zero (suc x) y h e = absurd (omega arith)
same_bits_fuel (suc n) (suc x) y h e =
    let halves : suc x / 2 ≡ y / 2 =
      same_bits_fuel n (suc x / 2) (y / 2) (omega arith) (λ i. e (suc i)) in
    omega (arith, e 0, halves)

-- The number without its 12 lower bits.
abbrev above : ℕ → ℕ
above x = x / 2 / 2 / 2 / 2 / 2 / 2 / 2 / 2 / 2 / 2 / 2 / 2

above_lem : (x : ℕ) → above x ≡ x / 4096
above_lem x = omega arith

-- Setting flags in an entry leaves its address.
bit_or-above : (a g : ℕ) → g < 4096 → bit_or a g / 4096 ≡ a / 4096
bit_or-above a g h =
    sym (above_lem (bit_or a g))
    ∙ same_bits_fuel (above (bit_or a g)) _ _ (omega arith) same
    ∙ above_lem a
  where
    none : above g ≡ 0
    none = omega (arith, h)

    same : (i : ℕ) → bit_of (above (bit_or a g)) i ≡ bit_of (above a) i
    same i =
        let low : bit_of (above g) i ≡ 0 = ap (λ z. bit_of z i) none ∙ bit_of-zero i in
        bit_of-bit_or a g (suc (suc (suc (suc (suc (suc (suc (suc (suc (suc (suc (suc i))))))))))))
        ∙ omega (arith, low)

bit_or_odd : (a g : ℕ) → bit_or a g % 2 ≡ max (a % 2) (g % 2)
bit_or_odd a g = bit_of-bit_or a g 0

pub has_flag-present : (e : ℕ) → has_flag e 1 ≡ (e % 2 == 1)
has_flag-present e = ap not (masked_zero_iff e 0) ∙ ground arith

-- An entry without the flag of a present page is not present.
pub clear_flag-present : (e : ℕ) → (clear_flag e 1) % 2 ≡ 0
clear_flag-present e = bit_of-bit_and e 0xfffffffe 0 ∙ omega arith

-- An entry that is present and points to a page at that address.
pub record IsEntry (page e : ℕ) : Type 0 where
  pub present : e % 2 ≡ 1
  pub address : e / 4096 * 4096 + phys_base ≡ page

module _ (page : ℕ) (aligned : page % 4096 ≡ 0) (kernel : phys_base ≤ page) where
  pub pde_create-IsEntry : (e : ℕ) × (pde_create page ≡ ok e) × IsEntry page e
  unfolding pde_create
  pde_create-IsEntry =
      let p = page - phys_base in
      let e = bit_or (bit_or (bit_or p 4) 1) 2 in
      (
        e,
        ground (arith, aligned, kernel),
        record {
          present = omega (arith, bit_or_odd (bit_or (bit_or p 4) 1) 2, bit_or_odd (bit_or p 4) 1);
          address = omega (
            arith,
            bit_or-above (bit_or (bit_or p 4) 1) 2 (omega arith),
            bit_or-above (bit_or p 4) 1 (omega arith),
            bit_or-above p 4 (omega arith),
            aligned,
            kernel,
          );
        },
      )

  pub pte_create_user-IsEntry :
      (writable : Bool) → (e : ℕ) × (pte_create_user page writable ≡ ok e) × IsEntry page e
  unfolding pte_create_user pte_create_kernel
  pte_create_user-IsEntry w =
      let p = page - phys_base in
      let g = if w then 2 else 0 in
      let g_small : g < 4096 = small w in
      let e = bit_or (bit_or (bit_or p 1) g) 4 in
      (
        e,
        ground (arith, aligned, kernel),
        record {
          present = omega (
            arith,
            bit_or_odd (bit_or (bit_or p 1) g) 4,
            bit_or_odd (bit_or p 1) g,
            bit_or_odd p 1,
          );
          address = omega (
            arith,
            bit_or-above (bit_or (bit_or p 1) g) 4 (omega arith),
            bit_or-above (bit_or p 1) g g_small,
            bit_or-above p 1 (omega arith),
            aligned,
            kernel,
          );
        },
      )
    where
      small : (w : Bool) → (if w then 2 else 0) < 4096
      small true = omega arith
      small false = omega arith

module _ (page e : ℕ) (r : IsEntry page e) (small : page < phys_base + phys_base) where
  pub pte_get_page-ok : pte_get_page e ≡ ok page
  unfolding pte_get_page
  pte_get_page-ok = ground (arith, r.address)

  pub pde_get_pt-ok : pde_get_pt e ≡ ok page
  unfolding pde_get_pt
  pde_get_pt-ok =
      let t : has_flag e 1 ≡ true = has_flag-present e ∙ ground (arith, r.present) in
      rw t (ground (arith, r.address))

digits-le : (n a b : ℕ) → digits (λ _. zero) min n a b ≤ b
digits-le zero zero b = omega arith
digits-le zero (suc a) b = omega arith
digits-le (suc n) zero b = omega arith
digits-le (suc n) (suc a) b = omega (arith, digits-le n (suc a / 2) (b / 2))

pub clear_flag-lt : (e : ℕ) → clear_flag e 1 < 2 ^ 32
clear_flag-lt e =
    subst (λ x. x < 2 ^ 32) (sym (bit_and-bitwise e 0xfffffffe))
      (omega (arith, digits-le e e 0xfffffffe))
