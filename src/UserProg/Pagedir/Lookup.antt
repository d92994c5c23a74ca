-- ===== src/UserProg/Pagedir/Lookup.antt =====
-- userprog/pagedir.c: lookup_page.
use pintos_proj.Prelude.{
  ℕ, ◌+◌, ◌*◌, ◌<◌, ◌≡◌, ◌≢◌, refl, inl, inr, Bool, true, false, ◌||◌, not, ◌==◌, if◌then◌else◌,
  arith, none, some, ok,
}
use pintos_proj.UserProg.Entries.{phys_base, is_user_vaddr, pd_no, pt_no}
use pintos_proj.UserProg.Entries.Flags.{pde_get_pt-ok}
use pintos_proj.UserProg.Pagedir.{Machine, entry_at, table_entry, lookup_page}
use pintos_proj.UserProg.Pagedir.Directory.{IsDirectory, table, entry}

-- The address of the entry for `va` in its page table.
abbrev pub slot : Machine → ℕ → ℕ → ℕ
slot s pd va = table (entry s pd (pd_no va)) + 4 * pt_no va

-- The entry for `va` by way of an entry of the directory.
abbrev pub pte_from : Machine → ℕ → ℕ → ℕ
pte_from s x va = if x == 0 then 0 else entry_at s (table x + 4 * pt_no va)

-- The entry for `va`; zero where there is no table.
abbrev pub pte_of : Machine → ℕ → ℕ → ℕ
pte_of s pd va = pte_from s (entry s pd (pd_no va)) va

pub pd_no_user : (va : ℕ) → va < phys_base → pd_no va < 768
pd_no_user va h = omega (arith, h)

-- What lookup_page does to prepare the entry for `va`.
pub record IsPrepared (s s' : Machine) (pd va : ℕ) : Type 0 where
  pub directory : IsDirectory s' pd
  pub filled : entry s' pd (pd_no va) ≢ 0
  pub same : (a : ℕ) → a < phys_base → pte_of s' pd a ≡ pte_of s pd a

module _ (s : Machine) (pd va : ℕ) (v : IsDirectory s pd) (user : va < phys_base) where
  pub pd_some : (pd == 0) ≡ false
  pd_some = ground (arith, v.not_null)

  pub user_asserted : (create : Bool) → (not create || is_user_vaddr va) ≡ true
  user_asserted true = ground (arith, user)
  user_asserted false = refl

  pub lookup_page-present :
      (create : Bool)
      → entry s pd (pd_no va) ≢ 0
      → lookup_page pd va create s ≡ ok (s, some (slot s pd va))
  unfolding lookup_page table_entry
  lookup_page-present create filled =
      let t : (entry s pd (pd_no va) == 0) ≡ false = ground (arith, filled) in
      elim (v.entries (pd_no va) (pd_no_user va user)) [
        | inl z ↦ absurd (filled z)
        | inr e ↦ rw (
          pd_some,
          user_asserted create,
          t,
          pde_get_pt-ok (table (entry s pd (pd_no va))) (entry s pd (pd_no va))
              (record { present = e.present; address = refl }) (omega (arith, e.small)),
        )
      ]

  pub lookup_page-absent : entry s pd (pd_no va) ≡ 0 → lookup_page pd va false s ≡ ok (s, none)
  unfolding lookup_page
  lookup_page-absent e =
      let t : (entry s pd (pd_no va) == 0) ≡ true = ground (arith, e) in rw (pd_some, t)
