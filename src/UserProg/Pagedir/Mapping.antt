-- ===== src/UserProg/Pagedir/Mapping.antt =====
-- userprog/pagedir.c: a page directory as a map from user pages to frames.
use native.Mathlib.Decide.{ℕ_discrete}
use pintos_proj.Prelude.{
  ℕ, ◌+◌, ◌*◌, ◌/◌, ◌%◌, ◌^◌, ◌<◌, ◌≡◌, ◌≢◌, refl, sym, ap, ◌∙◌, Bool, true, false, ◌==◌,
  if◌then◌else◌, arith, Option, none, some, Outcome, ok, ◌>>=◌,
}
use pintos_proj.KernelLib.Palloc.{pg_ofs}
use pintos_proj.UserProg.Entries.{phys_base, is_user_vaddr, pd_no, pt_no, has_flag, pte_get_page}
use pintos_proj.UserProg.Pagedir.{Machine, set_entry, pagedir_get_page}
use pintos_proj.UserProg.Pagedir.Words.{
  entry_at-set_entry, entry_at-set_entry_apart, pages_apart, entries_apart,
}
use pintos_proj.UserProg.Pagedir.Directory.{IsDirectory, table, entry, IsDirectory-same}
use pintos_proj.UserProg.Pagedir.Lookup.{
  slot, pte_of, pte_from, pd_no_user, lookup_page-present, lookup_page-absent,
}

-- Whether two addresses are in the same page.
abbrev pub same_page : ℕ → ℕ → Bool
same_page a b = a / 4096 == b / 4096

-- What an entry says of an address.
abbrev pub shown : ℕ → ℕ → Outcome (Option ℕ)
shown e va =
    if has_flag e 1 then (do page ← pte_get_page e; ok (some (page + pg_ofs va))) else ok none

pub pagedir_get_page-shown :
    (s : Machine) (pd va : ℕ)
    → IsDirectory s pd
    → va < phys_base
    → pagedir_get_page pd va s ≡ shown (pte_of s pd va) va
unfolding pagedir_get_page
pagedir_get_page-shown s pd va v user =
    let u : is_user_vaddr va ≡ true = ground (arith, user) in
    elim (ℕ_discrete (entry s pd (pd_no va)) 0) [
      | yes z ↦ rw (u, lookup_page-absent s pd va v user z, z) refl
      | no z ↦
          let some_table : (entry s pd (pd_no va) == 0) ≡ false = ground (arith, z) in
          rw (u, lookup_page-present s pd va v user false z, some_table) refl
    ]

abbrev pub written : Machine → ℕ → ℕ → ℕ → Machine
written s pd upage e = set_entry (slot s pd upage) e s

-- Writing the entry of a page changes what the directory says of this page only.
module _ (s : Machine) (pd upage e : ℕ) (v : IsDirectory s pd) (user : upage < phys_base)
    (filled : entry s pd (pd_no upage) ≢ 0) (small : e < 2 ^ 32) where
  same_entries : (i : ℕ) → i < 768 → entry (written s pd upage e) pd i ≡ entry s pd i
  same_entries i h = entry_at-set_entry_apart (slot s pd upage) e s (pd + 4 * i) (
      pages_apart (table (entry s pd (pd_no upage))) pd (pt_no upage) i (omega arith) v.aligned
        (v.own_page (pd_no upage) (pd_no_user upage user) filled) (omega arith) (omega (arith, h)))

  pub written-IsDirectory : IsDirectory (written s pd upage e) pd
  written-IsDirectory = IsDirectory-same s (written s pd upage e) pd v same_entries refl

  -- The entry by way of the one that the directory had.
  by_old :
      (va : ℕ)
      → va < phys_base
      → pte_of (written s pd upage e) pd va
        ≡ pte_from (written s pd upage e) (entry s pd (pd_no va)) va
  by_old va h =
      ap (λ x. pte_from (written s pd upage e) x va) (same_entries (pd_no va) (pd_no_user va h))

  own_table :
      (va : ℕ)
      → pd_no va ≡ pd_no upage
      → pte_from (written s pd upage e) (entry s pd (pd_no upage)) va
        ≡ (if same_page va upage then e else pte_from s (entry s pd (pd_no upage)) va)
  own_table va q =
      let x = entry s pd (pd_no upage) in
      let some_x : (x == 0) ≡ false = ground (arith, filled) in
      elim (ℕ_discrete (pt_no va) (pt_no upage)) [
        | yes r ↦
            let t : same_page va upage ≡ true = ground (arith, pages va upage q r) in
            rw (some_x, t, r) (entry_at-set_entry (slot s pd upage) e s small)
        | no n ↦
            let t : same_page va upage ≡ false = ground (arith, not_pages va upage n) in
            rw (some_x, t)
              (entry_at-set_entry_apart (slot s pd upage) e s (table x + 4 * pt_no va)
                (entries_apart (table x) (pt_no upage) (pt_no va) (λ r. n (sym r))))
      ]
    where
      pages : (a b : ℕ) → pd_no a ≡ pd_no b → pt_no a ≡ pt_no b → a / 4096 ≡ b / 4096
      pages a b q r = omega (arith, q, r)

      not_pages : (a b : ℕ) → pt_no a ≢ pt_no b → a / 4096 ≢ b / 4096
      not_pages a b n r = n (ap (λ k. k % 1024) r)

  other_table :
      (va : ℕ)
      → va < phys_base
      → pd_no va ≢ pd_no upage
      → pte_from (written s pd upage e) (entry s pd (pd_no va)) va ≡ pte_of s pd va
  other_table va h n = elim (ℕ_discrete (entry s pd (pd_no va)) 0) [
    | yes z ↦ rw z refl
    | no z ↦
        let some_x : (entry s pd (pd_no va) == 0) ≡ false = ground (arith, z) in
        rw some_x (
          entry_at-set_entry_apart (slot s pd upage) e s (slot s pd va) (
            pages_apart (table (entry s pd (pd_no upage))) (table (entry s pd (pd_no va)))
              (pt_no upage) (pt_no va) (omega arith) (omega arith)
              (v.distinct (pd_no upage) (pd_no va) (pd_no_user upage user) (pd_no_user va h)
                (λ r. n (sym r)) filled z)
              (omega arith) (omega arith)))
  ]

  pub written_pte :
      (va : ℕ)
      → va < phys_base
      → pte_of (written s pd upage e) pd va ≡ (if same_page va upage then e else pte_of s pd va)
  written_pte va h = elim (ℕ_discrete (pd_no va) (pd_no upage)) [
    | yes q ↦
        by_old va h
        ∙ ap (λ i. pte_from (written s pd upage e) (entry s pd i) va) q
        ∙ own_table va q
        ∙ ap (λ i. if same_page va upage then e else pte_from s (entry s pd i) va) (sym q)
    | no n ↦
        let t : same_page va upage ≡ false = ground (arith, not_same va n) in
        by_old va h ∙ other_table va h n ∙ sym (ap (λ b. if b then e else pte_of s pd va) t)
  ]
    where
      not_same : (va : ℕ) → pd_no va ≢ pd_no upage → va / 4096 ≢ upage / 4096
      not_same va n r = n (omega (arith, r))
