-- ===== src/UserProg/Pagedir/Setting.antt =====
-- userprog/pagedir.c: what pagedir_set_page and pagedir_clear_page do to the map from pages to frames.
use native.Mathlib.Decide.{ℕ_discrete}
use pintos_proj.Prelude.{
  ℕ, ◌+◌, ◌-◌, ◌*◌, ◌/◌, ◌%◌, ◌^◌, ◌≤◌, ◌<◌, ◌≡◌, ◌≢◌, refl, sym, ap, ◌∙◌, ◌⊎◌, inl, inr, Bool,
  true, false, ltb, ◌==◌, if◌then◌else◌, Bool-cases, arith, Option, none, some, Outcome, ok, panic,
  out_of_fuel, ◌>>=◌,
}
use pintos_proj.KernelLib.Palloc.{pg_ofs}
use pintos_proj.UserProg.Entries.{
  phys_base, is_user_vaddr, is_kernel_vaddr, pd_no, has_flag, clear_flag, pte_get_page,
}
use pintos_proj.UserProg.Entries.Flags.{
  pte_create_user-IsEntry, pte_get_page-ok, has_flag-present, clear_flag-present, clear_flag-lt,
}
use pintos_proj.UserProg.Pagedir.{
  Machine, entry_at, lookup_page, pagedir_get_page, pagedir_set_page, pagedir_clear_page,
  invalidate_pagedir, pagedir_activate,
}
use pintos_proj.UserProg.Pagedir.Directory.{IsMachine, IsDirectory, table, entry}
use pintos_proj.UserProg.Pagedir.Lookup.{
  slot, pte_of, pte_from, IsPrepared, lookup_page-present, lookup_page-absent,
}
use pintos_proj.UserProg.Pagedir.Adding.{lookup_page-new}
use pintos_proj.UserProg.Pagedir.Mapping.{
  same_page, shown, pagedir_get_page-shown, written, written-IsDirectory, written_pte,
}

-- lookup_page finds a place for the entry, with a new table if need be, or there is no page for one.
lookup_page-IsPrepared :
    (s : Machine) (pd va : ℕ)
    → IsMachine s
    → IsDirectory s pd
    → va < phys_base
    → (lookup_page pd va true s ≡ ok (s, none))
      ⊎ ((s' : Machine) × (lookup_page pd va true s ≡ ok (s', some (slot s' pd va)))
          × IsPrepared s s' pd va)
lookup_page-IsPrepared s pd va k v user = elim (ℕ_discrete (entry s pd (pd_no va)) 0) [
  | yes z ↦ lookup_page-new s pd va v user k z
  | no z ↦ inr (
    s,
    lookup_page-present s pd va v user true z,
    record { directory = v; filled = z; same = λ a h. refl },
  )
]

-- A page that is not mapped has no entry that is present.
not_present : (e va : ℕ) → shown e va ≡ ok none → has_flag e 1 ≡ false
not_present e va q = elim (Bool-cases (has_flag e 1)) [
  | inr f ↦ f
  | inl t ↦ absurd (
      some_page (pte_get_page e) (
        sym (
          ap (λ b. if b then (do page ← pte_get_page e; ok (some (page + pg_ofs va))) else ok none)
            t)
        ∙ q))
]
  where
    some_page : (r : Outcome ℕ) → ¬ ((do page ← r; ok (some (page + pg_ofs va))) ≡ ok none)
    some_page (ok p) q = ground (arith, q)
    some_page panic q = ground (arith, q)
    some_page out_of_fuel q = ground (arith, q)

-- The map of a directory is another, but for the page of `upage`, which has what `new` says.
abbrev pub Maps : Machine → Machine → ℕ → ℕ → (ℕ → Option ℕ) → Type 0
Maps s s' pd upage new =
    (va : ℕ)
    → va < phys_base
    → pagedir_get_page pd va s'
      ≡ (if same_page va upage then ok (new va) else pagedir_get_page pd va s)

-- After the entry of the page is written, with all else as before.
written-Maps :
    (s s₁ : Machine) (pd upage e : ℕ) (new : ℕ → Option ℕ)
    → IsDirectory s pd
    → IsPrepared s s₁ pd upage
    → upage < phys_base
    → e < 2 ^ 32
    → ((va : ℕ) → shown e va ≡ ok (new va))
    → Maps s (written s₁ pd upage e) pd upage new
written-Maps s s₁ pd upage e new v p user small says va h =
    pagedir_get_page-shown (written s₁ pd upage e) pd va
      (written-IsDirectory s₁ pd upage e p.directory user p.filled small) h
    ∙ ap (λ x. shown x va) (written_pte s₁ pd upage e p.directory user p.filled small va h)
    ∙ elim (Bool-cases (same_page va upage)) [
      | inl t ↦ rw t (says va)
      | inr t ↦ rw t (ap (λ x. shown x va) (p.same va h) ∙ sym (pagedir_get_page-shown s pd va v h))
    ]

-- In a machine whose kernel pool lies in the kernel's part of memory, and a well-formed page directory
-- that does not map the user page yet, pagedir_set_page for a frame of RAM returns false with nothing
-- changed, or true with the directory well-formed and pagedir_get_page giving the frame for the
-- addresses of the page, and for all other user addresses what it gave before.
pub pagedir_set_page-Maps :
    (s : Machine) (pd upage kpage : ℕ) (writable : Bool)
    → IsMachine s
    → IsDirectory s pd
    → pd ≢ s.init_page_dir
    → upage % 4096 ≡ 0
    → upage < phys_base
    → kpage % 4096 ≡ 0
    → phys_base ≤ kpage
    → kpage < 2 ^ 32
    → (kpage - phys_base) / 4096 < s.init_ram_pages
    → pagedir_get_page pd upage s ≡ ok none
    → (pagedir_set_page pd upage kpage writable s ≡ ok (s, false))
      ⊎ ((s' : Machine) × (pagedir_set_page pd upage kpage writable s ≡ ok (s', true))
          × IsDirectory s' pd
          × Maps s s' pd upage (λ va. some (kpage + va % 4096)))
unfolding pagedir_set_page
pagedir_set_page-Maps s pd upage kpage w k v own ua user ka high small ram unmapped =
    let a₁ : (pg_ofs upage == 0) ≡ true = ground (arith, ua) in
    let a₂ : (pg_ofs kpage == 0) ≡ true = ground (arith, ka) in
    let a₃ : is_user_vaddr upage ≡ true = ground (arith, user) in
    let a₄ : is_kernel_vaddr kpage ≡ true = ground (arith, high) in
    let a₅ : ltb ((kpage - phys_base) / 4096) s.init_ram_pages ≡ true = ground (arith, ram) in
    let a₆ : (pd == s.init_page_dir) ≡ false = ground (arith, own) in
    elim (lookup_page-IsPrepared s pd upage k v user) [
      | inl q ↦ inl (rw (a₁, a₂, a₃, a₄, ◌>>=◌, a₅, a₆, q) refl)
      | inr (s₁, q, p) ↦
          let (e, made, points) = pte_create_user-IsEntry kpage ka high w in
          let e_small : e < 2 ^ 32 = omega (arith, points.address, small) in
          let clear : has_flag (pte_of s₁ pd upage) 1 ≡ false =
            not_present (pte_of s₁ pd upage) upage (
              ap (λ x. shown x upage) (p.same upage user)
              ∙ sym (pagedir_get_page-shown s pd upage v user)
              ∙ unmapped) in
          let filled : (entry s₁ pd (pd_no upage) == 0) ≡ false = ground (arith, p.filled) in
          let vacant : has_flag (entry_at s₁ (slot s₁ pd upage)) 1 ≡ false =
            sym (ap (λ b. has_flag (if b then 0 else entry_at s₁ (slot s₁ pd upage)) 1) filled)
            ∙ clear in
          let is_present : has_flag e 1 ≡ true =
            has_flag-present e ∙ ap (λ k. k == 1) points.present in
          let frame = pte_get_page-ok kpage e points (omega (arith, small)) in
          inr (
            written s₁ pd upage e,
            rw (a₁, a₂, a₃, a₄, ◌>>=◌, a₅, a₆, q, ◌>>=◌, vacant, made) refl,
            written-IsDirectory s₁ pd upage e p.directory user p.filled e_small,
            written-Maps s s₁ pd upage e (λ va. some (kpage + va % 4096)) v p user e_small
                (λ va. rw (is_present, frame) refl),
          )
    ]

-- A page that has no entry that is present is not mapped.
unmapped-Maps :
    (s : Machine) (pd upage : ℕ)
    → IsDirectory s pd
    → has_flag (pte_of s pd upage) 1 ≡ false
    → Maps s s pd upage (λ va. none)
unmapped-Maps s pd upage v f va h = elim (Bool-cases (same_page va upage)) [
  | inl t ↦ rw t (
      pagedir_get_page-shown s pd va v h
      ∙ ap (λ x. shown x va) (same_pte t)
      ∙ ap
          (λ b.
            if b
            then (do page ← pte_get_page (pte_of s pd upage); ok (some (page + pg_ofs va)))
            else ok none)
          f)
  | inr t ↦ rw t refl
]
  where
    page_number : same_page va upage ≡ true → va / 4096 ≡ upage / 4096
    page_number t = ground (arith, t)

    pd_same : va / 4096 ≡ upage / 4096 → pd_no va ≡ pd_no upage
    pd_same q = omega (arith, q)

    same_pte : same_page va upage ≡ true → pte_of s pd va ≡ pte_of s pd upage
    same_pte t =
        let q = page_number t in
        ap (λ i. pte_from s (entry s pd i) va) (pd_same q)
        ∙ ap
            (λ k.
              if entry s pd (pd_no upage) == 0
              then 0
              else entry_at s (table (entry s pd (pd_no upage)) + 4 * (k % 1024)))
            q

-- Activating the active directory again leaves CR3 as it is.
invalidate_pagedir-ok :
    (s : Machine) (pd : ℕ) → pd ≢ 0 → s.cr3 < phys_base → invalidate_pagedir pd s ≡ ok s
unfolding invalidate_pagedir pagedir_activate
invalidate_pagedir-ok s pd ne cr =
    let a : ltb s.cr3 phys_base ≡ true = ground (arith, cr) in
    let z : (pd == 0) ≡ false = ground (arith, ne) in
    elim (Bool-cases ((s.cr3 + phys_base) == pd)) [
      | inl t ↦
          let b : is_kernel_vaddr pd ≡ true = ground (arith, t) in
          let c : pd - phys_base ≡ s.cr3 = ground (arith, t) in
          rw (a, ◌>>=◌, t, z, b, ◌>>=◌) (ap (λ k. ok (record s { cr3 = k })) c)
      | inr t ↦ rw (a, ◌>>=◌, t) refl
    ]

-- With CR3 a physical address, pagedir_clear_page of a user page returns with the directory
-- well-formed, the page not mapped, and pagedir_get_page giving for all other user addresses what it
-- gave before.
pub pagedir_clear_page-Maps :
    (s : Machine) (pd upage : ℕ)
    → IsDirectory s pd
    → upage % 4096 ≡ 0
    → upage < phys_base
    → s.cr3 < phys_base
    → (s' : Machine) × (pagedir_clear_page pd upage s ≡ ok s')
      × IsDirectory s' pd
      × Maps s s' pd upage (λ va. none)
unfolding pagedir_clear_page
pagedir_clear_page-Maps s pd upage v ua user cr =
    let a₁ : (pg_ofs upage == 0) ≡ true = ground (arith, ua) in
    let a₂ : is_user_vaddr upage ≡ true = ground (arith, user) in
    elim (ℕ_discrete (entry s pd (pd_no upage)) 0) [
      | yes z ↦ (
        s,
        rw (a₁, a₂, lookup_page-absent s pd upage v user z) refl,
        v,
        unmapped-Maps s pd upage v (ap (λ x. has_flag (pte_from s x upage) 1) z),
      )
      | no z ↦
          let some_table : (entry s pd (pd_no upage) == 0) ≡ false = ground (arith, z) in
          let found = lookup_page-present s pd upage v user false z in
          elim (Bool-cases (has_flag (entry_at s (slot s pd upage)) 1)) [
            | inl t ↦
                let e = clear_flag (entry_at s (slot s pd upage)) 1 in
                let p : IsPrepared s s pd upage = record {
                  directory = v;
                  filled = z;
                  same = λ a h. refl;
                } in
                (
                  written s pd upage e,
                  rw (a₁, a₂, found, ◌>>=◌, t)
                      (invalidate_pagedir-ok (written s pd upage e) pd v.not_null cr),
                  written-IsDirectory s pd upage e v user z
                      (clear_flag-lt (entry_at s (slot s pd upage))),
                  written-Maps s s pd upage e (λ va. none) v p user
                      (clear_flag-lt (entry_at s (slot s pd upage)))
                      (λ va. says (entry_at s (slot s pd upage)) va),
                )
            | inr t ↦ (
              s,
              rw (a₁, a₂, found, ◌>>=◌, t) refl,
              v,
              unmapped-Maps s pd upage v (
                  ap (λ b. has_flag (if b then 0 else entry_at s (slot s pd upage)) 1) some_table
                  ∙ t),
            )
          ]
    ]
  where
    says : (x va : ℕ) → shown (clear_flag x 1) va ≡ ok none
    says x va =
        let f : has_flag (clear_flag x 1) 1 ≡ false =
          has_flag-present (clear_flag x 1) ∙ ap (λ k. k == 1) (clear_flag-present x) in
        rw f refl
