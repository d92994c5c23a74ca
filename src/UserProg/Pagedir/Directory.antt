-- ===== src/UserProg/Pagedir/Directory.antt =====
-- userprog/pagedir.c: what a page directory for a user program is.
use native.Mathlib.Decide.{ℕ_discrete}
use pintos_proj.Prelude.{
  ℕ, ◌+◌, ◌*◌, ◌/◌, ◌%◌, ◌^◌, ◌≤◌, ◌<◌, ◌≡◌, ◌≢◌, sym, subst, ap, ◌∙◌, ◌⊎◌, inr, true, false, ◌==◌,
  if◌then◌else◌, arith,
}
use pintos_proj.KernelLib.Bitmap.Single.{bit}
use pintos_proj.KernelLib.Palloc.Freeing.{IsLaidOut, page_at}
use pintos_proj.UserProg.Entries.{phys_base}
use pintos_proj.UserProg.Pagedir.{Machine, entry_at}

-- The kernel's pool lies in the kernel's part of the addresses.
pub record IsMachine (s : Machine) : Type 0 where
  pub laid_out : IsLaidOut s.pages
  pub high : phys_base ≤ s.pages.kernel_pool.base
  pub top : s.pages.kernel_pool.base + 4096 * s.pages.kernel_pool.used_map.bit_cnt ≤ 2 ^ 32

-- The page table that an entry of a directory points to.
abbrev pub table : ℕ → ℕ
table e = e / 4096 * 4096 + phys_base

abbrev pub entry : Machine → ℕ → ℕ → ℕ
entry s pd i = entry_at s (pd + 4 * i)

pub record IsTableEntry (e : ℕ) : Type 0 where
  pub present : e % 2 ≡ 1
  pub small : table e < 2 ^ 32

-- A page that is not an unused one of the kernel's pool.
abbrev pub InUse : Machine → ℕ → Type 0
InUse s p =
    (idx : ℕ) → bit s.pages.kernel_pool.used_map idx ≡ false → page_at s.pages.kernel_pool idx ≢ p

-- Each entry for user addresses is zero or points to a table, and the directory and its tables are
-- pages in use, all different.
pub record IsDirectory (s : Machine) (pd : ℕ) : Type 0 where
  pub not_null : pd ≢ 0
  pub aligned : pd % 4096 ≡ 0
  pub entries : (i : ℕ) → i < 768 → (entry s pd i ≡ 0) ⊎ IsTableEntry (entry s pd i)
  pub own_page : (i : ℕ) → i < 768 → entry s pd i ≢ 0 → table (entry s pd i) ≢ pd
  pub distinct :
      (i j : ℕ)
      → i < 768
      → j < 768
      → i ≢ j
      → entry s pd i ≢ 0
      → entry s pd j ≢ 0
      → table (entry s pd i) ≢ table (entry s pd j)
  pub directory_used : InUse s pd
  pub tables_used : (i : ℕ) → i < 768 → entry s pd i ≢ 0 → InUse s (table (entry s pd i))

module _ (s s' : Machine) (pd : ℕ) (v : IsDirectory s pd) where
  pub IsDirectory-same :
      ((i : ℕ) → i < 768 → entry s' pd i ≡ entry s pd i)
      → s'.pages.kernel_pool ≡ s.pages.kernel_pool
      → IsDirectory s' pd
  IsDirectory-same same pool = record {
    not_null = v.not_null;
    aligned = v.aligned;
    entries = λ i h. subst (λ e. (e ≡ 0) ⊎ IsTableEntry e) (sym (same i h)) (v.entries i h);
    own_page = λ i h. subst (λ e. e ≢ 0 → table e ≢ pd) (sym (same i h)) (v.own_page i h);
    distinct = λ i j h k ne.
        subst (λ e. e ≢ 0 → entry s' pd j ≢ 0 → table e ≢ table (entry s' pd j)) (sym (same i h))
          (subst (λ e. entry s pd i ≢ 0 → e ≢ 0 → table (entry s pd i) ≢ table e) (sym (same j k))
            (v.distinct i j h k ne));
    directory_used = used pd v.directory_used;
    tables_used = λ i h.
        subst (λ e. e ≢ 0 → InUse s' (table e)) (sym (same i h))
          (λ n. used (table (entry s pd i)) (v.tables_used i h n));
  }
    where
      used : (p : ℕ) → InUse s p → InUse s' p
      used p u =
          subst (λ k. (idx : ℕ) → bit k.used_map idx ≡ false → page_at k idx ≢ p) (sym pool) u

  -- A page that was not in use becomes the table of an entry that was zero.
  pub IsDirectory-add :
      (k idx e : ℕ)
      → k < 768
      → entry s' pd k ≡ e
      → ((i : ℕ) → i < 768 → i ≢ k → entry s' pd i ≡ entry s pd i)
      → IsTableEntry e
      → table e ≡ page_at s.pages.kernel_pool idx
      → bit s.pages.kernel_pool.used_map idx ≡ false
      → s'.pages.kernel_pool.base ≡ s.pages.kernel_pool.base
      → ((j : ℕ)
          → bit s'.pages.kernel_pool.used_map j
            ≡ (if j == idx then true else bit s.pages.kernel_pool.used_map j))
      → IsDirectory s' pd
  IsDirectory-add k idx e k_user new same good place free base bits = record {
    not_null = v.not_null;
    aligned = v.aligned;
    entries = λ i h. elim (ℕ_discrete i k) [
      | yes q ↦ inr (subst IsTableEntry (sym (at_k i q)) good)
      | no n ↦ subst (λ e. (e ≡ 0) ⊎ IsTableEntry e) (sym (same i h n)) (v.entries i h)
    ];
    own_page = λ i h. elim (ℕ_discrete i k) [
      | yes q ↦ λ _ r. v.directory_used idx free (sym place ∙ ap table (sym (at_k i q)) ∙ r)
      | no n ↦ subst (λ e. e ≢ 0 → table e ≢ pd) (sym (same i h n)) (v.own_page i h)
    ];
    distinct = λ i j h h' ne z z' r. elim (ℕ_discrete i k) [
      | yes q ↦ new_apart j h' (λ p. ne (q ∙ sym p)) z' (sym r ∙ ap table (at_k i q))
      | no n ↦ elim (ℕ_discrete j k) [
        | yes q ↦ new_apart i h n z (r ∙ ap table (at_k j q))
        | no n' ↦
            v.distinct i j h h' ne (λ p. z (same i h n ∙ p)) (λ p. z' (same j h' n' ∙ p))
              (ap table (sym (same i h n)) ∙ r ∙ ap table (same j h' n'))
      ]
    ];
    directory_used = used pd v.directory_used;
    tables_used = λ i h z. elim (ℕ_discrete i k) [
      | yes q ↦ subst (InUse s') (sym (ap table (at_k i q) ∙ place)) now_used
      | no n ↦
          subst (λ e. InUse s' (table e)) (sym (same i h n))
            (used (table (entry s pd i)) (v.tables_used i h (λ p. z (same i h n ∙ p))))
    ];
  }
    where
      at_k : (i : ℕ) → i ≡ k → entry s' pd i ≡ e
      at_k i q = ap (entry s' pd) q ∙ new

      new_apart : (j : ℕ) → j < 768 → j ≢ k → entry s' pd j ≢ 0 → table (entry s' pd j) ≢ table e
      new_apart j h n z r =
          v.tables_used j h (λ p. z (same j h n ∙ p)) idx free
            (sym place ∙ sym r ∙ ap table (same j h n))

      was_free :
          (j : ℕ)
          → bit s'.pages.kernel_pool.used_map j ≡ false
          → (j ≢ idx) × (bit s.pages.kernel_pool.used_map j ≡ false)
      was_free j f = ((λ q. ground (arith, f, bits j, q)), ground (arith, f, bits j))

      used : (p : ℕ) → InUse s p → InUse s' p
      used p u j f r = u j (was_free j f).1 (ap (λ b. b + 4096 * j) (sym base) ∙ r)

      now_used : InUse s' (page_at s.pages.kernel_pool idx)
      now_used j f r = let (other, old) = was_free j f in other (omega (arith, base, r))
