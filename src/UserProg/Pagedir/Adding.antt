-- ===== src/UserProg/Pagedir/Adding.antt =====
-- userprog/pagedir.c: lookup_page where there is no page table yet.
use native.Mathlib.Decide.{ℕ_discrete}
use pintos_proj.Prelude.{
  ℕ, ◌+◌, ◌*◌, ◌%◌, ◌^◌, ◌≤◌, ◌<◌, ◌≡◌, ◌≢◌, sym, ap, ◌∙◌, ◌⊎◌, inl, inr, Bool, true, false, ltb,
  leb, ◌&&◌, ◌==◌, if◌then◌else◌, arith, none, some, ok, ◌>>=◌,
}
use pintos_proj.FileSys.Bytes.{word_from}
use pintos_proj.KernelLib.Bitmap.Single.{bit}
use pintos_proj.KernelLib.Palloc.{Pages}
use pintos_proj.KernelLib.Palloc.Freeing.{page_at}
use pintos_proj.KernelLib.Palloc.Getting.{palloc_get_multiple-Gets}
use pintos_proj.UserProg.Entries.{phys_base, pd_no, pt_no}
use pintos_proj.UserProg.Entries.Flags.{IsEntry, pde_create-IsEntry, pde_get_pt-ok}
use pintos_proj.UserProg.Pagedir.{
  Machine, entry_at, set_entry, zeroed_page, table_entry, lookup_page,
}
use pintos_proj.UserProg.Pagedir.Words.{
  Disjoint, entry_at-set_entry, entry_at-set_entry_apart, pages_apart, entries_apart,
  word_from-same, word_from-zero,
}
use pintos_proj.UserProg.Pagedir.Directory.{IsMachine, IsDirectory, table, entry, IsDirectory-add}
use pintos_proj.UserProg.Pagedir.Lookup.{
  slot, pte_of, pte_from, pd_no_user, IsPrepared, pd_some, user_asserted,
}

-- A new page table, of which the page is all zero.
module _ (s : Machine) (p : Pages) (pd va idx e : ℕ) (v : IsDirectory s pd) (user : va < phys_base)
    (k : IsMachine s) (empty : entry s pd (pd_no va) ≡ 0)
    (fits : idx + 1 ≤ s.pages.kernel_pool.used_map.bit_cnt)
    (free : bit s.pages.kernel_pool.used_map idx ≡ false)
    (base : p.kernel_pool.base ≡ s.pages.kernel_pool.base)
    (bits : (j : ℕ)
      → bit p.kernel_pool.used_map j
        ≡ (if j == idx then true else bit s.pages.kernel_pool.used_map j))
    (memory : (a : ℕ)
      → p.memory a ≡ (
          if leb (page_at s.pages.kernel_pool idx) a
            && ltb a (page_at s.pages.kernel_pool idx + 4096)
          then 0
          else s.pages.memory a))
    (points : IsEntry (page_at s.pages.kernel_pool idx) e) where
  abbrev page : ℕ
  page = page_at s.pages.kernel_pool idx

  abbrev added : Machine
  added = set_entry (pd + 4 * pd_no va) e (record s { pages = p })

  page_aligned : page % 4096 ≡ 0
  page_aligned = omega (arith, k.laid_out.aligned false)

  page_small : page < 2 ^ 32
  page_small = omega (arith, k.top, fits)

  e_small : e < 2 ^ 32
  e_small = omega (arith, points.address, page_small)

  not_directory : page ≢ pd
  not_directory = v.directory_used idx free

  before_entry :
      (q i : ℕ)
      → q % 4096 ≡ 0
      → page ≢ q
      → i < 1024
      → word_from p.memory (q + 4 * i) ≡ entry_at s (q + 4 * i)
  before_entry q i aligned other h = word_from-same s.pages.memory p.memory (q + 4 * i) (λ a lo hi.
      outside a (pages_apart q page i 0 aligned page_aligned (λ r. other (sym r)) h (omega arith))
        (pages_apart q page i 1023 aligned page_aligned (λ r. other (sym r)) h (omega arith)) lo hi)
    where
      outside :
          (a : ℕ)
          → Disjoint (q + 4 * i) (page + 4 * 0)
          → Disjoint (q + 4 * i) (page + 4 * 1023)
          → q + 4 * i ≤ a
          → a < q + 4 * i + 4
          → p.memory a ≡ s.pages.memory a
      outside a (inl x) y lo hi = ground (arith, memory a, x, lo, hi)
      outside a (inr x) (inr y) lo hi = ground (arith, memory a, y, lo, hi)
      outside a (inr x) (inl y) lo hi = absurd (omega (arith, x, y, aligned, page_aligned, h))

  zero_entry : (i : ℕ) → i < 1024 → word_from p.memory (page + 4 * i) ≡ 0
  zero_entry i h =
      word_from-zero p.memory (page + 4 * i) (λ a lo hi. ground (arith, memory a, lo, hi, h))

  new_entry : entry added pd (pd_no va) ≡ e
  new_entry = entry_at-set_entry (pd + 4 * pd_no va) e (record s { pages = p }) e_small

  other_entry : (i : ℕ) → i < 768 → i ≢ pd_no va → entry added pd i ≡ entry s pd i
  other_entry i h ne =
      entry_at-set_entry_apart (pd + 4 * pd_no va) e (record s { pages = p }) (pd + 4 * i)
        (entries_apart pd (pd_no va) i (λ r. ne (sym r)))
      ∙ before_entry pd i v.aligned not_directory (omega (arith, h))

  added-IsDirectory : IsDirectory added pd
  added-IsDirectory =
      IsDirectory-add s added pd v (pd_no va) idx e (pd_no_user va user) new_entry other_entry
        (record { present = points.present; small = omega (arith, points.address, page_small) })
        points.address free base bits

  added_same : (a : ℕ) → a < phys_base → pte_of added pd a ≡ pte_of s pd a
  added_same a h = elim (ℕ_discrete (pd_no a) (pd_no va)) [
    | yes q ↦
        let some_e : (e == 0) ≡ false = ground (arith, points.present) in
        let clear : pte_from added e a ≡ 0 =
          rw (some_e, points.address)
            (entry_at-set_entry_apart (pd + 4 * pd_no va) e (record s { pages = p })
                (page + 4 * pt_no a)
                (pages_apart pd page (pd_no va) (pt_no a) v.aligned page_aligned
                  (λ r. not_directory (sym r)) (omega (arith, pd_no_user va user)) (omega arith))
              ∙ zero_entry (pt_no a) (omega arith)) in
        ap (λ x. pte_from added x a) (ap (entry added pd) q ∙ new_entry)
        ∙ clear
        ∙ sym (ap (λ x. pte_from s x a) (ap (entry s pd) q ∙ empty))
    | no n ↦
        ap (λ x. pte_from added x a) (other_entry (pd_no a) (pd_no_user a h) n)
        ∙ elim (ℕ_discrete (entry s pd (pd_no a)) 0) [
          | yes z ↦ ap (λ x. pte_from added x a) z ∙ sym (ap (λ x. pte_from s x a) z)
          | no z ↦ other_table a h z
        ]
  ]
    where
      other_table :
          (a : ℕ)
          → a < phys_base
          → entry s pd (pd_no a) ≢ 0
          → pte_from added (entry s pd (pd_no a)) a ≡ pte_of s pd a
      other_table a h z =
          let x = entry s pd (pd_no a) in
          let some_x : (x == 0) ≡ false = ground (arith, z) in
          rw some_x (
            entry_at-set_entry_apart (pd + 4 * pd_no va) e (record s { pages = p })
              (table x + 4 * pt_no a)
              (pages_apart pd (table x) (pd_no va) (pt_no a) v.aligned (omega arith)
                (λ r. v.own_page (pd_no a) (pd_no_user a h) z (sym r))
                (omega (arith, pd_no_user va user)) (omega arith))
            ∙ before_entry (table x) (pt_no a) (omega arith)
                (v.tables_used (pd_no a) (pd_no_user a h) z idx free) (omega arith))

  added-IsPrepared : IsPrepared s added pd va
  added-IsPrepared = record {
    directory = added-IsDirectory;
    filled = λ r. ground (arith, points.present, sym new_entry ∙ r);
    same = added_same;
  }

  new_slot : table_entry (pd + 4 * pd_no va) va added ≡ ok (added, some (slot added pd va))
  unfolding table_entry
  new_slot = rw (new_entry, pde_get_pt-ok page e points (omega (arith, page_small)), points.address)

pub lookup_page-new :
    (s : Machine) (pd va : ℕ)
    → IsDirectory s pd
    → va < phys_base
    → IsMachine s
    → entry s pd (pd_no va) ≡ 0
    → (lookup_page pd va true s ≡ ok (s, none))
      ⊎ ((s' : Machine) × (lookup_page pd va true s ≡ ok (s', some (slot s' pd va)))
          × IsPrepared s s' pd va)
unfolding lookup_page
lookup_page-new s pd va v user k empty =
    let t : (entry s pd (pd_no va) == 0) ≡ true = ground (arith, empty) in
    let u = user_asserted s pd va v user true in
    elim (palloc_get_multiple-Gets zeroed_page 1 s.pages k.laid_out (omega arith)) [
      | inl (no_run, e) ↦ inl (rw (pd_some s pd va v user, u, t, e))
      | inr (p, idx, b, got, run, set, pools, memory) ↦
          let page = page_at s.pages.kernel_pool idx in
          let (e, made, points) =
            pde_create-IsEntry page (omega (arith, k.laid_out.aligned false))
              (omega (arith, k.high)) in
          let free = run.run idx (omega arith) (omega arith) in
          let bits : (j : ℕ)
              → bit p.kernel_pool.used_map j
                ≡ (if j == idx then true else bit s.pages.kernel_pool.used_map j) =
            λ j.
              ap (λ q. bit q.used_map j) (pools false)
              ∙ set.bits_are j
              ∙ one_bit j idx (bit s.pages.kernel_pool.used_map j) in
          inr (
            set_entry (pd + 4 * pd_no va) e (record s { pages = p }),
            rw (pd_some s pd va v user, u, t, got, ◌>>=◌, made, ◌>>=◌)
                (new_slot s p pd va idx e v user k empty run.fits free
                  (ap (λ q. q.base) (pools false)) bits memory points),
            added-IsPrepared s p pd va idx e v user k empty run.fits free
                (ap (λ q. q.base) (pools false)) bits memory points,
          )
    ]
  where
    one_bit :
        (j i : ℕ) (c : Bool)
        → (if leb i j && ltb j (i + 1) then true else c) ≡ (if j == i then true else c)
    one_bit j i c = ground arith
