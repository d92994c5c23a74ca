-- ===== src/UserProg/Pagedir.antt =====
-- userprog/pagedir.c: page directories. They and the page tables are pages of memory; a pointer to an
-- entry is its address. CR3 is a number of the state. What a write to it does in the processor's own
-- tables is not in the state.
pub mod Words
pub mod Directory
pub mod Lookup
pub mod Adding
pub mod Mapping
pub mod Setting
mod Tests
use Prim.Native.Nat.{bit_or}
use pintos_proj.Prelude.{
  ℕ, zero, suc, ◌+◌, ◌-◌, ◌*◌, ◌/◌, Bool, true, false, ◌||◌, ◌&&◌, not, Option, none, some, ltb,
  leb, ◌==◌, if◌then◌else◌, Outcome, ok, ◌>>=◌, ◌>>◌, assert,
}
use pintos_proj.FileSys.Bytes.{Bytes, word_from, byte_of}
use pintos_proj.KernelLib.Palloc.{Flags, Pages, pg_size, pg_ofs, palloc_get_page, palloc_free_page}
use pintos_proj.UserProg.Entries.{
  phys_base, is_user_vaddr, ptov, vtop, pt_no, pd_no, pte_p, pte_a, pte_d, has_flag, clear_flag,
  pde_create, pde_get_pt, pte_create_user, pte_get_page,
}

pub record Machine : Type 0 where
  pub pages : Pages
  pub cr3 : ℕ
  pub init_page_dir : ℕ
  pub init_ram_pages : ℕ

-- The memory with a 32-bit number stored at an address.
unfoldable pub put_word : ℕ → ℕ → Bytes → Bytes
put_word a e m b = if leb a b && ltb b (a + 4) then byte_of e (b - a) else m b

-- The entry at an address.
abbrev pub entry_at : Machine → ℕ → ℕ
entry_at s a = word_from s.pages.memory a

abbrev pub set_entry : ℕ → ℕ → Machine → Machine
set_entry a e s = record s { pages = record (s.pages) { memory = put_word a e s.pages.memory } }

abbrev pub zeroed_page : Flags
zeroed_page = record { pal_assert = false; pal_zero = true; pal_user = false }

abbrev any_page : Flags
any_page = record { pal_assert = false; pal_zero = false; pal_user = false }

-- memcpy of a page.
abbrev copy_page : ℕ → ℕ → Pages → Pages
copy_page dst src p = record p {
  memory =
      λ a. if leb dst a && ltb a (dst + pg_size) then p.memory (src + (a - dst)) else p.memory a;
}

unfoldable pub pagedir_create : Machine → Outcome (Machine × Option ℕ)
pagedir_create s = do
  (p, page) ← palloc_get_page any_page s.pages
  ok (elim page [
    | none ↦ (record s { pages = p }, none)
    | some pd ↦ (record s { pages = copy_page pd s.init_page_dir p }, some pd)
  ])

-- The loop over `n` entries of a page table, from the one at `pte` on.
unfoldable pub free_pages : ℕ → ℕ → Pages → Outcome Pages
free_pages zero pte p = ok p
free_pages (suc n) pte p = do
  p' ←
      if has_flag (word_from p.memory pte) pte_p
      then (do page ← pte_get_page (word_from p.memory pte); palloc_free_page page p)
      else ok p
  free_pages n (pte + 4) p'

-- The loop over `n` entries of a page directory, from the one at `pde` on.
unfoldable pub free_tables : ℕ → ℕ → Pages → Outcome Pages
free_tables zero pde p = ok p
free_tables (suc n) pde p = do
  p' ←
      if has_flag (word_from p.memory pde) pte_p
      then (do
        pt ← pde_get_pt (word_from p.memory pde)
        p₁ ← free_pages 1024 pt p
        palloc_free_page pt p₁)
      else ok p
  free_tables n (pde + 4) p'

unfoldable pub pagedir_destroy : ℕ → Machine → Outcome Machine
pagedir_destroy pd s = if pd == 0 then ok s else (do
  assert (not (pd == s.init_page_dir))
  p ← free_tables (pd_no phys_base) pd s.pages
  p' ← palloc_free_page pd p
  ok (record s { pages = p' }))

-- The end of lookup_page, where the directory has an entry at `pde`.
unfoldable pub table_entry : ℕ → ℕ → Machine → Outcome (Machine × Option ℕ)
table_entry pde vaddr s = do pt ← pde_get_pt (entry_at s pde); ok (s, some (pt + 4 * pt_no vaddr))

-- lookup_page
unfoldable pub lookup_page : ℕ → ℕ → Bool → Machine → Outcome (Machine × Option ℕ)
lookup_page pd vaddr create s =
    assert (not (pd == 0))
    >> (assert (not create || is_user_vaddr vaddr)
        >> (if entry_at s (pd + 4 * pd_no vaddr) == 0
            then (if create
                then (do
                  (p, page) ← palloc_get_page zeroed_page s.pages
                  elim page [
                    | none ↦ ok (record s { pages = p }, none)
                    | some pt ↦ do
                      e ← pde_create pt
                      table_entry (pd + 4 * pd_no vaddr) vaddr
                          (set_entry (pd + 4 * pd_no vaddr) e (record s { pages = p }))
                  ])
                else ok (s, none))
            else table_entry (pd + 4 * pd_no vaddr) vaddr s))

unfoldable pub pagedir_set_page : ℕ → ℕ → ℕ → Bool → Machine → Outcome (Machine × Bool)
pagedir_set_page pd upage kpage writable s = do
  assert (pg_ofs upage == 0)
  assert (pg_ofs kpage == 0)
  assert (is_user_vaddr upage)
  frame ← vtop kpage
  assert (ltb (frame / 4096) s.init_ram_pages)
  assert (not (pd == s.init_page_dir))
  (s', pte) ← lookup_page pd upage true s
  elim pte [
    | none ↦ ok (s', false)
    | some a ↦ do
      assert (not (has_flag (entry_at s' a) pte_p))
      e ← pte_create_user kpage writable
      ok (set_entry a e s', true)
  ]

unfoldable pub pagedir_get_page : ℕ → ℕ → Machine → Outcome (Option ℕ)
pagedir_get_page pd uaddr s = do
  assert (is_user_vaddr uaddr)
  (s', pte) ← lookup_page pd uaddr false s
  elim pte [
    | none ↦ ok none
    | some a ↦
        if has_flag (entry_at s' a) pte_p
        then (do page ← pte_get_page (entry_at s' a); ok (some (page + pg_ofs uaddr)))
        else ok none
  ]

unfoldable pub pagedir_activate : ℕ → Machine → Outcome Machine
pagedir_activate pd s = do
  p ← vtop (if pd == 0 then s.init_page_dir else pd)
  ok (record s { cr3 = p })

abbrev pub active_pd : Machine → Outcome ℕ
active_pd s = ptov s.cr3

unfoldable pub invalidate_pagedir : ℕ → Machine → Outcome Machine
invalidate_pagedir pd s = do
  active ← active_pd s
  if active == pd then pagedir_activate pd s else ok s

unfoldable pub pagedir_clear_page : ℕ → ℕ → Machine → Outcome Machine
pagedir_clear_page pd upage s = do
  assert (pg_ofs upage == 0)
  assert (is_user_vaddr upage)
  (s', pte) ← lookup_page pd upage false s
  elim pte [
    | none ↦ ok s'
    | some a ↦
        if has_flag (entry_at s' a) pte_p
        then invalidate_pagedir pd (set_entry a (clear_flag (entry_at s' a) pte_p) s')
        else ok s'
  ]

-- pagedir_is_dirty and pagedir_is_accessed, by the flag.
abbrev flag_of : ℕ → ℕ → ℕ → Machine → Outcome Bool
flag_of flag pd vpage s = do
  (s', pte) ← lookup_page pd vpage false s
  ok (elim pte [ none ↦ false | some a ↦ has_flag (entry_at s' a) flag ])

abbrev pub pagedir_is_dirty : ℕ → ℕ → Machine → Outcome Bool
pagedir_is_dirty pd vpage s = flag_of pte_d pd vpage s

abbrev pub pagedir_is_accessed : ℕ → ℕ → Machine → Outcome Bool
pagedir_is_accessed pd vpage s = flag_of pte_a pd vpage s

-- pagedir_set_dirty and pagedir_set_accessed, by the flag.
abbrev set_flag : ℕ → ℕ → ℕ → Bool → Machine → Outcome Machine
set_flag flag pd vpage value s = do
  (s', pte) ← lookup_page pd vpage false s
  elim pte [
    | none ↦ ok s'
    | some a ↦
        if value
        then ok (set_entry a (bit_or (entry_at s' a) flag) s')
        else invalidate_pagedir pd (set_entry a (clear_flag (entry_at s' a) flag) s')
  ]

abbrev pub pagedir_set_dirty : ℕ → ℕ → Bool → Machine → Outcome Machine
pagedir_set_dirty pd vpage dirty s = set_flag pte_d pd vpage dirty s

abbrev pub pagedir_set_accessed : ℕ → ℕ → Bool → Machine → Outcome Machine
pagedir_set_accessed pd vpage accessed s = set_flag pte_a pd vpage accessed s
