-- ===== src/UserProg/Pagedir/Tests.antt =====
-- userprog/pagedir.c: a page directory at 0xc0100000, with no table and with one.
use native.Mathlib.Decide.{ℕ_discrete}
use pintos_proj.Prelude.{
  ℕ, zero, suc, ◌+◌, ◌*◌, ◌%◌, ◌<◌, ◌≡◌, ◌≢◌, refl, ◌∙◌, ap, sym, Bool, true, false, ◌⊎◌, inl, inr,
  [], ◌∷◌, arith, none, some, ok,
}
use pintos_proj.FileSys.Bytes.{word_from, byte_of}
use pintos_proj.KernelLib.Bitmap.Single.{bit, IsValid}
use pintos_proj.KernelLib.Palloc.{Pages, pool_of}
use pintos_proj.UserProg.Entries.{pde_get_pt, pte_get_page}
use pintos_proj.UserProg.Pagedir.{
  Machine, set_entry, pagedir_set_page, pagedir_clear_page, pagedir_get_page, lookup_page,
  table_entry, put_word,
}
use pintos_proj.UserProg.Pagedir.Words.{entry_at-set_entry, entry_at-set_entry_apart, entries_apart}
use pintos_proj.UserProg.Pagedir.Directory.{IsMachine, IsDirectory, InUse, table, entry}
use pintos_proj.UserProg.Pagedir.Setting.{Maps, pagedir_set_page-Maps, pagedir_clear_page-Maps}

-- Four pages for the kernel, of which the bits of `used` are in use, and the memory all zero.
abbrev pages_with : ℕ → Pages
pages_with used = record {
  kernel_pool = record { used_map = record { bit_cnt = 4; bits = used ∷ [] }; base = 0xc0100000 };
  user_pool = record { used_map = record { bit_cnt = 4; bits = 0 ∷ [] }; base = 0xc0200000 };
  memory = λ a. 0;
}

abbrev machine_with : ℕ → Machine
machine_with used = record {
  pages = pages_with used;
  cr3 = 0x100000;
  init_page_dir = 0xc0010000;
  init_ram_pages = 1024;
}

abbrev directory : ℕ
directory = 0xc0100000

-- The directory is in use.
abbrev empty : Machine
empty = machine_with 1

empty-IsMachine : IsMachine empty
empty-IsMachine = record {
  laid_out = record { valid = valid; aligned = aligned; not_null = not_null; order = omega arith };
  high = omega arith;
  top = omega arith;
}
  where
    valid : (user : Bool) → IsValid (pool_of user empty.pages).used_map
    valid true = record { stored = omega arith; small = omega arith }
    valid false = record { stored = omega arith; small = omega arith }

    aligned : (user : Bool) → (pool_of user empty.pages).base % 4096 ≡ 0
    aligned true = refl
    aligned false = refl

    not_null : (user : Bool) → 0 < (pool_of user empty.pages).base
    not_null true = omega arith
    not_null false = omega arith

zero_word : (a : ℕ) → word_from (λ b. 0) a ≡ 0
unfolding word_from
zero_word a = refl

empty-IsDirectory : IsDirectory empty directory
unfolding bit
empty-IsDirectory = record {
  not_null = λ e. omega (arith, e);
  aligned = refl;
  entries = λ i h. inl (zero_word (directory + 4 * i));
  own_page = λ i h n. absurd (n (zero_word (directory + 4 * i)));
  distinct = λ i j h k ne n n'. absurd (n (zero_word (directory + 4 * i)));
  directory_used = used;
  tables_used = λ i h n. absurd (n (zero_word (directory + 4 * i)));
}
  where
    used : InUse empty directory
    used zero f r = ground (arith, f)
    used (suc j) f r = omega (arith, r)

not_mapped : pagedir_get_page directory 0x08048000 empty ≡ ok none
unfolding pagedir_get_page lookup_page word_from
not_mapped = refl

pagedir_set_page-Maps_example :
    (pagedir_set_page directory 0x08048000 0xc0200000 true empty ≡ ok (empty, false))
    ⊎ ((s' : Machine) × (pagedir_set_page directory 0x08048000 0xc0200000 true empty
          ≡ ok (s', true))
        × IsDirectory s' directory
        × Maps empty s' directory 0x08048000 (λ va. some (0xc0200000 + va % 4096)))
pagedir_set_page-Maps_example =
    pagedir_set_page-Maps empty directory 0x08048000 0xc0200000 true empty-IsMachine
      empty-IsDirectory (λ e. omega (arith, e)) refl (omega arith) refl (omega arith) (omega arith)
      (omega arith) not_mapped

-- The second page is a table, which maps the page at 0x08048000 to the frame at 0xc0200000.
abbrev mapped : Machine
mapped =
    set_entry (0xc0101000 + 4 * 72) 0x200007
      (set_entry (directory + 4 * 32) 0x101007 (machine_with 3))

entry_32 : entry mapped directory 32 ≡ 0x101007
entry_32 =
    entry_at-set_entry_apart (0xc0101000 + 4 * 72) 0x200007
      (set_entry (directory + 4 * 32) 0x101007 (machine_with 3)) (directory + 4 * 32)
      (inr (omega arith))
    ∙ entry_at-set_entry (directory + 4 * 32) 0x101007 (machine_with 3) (omega arith)

other_entry : (i : ℕ) → i < 768 → i ≢ 32 → entry mapped directory i ≡ 0
other_entry i h n =
    entry_at-set_entry_apart (0xc0101000 + 4 * 72) 0x200007
      (set_entry (directory + 4 * 32) 0x101007 (machine_with 3)) (directory + 4 * i)
      (inr (omega (arith, h)))
    ∙ entry_at-set_entry_apart (directory + 4 * 32) 0x101007 (machine_with 3) (directory + 4 * i)
        (entries_apart directory 32 i (λ r. n (sym r)))
    ∙ zero_word (directory + 4 * i)

mapped-IsDirectory : IsDirectory mapped directory
unfolding bit
mapped-IsDirectory = record {
  not_null = λ e. omega (arith, e);
  aligned = refl;
  entries = λ i h. elim (ℕ_discrete i 32) [
    | yes q ↦
        inr (record { present = ap (λ x. x % 2) (at_32 i q); small = omega (arith, at_32 i q) })
    | no n ↦ inl (other_entry i h n)
  ];
  own_page = λ i h z. elim (ℕ_discrete i 32) [
    | yes q ↦ λ r. omega (arith, at_32 i q, r)
    | no n ↦ absurd (z (other_entry i h n))
  ];
  distinct = λ i j h k ne z z' r. elim (ℕ_discrete i 32) [
    | yes q ↦ elim (ℕ_discrete j 32) [ yes p ↦ ne (q ∙ sym p) | no n ↦ z' (other_entry j k n) ]
    | no n ↦ z (other_entry i h n)
  ];
  directory_used = used;
  tables_used = λ i h z. elim (ℕ_discrete i 32) [
    | yes q ↦ λ idx f r. table_used idx f (r ∙ ap table (at_32 i q))
    | no n ↦ absurd (z (other_entry i h n))
  ];
}
  where
    at_32 : (i : ℕ) → i ≡ 32 → entry mapped directory i ≡ 0x101007
    at_32 i q = ap (entry mapped directory) q ∙ entry_32

    used : InUse mapped directory
    used zero f r = ground (arith, f)
    used (suc j) f r = omega (arith, r)

    table_used : InUse mapped 0xc0101000
    table_used zero f r = omega (arith, r)
    table_used (suc zero) f r = ground (arith, f)
    table_used (suc (suc j)) f r = omega (arith, r)

pagedir_clear_page-Maps_example :
    (s' : Machine) × (pagedir_clear_page directory 0x08048000 mapped ≡ ok s')
    × IsDirectory s' directory
    × Maps mapped s' directory 0x08048000 (λ va. none)
pagedir_clear_page-Maps_example =
    pagedir_clear_page-Maps mapped directory 0x08048000 mapped-IsDirectory refl (omega arith)
      (omega arith)

-- An address of the page that is mapped.
frame_found : pagedir_get_page directory 0x08048123 mapped ≡ ok (some 0xc0200123)
unfolding pagedir_get_page lookup_page table_entry word_from put_word byte_of pde_get_pt
    pte_get_page
frame_found = refl
