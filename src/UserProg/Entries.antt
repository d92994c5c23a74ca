-- ===== src/UserProg/Entries.antt =====
-- threads/vaddr.h and threads/pte.h: kernel and user addresses, and the entries of page directories and
-- page tables. An address and an entry are numbers of 32 bits; `>>` by a constant is a division, and a
-- mask of the bits above the 12 lower ones takes away the remainder.
pub mod Flags
use Prim.Native.Nat.{bit_and, bit_or}
use pintos_proj.Prelude.{
  ℕ, ◌+◌, ◌-◌, ◌*◌, ◌/◌, ◌%◌, Bool, not, ltb, leb, ◌==◌, if◌then◌else◌, Outcome, ok, ◌>>=◌, ◌>>◌,
  assert,
}
pub use pintos_proj.KernelLib.Palloc.{phys_base, ptov}
use pintos_proj.KernelLib.Palloc.{pg_size, pg_ofs}

abbrev pub is_user_vaddr : ℕ → Bool
is_user_vaddr vaddr = ltb vaddr phys_base

abbrev pub is_kernel_vaddr : ℕ → Bool
is_kernel_vaddr vaddr = leb phys_base vaddr

abbrev pub vtop : ℕ → Outcome ℕ
vtop vaddr = do assert (is_kernel_vaddr vaddr); ok (vaddr - phys_base)

abbrev pub pt_no : ℕ → ℕ
pt_no va = (va / 4096) % 1024

abbrev pub pd_no : ℕ → ℕ
pd_no va = va / 4194304

abbrev pub pte_p : ℕ
pte_p = 1

abbrev pub pte_w : ℕ
pte_w = 2

abbrev pub pte_u : ℕ
pte_u = 4

abbrev pub pte_a : ℕ
pte_a = 32

abbrev pub pte_d : ℕ
pte_d = 64

-- An entry & PTE_ADDR
abbrev pub pte_addr : ℕ → ℕ
pte_addr e = e - e % 4096

-- Whether an entry has a flag, which is one bit.
abbrev pub has_flag : ℕ → ℕ → Bool
has_flag e flag = not (bit_and e flag == 0)

-- An entry & ~flag
abbrev pub clear_flag : ℕ → ℕ → ℕ
clear_flag e flag = bit_and e (0xffffffff - flag)

unfoldable pub pde_create : ℕ → Outcome ℕ
pde_create pt = do
  assert (pg_ofs pt == 0)
  p ← vtop pt
  ok (bit_or (bit_or (bit_or p pte_u) pte_p) pte_w)

unfoldable pub pde_get_pt : ℕ → Outcome ℕ
pde_get_pt pde = do assert (has_flag pde pte_p); ptov (pte_addr pde)

unfoldable pub pte_create_kernel : ℕ → Bool → Outcome ℕ
pte_create_kernel page writable = do
  assert (pg_ofs page == 0)
  p ← vtop page
  ok (bit_or (bit_or p pte_p) (if writable then pte_w else 0))

unfoldable pub pte_create_user : ℕ → Bool → Outcome ℕ
pte_create_user page writable = do e ← pte_create_kernel page writable; ok (bit_or e pte_u)

unfoldable pub pte_get_page : ℕ → Outcome ℕ
pte_get_page pte = ptov (pte_addr pte)
