-- ===== src/KernelLib/Palloc.antt =====
-- threads/palloc.c: the page allocator. A page's address is a number; 0 is NULL. The lock of a pool is
-- left out: it makes the search of the map one step. `memory` is what the pages hold.

pub mod Freeing
pub mod Getting
pub mod Roundtrip
mod Tests
use pintos_proj.Prelude.{
  ℕ, zero, suc, ◌+◌, ◌-◌, ◌*◌, ◌/◌, ◌%◌, ◌^◌, Bool, true, false, ◌&&◌, ◌||◌, List, Option, none,
  some, leb, ltb, ◌==◌, if◌then◌else◌, Outcome, ok, panic, ◌>>=◌, ◌>>◌, assert,
}
use pintos_proj.KernelLib.Bitmap.{
  Bitmap, bitmap_error, byte_cnt, bitmap_set_all, bitmap_all, bitmap_set_multiple,
  bitmap_scan_and_flip,
}

abbrev pub pg_size : ℕ
pg_size = 4096

-- PHYS_BASE and ptov of threads/vaddr.h
abbrev pub phys_base : ℕ
phys_base = 0xc0000000

abbrev pub ptov : ℕ → Outcome ℕ
ptov paddr = do assert (ltb paddr phys_base); ok (paddr + phys_base)

abbrev pub pg_ofs : ℕ → ℕ
pg_ofs va = va % pg_size

abbrev pub pg_no : ℕ → ℕ
pg_no va = va / pg_size

-- enum palloc_flags, one member for each bit.
pub record Flags : Type 0 where
  pub pal_assert : Bool
  pub pal_zero : Bool
  pub pal_user : Bool

-- struct pool
pub record Pool : Type 0 where
  pub used_map : Bitmap
  pub base : ℕ

pub record Pages : Type 0 where
  pub kernel_pool : Pool
  pub user_pool : Pool
  pub memory : ℕ → ℕ

-- bitmap_buf_size and bitmap_create_in_buf, with the words that are in the buffer.
abbrev pub bitmap_buf_size : ℕ → ℕ
bitmap_buf_size bit_cnt = 8 + byte_cnt bit_cnt

unfoldable pub bitmap_create_in_buf : ℕ → ℕ → List ℕ → Outcome Bitmap
bitmap_create_in_buf bit_cnt block_size words = do
  assert (leb (bitmap_buf_size bit_cnt) block_size)
  bitmap_set_all (record { bit_cnt = bit_cnt; bits = words }) false

-- init_pool
unfoldable pub init_pool : ℕ → ℕ → List ℕ → Outcome Pool
init_pool base page_cnt words = do
  let bm_pages = (bitmap_buf_size page_cnt + (pg_size - 1)) / pg_size
  assert (leb bm_pages page_cnt)
  b ← bitmap_create_in_buf (page_cnt - bm_pages) (bm_pages * pg_size) words
  ok (record { used_map = b; base = base + bm_pages * pg_size })

-- palloc_init, with the number of pages of RAM, and the words where the maps will be.
unfoldable pub palloc_init : ℕ → ℕ → List ℕ → List ℕ → (ℕ → ℕ) → Outcome Pages
palloc_init init_ram_pages user_page_limit words words' memory = do
  free_start ← ptov (1024 * 1024)
  free_end ← ptov (init_ram_pages * pg_size % 2 ^ 32)
  let free_pages = (free_end + 2 ^ 32 - free_start) % 2 ^ 32 / pg_size
  let half = free_pages / 2
  let user_pages = if ltb user_page_limit half then user_page_limit else half
  let kernel_pages = free_pages - user_pages
  kernel ← init_pool free_start kernel_pages words
  user ← init_pool (free_start + kernel_pages * pg_size) user_pages words'
  ok (record { kernel_pool = kernel; user_pool = user; memory = memory })

-- The pool of the user's pages, or of the kernel's.
abbrev pub pool_of : Bool → Pages → Pool
pool_of true s = s.user_pool
pool_of false s = s.kernel_pool

abbrev pub set_used : Bool → Bitmap → Pages → Pages
set_used true b s = record s { user_pool = record (s.user_pool) { used_map = b } }
set_used false b s = record s { kernel_pool = record (s.kernel_pool) { used_map = b } }

-- memset on the pages.
unfoldable pub fill : ℕ → ℕ → ℕ → Pages → Pages
fill pages value size s = record s {
  memory = λ a. if leb pages a && ltb a (pages + size) then value else s.memory a;
}

-- The end of palloc_get_multiple, with what was found in the map.
unfoldable pub hand_out : Flags → ℕ → ℕ → ℕ → Pages → Outcome (Pages × Option ℕ)
hand_out flags page_cnt base page_idx s =
    if page_idx == bitmap_error
    then (if flags.pal_assert then panic else ok (s, none))
    else (let pages = base + pg_size * page_idx in
        ok (if flags.pal_zero then fill pages 0 (pg_size * page_cnt) s else s, some pages))

-- palloc_get_multiple
unfoldable pub palloc_get_multiple : Flags → ℕ → Pages → Outcome (Pages × Option ℕ)
palloc_get_multiple flags page_cnt s = if page_cnt == 0 then ok (s, none) else (do
  (page_idx, b) ← bitmap_scan_and_flip (pool_of flags.pal_user s).used_map 0 page_cnt false
  hand_out flags page_cnt (pool_of flags.pal_user s).base page_idx (set_used flags.pal_user b s))

abbrev pub palloc_get_page : Flags → Pages → Outcome (Pages × Option ℕ)
palloc_get_page flags s = palloc_get_multiple flags 1 s

-- page_from_pool
unfoldable pub page_from_pool : Pool → ℕ → Bool
page_from_pool pool page =
    leb (pg_no pool.base) (pg_no page) && ltb (pg_no page) (pg_no pool.base + pool.used_map.bit_cnt)

-- Whether the pool that a page is from is the user's.
unfoldable pub find_pool : Pages → ℕ → Outcome Bool
find_pool s pages =
    if page_from_pool s.kernel_pool pages
    then ok false
    else if page_from_pool s.user_pool pages
    then ok true
    else panic

-- palloc_free_multiple
unfoldable pub palloc_free_multiple : ℕ → ℕ → Pages → Outcome Pages
palloc_free_multiple pages page_cnt s =
    assert (pg_ofs pages == 0)
    >> (if (pages == 0) || (page_cnt == 0) then ok s else (do
      user ← find_pool s pages
      let pool = pool_of user s
      let page_idx = pg_no pages - pg_no pool.base
      let filled = fill pages 0xcc (pg_size * page_cnt) s
      used ← bitmap_all pool.used_map page_idx page_cnt
      assert used
      b ← bitmap_set_multiple pool.used_map page_idx page_cnt false
      ok (set_used user b filled)))

abbrev pub palloc_free_page : ℕ → Pages → Outcome Pages
palloc_free_page page s = palloc_free_multiple page 1 s
