-- ===== src/Vm/Swap/Evicting.antt =====
-- vm/swap.c: what evict_frame does with the frame that it takes out.
use pintos_proj.Prelude.{
  ℕ, ◌+◌, ◌*◌, ◌%◌, ◌^◌, ◌-◌, ◌≤◌, ◌≡◌, refl, ap, ◌∙◌, Bool, true, false, ◌&&◌, none, some, ltb,
  leb, ◌==◌, if◌then◌else◌, arith, ok, ◌>>=◌,
}
use pintos_proj.FileSys.Block.{Block}
use pintos_proj.KernelLib.Bitmap.{Bitmap}
use pintos_proj.KernelLib.Bitmap.Range.{Run, IsRangeSet}
use pintos_proj.KernelLib.Palloc.{Pages, pool_of, set_used, palloc_free_multiple}
use pintos_proj.KernelLib.Palloc.Freeing.{IsLaidOut, page_at, palloc_free_multiple_lem}
use pintos_proj.UserProg.Pagedir.{Machine, pagedir_clear_page}
use pintos_proj.Vm.State.{Vm}
use pintos_proj.Vm.Swap.{
  evict, write_frame_to_block, release_swap_io, without, no_index, set_block_index,
}
use pintos_proj.Vm.Swap.Frames.{write_sectors-IsWritten}

-- The place on the device for the page in a frame.
abbrev pub place_of : Vm → ℕ → ℕ
place_of s e =
    let index = (s.page_entries (s.frame_entries e).aux).block_index in
    if index == no_index then s.curr_index else index

-- The frame `e`, page `idx` of a pool, has gone to its place on the device `d`.
pub record IsEvicted (s s' : Vm) (e : ℕ) (m : Machine) (user : Bool) (idx : ℕ) (d : Block)
    : Type 0 where
  pub table : s'.frame_table ≡ without e s.frame_table
  pub place : (s'.page_entries (s.frame_entries e).aux).block_index ≡ place_of s e
  pub next : s'.curr_index ≡ (s.curr_index + 8) % 2 ^ 32
  pub unlocked : s'.swap_io_holder ≡ none
  pub device : Block
  pub attached : s'.global_swap_block ≡ some device
  pub stored :
      (j b : ℕ)
      → device.sectors j b ≡ (
          if leb (place_of s e) j && ltb j (place_of s e + 8)
          then m.pages.memory ((s.frame_entries e).frame + (j - place_of s e) * 512 + b)
          else d.sectors j b)
  pub map : Bitmap
  pub freed : IsRangeSet (pool_of user m.pages).used_map idx 1 false map
  pub pool : pool_of user s'.machine.pages ≡ pool_of user (set_used user map m.pages)

-- For a frame that is a page in use of one of the pools, where the page directory of the running
-- thread lets the page be cleared, the device has room for eight sectors at the place of the page, and
-- the running thread holds the lock, the rest of evict_frame returns: the frame's bytes are at that
-- place, which the page's entry has, the frame is out of the frame table and free, the other sectors
-- are as they were, and the lock is free.
pub evict-IsEvicted :
    (s : Vm) (e : ℕ) (m : Machine) (user : Bool) (idx : ℕ) (d : Block)
    → pagedir_clear_page
        (s.pagedir s.current_thread)
        (s.page_entries (s.frame_entries e).aux).uservaddr
        s.machine
      ≡ ok m
    → IsLaidOut m.pages
    → idx + 1 ≤ (pool_of user m.pages).used_map.bit_cnt
    → Run (pool_of user m.pages).used_map idx 1 true
    → (s.frame_entries e).frame ≡ page_at (pool_of user m.pages) idx
    → s.global_swap_block ≡ some d
    → place_of s e + 8 ≤ d.size
    → d.size ≤ 2 ^ 32
    → d.foreign ≡ false
    → s.swap_io_holder ≡ some s.current_thread
    → (s' : Vm) × (evict e s ≡ ok s') × IsEvicted s s' e m user idx d
unfolding evict write_frame_to_block release_swap_io
evict-IsEvicted s e m user idx d cleared v fits used at dev room size own held =
    let frame = (s.frame_entries e).frame in
    let index = place_of s e in
    let (d', w, written) =
      write_sectors-IsWritten 8 0 frame index m.pages.memory d (omega (arith, room)) size own in
    let (p, b, f, set, user_same, kernel_same) =
      palloc_free_multiple_lem user idx 1 m.pages v (omega arith) fits used in
    let self : (s.current_thread == s.current_thread) ≡ true = ground arith in
    let f' = ap (λ a. palloc_free_multiple a 1 m.pages) at ∙ f in
    let s' : Vm = record (set_block_index (s.frame_entries e).aux index s) {
      machine = record m { pages = p };
      global_swap_block = some d';
      curr_index = (s.curr_index + 8) % 2 ^ 32;
      swap_io_holder = none;
      frame_table = without e s.frame_table;
    } in
    (
      s',
      rw (cleared, ◌>>=◌, dev, ◌>>=◌, w, ◌>>=◌, f', ◌>>=◌, held, self) refl,
      record {
        table = refl;
        place = same_index ((s.frame_entries e).aux);
        next = refl;
        unlocked = refl;
        device = d';
        attached = refl;
        stored = λ j b. written.stored j b ∙ from_start d' j b;
        map = b;
        freed = set;
        pool = freed_pool user p b user_same kernel_same;
      },
    )
  where
    same_index :
        (q : ℕ)
        → (if q == q
            then record (s.page_entries q) { block_index = place_of s e }
            else s.page_entries q).block_index
          ≡ place_of s e
    same_index q = let t : (q == q) ≡ true = ground arith in rw t refl

    from_start :
        (d' : Block) (j b : ℕ)
        → (if leb (place_of s e + 0) j && ltb j (place_of s e + 0 + 8)
            then m.pages.memory
                ((s.frame_entries e).frame + 0 * 512 + (j - (place_of s e + 0)) * 512 + b)
            else d.sectors j b)
          ≡ (if leb (place_of s e) j && ltb j (place_of s e + 8)
              then m.pages.memory ((s.frame_entries e).frame + (j - place_of s e) * 512 + b)
              else d.sectors j b)
    from_start d' j b =
        let x : place_of s e + 0 ≡ place_of s e = omega arith in
        let y : (s.frame_entries e).frame + 0 * 512 ≡ (s.frame_entries e).frame = omega arith in
        rw (x, y) refl

    freed_pool :
        (user : Bool) (p : Pages) (b : Bitmap)
        → pool_of true p ≡ pool_of true (set_used user b m.pages)
        → pool_of false p ≡ pool_of false (set_used user b m.pages)
        → pool_of user p ≡ pool_of user (set_used user b m.pages)
    freed_pool true p b x y = x
    freed_pool false p b x y = y
