-- ===== src/Vm/Swap.antt =====
-- vm/swap.c: frames on the swap device. A function that calls lock_acquire comes to `none` where
-- another thread holds the lock: the caller sleeps there, before it has changed anything.
pub mod Frames
pub mod Locking
pub mod Victim
pub mod Evicting
use pintos_proj.Prelude.{
  ℕ, zero, suc, ◌+◌, ◌*◌, ◌-◌, ◌%◌, ◌^◌, Bool, true, false, not, List, [], ◌∷◌, Option, none, some,
  ltb, ◌==◌, if◌then◌else◌, Outcome, ok, panic, ◌>>=◌, ◌>>◌, assert, deref,
}
use pintos_proj.FileSys.Bytes.{Bytes, memcpy}
use pintos_proj.FileSys.Block.{Block, block_sector_size, block_read, block_write}
use pintos_proj.KernelLib.Palloc.{palloc_free_page}
use pintos_proj.UserProg.Pagedir.{Machine, pagedir_clear_page}
use pintos_proj.Vm.State.{Vm, FrameTableEntry, SupPageTableEntry}

-- swap_init, with the device that block_get_role gives.
unfoldable pub swap_init : Option Block → Vm → Vm
swap_init device s = record s { global_swap_block = device; curr_index = 0; swap_io_holder = none }

abbrev is_holder : Option ℕ → ℕ → Bool
is_holder none t = false
is_holder (some h) t = h == t

-- lock_acquire (&swap_IO_lock)
unfoldable pub acquire_swap_io : Vm → Outcome (Option Vm)
acquire_swap_io s = do
  assert (not (is_holder s.swap_io_holder s.current_thread))
  ok (elim s.swap_io_holder [
    | none ↦ some (record s { swap_io_holder = some s.current_thread })
    | some h ↦ none
  ])

-- lock_release (&swap_IO_lock)
unfoldable pub release_swap_io : Vm → Outcome Vm
release_swap_io s = do
  assert (is_holder s.swap_io_holder s.current_thread)
  ok (record s { swap_io_holder = none })

abbrev pub memory_of : Vm → Bytes
memory_of s = s.machine.pages.memory

abbrev pub set_memory : Bytes → Vm → Vm
set_memory m s = record s {
  machine = record (s.machine) { pages = record (s.machine.pages) { memory = m } };
}

-- The loop of write_frame_to_block from the sector `i` on, with `n` to go.
unfoldable pub write_sectors : ℕ → ℕ → ℕ → ℕ → Bytes → Block → Outcome Block
write_sectors zero i frame index m d = ok d
write_sectors (suc n) i frame index m d = do
  d' ← block_write d ((index + i) % 2 ^ 32) (λ b. m (frame + i * block_sector_size + b))
  write_sectors n (i + 1) frame index m d'

unfoldable pub write_frame_to_block : ℕ → ℕ → Vm → Outcome Vm
write_frame_to_block frame index s = do
  d ← deref s.global_swap_block
  d' ← write_sectors 8 0 frame index (memory_of s) d
  ok (record s { global_swap_block = some d'; curr_index = (s.curr_index + 8) % 2 ^ 32 })

-- The loop of load_frame_from_block, with the memory.
unfoldable pub read_sectors : ℕ → ℕ → ℕ → ℕ → Bytes → Block → Outcome (Bytes × Block)
read_sectors zero i frame index m d = ok (m, d)
read_sectors (suc n) i frame index m d = do
  (d', sector) ← block_read d ((index + i) % 2 ^ 32)
  read_sectors n (i + 1) frame index
      (memcpy m (frame + i * block_sector_size) sector 0 block_sector_size) d'

unfoldable pub load_frame_from_block : ℕ → ℕ → Vm → Outcome (Option Vm)
load_frame_from_block frame index s = do
  acquired ← acquire_swap_io s
  elim acquired [
    | none ↦ ok none
    | some s₁ ↦ do
      d ← deref s₁.global_swap_block
      (m, d') ← read_sectors 8 0 frame index (memory_of s₁) d
      s₂ ← release_swap_io (record (set_memory m s₁) { global_swap_block = some d' })
      ok (some s₂)
  ]

-- The loop of evict_frame over the frame table, with the least time so far and its entry.
unfoldable pub oldest : List ℕ → ℕ → Option ℕ → Vm → Option ℕ
oldest [] time frame s = frame
oldest (e ∷ es) time frame s =
    if ltb (s.page_entries (s.frame_entries e).aux).access_time time
    then oldest es (s.page_entries (s.frame_entries e).aux).access_time (some e) s
    else oldest es time frame s

abbrev pub without : ℕ → List ℕ → List ℕ
without e [] = []
without e (x ∷ xs) = if e == x then xs else x ∷ without e xs

-- The index -1 of a page that has no place on the device.
abbrev pub no_index : ℕ
no_index = 0xffffffff

abbrev pub set_block_index : ℕ → ℕ → Vm → Vm
set_block_index p index s = record s {
  page_entries =
      λ q. if p == q then record (s.page_entries q) { block_index = index } else s.page_entries q;
}

-- The rest of evict_frame, with the entry that it takes out.
unfoldable pub evict : ℕ → Vm → Outcome Vm
evict e s = do
  let entry = s.frame_entries e
  let page = s.page_entries entry.aux
  m ← pagedir_clear_page (s.pagedir s.current_thread) page.uservaddr s.machine
  let index = if page.block_index == no_index then s.curr_index else page.block_index
  s₁ ←
      write_frame_to_block entry.frame index
        (set_block_index entry.aux index (record s { machine = m }))
  p ← palloc_free_page entry.frame s₁.machine.pages
  release_swap_io (record s₁ {
    machine = record (s₁.machine) { pages = p };
    frame_table = without e s₁.frame_table;
  })

unfoldable pub evict_frame : Vm → Outcome (Option (Vm × Bool))
evict_frame s = do
  acquired ← acquire_swap_io s
  elim acquired [
    | none ↦ ok none
    | some s₁ ↦ elim (oldest s₁.frame_table (2 ^ 64 - 1) none s₁) [
      | none ↦ ok (some (s₁, false))
      | some e ↦ do s₂ ← evict e s₁; ok (some (s₂, true))
    ]
  ]
