-- ===== src/Vm/Tests.antt =====
-- A swap device of sixteen sectors, a page of the user's pool in use, and a frame table.
use pintos_proj.Prelude.{
  ℕ, zero, suc, ◌+◌, ◌-◌, ◌%◌, ◌^◌, ◌<◌, ◌≡◌, ◌≢◌, ◌⊎◌, refl, Bool, true, false, ◌&&◌, leb, ltb,
  if◌then◌else◌, [], ◌∷◌, none, some, arith, ok, panic, ◌>>=◌,
}
use pintos_proj.FileSys.Bytes.{Bytes, word_from}
use pintos_proj.FileSys.Block.{Block}
use pintos_proj.KernelLib.Bitmap.Single.{bit, IsValid}
use pintos_proj.KernelLib.Bitmap.Range.{Run}
use pintos_proj.KernelLib.Palloc.{pool_of}
use pintos_proj.KernelLib.Palloc.Freeing.{IsLaidOut}
use pintos_proj.UserProg.Pagedir.{lookup_page, pagedir_clear_page}
use pintos_proj.Vm.State.{Vm}
use pintos_proj.Vm.Swap.{
  write_frame_to_block, load_frame_from_block, evict_frame, evict, oldest, memory_of, set_memory,
}
use pintos_proj.Vm.Swap.Frames.{load_frame_from_block-write_frame_to_block}
use pintos_proj.Vm.Swap.Locking.{evict_frame_keeps_lock}
use pintos_proj.Vm.Swap.Victim.{time_of, AllFrom, IsFirstOldest, evict_frame-IsFirstOldest}
use pintos_proj.Vm.Swap.Evicting.{IsEvicted, evict-IsEvicted}

abbrev device : Block
device = record { sectors = λ s b. 0; size = 16; foreign = false; read_cnt = 0; write_cnt = 0 }

abbrev start : Vm
start = record {
  machine = record {
    pages = record {
      kernel_pool = record { used_map = record { bit_cnt = 4; bits = 1 ∷ [] }; base = 0xc0100000 };
      user_pool = record { used_map = record { bit_cnt = 4; bits = 1 ∷ [] }; base = 0xc0200000 };
      memory = λ a. if ltb a 0xc0200000 then 0 else a % 256;
    };
    cr3 = 0x100000;
    init_page_dir = 0xc0010000;
    init_ram_pages = 1024;
  };
  frame_table = [];
  frame_entries = λ p. record { frame = 0xc0200000; owner = 1; aux = p };
  page_entries = λ p. record {
    uservaddr = 0x08048000;
    access_time = 100 - p;
    block_index = 0xffffffff;
    dirty = false;
    accessed = true;
  };
  page_table = λ t. [];
  pagedir = λ t. 0xc0100000;
  current_thread = 1;
  ticks = 7;
  mallocs = λ k. none;
  global_swap_block = some device;
  curr_index = 8;
  swap_io_holder = none;
}

load_frame_from_block-write_frame_to_block_example :
    (s₁ : Vm) × (write_frame_to_block 0xc0200000 8 start ≡ ok s₁)
    × (s₁.curr_index ≡ 16)
    × ((m : Bytes)
        → (s₂ : Vm) × (load_frame_from_block 0xc0201000 8 (set_memory m s₁) ≡ ok (some s₂))
          × (s₂.swap_io_holder ≡ none)
          × ((a : ℕ)
              → memory_of s₂ a ≡ (
                  if leb 0xc0201000 a && ltb a (0xc0201000 + 4096)
                  then memory_of start (0xc0200000 + (a - 0xc0201000))
                  else m a)))
load_frame_from_block-write_frame_to_block_example =
    load_frame_from_block-write_frame_to_block 0xc0200000 0xc0201000 8 start device refl
      (omega arith) (omega arith) refl refl

evict_frame_keeps_lock_example :
    (s' : Vm) × (evict_frame start ≡ ok (some (s', false)))
    × (evict_frame s' ≡ panic)
    × ((frame index : ℕ) → load_frame_from_block frame index s' ≡ panic)
    × ((t : ℕ)
        → t ≢ 1
        → (evict_frame (record s' { current_thread = t }) ≡ ok none)
          × ((frame index : ℕ)
              → load_frame_from_block frame index (record s' { current_thread = t }) ≡ ok none))
evict_frame_keeps_lock_example = evict_frame_keeps_lock start refl refl

-- The first of two entries that have the least access time.
oldest_of_three : oldest (1 ∷ (3 ∷ (3 ∷ []))) (2 ^ 64 - 1) none start ≡ some 3
unfolding oldest
oldest_of_three = refl

start-IsLaidOut : IsLaidOut start.machine.pages
start-IsLaidOut = record {
  valid = valid;
  aligned = aligned;
  not_null = not_null;
  order = omega arith;
}
  where
    valid : (user : Bool) → IsValid (pool_of user start.machine.pages).used_map
    valid true = record { stored = omega arith; small = omega arith }
    valid false = record { stored = omega arith; small = omega arith }

    aligned : (user : Bool) → (pool_of user start.machine.pages).base % 4096 ≡ 0
    aligned true = refl
    aligned false = refl

    not_null : (user : Bool) → 0 < (pool_of user start.machine.pages).base
    not_null true = omega arith
    not_null false = omega arith

page_used : Run start.machine.pages.user_pool.used_map 0 1 true
unfolding bit
page_used zero lo hi = refl
page_used (suc j) lo hi = absurd (omega arith)

-- The running thread holds the lock, and the frame table has three entries.
abbrev locked : Vm
locked = record start { swap_io_holder = some 1; frame_table = 1 ∷ (2 ∷ (3 ∷ [])) }

clears : pagedir_clear_page 0xc0100000 0x08048000 start.machine ≡ ok start.machine
unfolding pagedir_clear_page lookup_page word_from
clears = refl

evict-IsEvicted_example :
    (s' : Vm) × (evict 3 locked ≡ ok s') × IsEvicted locked s' 3 start.machine true 0 device
evict-IsEvicted_example =
    evict-IsEvicted locked 3 start.machine true 0 device clears start-IsLaidOut (omega arith)
      page_used refl refl (omega arith) (omega arith) refl refl

evict_frame-IsFirstOldest_example :
    ((evict_frame (record locked { swap_io_holder = none }) ≡ ok (some (locked, false)))
      × AllFrom locked (2 ^ 64 - 1) (1 ∷ (2 ∷ (3 ∷ []))))
    ⊎ ((e : ℕ) × IsFirstOldest (record locked { swap_io_holder = none }) (1 ∷ (2 ∷ (3 ∷ []))) e
        × (time_of locked e < 2 ^ 64 - 1)
        × (evict_frame (record locked { swap_io_holder = none })
            ≡ (evict e locked >>= λ s'. ok (some (s', true)))))
evict_frame-IsFirstOldest_example =
    evict_frame-IsFirstOldest (record locked { swap_io_holder = none }) refl
