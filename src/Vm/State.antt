-- ===== src/Vm/State.antt =====
-- vm/frame.h, vm/page.h and the static variables of vm/swap.c, as one record. A pointer to a struct is a
-- number, and a store gives what it points to; a list is the sequence of its elements. What malloc
-- returns is a stream, so any call may fail. An `int` stands as its 32 bits.
use pintos_proj.Prelude.{ℕ, Bool, List, Option}
use pintos_proj.FileSys.Block.{Block}
use pintos_proj.UserProg.Pagedir.{Machine}

-- struct frame_table_entry
pub record FrameTableEntry : Type 0 where
  pub frame : ℕ
  pub owner : ℕ
  pub aux : ℕ

-- struct sup_page_table_entry
pub record SupPageTableEntry : Type 0 where
  pub uservaddr : ℕ
  pub access_time : ℕ
  pub block_index : ℕ
  pub dirty : Bool
  pub accessed : Bool

pub record Vm : Type 0 where
  pub machine : Machine
  pub frame_table : List ℕ
  pub frame_entries : ℕ → FrameTableEntry
  pub page_entries : ℕ → SupPageTableEntry
  -- the page_table and the pagedir of each struct thread
  pub page_table : ℕ → List ℕ
  pub pagedir : ℕ → ℕ
  pub current_thread : ℕ
  pub ticks : ℕ
  pub mallocs : ℕ → Option ℕ
  pub global_swap_block : Option Block
  pub curr_index : ℕ
  -- the holder of swap_IO_lock
  pub swap_io_holder : Option ℕ
