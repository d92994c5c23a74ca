-- ===== src/Vm/Tables.antt =====
-- vm/frame.c and vm/page.c
use pintos_proj.Prelude.{
  ℕ, suc, Bool, true, false, [], ◌∷◌, ◌++◌, ◌==◌, if◌then◌else◌, Outcome, ok, ◌>>=◌, deref,
}
use pintos_proj.Vm.State.{Vm}

-- malloc, and the stream without its first answer.
abbrev pub take_malloc : Vm → Vm
take_malloc s = record s { mallocs = λ k. s.mallocs (suc k) }

-- The stores through the result of malloc come before any test of it.
unfoldable pub frame_table_insert : ℕ → ℕ → ℕ → Vm → Outcome (Vm × ℕ)
frame_table_insert frame owner aux s = do
  p ← deref (s.mallocs 0)
  ok (
    record (take_malloc s) {
      frame_entries = λ q.
          if p == q then record { frame = frame; owner = owner; aux = aux } else s.frame_entries q;
      frame_table = s.frame_table ++ (p ∷ []);
    },
    p,
  )

-- Only the address and the index of the arguments are read.
unfoldable pub sup_page_table_insert : ℕ → ℕ → ℕ → Bool → Bool → Vm → Outcome (Vm × ℕ)
sup_page_table_insert uservaddr access_time block_index dirty accessed s = do
  p ← deref (s.mallocs 0)
  ok (
    record (take_malloc s) {
      page_entries = λ q.
          if p == q
          then record {
            uservaddr = uservaddr;
            access_time = s.ticks;
            block_index = block_index;
            dirty = false;
            accessed = true;
          }
          else s.page_entries q;
      page_table =
          λ t. if s.current_thread == t then s.page_table t ++ (p ∷ []) else s.page_table t;
    },
    p,
  )
