-- ===== src/Vm/Swap/Locking.antt =====
-- vm/swap.c: swap_IO_lock where evict_frame finds no frame.
use pintos_proj.Prelude.{
  ℕ, ◌^◌, ◌-◌, ◌≡◌, ◌≢◌, refl, ap, true, false, [], none, some, ◌==◌, arith, ok, panic, ◌>>=◌,
}
use pintos_proj.Vm.State.{Vm}
use pintos_proj.Vm.Swap.{acquire_swap_io, load_frame_from_block, oldest, evict_frame}

-- Where the frame table is empty and the lock free, evict_frame returns false and keeps the lock.
-- After that the same thread fails an ASSERT in evict_frame and in load_frame_from_block, and every
-- other thread sleeps in both.
pub evict_frame_keeps_lock :
    (s : Vm)
    → s.frame_table ≡ []
    → s.swap_io_holder ≡ none
    → (s' : Vm) × (evict_frame s ≡ ok (some (s', false)))
      × (evict_frame s' ≡ panic)
      × ((frame index : ℕ) → load_frame_from_block frame index s' ≡ panic)
      × ((t : ℕ)
          → t ≢ s.current_thread
          → (evict_frame (record s' { current_thread = t }) ≡ ok none)
            × ((frame index : ℕ)
                → load_frame_from_block frame index (record s' { current_thread = t }) ≡ ok none))
unfolding evict_frame load_frame_from_block acquire_swap_io oldest
evict_frame_keeps_lock s table free =
    let self : (s.current_thread == s.current_thread) ≡ true = ground arith in
    let s₁ = record s { swap_io_holder = some s.current_thread } in
    let no_victim : oldest s.frame_table (2 ^ 64 - 1) none s₁ ≡ none =
      ap (λ es. oldest es (2 ^ 64 - 1) none s₁) table in
    (
      s₁,
      rw (free, ◌>>=◌, no_victim) refl,
      rw self refl,
      (λ frame index. rw self refl),
      λ t ne.
          let other : (s.current_thread == t) ≡ false = ground (arith, ne) in
          (rw other refl, λ frame index. rw other refl),
    )
