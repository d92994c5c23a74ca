-- ===== src/Vm.antt =====
-- proj2's vm/: the frame table, the supplemental page tables and the swap device.
pub mod State
pub mod Tables
pub mod Swap
mod Tests
