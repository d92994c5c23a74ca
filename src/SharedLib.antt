-- ===== src/SharedLib.antt =====
-- lib/: the functions that the kernel and the user programs share.
pub mod Arithmetic
