-- ===== src/UserProg.antt =====
-- userprog/: what the kernel does for user programs.
pub mod Entries
pub mod Pagedir
