-- ===== src/KernelLib.antt =====
-- The kernel's library: lib/kernel/bitmap.c.
pub mod Bits
pub mod Bitmap
pub mod Palloc
pub mod Links
pub mod Sorting
