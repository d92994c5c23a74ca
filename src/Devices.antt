-- ===== src/Devices.antt =====
-- devices/: what the drivers share.
pub mod Intq
