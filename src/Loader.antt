-- ===== src/Loader.antt =====
-- The firmware loader: src/firmware/firmware_loader.c and firmware_loader.h.
pub mod State
pub mod Info
pub mod Files
pub mod Validate
pub mod Loading
pub mod Reading
pub mod Checksum
pub mod Lifecycle
pub mod Session
pub mod Delivery
