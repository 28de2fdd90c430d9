-- ===== src/Flash.antt =====
-- The flash manager: src/firmware/flash_manager.c and flash_manager.h.
pub mod State
pub mod Manager
pub mod Regions
pub mod Access
pub mod Protection
pub mod Writes
pub mod Reads
pub mod Lifecycle
pub mod Volume
pub mod Session
pub mod Handles
pub mod Geometry
pub mod Descriptor
pub mod Blocks
pub mod Contents
pub mod Effects
pub mod Refinement
pub mod Faults
pub mod Buffers
