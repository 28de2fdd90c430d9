-- ===== src/Uefi.antt =====
-- The UEFI interface and the boot service wrappers: src/uefi/uefi_interface.c, boot_services.c and
-- their headers.
pub mod State
pub mod Memory
pub mod Cpu
pub mod Security
pub mod Interface
pub mod Statistics
pub mod Processor
pub mod Startup
pub mod Wrappers
pub mod Alignment
pub mod Buffers
pub mod MemoryBag
pub mod Figures
pub mod Informed
pub mod Session
