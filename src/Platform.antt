-- ===== src/Platform.antt =====
-- What the program takes from UEFI and EDK II (Uefi.h, the boot and runtime services, the
-- protocols and the base libraries), none of which the repository holds. A service is a function
-- of the calls made before it, so one value of `Platform` is one machine, and a theorem over every
-- `Platform` is a theorem over every machine.
pub mod Status
pub mod Event
pub mod Services
pub mod Proc
pub mod Ensures
pub mod Within
pub mod Balance
