-- ===== src/Tests.antt =====
-- Examples: the results of the library on a concrete machine.
pub mod Machine
pub mod Flash
pub mod Loader
pub mod Usb
pub mod Uefi
pub mod Main
pub mod Tool
pub mod Debug
pub mod Contents
pub mod System
