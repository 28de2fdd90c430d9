-- ===== src/Tool.antt =====
-- The flash utility for the host: tools/flash_tools/flash_utility.c.
pub mod State
pub mod Transfer
pub mod Operations
pub mod Arguments
pub mod Parsing
pub mod Balance
pub mod Complete
pub mod Checksum
pub mod Undetected
pub mod Erase
pub mod Main
pub mod Usage
pub mod Display
