-- ===== src/Usb.antt =====
-- The USB driver: src/usb/usb_driver.c and usb_driver.h.
pub mod State
pub mod Device
pub mod Driver
pub mod Requests
pub mod Enumeration
pub mod Slots
pub mod Skipped
pub mod Session
pub mod Buffers
pub mod Opened
pub mod Closing
pub mod Table
