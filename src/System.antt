-- ===== src/System.antt =====
-- The components together: src/main.c, src/usb/usb_driver.c, src/uefi/uefi_interface.c,
-- src/firmware/firmware_loader.c and src/firmware/flash_manager.c on one machine.
pub mod Steps
pub mod Invariant
