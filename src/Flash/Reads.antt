-- ===== src/Flash/Reads.antt =====
-- flash_read of flash_manager.c, and what its bounds test lets through.
use usb_uefi_firmware.Common.{
  ℕ, ◌+◌, ◌/◌, ◌%◌, ◌^◌, ◌≤◌, ◌<◌, ◌≡◌, ◌≢◌, true, false, not, ◌||◌, ◌∷◌, arith, ltb, ◌==◌,
  if◌then◌else◌, is_null,
}
use usb_uefi_firmware.Flash.Access.{flash_read, flash_write, flash_erase_sector}
use usb_uefi_firmware.Flash.State.{Flash}
use usb_uefi_firmware.Platform.Event.{copied, block_read, History}
use usb_uefi_firmware.Platform.Proc.{Flow, returned, fault}
use usb_uefi_firmware.Platform.Services.{Platform}
use usb_uefi_firmware.Platform.Status.{Status, success, invalid_parameter}

module _ (p : Platform) where
  -- What flash_read promises: the range is inside the device, and the data come from the device or,
  -- with no FVB protocol, from the memory at that address.
  abbrev pub read_promise : ℕ → ℕ → ℕ → Flash → History → Flow Status × Flash × History
  read_promise address buffer size s h =
      if is_null buffer || size == 0 || not s.initialized || ltb s.info.total_size (address + size)
      then (returned invalid_parameter, s, h)
      else if is_null s.fvb_protocol
      then (returned success, s, copied buffer address size ∷ h)
      else (
        returned (
            p.block_read_status h s.fvb_protocol (address / s.info.sector_size)
              (address % s.info.sector_size) size),
        s,
        block_read s.fvb_protocol (address / s.info.sector_size) (address % s.info.sector_size) size
              buffer
            ∷ h,
      )

  -- On a device with sectors, for a range that does not wrap at 2^64, flash_read is read_promise:
  -- it refuses NULL, an empty range, an uninitialized manager and a range that leaves the device;
  -- without an FVB protocol it copies from the memory at the address, and with one it makes one
  -- read at the block and offset of the address.
  pub flash_read-read_promise :
      (address buffer size : ℕ) (s : Flash) (h : History)
      → 0 < s.info.sector_size
      → address + size < 2 ^ 64
      → flash_read p address buffer size s h ≡ read_promise address buffer size s h
  unfolding flash_read
  flash_read-read_promise address buffer size s h sectors fit = ground arith

  -- On an initialized manager with a device and sectors, a range that wraps at 2^64 to a sum
  -- within the device passes the bounds test, and its whole size is handed to the device.
  pub flash_read_wraps :
      (address buffer size : ℕ) (s : Flash) (h : History)
      → s.initialized ≡ true
      → is_null buffer ≡ false
      → is_null s.fvb_protocol ≡ false
      → 0 < s.info.sector_size
      → 0 < size
      → 2 ^ 64 ≤ address + size
      → address + size ≤ 2 ^ 64 + s.info.total_size
      → s.info.total_size < 2 ^ 64
      → (flash_read p address buffer size s h).2
        ≡ block_read s.fvb_protocol
            (address / s.info.sector_size)
            (address % s.info.sector_size)
            size
            buffer
          ∷ h
  unfolding flash_read
  flash_read_wraps address buffer size s h started b device sectors pos wraps fit small =
      ground arith

  -- No operation changes the manager's own state, whatever its arguments.
  pub access_keeps_state :
      (address buffer size : ℕ) (s : Flash) (h : History)
      → ((flash_read p address buffer size s h).1 ≡ s)
        × ((flash_write p address buffer size s h).1 ≡ s)
        × ((flash_erase_sector p address s h).1 ≡ s)
  unfolding flash_read flash_write flash_erase_sector
  access_keeps_state address buffer size s h = ground arith

  -- With a sector size the divisions do not fault.
  pub access_never_faults :
      (address buffer size : ℕ) (s : Flash) (h : History)
      → 0 < s.info.sector_size
      → ((flash_read p address buffer size s h).0 ≢ fault)
        × ((flash_write p address buffer size s h).0 ≢ fault)
        × ((flash_erase_sector p address s h).0 ≢ fault)
  unfolding flash_read flash_write flash_erase_sector
  access_never_faults address buffer size s h sectors = ground arith
