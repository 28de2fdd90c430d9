-- ===== src/Flash/Access.antt =====
-- flash_read, flash_write and flash_erase_sector.
use usb_uefi_firmware.Common.{
  ℕ, ◌+◌, ◌/◌, ◌%◌, not, ◌||◌, ltb, leb, ◌==◌, if◌then◌else◌, is_null, u64,
}
use usb_uefi_firmware.Flash.Regions.{check_region_write_protection, check_region_erase_support}
use usb_uefi_firmware.Flash.State.{Flash}
use usb_uefi_firmware.Platform.Event.{copied, block_read, block_written, block_erased}
use usb_uefi_firmware.Platform.Proc.{
  Proc, Call, ◌>>=◌, ◌>>◌, pure, get, require, check_status, emit, invoke, divide_fault, function,
}
use usb_uefi_firmware.Platform.Services.{Platform}
use usb_uefi_firmware.Platform.Status.{success, invalid_parameter, not_ready, write_protected}

-- `Address / SectorSize` and `Address % SectorSize`, which fault at a sector size of 0.
abbrev divide : ℕ → ℕ → Proc Flash (ℕ × ℕ)
divide a b = if b == 0 then divide_fault else pure (a / b, a % b)

module _ (p : Platform) (address : ℕ) where
  module _ (buffer size : ℕ) where
    unfoldable pub flash_read : Call Flash
    flash_read = function (do
      s ← get
      require (not (is_null buffer || size == 0 || not s.initialized)) invalid_parameter
      require (not (ltb s.info.total_size (u64 (address + size)))) invalid_parameter
      if is_null s.fvb_protocol then (do emit (copied buffer address size); pure success) else (do
        at ← divide address s.info.sector_size
        status ←
            invoke (λ h. p.block_read_status h s.fvb_protocol at.0 at.1 size)
              (λ _. block_read s.fvb_protocol at.0 at.1 size buffer)
        check_status status
        pure status))

    unfoldable pub flash_write : Call Flash
    flash_write = function (do
      s ← get
      require (not (is_null buffer || size == 0 || not s.initialized)) invalid_parameter
      require (not (ltb s.info.total_size (u64 (address + size)))) invalid_parameter
      require (not s.info.write_protected) write_protected
      check_status (check_region_write_protection s.regions address size)
      if is_null s.fvb_protocol then pure success else (do
        at ← divide address s.info.sector_size
        status ←
            invoke (λ h. p.block_write_status h s.fvb_protocol at.0 at.1 size)
              (λ _. block_written s.fvb_protocol at.0 at.1 size buffer)
        check_status status
        pure status))

  unfoldable pub flash_erase_sector : Call Flash
  flash_erase_sector = function (do
    s ← get
    require s.initialized not_ready
    require (not (leb s.info.total_size address)) invalid_parameter
    require (not s.info.write_protected) write_protected
    check_status (check_region_erase_support s.regions address)
    if is_null s.fvb_protocol then pure success else (do
      at ← divide address s.info.sector_size
      status ←
          invoke (λ h. p.block_erase_status h s.fvb_protocol at.0)
            (λ _. block_erased s.fvb_protocol at.0 1)
      check_status status
      pure status))
