-- ===== src/Flash/Blocks.antt =====
-- flash_read and flash_write of flash_manager.c at the border of two blocks of the device.
use usb_uefi_firmware.Common.{ℕ, ◌+◌, ◌/◌, ◌%◌, ◌^◌, ◌<◌, String, ◌≡◌, true, false, arith, is_null}
use usb_uefi_firmware.Flash.Access.{flash_read, flash_write}
use usb_uefi_firmware.Flash.Reads.{flash_read-read_promise}
use usb_uefi_firmware.Flash.State.{Flash}
use usb_uefi_firmware.Flash.Writes.{IsReady, writable, flash_write-write_promise}
use usb_uefi_firmware.Platform.Event.{History}
use usb_uefi_firmware.Platform.Proc.{returned}
use usb_uefi_firmware.Platform.Services.{Platform}
use usb_uefi_firmware.Platform.Status.{bad_buffer_size}
use native.Mathlib.Nat.{mod-lt}

-- What the FVB protocol documents: a read or a write across the end of a block is refused with
-- EFI_BAD_BUFFER_SIZE.
pub record RefusesCrossing (p : Platform) (sector : ℕ) : Type 0 where
  pub refused_read :
      (h : History) (fvb lba at size : ℕ)
      → sector < at + size
      → p.block_read_status h fvb lba at size ≡ bad_buffer_size
  pub refused_write :
      (h : History) (fvb lba at size : ℕ)
      → sector < at + size
      → p.block_write_status h fvb lba at size ≡ bad_buffer_size

module _ (p : Platform) where
  -- On a ready manager whose device is not write-protected and refuses accesses across the end of a
  -- block, flash_read and flash_write hand every range that passes their checks over as one access,
  -- so a range that crosses a block's end always fails with EFI_BAD_BUFFER_SIZE.
  pub access_across_blocks :
      (copy : String → String) (address buffer size : ℕ) (s : Flash) (h : History)
      → IsReady copy s
      → RefusesCrossing p s.info.sector_size
      → s.info.write_protected ≡ false
      → is_null buffer ≡ false
      → writable s.info.total_size address size ≡ true
      → s.info.sector_size < address % s.info.sector_size + size
      → ((flash_read p address buffer size s h).0 ≡ returned bad_buffer_size)
        × ((flash_write p address buffer size s h).0 ≡ returned bad_buffer_size)
  access_across_blocks copy address buffer size s h v device open_device b fits crosses =
      let block = address / s.info.sector_size in
      let at = address % s.info.sector_size in
      let at_less = mod-lt address v.sectors in
      let small : address + size < 2 ^ 64 = ground (arith, v.small) in
      ground (
        arith,
        v.started,
        v.device,
        device.refused_read h s.fvb_protocol block at size crosses,
        device.refused_write h s.fvb_protocol block at size crosses,
        flash_read-read_promise p address buffer size s h v.sectors small,
        flash_write-write_promise p copy address buffer size s h v small,
      )
