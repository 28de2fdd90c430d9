-- ===== src/Flash/Writes.antt =====
-- flash_write and flash_erase_sector of flash_manager.c on a manager that is ready.
use usb_uefi_firmware.Common.{
  ℕ, ◌+◌, ◌*◌, ◌/◌, ◌%◌, ◌^◌, ◌≤◌, ◌<◌, String, ◌≡◌, ap, Bool, true, false, not, ◌&&◌, ◌||◌, List,
  ◌∷◌, arith, ltb, leb, ◌==◌, if◌then◌else◌, is_null,
}
use usb_uefi_firmware.Flash.Access.{flash_write, flash_erase_sector}
use usb_uefi_firmware.Flash.Regions.{
  flash_regions, region_end, protection_loop, check_region_write_protection,
  check_region_erase_support,
}
use usb_uefi_firmware.Flash.State.{FlashRegion, Flash}
use usb_uefi_firmware.Platform.Event.{block_written, block_erased, History}
use usb_uefi_firmware.Platform.Proc.{Flow, returned}
use usb_uefi_firmware.Platform.Services.{Platform}
use usb_uefi_firmware.Platform.Status.{
  Status, success, invalid_parameter, unsupported, write_protected, status_laws,
}

-- A manager after flash_manager_init on a device between 256 KB and 4 GB that has an FVB protocol.
pub record IsReady (copy : String → String) (s : Flash) : Type 0 where
  pub started : s.initialized ≡ true
  pub table : s.regions ≡ flash_regions copy s.info.total_size
  pub large : 256 * 1024 < s.info.total_size
  pub small : s.info.total_size ≤ 2 ^ 32
  pub sectors : 0 < s.info.sector_size
  pub device : is_null s.fvb_protocol ≡ false

-- The range lies in the writable part of the device, between its first and its last 64 KB.
abbrev pub writable : ℕ → ℕ → ℕ → Bool
writable total address size = leb (64 * 1024) address && leb (address + size + 64 * 1024) total

write_check :
    (copy : String → String) (total address size : ℕ)
    → 256 * 1024 < total
    → total ≤ 2 ^ 32
    → 0 < size
    → address + size ≤ total
    → check_region_write_protection (flash_regions copy total) address size
      ≡ (if writable total address size then success else write_protected)
unfolding check_region_write_protection protection_loop flash_regions region_end
write_check copy total address size lo hi pos fit = ground arith

erase_check :
    (copy : String → String) (total address : ℕ)
    → 256 * 1024 < total
    → total ≤ 2 ^ 32
    → address < total
    → check_region_erase_support (flash_regions copy total) address
      ≡ (if ltb (address + 64 * 1024) total then success else unsupported)
unfolding check_region_erase_support flash_regions region_end
erase_check copy total address lo hi fit = ground arith

module _ (p : Platform) where
  -- What flash_write promises: where it may write at all, the device has the last word.
  abbrev pub write_promise : ℕ → ℕ → ℕ → Flash → History → Flow Status × Flash × History
  write_promise address buffer size s h =
      if is_null buffer || size == 0 || ltb s.info.total_size (address + size)
      then (returned invalid_parameter, s, h)
      else if s.info.write_protected || not (writable s.info.total_size address size)
      then (returned write_protected, s, h)
      else (
        returned (
            p.block_write_status h s.fvb_protocol (address / s.info.sector_size)
              (address % s.info.sector_size) size),
        s,
        block_written s.fvb_protocol (address / s.info.sector_size) (address % s.info.sector_size)
              size buffer
            ∷ h,
      )

  -- On a ready manager (`IsReady`), for a range that does not wrap at 2^64, flash_write is
  -- write_promise: it refuses NULL, an empty range and a range that leaves the device, then a
  -- protected device and a range that touches the first or last 64 KB, and otherwise makes one
  -- write at the block and offset of the address, whose status is the result.
  pub flash_write-write_promise :
      (copy : String → String) (address buffer size : ℕ) (s : Flash) (h : History)
      → IsReady copy s
      → address + size < 2 ^ 64
      → flash_write p address buffer size s h ≡ write_promise address buffer size s h
  unfolding flash_write
  flash_write-write_promise copy address buffer size s h v fit = ground (
    status_laws,
    write_check copy s.info.total_size address size v.large v.small,
    ap (λ (rs : List FlashRegion). check_region_write_protection rs address size) v.table,
  )

  -- What flash_erase_sector does: of the regions it asks only for EraseRequired, so it refuses the
  -- last 64 KB and lets the boot block through.
  abbrev pub erase_promise : ℕ → Flash → History → Flow Status × Flash × History
  erase_promise address s h =
      if leb s.info.total_size address
      then (returned invalid_parameter, s, h)
      else if s.info.write_protected
      then (returned write_protected, s, h)
      else if leb s.info.total_size (address + 64 * 1024)
      then (returned unsupported, s, h)
      else (
        returned (p.block_erase_status h s.fvb_protocol (address / s.info.sector_size)),
        s,
        block_erased s.fvb_protocol (address / s.info.sector_size) 1 ∷ h,
      )

  -- On a ready manager flash_erase_sector is erase_promise, at every address: it refuses one
  -- outside the device, then a protected device, then the last 64 KB, and otherwise erases the one
  -- block of the address, with the status of that call as the result.
  pub flash_erase_sector-erase_promise :
      (copy : String → String) (address : ℕ) (s : Flash) (h : History)
      → IsReady copy s
      → flash_erase_sector p address s h ≡ erase_promise address s h
  unfolding flash_erase_sector
  flash_erase_sector-erase_promise copy address s h v = ground (
    status_laws,
    erase_check copy s.info.total_size address v.large v.small,
    ap (λ (rs : List FlashRegion). check_region_erase_support rs address) v.table,
  )

  -- On a ready manager whose device is not write-protected, a write within the device that starts
  -- in the first 64 KB is refused as write-protected, and an erase there reaches the device.
  pub boot_block_erasable :
      (copy : String → String) (address buffer size : ℕ) (s : Flash) (h : History)
      → IsReady copy s
      → s.info.write_protected ≡ false
      → is_null buffer ≡ false
      → 0 < size
      → address < 64 * 1024
      → address + size ≤ s.info.total_size
      → (flash_write p address buffer size s h ≡ (returned write_protected, s, h))
        × ((flash_erase_sector p address s h).2
            ≡ block_erased s.fvb_protocol (address / s.info.sector_size) 1 ∷ h)
  boot_block_erasable copy address buffer size s h v open_device b pos low fit = ground (
    arith,
    flash_write-write_promise copy address buffer size s h v (omega arith),
    flash_erase_sector-erase_promise copy address s h v,
  )
