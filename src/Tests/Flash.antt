-- ===== src/Tests/Flash.antt =====
-- Examples for the flash manager, on a device of 1 MB.
use usb_uefi_firmware.Common.{
  ℕ, ◌+◌, ◌-◌, ◌^◌, ◌≤◌, ◌<◌, String, ◌≡◌, refl, ◌≢◌, ◌↔◌, false, not, ◌&&◌, [], ◌∷◌, arith,
  if◌then◌else◌, is_null, Each,
}
use usb_uefi_firmware.Flash.Access.{flash_read, flash_write, flash_erase_sector}
use usb_uefi_firmware.Flash.Blocks.{RefusesCrossing, access_across_blocks}
use usb_uefi_firmware.Flash.Descriptor.{reached_descriptor_spared}
use usb_uefi_firmware.Flash.Faults.{reached_never_faults}
use usb_uefi_firmware.Flash.Geometry.{touches, HasGeometry}
use usb_uefi_firmware.Flash.Handles.{fvb_opens, fvb_closes, reached_fvb_balance}
use usb_uefi_firmware.Flash.Manager.{
  open_fvb, read_attributes, read_geometry, detect_flash_device, initialize_flash_regions,
  flash_manager_init,
}
use usb_uefi_firmware.Flash.Protection.{
  IsRegion, protected_at, check_region_write_protection-Unprotected, flash_regions-IsRegion,
}
use usb_uefi_firmware.Flash.Reads.{flash_read-read_promise, flash_read_wraps}
use usb_uefi_firmware.Flash.Regions.{flash_regions, protection_loop, check_region_write_protection}
use usb_uefi_firmware.Flash.Session.{
  start_manager, read_range, write_range, run_call, Reaches, no_call, one_call, WritesUnprotected,
  reached_write_unprotected,
}
use usb_uefi_firmware.Flash.State.{Flash, initial_flash}
use usb_uefi_firmware.Flash.Volume.{readable_volume_refuses_writes}
use usb_uefi_firmware.Flash.Writes.{
  IsReady, flash_write-write_promise, flash_erase_sector-erase_promise, boot_block_erasable,
}
use usb_uefi_firmware.Platform.Event.{block_read, block_written, block_erased, History}
use usb_uefi_firmware.Platform.Proc.{Flow, returned, fault, Call}
use usb_uefi_firmware.Platform.Status.{Status, success, bad_buffer_size, write_protected, efi_error}
use usb_uefi_firmware.Tests.Machine.{quiet, readable_volume, blockwise, started_flash}

abbrev pub plain_copy : String → String
plain_copy text = text

table-IsRegion : Each IsRegion (flash_regions plain_copy 1048576)
table-IsRegion = flash_regions-IsRegion plain_copy 1048576 (omega arith) (omega arith)

pub started_flash-IsReady : IsReady plain_copy started_flash
started_flash-IsReady = record {
  started = refl;
  table = refl;
  large = omega arith;
  small = omega arith;
  sectors = omega arith;
  device = refl;
}

check_region_write_protection-Unprotected_example :
    (check_region_write_protection (flash_regions plain_copy 1048576) 65536 4096 ≡ success)
    ↔ ((x : ℕ) → 65536 ≤ x → x < 69632 → protected_at (flash_regions plain_copy 1048576) x ≡ false)
check_region_write_protection-Unprotected_example =
    check_region_write_protection-Unprotected (flash_regions plain_copy 1048576) 65536 4096
      table-IsRegion (omega arith) (omega arith)

flash_write-write_promise_example :
    flash_write quiet 65540 64 100 started_flash []
    ≡ (returned success, started_flash, block_written 101 16 4 100 64 ∷ [])
flash_write-write_promise_example =
    flash_write-write_promise quiet plain_copy 65540 64 100 started_flash [] started_flash-IsReady
      (omega arith)

flash_erase_sector-erase_promise_example :
    flash_erase_sector quiet 8192 started_flash []
    ≡ (returned success, started_flash, block_erased 101 2 1 ∷ [])
flash_erase_sector-erase_promise_example =
    flash_erase_sector-erase_promise quiet plain_copy 8192 started_flash [] started_flash-IsReady

boot_block_erasable_example :
    (flash_write quiet 8192 64 100 started_flash [] ≡ (returned write_protected, started_flash, []))
    × ((flash_erase_sector quiet 8192 started_flash []).2 ≡ block_erased 101 2 1 ∷ [])
boot_block_erasable_example =
    boot_block_erasable quiet plain_copy 8192 64 100 started_flash [] started_flash-IsReady refl
      refl (omega arith) (omega arith) (omega arith)

flash_read-read_promise_example :
    flash_read quiet 65540 64 100 started_flash []
    ≡ (returned success, started_flash, block_read 101 16 4 100 64 ∷ [])
flash_read-read_promise_example =
    flash_read-read_promise quiet 65540 64 100 started_flash [] (omega arith) (omega arith)

flash_read_wraps_example :
    (flash_read quiet (2 ^ 64 - 4096) 64 8192 started_flash []).2
    ≡ block_read 101 4503599627370495 0 8192 64 ∷ []
flash_read_wraps_example =
    flash_read_wraps quiet (2 ^ 64 - 4096) 64 8192 started_flash [] refl refl refl (omega arith)
      (omega arith) (omega arith) (omega arith) (omega arith)

readable_volume_refuses_writes_example :
    let (result, t, g) = flash_manager_init readable_volume initial_flash [] in
    (flash_write readable_volume 65536 64 100 t g ≡ (returned write_protected, t, g))
    × (flash_erase_sector readable_volume 65536 t g ≡ (returned write_protected, t, g))
unfolding flash_manager_init open_fvb detect_flash_device read_attributes read_geometry
    initialize_flash_regions efi_error
readable_volume_refuses_writes_example =
    readable_volume_refuses_writes readable_volume 65536 64 100 initial_flash [] refl refl refl refl
      refl (omega arith) (omega arith)

-- The calls that start the manager, and what they reach.
abbrev first_start : Call Flash
first_start = run_call quiet start_manager

abbrev started_manager :
    Reaches quiet initial_flash [] (first_start initial_flash []).1 (first_start initial_flash []).2
started_manager = one_call start_manager no_call refl refl

written :
    (flash_write quiet 65540 64 100
      (first_start initial_flash []).1
      (first_start initial_flash []).2).2
    ≡ block_written 101 16 4 100 64 ∷ (first_start initial_flash []).2
unfolding flash_manager_init open_fvb detect_flash_device read_attributes read_geometry
    initialize_flash_regions efi_error flash_write check_region_write_protection protection_loop
    flash_regions usb_uefi_firmware.Flash.Regions.region_end
written = refl

reached_write_unprotected_example :
    let (result, s, h) = first_start initial_flash [] in
    WritesUnprotected quiet 65540 64 100 7 s h (flash_write quiet 65540 64 100 s h).2
unfolding flash_manager_init open_fvb detect_flash_device read_attributes read_geometry
    initialize_flash_regions efi_error
reached_write_unprotected_example =
    reached_write_unprotected quiet 65540 64 100 7 started_manager (omega arith) (omega arith)
      (omega arith) (omega arith)

reached_fvb_balance_example :
    let (result, s, h) = first_start initial_flash [] in
    fvb_opens h ≡ fvb_closes h + (if s.initialized && not (is_null s.fvb_protocol) then 1 else 0)
reached_fvb_balance_example =
    reached_fvb_balance quiet (λ g. refl, λ g handle opens. ground arith) started_manager

quiet-HasGeometry : HasGeometry quiet 4096 256 16
unfolding efi_error
quiet-HasGeometry = record {
  answers = λ g fvb. refl;
  sectors = λ g fvb. refl;
  counts = λ g fvb. refl;
  whole = refl;
  large = omega arith;
  small = omega arith;
}

abbrev after_write : Flow Status × Flash × History
after_write =
    run_call quiet (write_range 65540 64 100) (first_start initial_flash []).1
      (first_start initial_flash []).2

abbrev wrote : Reaches quiet initial_flash [] after_write.1 after_write.2
wrote = one_call (write_range 65540 64 100) started_manager refl refl

reached_descriptor_spared_example : touches 4096 1000000 after_write.2 ≡ false
reached_descriptor_spared_example =
    reached_descriptor_spared quiet 4096 256 16 quiet-HasGeometry 1000000 wrote
      (omega arith, (tt, tt)) (omega arith)

blockwise-RefusesCrossing : RefusesCrossing blockwise 4096
blockwise-RefusesCrossing = record {
  refused_read = λ h fvb lba at size crosses. ground arith;
  refused_write = λ h fvb lba at size crosses. ground arith;
}

access_across_blocks_example :
    ((flash_read blockwise 69600 64 100 started_flash []).0 ≡ returned bad_buffer_size)
    × ((flash_write blockwise 69600 64 100 started_flash []).0 ≡ returned bad_buffer_size)
access_across_blocks_example =
    access_across_blocks blockwise plain_copy 69600 64 100 started_flash [] started_flash-IsReady
      blockwise-RefusesCrossing refl refl refl (omega arith)

reached_never_faults_example :
    (run_call quiet (read_range 65540 64 100) after_write.1 after_write.2).0 ≢ fault
reached_never_faults_example =
    reached_never_faults quiet (read_range 65540 64 100) (λ g fvb fine. (omega arith, omega arith))
      wrote
