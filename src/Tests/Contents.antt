-- ===== src/Tests/Contents.antt =====
-- Examples for the bytes of the device and of files, on a machine whose services all work.
use usb_uefi_firmware.Common.{ℕ, suc, ◌+◌, ◌*◌, ◌≡◌, refl, inl, List, [], ◌∷◌, arith}
use usb_uefi_firmware.Flash.Access.{flash_read, flash_write, flash_erase_sector}
use usb_uefi_firmware.Flash.Contents.{replace, StoresBytes, Image, Shows, spec_calls}
use usb_uefi_firmware.Flash.Refinement.{run_calls-Shows, read-write}
use usb_uefi_firmware.Flash.Regions.{
  flash_regions, region_end, protection_loop, check_region_write_protection,
  check_region_erase_support,
}
use usb_uefi_firmware.Flash.Session.{FlashCall, write_range, erase_at, run_calls, AllComplete}
use usb_uefi_firmware.Platform.Event.{
  allocated, block_read, block_written, block_erased, file_read, History,
}
use usb_uefi_firmware.Platform.Services.{Platform}
use usb_uefi_firmware.Platform.Status.{efi_error}
use usb_uefi_firmware.Tests.Flash.{plain_copy, started_flash-IsReady}
use usb_uefi_firmware.Tests.Machine.{quiet, started_flash}

-- The device and the memory after a history of the flash manager.
abbrev stored : History → Image
stored [] = record { device = λ x. 255; memory = λ y. y }
stored (block_written fvb lba at size buffer ∷ h) =
    let i = stored h in
    record i { device = replace (lba * 4096 + at) size (λ k. i.memory (buffer + k)) i.device }
stored (block_erased fvb lba n ∷ h) =
    let i = stored h in record i { device = replace (lba * 4096) 4096 (λ k. 255) i.device }
stored (block_read fvb lba at size buffer ∷ h) =
    let i = stored h in
    record i { memory = replace buffer size (λ k. i.device (lba * 4096 + at + k)) i.memory }
stored (_ ∷ h) = stored h

abbrev stored_device : History → ℕ → ℕ
stored_device h = (stored h).device

abbrev stored_memory : History → ℕ → ℕ
stored_memory h = (stored h).memory

quiet-StoresBytes : StoresBytes quiet 4096 stored_device stored_memory
quiet-StoresBytes = record {
  written = λ h fvb lba at size buffer x fine. refl;
  write_keeps = λ h fvb lba at size buffer y. refl;
  erased = λ h fvb lba x fine. refl;
  erase_keeps = λ h fvb lba y. refl;
  read = λ h fvb lba at size buffer y fine. refl;
  read_keeps = λ h fvb lba at size buffer x. refl;
}

abbrev two_calls : List FlashCall
two_calls = write_range 65540 64 100 ∷ (erase_at 65540 ∷ [])

abbrev blank : Image
blank = record { device = λ x. 255; memory = λ y. y }

two_calls_complete : AllComplete quiet two_calls started_flash []
unfolding flash_write flash_erase_sector flash_regions check_region_write_protection
    check_region_erase_support protection_loop region_end efi_error
two_calls_complete = (inl refl, (inl refl, tt))

run_calls-Shows_example :
    ((run_calls quiet two_calls started_flash []).0 ≡ started_flash)
    × Shows stored_device stored_memory
        (run_calls quiet two_calls started_flash []).1
        (spec_calls started_flash.info two_calls blank)
run_calls-Shows_example =
    run_calls-Shows quiet 4096 stored_device stored_memory quiet-StoresBytes plain_copy
      started_flash started_flash-IsReady refl two_calls [] blank (omega arith, (tt, tt))
      two_calls_complete (record { same_device = λ x. refl; same_memory = λ y. refl })

read-write_example :
    let g = (flash_write quiet 65540 64 100 started_flash []).2 in
    stored_memory (flash_read quiet 65540 500 100 started_flash g).2 (500 + 7)
    ≡ stored_memory [] (64 + 7)
unfolding flash_write flash_read flash_regions check_region_write_protection protection_loop
    region_end efi_error
read-write_example =
    read-write quiet 4096 stored_device stored_memory quiet-StoresBytes plain_copy started_flash
      started_flash-IsReady refl 65540 64 500 100 7 [] (omega arith) refl refl (omega arith)

-- The memory after reads of files whose byte `i` is `i`, and a pool that gives an address above all
-- that were allocated before.
abbrev loaded_memory : History → ℕ → ℕ
loaded_memory [] y = 0
loaded_memory (file_read file size buffer n ∷ h) y = replace buffer n (λ i. i) (loaded_memory h) y
loaded_memory (_ ∷ h) y = loaded_memory h y

abbrev largest : History → ℕ
largest [] = 4096
largest (allocated room pointer ∷ h) = pointer + largest h
largest (_ ∷ h) = largest h

abbrev pooling : Platform
pooling = record quiet { allocate_pool = λ h n. suc (largest h) }
