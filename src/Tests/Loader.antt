-- ===== src/Tests/Loader.antt =====
-- Examples for the firmware loader.
use usb_uefi_firmware.Common.{ℕ, ◌≡◌, refl, none, [], arith, ◌==◌, if◌then◌else◌}
use usb_uefi_firmware.Loader.Files.{firmware_load_from_file}
use usb_uefi_firmware.Loader.Lifecycle.{IsConsistent}
use usb_uefi_firmware.Loader.Loading.{Balanced, fresh, firmware_load_from_file-Balanced}
use usb_uefi_firmware.Loader.Reading.{LoadsWhole, firmware_load_from_file-Delivers}
use usb_uefi_firmware.Loader.Session.{
  Client, initial_client, start_loader, load_file, run_loader_call, LoaderReaches, no_loader_call,
  one_loader_call, Accounts, reached-Accounts,
}
use usb_uefi_firmware.Platform.Event.{History}
use usb_uefi_firmware.Tests.Machine.{quiet, running_loader}

-- Five bytes from address 100 on, and two images with the same sum.
abbrev image : ℕ → ℕ
image at = if at == 100 then 200 else if at == 101 then 100 else 0

abbrev swapped : ℕ → ℕ
swapped at = if at == 100 then 100 else if at == 101 then 200 else 0

firmware_load_from_file-Balanced_example :
    let (result, t, g) =
      firmware_load_from_file quiet 5 300 301
        (record { loader = running_loader; buffer = none; size = none })
        [] in
    Balanced 4096 61 t.buffer [] g
firmware_load_from_file-Balanced_example =
    firmware_load_from_file-Balanced quiet 5 300 301 4096 61 running_loader [] refl

firmware_load_from_file-Delivers_example :
    let (result, t, g) = firmware_load_from_file quiet 5 300 301 (fresh running_loader) [] in
    LoadsWhole quiet 5 running_loader result t [] × (t.loader ≡ running_loader)
firmware_load_from_file-Delivers_example =
    firmware_load_from_file-Delivers quiet 5 300 301 running_loader []

running_loader-IsConsistent : IsConsistent running_loader
running_loader-IsConsistent = record { idle = λ stopped. ground arith; handled = λ present. refl }

-- A start and a load.
abbrev after_init : Client × History
after_init = run_loader_call quiet start_loader initial_client []

abbrev after_load : Client × History
after_load = run_loader_call quiet (load_file 5 300 301) after_init.0 after_init.1

loading_client : LoaderReaches quiet after_load.0 after_load.1
loading_client =
    one_loader_call (load_file 5 300 301) (one_loader_call start_loader no_loader_call refl refl)
      refl refl

reached-Accounts_example : Accounts quiet 4096 61 after_load.0 after_load.1
reached-Accounts_example = reached-Accounts quiet 4096 61 refl loading_client
