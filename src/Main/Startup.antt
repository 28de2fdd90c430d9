-- ===== src/Main/Startup.antt =====
-- InitializeSubsystems of main.c.
use usb_uefi_firmware.Common.{
  ℕ, ◌≡◌, refl, ◌≢◌, Bool, true, false, not, ◌||◌, arith, if◌then◌else◌, is_null,
}
use usb_uefi_firmware.Loader.Info.{firmware_loader_init}
use usb_uefi_firmware.Loader.Lifecycle.{firmware_loader_init_starts}
use usb_uefi_firmware.Loader.State.{initial_loader}
use usb_uefi_firmware.Main.Application.{initialize_subsystems}
use usb_uefi_firmware.Main.Commands.{initial_app}
use usb_uefi_firmware.Platform.Event.{History}
use usb_uefi_firmware.Platform.Proc.{Flow, next, returned, fault}
use usb_uefi_firmware.Platform.Services.{Platform}
use usb_uefi_firmware.Platform.Status.{Status, success, efi_error, status_laws}
use usb_uefi_firmware.Uefi.Interface.{uefi_interface_init}
use usb_uefi_firmware.Uefi.Startup.{SizesDescriptors, uefi_interface_init_cases}
use usb_uefi_firmware.Uefi.State.{initial_uefi}
use usb_uefi_firmware.Usb.Driver.{usb_driver_init, usb_device_detect}
use usb_uefi_firmware.Usb.Enumeration.{usb_device_detect_bounds}
use usb_uefi_firmware.Usb.Requests.{usb_driver_init_cases}
use usb_uefi_firmware.Usb.State.{Usb, initial_usb}

-- A start that did not succeed.
abbrev pub is_failure : Flow Status → Bool
is_failure (next status) = efi_error status
is_failure (returned status) = efi_error status
is_failure fault = true

module _ (p : Platform) (stack : ℕ) where
  detect_keeps :
      (s : Usb) (h : History)
      → s.initialized ≡ true
      → ((usb_device_detect p s h).0 ≢ fault) × ((usb_device_detect p s h).1.initialized ≡ true)
  detect_keeps s h running = ground (arith, usb_device_detect_bounds p s h running)

  -- From the initial state, where GetMemoryMap reports descriptors of some size,
  -- InitializeSubsystems reports success exactly if the three starts succeed, and else the error
  -- of the first that fails; each subsystem runs exactly if its start and those before it
  -- succeeded. The result of the USB detection has no part in this.
  pub initialize_subsystems_cases :
      (h : History)
      → is_null stack ≡ false
      → SizesDescriptors p
      → let first = uefi_interface_init p stack initial_uefi h in
        let second = usb_driver_init p initial_usb first.2 in
        let detected = usb_device_detect p second.1 second.2 in
        let third = firmware_loader_init p initial_loader detected.2 in
        let (result, a, g) = initialize_subsystems p stack initial_app h in
        (result ≡ (
          if is_failure first.0
          then first.0
          else if is_failure second.0
          then second.0
          else if is_failure third.0
          then third.0
          else returned success))
        × (a.uefi.initialized ≡ not (is_failure first.0))
        × (a.usb.initialized ≡ not (is_failure first.0 || is_failure second.0))
        × (a.loader.initialized
            ≡ not (is_failure first.0 || is_failure second.0 || is_failure third.0))
  unfolding initialize_subsystems
  initialize_subsystems_cases h sp sz =
      let first = uefi_interface_init p stack initial_uefi h in
      let second = usb_driver_init p initial_usb first.2 in
      let detected = usb_device_detect p second.1 second.2 in
      ground (
        status_laws,
        uefi_interface_init_cases p stack initial_uefi h refl sp sz,
        usb_driver_init_cases p initial_usb first.2 refl,
        detect_keeps second.1 second.2,
        firmware_loader_init_starts p detected.2,
      )
