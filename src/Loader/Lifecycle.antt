-- ===== src/Loader/Lifecycle.antt =====
-- firmware_loader_init and firmware_loader_cleanup of firmware_loader.c.
use usb_uefi_firmware.Common.{
  ℕ, ◌+◌, bit_and, ◌≡◌, refl, ◌⊎◌, true, false, not, ◌∷◌, arith, if◌then◌else◌, is_null,
}
use usb_uefi_firmware.Loader.Info.{
  populate_firmware_info, open_file_system, firmware_loader_init, firmware_loader_cleanup,
}
use usb_uefi_firmware.Loader.State.{
  cap_amd_ryzen_7000, cap_amd_ryzen_9000, cap_usb_xhci, cap_usb_ehci, cap_network, cap_remote_debug,
  FirmwareInfo, zero_firmware_info, Loader, initial_loader,
}
use usb_uefi_firmware.Platform.Event.{
  loaded_image_guid, simple_file_system_guid, opened, closed, History,
}
use usb_uefi_firmware.Platform.Proc.{next, returned}
use usb_uefi_firmware.Platform.Services.{Platform}
use usb_uefi_firmware.Platform.Status.{success, efi_error}

-- What holds of the loader between two calls: only an initialized one has a file system, and the
-- protocol comes with the handle that it was opened on.
pub record IsConsistent (s : Loader) : Type 0 where
  pub idle : s.initialized ≡ false → s.file_system ≡ 0
  pub handled : is_null s.file_system ≡ false → is_null s.file_system_handle ≡ false

module _ (p : Platform) where
  open_file_system_lem :
      (device : ℕ) (s : Loader) (h : History)
      → s.file_system ≡ 0
      → s.file_system_handle ≡ 0
      → let (result, t, g) = open_file_system p device s h in
        (result ≡ next tt)
        × (t.initialized ≡ s.initialized)
        × (t.info ≡ s.info)
        × ((is_null t.file_system ≡ true)
            ⊎ ((t.file_system_handle ≡ device) × (is_null device ≡ false)))
  unfolding open_file_system
  open_file_system_lem device s h none_yet unhandled = ground arith

  -- The loader starts exactly if the loaded image protocol opens; a missing file system is no error.
  pub firmware_loader_init_starts :
      (h : History)
      → let image = p.open_protocol h p.image_handle loaded_image_guid in
        let (result, t, g) = firmware_loader_init p initial_loader h in
        (result ≡ (if efi_error image.status then returned image.status else returned success))
        × (t.initialized ≡ not (efi_error image.status))
        × (t.info ≡ (
            if efi_error image.status
            then zero_firmware_info
            else populate_firmware_info p zero_firmware_info))
        × IsConsistent t
  unfolding firmware_loader_init
  firmware_loader_init_starts h =
      let image = p.open_protocol h p.image_handle loaded_image_guid in
      let asked = opened p.image_handle loaded_image_guid image.status ∷ h in
      let t = record initial_loader { info = zero_firmware_info } in
      ground (arith, open_file_system_lem (p.device_handle image.value) t asked)

  -- The capabilities that a started loader shows: the two processor families, xHCI, network and
  -- remote debugging, and not the EHCI that the configuration also supports.
  pub capabilities-populate_firmware_info :
      (i : FirmwareInfo)
      → ((populate_firmware_info p i).capabilities
          ≡ cap_amd_ryzen_7000 + cap_amd_ryzen_9000 + cap_usb_xhci + cap_network + cap_remote_debug)
        × (bit_and (populate_firmware_info p i).capabilities cap_usb_ehci ≡ 0)
  unfolding populate_firmware_info
  capabilities-populate_firmware_info i = (refl, refl)

  -- A cleanup of an initialized, consistent loader succeeds: the file system is closed if one is
  -- open, and the loader is then uninitialized, without file system and with cleared information.
  pub firmware_loader_cleanup_ends :
      (s : Loader) (h : History)
      → s.initialized ≡ true
      → IsConsistent s
      → let (result, t, g) = firmware_loader_cleanup p s h in
        (result ≡ returned success)
        × (t.initialized ≡ false)
        × (t.info ≡ zero_firmware_info)
        × (t.file_system ≡ 0)
        × (g ≡ (
            if is_null s.file_system
            then h
            else closed s.file_system_handle simple_file_system_guid ∷ h))
  unfolding firmware_loader_cleanup
  firmware_loader_cleanup_ends s h started v = ground (arith, v.handled)
