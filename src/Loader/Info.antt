-- ===== src/Loader/Info.antt =====
-- firmware_loader_init, PopulateFirmwareInfo, firmware_get_info, firmware_loader_status and
-- firmware_loader_cleanup.
use usb_uefi_firmware.Common.{
  ℕ, bit_or, String, Bool, true, false, not, ◌&&◌, ◌||◌, Option, none, some, if◌then◌else◌, null,
  is_null,
}
use usb_uefi_firmware.Config.{
  firmware_version_major, firmware_version_minor, firmware_version_patch, firmware_build_number,
  firmware_name, firmware_vendor, firmware_copyright, support_amd_ryzen_7000,
  support_amd_ryzen_9000, support_xhci, enable_network_stack, enable_remote_debug,
}
use usb_uefi_firmware.Loader.State.{
  FirmwareStatus, loaded, validated, cap_amd_ryzen_7000, cap_amd_ryzen_9000, cap_usb_xhci,
  cap_network, cap_remote_debug, FirmwareInfo, zero_firmware_info, Loader,
}
use usb_uefi_firmware.Platform.Event.{loaded_image_guid, simple_file_system_guid, opened, closed}
use usb_uefi_firmware.Platform.Proc.{
  Proc, Call, ◌>>=◌, ◌>>◌, pure, get, modify, require, check_status, emit, invoke, when, function,
}
use usb_uefi_firmware.Platform.Services.{Platform}
use usb_uefi_firmware.Platform.Status.{
  Status, success, invalid_parameter, not_ready, already_started, efi_error,
}

module _ (p : Platform) where
  abbrev add_capability : Bool → ℕ → ℕ → ℕ
  add_capability supported flag capabilities =
      if supported then bit_or capabilities flag else capabilities

  unfoldable pub populate_firmware_info : FirmwareInfo → FirmwareInfo
  populate_firmware_info i = record i {
    major_version = firmware_version_major;
    minor_version = firmware_version_minor;
    patch_version = firmware_version_patch;
    build_number = firmware_build_number;
    name = p.str_cpy_s 64 firmware_name;
    vendor = p.str_cpy_s 64 firmware_vendor;
    copyright = p.str_cpy_s 128 firmware_copyright;
    capabilities = add_capability enable_remote_debug cap_remote_debug (
        add_capability enable_network_stack cap_network (
          add_capability support_xhci cap_usb_xhci (
            add_capability support_amd_ryzen_9000 cap_amd_ryzen_9000
              (add_capability support_amd_ryzen_7000 cap_amd_ryzen_7000 0))));
    status = loaded;
  }

  -- The file system on the device that the image was loaded from, if it has one.
  unfoldable pub open_file_system : ℕ → Proc Loader (Unit {0})
  open_file_system device = when (not (is_null device)) (do
    reply ←
        invoke (λ h. p.open_protocol h device simple_file_system_guid)
          (λ r. opened device simple_file_system_guid r.status)
    modify (λ s. record s { file_system = reply.value })
    if efi_error reply.status
        then modify (λ s. record s { file_system = null })
        else modify (λ s. record s { file_system_handle = device }))

  unfoldable pub firmware_loader_init : Call Loader
  firmware_loader_init = function (do
    s ← get
    require (not s.initialized) already_started
    modify (λ s. record s { info = zero_firmware_info })
    image ←
        invoke (λ h. p.open_protocol h p.image_handle loaded_image_guid)
          (λ r. opened p.image_handle loaded_image_guid r.status)
    check_status image.status
    open_file_system (p.device_handle image.value)
    modify (λ s. record s { info = populate_firmware_info s.info; initialized = true })
    pure success)

  -- `info` is the caller's pointer; the copy that it receives is the second part.
  unfoldable pub firmware_get_info : ℕ → Loader → Status × Option FirmwareInfo
  firmware_get_info info s =
      if is_null info || not s.initialized
      then (invalid_parameter, none)
      else (success, some s.info)

  unfoldable pub firmware_loader_cleanup : Call Loader
  firmware_loader_cleanup = function (do
    s ← get
    require s.initialized not_ready
    when (not (is_null s.file_system) && not (is_null s.file_system_handle)) (do
      emit (closed s.file_system_handle simple_file_system_guid)
      modify (λ s. record s { file_system = null; file_system_handle = null }))
    modify (λ s. record s { info = zero_firmware_info; initialized = false })
    pure success)

-- The word that firmware_loader_status prints for the status.
unfoldable pub status_word : FirmwareStatus → String
status_word loaded = "Loaded"
status_word validated = "Validated"
status_word _ = "Unknown"

-- What firmware_loader_status prints.
pub record LoaderReport : Type 0 where
  pub name : String
  pub vendor : String
  pub major : ℕ
  pub minor : ℕ
  pub patch : ℕ
  pub build : ℕ
  pub word : String
  pub capabilities : ℕ
  pub file_system_available : Bool

unfoldable pub firmware_loader_status : Loader → Status × Option LoaderReport
firmware_loader_status s = if not s.initialized then (not_ready, none) else (
  success,
  some (record {
    name = s.info.name;
    vendor = s.info.vendor;
    major = s.info.major_version;
    minor = s.info.minor_version;
    patch = s.info.patch_version;
    build = s.info.build_number;
    word = status_word s.info.status;
    capabilities = s.info.capabilities;
    file_system_available = not (is_null s.file_system);
  }),
)
