-- ===== src/Uefi/Interface.antt =====
-- uefi_interface_init, GatherSystemInformation, the functions that read the system information,
-- uefi_interface_status and uefi_interface_cleanup; InitializeBootServicesWrappers.
use usb_uefi_firmware.Common.{
  ℕ, ◌*◌, ◌/◌, ◌^◌, bit_and, String, Bool, true, false, not, ◌||◌, Option, none, some, List, [],
  ◌∷◌, if◌then◌else◌, null, is_null, u16,
}
use usb_uefi_firmware.Platform.Event.{loaded_image_guid, opened, closed}
use usb_uefi_firmware.Platform.Proc.{
  Call, ◌>>=◌, ◌>>◌, pure, get, modify, require, check_status, emit, invoke, when, function, call,
}
use usb_uefi_firmware.Platform.Services.{Platform}
use usb_uefi_firmware.Platform.Status.{
  Status, success, invalid_parameter, not_ready, already_started,
}
use usb_uefi_firmware.Uefi.Cpu.{detect_cpu_information}
use usb_uefi_firmware.Uefi.Memory.{gather_memory}
use usb_uefi_firmware.Uefi.Security.{cache_security}
use usb_uefi_firmware.Uefi.State.{SystemInfo, zero_system_info, Uefi, set_info}

module _ (p : Platform) where
  -- The version, vendor and revision of the system table.
  unfoldable pub gather_versions : SystemInfo → SystemInfo
  gather_versions i = record i {
    uefi_major_version = u16 (p.system_table.revision / 2 ^ 16);
    uefi_minor_version = u16 (bit_and p.system_table.revision 0xFFFF / 10);
    firmware_vendor = elim p.system_table.firmware_vendor [
      | none ↦ i.firmware_vendor
      | some name ↦ p.str_cpy_s 64 name
    ];
    firmware_revision = p.system_table.firmware_revision;
  }

  unfoldable pub gather_system_information : ℕ → Call Uefi
  gather_system_information stack = function (do
    modify (set_info (λ _. gather_versions zero_system_info))
    gather_memory p
    modify (set_info (detect_cpu_information p))
    cache_security p stack
    pure success)

  unfoldable pub initialize_boot_services_wrappers : Call Uefi
  initialize_boot_services_wrappers =
      function (do require (not (is_null p.boot_services)) not_ready; pure success)

  unfoldable pub uefi_interface_init : ℕ → Call Uefi
  uefi_interface_init stack = function (do
    s ← get
    require (not s.initialized) already_started
    image ←
        invoke (λ h. p.open_protocol h p.image_handle loaded_image_guid)
          (λ r. opened p.image_handle loaded_image_guid r.status)
    modify (λ s. record s { loaded_image = image.value })
    check_status image.status
    status ← call (gather_system_information stack)
    check_status status
    status' ← call initialize_boot_services_wrappers
    check_status status'
    modify (λ s. record s { initialized = true })
    pure success)

  unfoldable pub uefi_interface_cleanup : Call Uefi
  uefi_interface_cleanup = function (do
    s ← get
    require s.initialized not_ready
    when (not (is_null s.loaded_image)) (do
      emit (closed p.image_handle loaded_image_guid)
      modify (λ s. record s { loaded_image = null }))
    modify (λ s. record s { initialized = false })
    pure success)

  -- The functions that read the system information; the pointers are the callers', and the second
  -- part is what they receive.
  unfoldable pub uefi_get_system_info : ℕ → Uefi → Status × Option SystemInfo
  uefi_get_system_info out s =
      if is_null out || not s.initialized then (invalid_parameter, none) else (success, some s.info)

  unfoldable pub uefi_get_memory_info : ℕ → ℕ → Uefi → Status × Option (ℕ × ℕ)
  uefi_get_memory_info total available s =
      if is_null total || is_null available
      then (invalid_parameter, none)
      else if not s.initialized
      then (not_ready, none)
      else (success, some (s.info.total_memory, s.info.available_memory))

  unfoldable pub uefi_detect_amd_platform : ℕ → Uefi → Status × Option Bool
  uefi_detect_amd_platform out s =
      if is_null out
      then (invalid_parameter, none)
      else if not s.initialized
      then (not_ready, none)
      else (
        success,
        some (not (is_null (p.str_str s.info.cpu_vendor (b'A' ∷ (b'M' ∷ (b'D' ∷ [])))))),
      )

  -- The three OUT pointers, and what is stored there.
  unfoldable pub uefi_get_cpu_info : ℕ → ℕ → ℕ → Uefi → Status × Option (List ℕ × List ℕ × ℕ)
  uefi_get_cpu_info vendor family cores s =
      if is_null vendor || is_null family || is_null cores
      then (invalid_parameter, none)
      else if not s.initialized
      then (not_ready, none)
      else (
        success,
        some (
          p.str_cpy_codes 32 s.info.cpu_vendor,
          p.str_cpy_codes 64 s.info.cpu_family,
          s.info.cpu_cores,
        ),
      )

-- What uefi_interface_status prints.
pub record UefiReport : Type 0 where
  pub major : ℕ
  pub minor : ℕ
  pub vendor : String
  pub revision : ℕ
  pub processor : List ℕ
  pub family : List ℕ
  pub cores : ℕ
  pub total_megabytes : ℕ
  pub available_megabytes : ℕ

unfoldable pub uefi_interface_status : Uefi → Status × Option UefiReport
uefi_interface_status s = if not s.initialized then (not_ready, none) else (
  success,
  some (record {
    major = s.info.uefi_major_version;
    minor = s.info.uefi_minor_version;
    vendor = s.info.firmware_vendor;
    revision = s.info.firmware_revision;
    processor = s.info.cpu_vendor;
    family = s.info.cpu_family;
    cores = s.info.cpu_cores;
    total_megabytes = s.info.total_memory / (1024 * 1024);
    available_megabytes = s.info.available_memory / (1024 * 1024);
  }),
)
