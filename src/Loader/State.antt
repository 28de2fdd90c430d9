-- ===== src/Loader/State.antt =====
-- The types and constants of firmware_loader.h and the static variables of firmware_loader.c.
use usb_uefi_firmware.Common.{ℕ, String, Bool, false, null}

pub data FirmwareStatus : Type 0 where
  unknown loaded validated corrupted incompatible : FirmwareStatus

-- The capability flags.
abbrev pub cap_amd_ryzen_7000 : ℕ
cap_amd_ryzen_7000 = 0x00000001

abbrev pub cap_amd_ryzen_9000 : ℕ
cap_amd_ryzen_9000 = 0x00000002

abbrev pub cap_usb_xhci : ℕ
cap_usb_xhci = 0x00000010

abbrev pub cap_usb_ehci : ℕ
cap_usb_ehci = 0x00000020

abbrev pub cap_network : ℕ
cap_network = 0x00000100

abbrev pub cap_remote_debug : ℕ
cap_remote_debug = 0x00000200

-- FIRMWARE_INFO without BuildDate and Identifier, which no code reads or sets but to clear them.
pub record FirmwareInfo : Type 0 where
  pub name : String
  pub vendor : String
  pub copyright : String
  pub major_version : ℕ  -- UINT16
  pub minor_version : ℕ  -- UINT16
  pub patch_version : ℕ  -- UINT16
  pub build_number : ℕ  -- UINT32
  pub status : FirmwareStatus
  pub capabilities : ℕ  -- UINT32
  pub checksum : ℕ  -- UINT32
  pub size : ℕ  -- UINTN

-- ZeroMemory of mFirmwareInfo; FIRMWARE_STATUS_UNKNOWN is 0.
abbrev pub zero_firmware_info : FirmwareInfo
zero_firmware_info = record {
  name = "";
  vendor = "";
  copyright = "";
  major_version = 0;
  minor_version = 0;
  patch_version = 0;
  build_number = 0;
  status = unknown;
  capabilities = 0;
  checksum = 0;
  size = 0;
}

pub record Loader : Type 0 where
  pub initialized : Bool
  pub info : FirmwareInfo
  pub file_system : ℕ
  pub file_system_handle : ℕ

-- The initial values of the static variables.
abbrev pub initial_loader : Loader
initial_loader = record {
  initialized = false;
  info = zero_firmware_info;
  file_system = null;
  file_system_handle = null;
}
