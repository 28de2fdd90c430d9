-- ===== src/Uefi/State.antt =====
-- UEFI_SYSTEM_INFO of uefi_interface.h and the static variables of uefi_interface.c. A text is the
-- list of its characters before the NUL.
use usb_uefi_firmware.Common.{ℕ, String, Bool, false, List, [], null}

pub record SystemInfo : Type 0 where
  pub uefi_major_version : ℕ  -- UINT16
  pub uefi_minor_version : ℕ  -- UINT16
  pub firmware_vendor : String
  pub firmware_revision : ℕ  -- UINT32
  pub cpu_vendor : List ℕ
  pub cpu_family : List ℕ
  pub cpu_cores : ℕ  -- UINT32
  pub cpu_threads : ℕ  -- UINT32
  pub total_memory : ℕ  -- UINT64
  pub available_memory : ℕ  -- UINT64
  pub reserved_memory : ℕ  -- UINT64
  pub secure_boot_enabled : Bool
  pub tpm_present : Bool

abbrev pub zero_system_info : SystemInfo
zero_system_info = record {
  uefi_major_version = 0;
  uefi_minor_version = 0;
  firmware_vendor = "";
  firmware_revision = 0;
  cpu_vendor = [];
  cpu_family = [];
  cpu_cores = 0;
  cpu_threads = 0;
  total_memory = 0;
  available_memory = 0;
  reserved_memory = 0;
  secure_boot_enabled = false;
  tpm_present = false;
}

pub record Uefi : Type 0 where
  pub initialized : Bool
  pub loaded_image : ℕ
  pub info : SystemInfo

abbrev pub initial_uefi : Uefi
initial_uefi = record { initialized = false; loaded_image = null; info = zero_system_info }

abbrev pub set_info : (SystemInfo → SystemInfo) → Uefi → Uefi
set_info f s = record s { info = f s.info }
