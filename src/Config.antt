-- ===== src/Config.antt =====
-- include/config.h: the build's constants that the modelled code reads.
use usb_uefi_firmware.Common.{ℕ, String, Bool, true}

abbrev pub max_usb_devices : ℕ
max_usb_devices = 32

-- Milliseconds.
abbrev pub usb_control_timeout : ℕ
usb_control_timeout = 1000

abbrev pub firmware_version_major : ℕ
firmware_version_major = 1

abbrev pub firmware_version_minor : ℕ
firmware_version_minor = 0

abbrev pub firmware_version_patch : ℕ
firmware_version_patch = 0

abbrev pub firmware_build_number : ℕ
firmware_build_number = 1

abbrev pub firmware_name : String
firmware_name = "USB UEFI Firmware"

abbrev pub firmware_vendor : String
firmware_vendor = "Research Project"

abbrev pub firmware_copyright : String
firmware_copyright = "(C) 2025 PhD Project"

abbrev pub support_amd_ryzen_7000 : Bool
support_amd_ryzen_7000 = true

abbrev pub support_amd_ryzen_9000 : Bool
support_amd_ryzen_9000 = true

abbrev pub support_xhci : Bool
support_xhci = true

abbrev pub support_ehci : Bool
support_ehci = true

abbrev pub enable_network_stack : Bool
enable_network_stack = true

abbrev pub enable_remote_debug : Bool
enable_remote_debug = true
