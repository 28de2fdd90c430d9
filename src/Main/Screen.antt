-- ===== src/Main/Screen.antt =====
-- What main.c prints: PrintBanner, the list of commands, and the answer to each command. Formats with
-- numbers are kept with their arguments; the empty line before an answer and the log are left out.
use usb_uefi_firmware.Common.{
  ℕ, String, ◌≡◌, Bool, true, false, ◌||◌, Option, List, [], ◌∷◌, arith, ◌==◌,
}
use usb_uefi_firmware.Config.{
  firmware_version_major, firmware_version_minor, firmware_version_patch, firmware_build_number,
  firmware_name, firmware_vendor, firmware_copyright,
}
use usb_uefi_firmware.Debug.State.{DebugFilter}
use usb_uefi_firmware.Loader.Info.{LoaderReport, firmware_loader_status}
use usb_uefi_firmware.Main.Commands.{
  App, Command, help, usb_status, firmware_status, system_status, debug_level, reset, quit,
  run_tests, unknown_key, command_of,
}
use usb_uefi_firmware.Uefi.Interface.{UefiReport, uefi_interface_status}
use usb_uefi_firmware.Usb.Driver.{UsbReport, usb_driver_status}

pub data Line : Type 0 where
  line : String → Line
  -- "  USB UEFI Firmware Interface v%d.%d.%d", "  %s", "Firmware: %s", "Vendor:   %s", "Build:    %d".
  interface_version : ℕ → ℕ → ℕ → Line
  copyright_line firmware_line vendor_line : String → Line
  build_line : ℕ → Line
  -- "Debug Level: 0x%08X, Categories: 0x%08X".
  level_line : ℕ → ℕ → Line

unfoldable pub print_banner : List Line
print_banner =
    line ""
    ∷ line "====================================================="
    ∷ interface_version firmware_version_major firmware_version_minor firmware_version_patch
    ∷ copyright_line firmware_copyright
    ∷ line "  AMD AM5/Ryzen Debug Tool"
    ∷ line "====================================================="
    ∷ line ""
    ∷ firmware_line firmware_name
    ∷ vendor_line firmware_vendor
    ∷ build_line firmware_build_number
    ∷ line ""
    ∷ []

-- A line of the help: the keys or the word before the dash, and the text after it.
pub data HelpLine : Type 0 where
  for_keys : List ℕ → String → HelpLine
  for_word : String → String → HelpLine

abbrev pub command_help : List HelpLine
command_help =
    for_keys (b'h' ∷ b'H' ∷ b'?' ∷ []) "Show this help"
    ∷ for_keys (b'u' ∷ b'U' ∷ []) "USB device status"
    ∷ for_keys (b'f' ∷ b'F' ∷ []) "Firmware information"
    ∷ for_keys (b's' ∷ b'S' ∷ []) "System information"
    ∷ for_keys (b'd' ∷ b'D' ∷ []) "Debug level control"
    ∷ for_keys (b'r' ∷ b'R' ∷ []) "Reset USB subsystem"
    ∷ for_keys (b'q' ∷ b'Q' ∷ []) "Quit application"
    ∷ for_word "test" "Run comprehensive test suite"
    ∷ for_word "test-usb" "Run USB-specific tests"
    ∷ for_word "test-uefi" "Run UEFI-specific tests"
    ∷ []

-- What a command prints, with the reports of the three status functions.
pub data Printout : Type 0 where
  printed : List Line → Printout
  help_text : List HelpLine → Printout
  usb_text : UsbReport → Printout
  firmware_text : Option LoaderReport → Printout
  system_text : Option UefiReport → Printout

unfoldable pub command_printout : DebugFilter → Command → App → List Printout
command_printout filter help a =
    printed (line "USB UEFI Firmware Debug Commands:" ∷ [])
    ∷ help_text command_help
    ∷ printed (line "Press any key to continue..." ∷ [])
    ∷ []
command_printout filter usb_status a =
    printed (line "USB Device Status:" ∷ []) ∷ usb_text (usb_driver_status a.usb).1 ∷ []
command_printout filter firmware_status a =
    printed (line "Firmware Information:" ∷ [])
    ∷ firmware_text (firmware_loader_status a.loader).1
    ∷ []
command_printout filter system_status a =
    printed (line "System Information:" ∷ []) ∷ system_text (uefi_interface_status a.uefi).1 ∷ []
command_printout filter debug_level a =
    printed (level_line filter.level filter.categories ∷ []) ∷ []
command_printout filter reset a =
    printed (line "Resetting USB subsystem..." ∷ line "USB subsystem reset complete" ∷ []) ∷ []
command_printout filter quit a = printed (line "Exiting USB UEFI Firmware Interface..." ∷ []) ∷ []
command_printout filter run_tests a =
    printed (line "Unit tests not enabled in this build" ∷ []) ∷ []
command_printout filter unknown_key a =
    printed (line "Unknown command. Press 'h' for help." ∷ []) ∷ []

abbrev is_among : ℕ → List ℕ → Bool
is_among c [] = false
is_among c (x ∷ xs) = c == x || is_among c xs

-- Whether the help lists a key.
abbrev pub listed : ℕ → List HelpLine → Bool
listed c [] = false
listed c (for_keys keys what ∷ rest) = is_among c keys || listed c rest
listed c (for_word word what ∷ rest) = listed c rest

-- A command that does something, other than the tests, which the default build has not.
abbrev pub is_offered : Command → Bool
is_offered run_tests = false
is_offered unknown_key = false
is_offered _ = true

-- The help lists exactly the keys that give a command: every other key is unknown, or is `t` or `T`,
-- which the default build answers with a refusal.
pub listed-command_help : (c : ℕ) → listed c command_help ≡ is_offered (command_of c)
unfolding command_of
listed-command_help c = ground arith
