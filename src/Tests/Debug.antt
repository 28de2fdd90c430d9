-- ===== src/Tests/Debug.antt =====
-- Examples for the debug utilities.
use usb_uefi_firmware.Common.{ℕ, ◌≡◌, refl, true, ◌&&◌, none, some, arith, if◌then◌else◌}
use usb_uefi_firmware.Debug.Columns.{bytes_from, shown, debug_hex_dump_shows}
use usb_uefi_firmware.Debug.Dump.{debug_hex_dump}
use usb_uefi_firmware.Debug.Macros.{
  dbg_usb_info, run_macro, macro_severity, severity_digit, macro_digit, lets_through,
  run_macro-lets_through,
}
use usb_uefi_firmware.Debug.State.{initial_filter}

-- Byte `i` is `i`.
abbrev counting : ℕ → ℕ
counting i = i

debug_hex_dump_shows_example :
    shown (debug_hex_dump counting 2 4096 20 none) ≡ some (bytes_from counting 0 20)
debug_hex_dump_shows_example =
    debug_hex_dump_shows counting 2 4096 20 none refl (omega arith) (omega arith)

run_macro-lets_through_example : run_macro true initial_filter dbg_usb_info "Device detected" ≡ (
    if true
      && lets_through initial_filter
          (severity_digit (macro_severity dbg_usb_info))
          (macro_digit dbg_usb_info)
    then some (macro_severity dbg_usb_info, "Device detected")
    else none)
run_macro-lets_through_example =
    run_macro-lets_through true initial_filter dbg_usb_info "Device detected"
