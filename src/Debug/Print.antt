-- ===== src/Debug/Print.antt =====
-- DebugPrint, DebugTimerStart, DebugTimerEnd and StatusToString.
use usb_uefi_firmware.Common.{
  ℕ, bit_and, String, not, Option, none, some, ◌==◌, if◌then◌else◌, sub64,
}
use usb_uefi_firmware.Debug.State.{level_error, level_warn, level_info, DebugFilter, DebugTimer}
use usb_uefi_firmware.Platform.Status.{
  Status, success, load_error, invalid_parameter, unsupported, bad_buffer_size, buffer_too_small,
  not_ready, device_error, write_protected, out_of_resources, volume_corrupted, volume_full,
  no_media, media_changed, not_found, access_denied, no_response, no_mapping, timeout, not_started,
  already_started, aborted, protocol_error, incompatible_version, security_violation,
}

-- The EFI_D_ levels under which DEBUG prints.
pub data Severity : Type 0 where
  d_error d_warn d_info d_verbose : Severity

unfoldable pub severity_of : ℕ → Severity
severity_of level =
    if not (bit_and level level_error == 0)
    then d_error
    else if not (bit_and level level_warn == 0)
    then d_warn
    else if not (bit_and level level_info == 0)
    then d_info
    else d_verbose

-- `text` is the message that AsciiVSPrint makes of the format and its arguments.
unfoldable pub debug_print : DebugFilter → ℕ → ℕ → String → Option (Severity × String)
debug_print filter level category text =
    if bit_and filter.level level == 0
    then none
    else if bit_and filter.categories category == 0
    then none
    else some (severity_of level, text)

-- `timer` is none for NULL, and `tick` what AsmReadTsc gives.
unfoldable pub debug_timer_start : ℕ → Option String → Option DebugTimer → Option DebugTimer
debug_timer_start tick description none = none
debug_timer_start tick description (some timer) =
    some (record { start_tick = tick; end_tick = 0; description = description })

-- The timer, and the number of ticks handed to DBG_USB_INFO.
unfoldable pub debug_timer_end : ℕ → Option DebugTimer → Option DebugTimer × Option ℕ
debug_timer_end tick none = (none, none)
debug_timer_end tick (some timer) =
    if timer.start_tick == 0
    then (some timer, none)
    else (some (record timer { end_tick = tick }), some (sub64 tick timer.start_tick))

unfoldable pub status_to_string : Status → String
status_to_string success = "Success"
status_to_string load_error = "Load Error"
status_to_string invalid_parameter = "Invalid Parameter"
status_to_string unsupported = "Unsupported"
status_to_string bad_buffer_size = "Bad Buffer Size"
status_to_string buffer_too_small = "Buffer Too Small"
status_to_string not_ready = "Not Ready"
status_to_string device_error = "Device Error"
status_to_string write_protected = "Write Protected"
status_to_string out_of_resources = "Out of Resources"
status_to_string volume_corrupted = "Volume Corrupted"
status_to_string volume_full = "Volume Full"
status_to_string no_media = "No Media"
status_to_string media_changed = "Media Changed"
status_to_string not_found = "Not Found"
status_to_string access_denied = "Access Denied"
status_to_string no_response = "No Response"
status_to_string no_mapping = "No Mapping"
status_to_string timeout = "Timeout"
status_to_string not_started = "Not Started"
status_to_string already_started = "Already Started"
status_to_string aborted = "Aborted"
status_to_string protocol_error = "Protocol Error"
status_to_string incompatible_version = "Incompatible Version"
status_to_string security_violation = "Security Violation"
status_to_string _ = "Unknown Error"
