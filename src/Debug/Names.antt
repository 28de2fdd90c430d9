-- ===== src/Debug/Names.antt =====
-- The names of StatusToString and the timer.
use usb_uefi_firmware.Common.{
  ℕ, ◌+◌, ◌^◌, ◌<◌, String, ◌≡◌, refl, Bool, true, false, Option, none, some, List, [], ◌∷◌, arith,
  ◌==◌, if◌then◌else◌, u64,
}
use usb_uefi_firmware.Debug.Print.{debug_timer_start, debug_timer_end, status_to_string}
use usb_uefi_firmware.Debug.State.{DebugTimer}
use usb_uefi_firmware.Platform.Status.{
  Status, success, load_error, invalid_parameter, unsupported, bad_buffer_size, buffer_too_small,
  not_ready, device_error, write_protected, out_of_resources, volume_corrupted, volume_full,
  no_media, media_changed, not_found, access_denied, no_response, no_mapping, timeout, not_started,
  already_started, aborted, protocol_error, incompatible_version, security_violation, other_error,
  warning,
}
use text.Mathlib.Text.{◌==◌ as str_eq}

-- The statuses that have a name of their own.
abbrev named_statuses : List Status
named_statuses =
    success ∷ load_error ∷ invalid_parameter ∷ unsupported ∷ bad_buffer_size ∷ buffer_too_small
    ∷ not_ready ∷ device_error ∷ write_protected ∷ out_of_resources ∷ volume_corrupted ∷ volume_full
    ∷ no_media ∷ media_changed ∷ not_found ∷ access_denied ∷ no_response ∷ no_mapping ∷ timeout
    ∷ not_started ∷ already_started ∷ aborted ∷ protocol_error ∷ incompatible_version
    ∷ security_violation ∷ []

find_named : String → List Status → Option Status
find_named name [] = none
find_named name (s ∷ rest) =
    if str_eq (status_to_string s) name then some s else find_named name rest

-- Reading a name back.
pub status_named : String → Option Status
status_named name = find_named name named_statuses

-- A code that the program does not name.
abbrev pub is_other : Status → Bool
is_other (other_error code) = true
is_other (warning code) = true
is_other _ = false

-- The name of a status can be read back, so no two statuses of the specification share one; and
-- every other code is called an unknown error, which is no status's name.
pub status_named-status_to_string :
    (s : Status) → status_named (status_to_string s) ≡ (if is_other s then none else some s)
unfolding status_named find_named status_to_string
status_named-status_to_string (other_error code) = refl
status_named-status_to_string (warning code) = refl
status_named-status_to_string _ = refl

-- A timer that is started at a tick other than 0 and ended later reports the ticks between, also
-- where the counter has wrapped once; one started at 0 reports nothing.
pub debug_timer_elapsed :
    (start elapsed : ℕ) (description : Option String) (timer : DebugTimer)
    → start < 2 ^ 64
    → elapsed < 2 ^ 64
    → (debug_timer_end (u64 (start + elapsed)) (debug_timer_start start description (some timer))).1
      ≡ (if start == 0 then none else some elapsed)
unfolding debug_timer_end debug_timer_start
debug_timer_elapsed start elapsed description timer small short = ground arith
