-- ===== src/Platform/Status.antt =====
-- EFI_STATUS and EFI_ERROR, as the UEFI specification lists the codes that the program names.
-- `other_error` is any further code with the top bit set, `warning` any further code without it.
use usb_uefi_firmware.Common.{ℕ, ◌≡◌, refl, Bool, true, false, arith}

pub data Status : Type 0 where
  success load_error invalid_parameter unsupported bad_buffer_size buffer_too_small : Status
  not_ready device_error write_protected out_of_resources volume_corrupted volume_full : Status
  no_media media_changed not_found access_denied no_response no_mapping timeout : Status
  not_started already_started aborted protocol_error incompatible_version : Status
  security_violation : Status
  other_error warning : ℕ → Status

-- EFI_ERROR: true of every code but EFI_SUCCESS and the warnings.
unfoldable pub efi_error : Status → Bool
efi_error success = false
efi_error (warning code) = false
efi_error _ = true

-- The tests `Status == EFI_ABORTED` and `Status == EFI_BUFFER_TOO_SMALL`.
unfoldable pub is_aborted : Status → Bool
is_aborted aborted = true
is_aborted _ = false

unfoldable pub is_buffer_too_small : Status → Bool
is_buffer_too_small buffer_too_small = true
is_buffer_too_small _ = false

pub success_is_no_error : efi_error success ≡ false
unfolding efi_error
success_is_no_error = refl

-- The error codes that the program itself returns.
pub errors_lem :
    (efi_error invalid_parameter ≡ true)
    × (efi_error write_protected ≡ true)
    × (efi_error unsupported ≡ true)
    × (efi_error not_found ≡ true)
    × (efi_error not_ready ≡ true)
    × (efi_error out_of_resources ≡ true)
    × (efi_error already_started ≡ true)
    × (efi_error aborted ≡ true)
unfolding efi_error
errors_lem = (refl, refl, refl, refl, refl, refl, refl, refl)

-- The laws for proofs that branch on statuses.
pub ruleset status_laws = (arith, success_is_no_error, errors_lem)
