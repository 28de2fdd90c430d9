-- ===== src/Uefi/Security.antt =====
-- uefi_check_secure_boot and uefi_check_tpm. Each has the pointer of its OUT argument and gives back,
-- beside its status, what it stored there.
use usb_uefi_firmware.Common.{
  ℕ, Bool, true, false, not, ◌||◌, Option, none, some, ◌∷◌, ◌==◌, if◌then◌else◌, is_null,
}
use usb_uefi_firmware.Platform.Event.{tcg2_guid, variable_read, protocol_located, History}
use usb_uefi_firmware.Platform.Proc.{next, Proc}
use usb_uefi_firmware.Platform.Services.{Platform}
use usb_uefi_firmware.Platform.Status.{Status, success, invalid_parameter, not_ready, efi_error}
use usb_uefi_firmware.Uefi.State.{Uefi, set_info}
use mathlib.Core.Option

module _ (p : Platform) where
  unfoldable pub uefi_check_secure_boot : ℕ → Uefi → History → Status × Option Bool × Uefi × History
  uefi_check_secure_boot out s h =
      let reply = p.get_secure_boot h in
      let enabled = not (reply.value == 0) in
      if is_null out
      then (invalid_parameter, none, s, h)
      else if is_null p.runtime_services
      then (not_ready, none, s, h)
      else if efi_error reply.status
      then (reply.status, none, s, variable_read ∷ h)
      else (
        success,
        some enabled,
        set_info (λ i. record i { secure_boot_enabled = enabled }) s,
        variable_read ∷ h,
      )

  unfoldable pub uefi_check_tpm : ℕ → Uefi → History → Status × Option Bool × Uefi × History
  uefi_check_tpm out s h =
      let reply = p.locate_protocol h tcg2_guid in
      let after = protocol_located tcg2_guid ∷ h in
      if is_null out
      then (invalid_parameter, none, s, h)
      else if is_null p.boot_services
      then (not_ready, none, s, h)
      else if efi_error reply.status || is_null reply.value
      then (reply.status, some false, set_info (λ i. record i { tpm_present = false }) s, after)
      else (success, some true, set_info (λ i. record i { tpm_present = true }) s, after)

  abbrev value_or_false : Status → Option Bool → Bool
  value_or_false status out = if efi_error status then false else Option.get_or out false

  -- The block at the end of GatherSystemInformation: `stack` is the address of its local variables.
  unfoldable pub cache_security : ℕ → Proc Uefi (Unit {0})
  cache_security stack s h =
      let (secure_status, secure, s', h') = uefi_check_secure_boot stack s h in
      let t =
        set_info (λ i. record i { secure_boot_enabled = value_or_false secure_status secure }) s' in
      let (tpm_status, tpm, t', h'') = uefi_check_tpm stack t h' in
      (next tt, set_info (λ i. record i { tpm_present = value_or_false tpm_status tpm }) t', h'')
