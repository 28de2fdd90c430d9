-- ===== src/Main/Commands.antt =====
-- The state of the application, and ProcessUserCommands of main.c.
use usb_uefi_firmware.Common.{ℕ, Bool, ◌||◌, ◌==◌, if◌then◌else◌}
use usb_uefi_firmware.Loader.State.{Loader, initial_loader}
use usb_uefi_firmware.Platform.Event.{key_read}
use usb_uefi_firmware.Platform.Proc.{
  Proc, Call, ◌>>=◌, ◌>>◌, pure, check_status, invoke, function, call,
}
use usb_uefi_firmware.Platform.Services.{Platform}
use usb_uefi_firmware.Platform.Status.{Status, success, aborted}
use usb_uefi_firmware.Uefi.State.{Uefi, initial_uefi}
use usb_uefi_firmware.Usb.Driver.{usb_driver_init, usb_device_detect, usb_driver_cleanup}
use usb_uefi_firmware.Usb.State.{Usb, initial_usb}

-- The subsystems that main.c drives; the flash manager is not among them.
pub record App : Type 0 where
  pub uefi : Uefi
  pub usb : Usb
  pub loader : Loader

abbrev pub initial_app : App
initial_app = record { uefi = initial_uefi; usb = initial_usb; loader = initial_loader }

-- Calls into the subsystems, each of which works on its own static variables.
abbrev pub in_uefi : Call Uefi → Proc App Status
in_uefi f s h = let (r, t, g) = call f s.uefi h in (r, record s { uefi = t }, g)

abbrev pub in_usb : Call Usb → Proc App Status
in_usb f s h = let (r, t, g) = call f s.usb h in (r, record s { usb = t }, g)

abbrev pub in_loader : Call Loader → Proc App Status
in_loader f s h = let (r, t, g) = call f s.loader h in (r, record s { loader = t }, g)

-- The cases of the `switch` on the character.
pub data Command : Type 0 where
  help usb_status firmware_status system_status debug_level reset quit run_tests unknown_key :
      Command

abbrev pub is_key : ℕ → ℕ → ℕ → Bool
is_key lower upper c = c == lower || c == upper

unfoldable pub command_of : ℕ → Command
command_of c =
    if is_key b'h' b'H' c || c == b'?'
    then help
    else if is_key b'u' b'U' c
    then usb_status
    else if is_key b'f' b'F' c
    then firmware_status
    else if is_key b's' b'S' c
    then system_status
    else if is_key b'd' b'D' c
    then debug_level
    else if is_key b'r' b'R' c
    then reset
    else if is_key b'q' b'Q' c
    then quit
    else if is_key b't' b'T' c
    then run_tests
    else unknown_key

module _ (p : Platform) where
  -- `r`: the statuses of the three calls are not looked at.
  unfoldable pub reset_usb : Proc App (Unit {0})
  reset_usb = do
    _ ← in_usb (usb_driver_cleanup p)
    _ ← in_usb (usb_driver_init p)
    _ ← in_usb (usb_device_detect p)
    pure tt

  -- What a command does to the state and which status it gives; the other commands only print.
  unfoldable pub run_command : Command → Proc App Status
  run_command reset = do reset_usb; pure success
  run_command quit = pure aborted
  run_command _ = pure success

  unfoldable pub process_user_commands : Call App
  process_user_commands = function (do
    key ← invoke (λ h. p.read_key h) (λ _. key_read)
    check_status key.status
    run_command (command_of key.value))
