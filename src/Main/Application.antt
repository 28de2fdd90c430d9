-- ===== src/Main/Application.antt =====
-- UefiMain, InitializeSubsystems, RunMainLoop and CleanupAndExit of main.c. `stack` is an address of
-- local variables. The loop runs on fuel, one unit for each event; `none` means that it ran out.
use usb_uefi_firmware.Common.{ℕ, zero, suc, Option, none, some, ◌==◌, if◌then◌else◌}
use usb_uefi_firmware.Loader.Info.{firmware_loader_init, firmware_loader_cleanup}
use usb_uefi_firmware.Main.Commands.{App, in_uefi, in_usb, in_loader, process_user_commands}
use usb_uefi_firmware.Platform.Event.{event_created, timer_set, event_waited, event_closed}
use usb_uefi_firmware.Platform.Proc.{
  next, Proc, Call, ◌>>=◌, ◌>>◌, pure, check_status, emit, invoke, function, call,
}
use usb_uefi_firmware.Platform.Services.{Platform}
use usb_uefi_firmware.Platform.Status.{Status, success, efi_error, is_aborted}
use usb_uefi_firmware.Uefi.Interface.{uefi_interface_init, uefi_interface_cleanup}
use usb_uefi_firmware.Usb.Driver.{usb_driver_init, usb_device_detect, usb_driver_cleanup}

-- One second, in units of 100 ns.
abbrev pub timer_period : ℕ
timer_period = 10000000

module _ (p : Platform) (stack : ℕ) where
  unfoldable pub initialize_subsystems : Call App
  initialize_subsystems = function (do
    uefi ← in_uefi (uefi_interface_init p stack)
    check_status uefi
    usb ← in_usb (usb_driver_init p)
    check_status usb
    _ ← in_usb (usb_device_detect p)
    loader ← in_loader (firmware_loader_init p)
    check_status loader
    pure success)

  -- One round of `while (TRUE) { … }`, with the close of the timer event that follows each way out.
  unfoldable pub event_round : ℕ → Proc App (Option Status) → Proc App (Option Status)
  event_round timer rest = do
    waited ← invoke (λ h. p.wait_for_event h) (λ _. event_waited)
    if efi_error waited.status
        then (do emit (event_closed timer); pure (some waited.status))
        else if waited.value == 0
        then (do
          status ← call (process_user_commands p)
          if is_aborted status then (do emit (event_closed timer); pure (some success)) else rest)
        else rest

  unfoldable pub event_loop : ℕ → ℕ → Proc App (Option Status)
  event_loop zero timer = pure none
  event_loop (suc fuel) timer = event_round timer (event_loop fuel timer)

  abbrev pub settle : Status → Proc App (Option Status) → Proc App (Option Status)
  settle status body s h = if efi_error status then (next (some status), s, h) else body s h

  unfoldable pub run_main_loop : ℕ → Proc App (Option Status)
  run_main_loop fuel = do
    timer ← invoke (λ h. p.create_event h) (λ r. event_created r.value)
    settle timer.status (do
      set ←
          invoke (λ h. p.set_timer h timer.value timer_period)
            (λ _. timer_set timer.value timer_period)
      settle set (event_loop fuel timer.value))

  -- The subsystems in the reverse of their order; statuses are not looked at.
  unfoldable pub cleanup_and_exit : Proc App (Unit {0})
  cleanup_and_exit = do
    _ ← in_loader (firmware_loader_cleanup p)
    _ ← in_usb (usb_driver_cleanup p)
    _ ← in_uefi (uefi_interface_cleanup p)
    pure tt

  unfoldable pub uefi_main : ℕ → Proc App (Option Status)
  uefi_main fuel = do
    status ← call initialize_subsystems
    if efi_error status then (do cleanup_and_exit; pure (some status)) else (do
      ended ← run_main_loop fuel
      elim ended [ none ↦ pure none | some result ↦ (do cleanup_and_exit; pure (some result)) ])
