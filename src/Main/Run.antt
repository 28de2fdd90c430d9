-- ===== src/Main/Run.antt =====
-- UefiMain of main.c from the start to the end.
use usb_uefi_firmware.Common.{ℕ, suc, ◌+◌, ◌≡◌, false, some, ◌∷◌, arith}
use usb_uefi_firmware.Main.Application.{
  timer_period, initialize_subsystems, run_main_loop, uefi_main,
}
use usb_uefi_firmware.Main.Commands.{App}
use usb_uefi_firmware.Main.Loop.{waits, QuitsAfter, event_loop_quits}
use usb_uefi_firmware.Main.Shutdown.{IsStopped, cleanup_and_exit_stops}
use usb_uefi_firmware.Platform.Event.{event_created, timer_set, History}
use usb_uefi_firmware.Platform.Proc.{next, returned}
use usb_uefi_firmware.Platform.Services.{Platform}
use usb_uefi_firmware.Platform.Status.{success, efi_error, status_laws}

module _ (p : Platform) (stack : ℕ) where
  run_main_loop_quits :
      (ticks n : ℕ) (a : App) (h : History)
      → let timer = p.create_event h in
        let before = event_created timer.value ∷ h in
        efi_error timer.status ≡ false
        → efi_error (p.set_timer before timer.value timer_period) ≡ false
        → QuitsAfter p ticks
        → waits h + n ≡ ticks
        → ((run_main_loop p stack (suc n) a h).0 ≡ next (some success))
          × ((run_main_loop p stack (suc n) a h).1 ≡ a)
  unfolding run_main_loop
  run_main_loop_quits ticks n a h created set promised count =
      let timer = p.create_event h in
      let started = timer_set timer.value timer_period ∷ (event_created timer.value ∷ h) in
      ground (arith, event_loop_quits p stack timer.value ticks n a started promised count)

  -- Where the subsystems start, the timer is created and set, and the platform still reports `n`
  -- ticks before the key `q`, UefiMain with one unit of fuel for each event returns EFI_SUCCESS, and
  -- no subsystem is initialized any more.
  pub uefi_main_quits :
      (ticks n : ℕ) (a : App) (h : History)
      → let (r, b, g) = initialize_subsystems p stack a h in
        let timer = p.create_event g in
        let before = event_created timer.value ∷ g in
        r ≡ returned success
        → efi_error timer.status ≡ false
        → efi_error (p.set_timer before timer.value timer_period) ≡ false
        → QuitsAfter p ticks
        → waits g + n ≡ ticks
        → ((uefi_main p stack (suc n) a h).0 ≡ next (some success))
          × IsStopped (uefi_main p stack (suc n) a h).1
  unfolding uefi_main
  uefi_main_quits ticks n a h ready created set promised count =
      let (r, b, g) = initialize_subsystems p stack a h in
      let (e, c, f) = run_main_loop p stack (suc n) b g in
      ground (
        status_laws,
        run_main_loop_quits ticks n b g created set promised count,
        cleanup_and_exit_stops p stack c f,
      )
