-- ===== src/Main/Shutdown.antt =====
-- CleanupAndExit, and how UefiMain of main.c ends.
use usb_uefi_firmware.Common.{ℕ, ◌≡◌, ◌≢◌, inl, inr, false, some, arith, Bool-cases}
use usb_uefi_firmware.Loader.Info.{firmware_loader_cleanup}
use usb_uefi_firmware.Loader.State.{Loader}
use usb_uefi_firmware.Main.Application.{
  initialize_subsystems, run_main_loop, cleanup_and_exit, uefi_main,
}
use usb_uefi_firmware.Main.Commands.{App}
use usb_uefi_firmware.Platform.Event.{History}
use usb_uefi_firmware.Platform.Proc.{next, fault}
use usb_uefi_firmware.Platform.Services.{Platform}
use usb_uefi_firmware.Platform.Status.{Status}
use usb_uefi_firmware.Uefi.Interface.{uefi_interface_cleanup}
use usb_uefi_firmware.Uefi.State.{Uefi}
use usb_uefi_firmware.Usb.Driver.{usb_driver_cleanup}
use usb_uefi_firmware.Usb.Requests.{usb_driver_cleanup_stops, usb_driver_cleanup_idle}
use usb_uefi_firmware.Usb.State.{Usb}

-- No subsystem is initialized.
abbrev pub IsStopped : App → Type 0
IsStopped a =
    (a.uefi.initialized ≡ false) × (a.usb.initialized ≡ false) × (a.loader.initialized ≡ false)

module _ (p : Platform) (stack : ℕ) where
  loader_stopped :
      (s : Loader) (h : History)
      → ((firmware_loader_cleanup p s h).0 ≢ fault)
        × ((firmware_loader_cleanup p s h).1.initialized ≡ false)
  unfolding firmware_loader_cleanup
  loader_stopped s h = ground arith

  usb_stopped :
      (s : Usb) (h : History)
      → ((usb_driver_cleanup p s h).0 ≢ fault) × ((usb_driver_cleanup p s h).1.initialized ≡ false)
  usb_stopped s h = elim (Bool-cases s.initialized) [
    | inl running ↦ ground (arith, usb_driver_cleanup_stops p 0 0 s h running)
    | inr idle ↦ ground (arith, usb_driver_cleanup_idle p s h idle)
  ]

  uefi_stopped :
      (s : Uefi) (h : History)
      → ((uefi_interface_cleanup p s h).0 ≢ fault)
        × ((uefi_interface_cleanup p s h).1.initialized ≡ false)
  unfolding uefi_interface_cleanup
  uefi_stopped s h = ground arith

  pub cleanup_and_exit_stops :
      (a : App) (h : History)
      → ((cleanup_and_exit p stack a h).0 ≡ next tt) × IsStopped (cleanup_and_exit p stack a h).1
  unfolding cleanup_and_exit
  cleanup_and_exit_stops a h =
      let unloaded = firmware_loader_cleanup p a.loader h in
      let detached = usb_driver_cleanup p a.usb unloaded.2 in
      ground (
        arith,
        loader_stopped a.loader h,
        usb_stopped a.usb unloaded.2,
        uefi_stopped a.uefi detached.2,
      )

  -- Whenever UefiMain returns a status, for an error of a start or of the main loop as well as
  -- after `q`, no subsystem is initialized any more.
  pub uefi_main_stops :
      (fuel : ℕ) (status : Status) (a : App) (h : History)
      → (uefi_main p stack fuel a h).0 ≡ next (some status)
      → IsStopped (uefi_main p stack fuel a h).1
  unfolding uefi_main
  uefi_main_stops fuel status a h ended =
      let (r, b, g) = initialize_subsystems p stack a h in
      let (e, c, f) = run_main_loop p stack fuel b g in
      ground (arith, cleanup_and_exit_stops b g, cleanup_and_exit_stops c f)
