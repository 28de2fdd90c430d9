-- ===== src/Usb/Session.antt =====
-- Every sequence of calls of the USB driver, by whatever client, and the
-- invariant of its state.
use usb_uefi_firmware.Common.{ℕ, ◌≤◌, ◌≡◌, refl, inl, inr, false, [], arith, Bool-cases, length}
use usb_uefi_firmware.Config.{max_usb_devices}
use usb_uefi_firmware.Platform.Event.{History}
use usb_uefi_firmware.Platform.Proc.{Call}
use usb_uefi_firmware.Platform.Services.{Platform}
use usb_uefi_firmware.Usb.Driver.{
  open_controller, usb_driver_init, usb_device_detect, usb_device_communicate, usb_driver_cleanup,
}
use usb_uefi_firmware.Usb.Enumeration.{usb_device_detect_bounds}
use usb_uefi_firmware.Usb.Requests.{
  usb_device_communicate-communicate_promise, usb_driver_cleanup_stops, usb_driver_cleanup_idle,
  usb_device_detect_idle,
}
use usb_uefi_firmware.Usb.State.{Usb, initial_usb}

pub data UsbCall : Type 0 where
  start_driver stop_driver detect_devices : UsbCall
  send_request : ℕ → ℕ → UsbCall

-- What holds of the driver between two calls.
pub record IsSound (s : Usb) : Type 0 where
  pub bounded : s.device_count ≤ max_usb_devices
  pub stopped : s.initialized ≡ false → s.device_count ≡ 0

module _ (p : Platform) where
  abbrev pub run_usb_call : UsbCall → Call Usb
  run_usb_call start_driver = usb_driver_init p
  run_usb_call stop_driver = usb_driver_cleanup p
  run_usb_call detect_devices = usb_device_detect p
  run_usb_call (send_request device_id length) = usb_device_communicate p device_id length

  pub data UsbReaches (s : Usb) (h : History) : Usb → History → Type 0 where
    no_usb_call : UsbReaches s h s h
    one_usb_call :
        {t u : Usb} {g f : History} (c : UsbCall)
        → UsbReaches s h t g
        → u ≡ (run_usb_call c t g).1
        → f ≡ (run_usb_call c t g).2
        → UsbReaches s h u f

  usb_driver_init-IsSound : (s : Usb) (h : History) → IsSound s → IsSound (usb_driver_init p s h).1
  unfolding usb_driver_init open_controller
  usb_driver_init-IsSound s h v = ground (arith, v.stopped)

  usb_device_detect-IsSound :
      (s : Usb) (h : History) → IsSound s → IsSound (usb_device_detect p s h).1
  usb_device_detect-IsSound s h v = elim (Bool-cases s.initialized) [
    | inl running ↦ ground (arith, usb_device_detect_bounds p s h running)
    | inr idle ↦ rw (usb_device_detect_idle p s h idle) v
  ]

  usb_driver_cleanup-IsSound :
      (s : Usb) (h : History) → IsSound s → IsSound (usb_driver_cleanup p s h).1
  usb_driver_cleanup-IsSound s h v = elim (Bool-cases s.initialized) [
    | inl running ↦ ground (arith, usb_driver_cleanup_stops p 0 0 s h running)
    | inr idle ↦ rw (usb_driver_cleanup_idle p s h idle) v
  ]

  pub run_usb_call-IsSound :
      (c : UsbCall) (s : Usb) (h : History) → IsSound s → IsSound (run_usb_call c s h).1
  run_usb_call-IsSound start_driver s h v = usb_driver_init-IsSound s h v
  run_usb_call-IsSound stop_driver s h v = usb_driver_cleanup-IsSound s h v
  run_usb_call-IsSound detect_devices s h v = usb_device_detect-IsSound s h v
  run_usb_call-IsSound (send_request device_id length) s h v =
      ground (arith, usb_device_communicate-communicate_promise p device_id length s h)

  UsbReaches-IsSound :
      {s : Usb} {h : History} {t : Usb} {g : History} → IsSound s → UsbReaches s h t g → IsSound t
  UsbReaches-IsSound v no_usb_call = v
  UsbReaches-IsSound v (one_usb_call {t} {u} {g} {f} c r e e') =
      rw e (run_usb_call-IsSound c t g (UsbReaches-IsSound v r))

  -- After any calls from the start of the program the driver counts no more devices than there are
  -- slots, and a driver that is not initialized counts none.
  pub reached-IsSound : {s : Usb} {h : History} → UsbReaches initial_usb [] s h → IsSound s
  reached-IsSound r = UsbReaches-IsSound (record { bounded = omega arith; stopped = λ _. refl }) r
