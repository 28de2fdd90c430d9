-- ===== src/Usb/Buffers.antt =====
-- The pool buffers of usb_driver.c, over every sequence of calls of the driver.
use usb_uefi_firmware.Common.{ℕ, zero, suc, ◌+◌, ◌≡◌, ap, false, ◌∷◌, arith, ◌==◌, is_null, length}
use usb_uefi_firmware.Platform.Balance.{allocations, frees, SameBuffers}
use usb_uefi_firmware.Platform.Event.{
  Guid, usb2_hc_guid, usb_io_guid, located, opened, closed, device_descriptor, config_descriptor,
  History,
}
use usb_uefi_firmware.Platform.Services.{DeviceDescriptor, Platform}
use usb_uefi_firmware.Platform.Status.{efi_error, status_laws}
use usb_uefi_firmware.Usb.Device.{record_device, usb_process_device}
use usb_uefi_firmware.Usb.Driver.{
  open_controller, usb_driver_init, detect_loop, usb_device_detect, close_loop, usb_driver_cleanup,
}
use usb_uefi_firmware.Usb.Enumeration.{usb_process_device_cases, detect_loop-Bounds}
use usb_uefi_firmware.Usb.Requests.{usb_device_communicate-communicate_promise, close_loop_lem}
use usb_uefi_firmware.Usb.Session.{
  UsbCall, start_driver, stop_driver, detect_devices, send_request, run_usb_call, UsbReaches,
  no_usb_call, one_usb_call,
}
use usb_uefi_firmware.Usb.State.{UsbDevice, Usb}

module _ (p : Platform) where
  -- LocateHandleBuffer succeeds only with a handle.
  abbrev pub FindsHandles : Type 0
  FindsHandles =
      (g : History) (guid : Guid)
      → efi_error (p.locate_handle_buffer g guid).status ≡ false
      → ((p.locate_handle_buffer g guid).count == 0) ≡ false

  record_device-SameBuffers :
      (q handle index io total : ℕ) (d : DeviceDescriptor) (s : Usb) (h : History)
      → is_null q ≡ false
      → SameBuffers q h (record_device p handle index io d total s h).2
  unfolding record_device
  record_device-SameBuffers q handle index io total d s h real = ground status_laws

  usb_process_device-SameBuffers :
      (q handle index : ℕ) (s : Usb) (h : History)
      → is_null q ≡ false
      → SameBuffers q h (usb_process_device p handle index s h).2
  unfolding usb_process_device
  usb_process_device-SameBuffers q handle index s h real =
      let usb = p.open_protocol h handle usb_io_guid in
      let g = opened handle usb_io_guid usb.status ∷ h in
      let d = p.get_device_descriptor g usb.value in
      let config = p.get_config_descriptor (device_descriptor usb.value ∷ g) usb.value in
      ground (
        status_laws,
        record_device-SameBuffers q handle index usb.value config.value d s
            (config_descriptor usb.value ∷ (device_descriptor usb.value ∷ g)) real,
      )

  detect_loop-SameBuffers :
      (q : ℕ) (handles : ℕ → ℕ) (rounds index : ℕ) (s : Usb) (h : History)
      → is_null q ≡ false
      → SameBuffers q h (detect_loop p handles rounds index s h).2
  unfolding detect_loop
  detect_loop-SameBuffers q handles zero index s h real = ground arith
  detect_loop-SameBuffers q handles (suc rounds) index s h real =
      let (result, t, g) = usb_process_device p (handles index) index s h in
      ground (
        status_laws,
        usb_process_device_cases p (handles index) index s h,
        usb_process_device-SameBuffers q (handles index) index s h real,
        detect_loop-SameBuffers q handles rounds (index + 1) t g real,
        detect_loop-SameBuffers q handles rounds (index + 1)
            (record t { device_count = t.device_count + 1 }) g real,
      )

  pub usb_device_detect-SameBuffers :
      (q : ℕ) (s : Usb) (h : History)
      → is_null q ≡ false
      → SameBuffers q h (usb_device_detect p s h).2
  unfolding usb_device_detect
  usb_device_detect-SameBuffers q s h real =
      let found = p.locate_handle_buffer h usb_io_guid in
      let t = record s { device_count = 0 } in
      let after = located usb_io_guid found.status found.buffer ∷ h in
      ground (
        status_laws,
        detect_loop-Bounds p found.handles found.count 0 t after,
        detect_loop-SameBuffers q found.handles found.count 0 t after real,
      )

  pub usb_driver_init-SameBuffers :
      (q : ℕ) (s : Usb) (h : History)
      → FindsHandles
      → is_null q ≡ false
      → SameBuffers q h (usb_driver_init p s h).2
  unfolding usb_driver_init open_controller
  usb_driver_init-SameBuffers q s h finds real = ground (status_laws, finds h usb2_hc_guid)

  close_loop-SameBuffers :
      (q : ℕ) (devices : ℕ → UsbDevice) (rounds i : ℕ) (s : Usb) (h : History)
      → SameBuffers q h (close_loop p devices rounds i s h).2
  unfolding close_loop
  close_loop-SameBuffers q devices zero i s h = omega arith
  close_loop-SameBuffers q devices (suc rounds) i s h = ground (
    arith,
    close_loop-SameBuffers q devices rounds (i + 1) s h,
    close_loop-SameBuffers q devices rounds (i + 1) s (closed (devices i).handle usb_io_guid ∷ h),
  )

  pub usb_driver_cleanup-SameBuffers :
      (q : ℕ) (s : Usb) (h : History) → SameBuffers q h (usb_driver_cleanup p s h).2
  unfolding usb_driver_cleanup
  usb_driver_cleanup-SameBuffers q s h = ground (
    arith,
    close_loop_lem p s.devices s.device_count 0 s h,
    close_loop-SameBuffers q s.devices s.device_count 0 s h,
  )

  pub run_usb_call-SameBuffers :
      (q : ℕ) (c : UsbCall) (s : Usb) (h : History)
      → FindsHandles
      → is_null q ≡ false
      → SameBuffers q h (run_usb_call p c s h).2
  run_usb_call-SameBuffers q start_driver s h finds real =
      usb_driver_init-SameBuffers q s h finds real
  run_usb_call-SameBuffers q stop_driver s h finds real = usb_driver_cleanup-SameBuffers q s h
  run_usb_call-SameBuffers q detect_devices s h finds real =
      usb_device_detect-SameBuffers q s h real
  run_usb_call-SameBuffers q (send_request device_id length) s h finds real =
      ground (arith, usb_device_communicate-communicate_promise p device_id length s h)

  -- Over any calls of the driver, from any state, every buffer but NULL is freed as often as it is
  -- allocated, whichever service fails; where LocateHandleBuffer succeeds only with a handle.
  pub reached-SameBuffers :
      {s : Usb} {h : History} {t : Usb} {g : History} (q : ℕ)
      → FindsHandles
      → is_null q ≡ false
      → UsbReaches p s h t g
      → SameBuffers q h g
  reached-SameBuffers q finds real no_usb_call = omega arith
  reached-SameBuffers q finds real (one_usb_call {t} {u} {g} {f} c r e e') = omega (
    arith,
    ap (allocations q) e',
    ap (frees q) e',
    run_usb_call-SameBuffers q c t g finds real,
    reached-SameBuffers q finds real r,
  )
