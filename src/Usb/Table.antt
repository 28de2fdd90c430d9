-- ===== src/Usb/Table.antt =====
-- The stores of usb_driver.c into its device table, over every sequence of calls.
use usb_uefi_firmware.Common.{
  ◌≤◌, ◌<◌, ◌≡◌, refl, ap, ◌∙◌, ◌⊎◌, inl, inr, [], ◌∷◌, arith, ltb, Bool-cases, length,
}
use usb_uefi_firmware.Config.{max_usb_devices}
use usb_uefi_firmware.Platform.Event.{usb_io_guid, located, History}
use usb_uefi_firmware.Platform.Services.{Platform}
use usb_uefi_firmware.Usb.Driver.{
  open_controller, usb_driver_init, usb_device_detect, usb_driver_cleanup,
}
use usb_uefi_firmware.Usb.Enumeration.{detect_loop-Bounds}
use usb_uefi_firmware.Usb.Requests.{usb_device_communicate-communicate_promise, close_loop_lem}
use usb_uefi_firmware.Usb.Session.{
  UsbCall, start_driver, stop_driver, detect_devices, send_request, run_usb_call, UsbReaches,
  no_usb_call, one_usb_call,
}
use usb_uefi_firmware.Usb.State.{Usb, initial_usb}

module _ (p : Platform) where
  -- LocateHandleBuffer never reports more USB devices than there are slots.
  abbrev pub FewHandles : Type 0
  FewHandles = (g : History) → (p.locate_handle_buffer g usb_io_guid).count ≤ max_usb_devices

  -- LocateHandleBuffer reports more USB devices than there are slots.
  abbrev pub Crowded : Type 0
  Crowded = (g : History) × (max_usb_devices < (p.locate_handle_buffer g usb_io_guid).count)

  -- Nothing was stored past the end of the table, or there are too many devices.
  abbrev pub StaysInside : Usb → Type 0
  StaysInside s = (s.overruns ≡ []) ⊎ Crowded

  detect_fits :
      (s : Usb) (h : History)
      → (p.locate_handle_buffer h usb_io_guid).count ≤ max_usb_devices
      → (usb_device_detect p s h).1.overruns ≡ s.overruns
  unfolding usb_device_detect
  detect_fits s h few =
      let found = p.locate_handle_buffer h usb_io_guid in
      let t = record s { device_count = 0 } in
      let after = located usb_io_guid found.status found.buffer ∷ h in
      ground (arith, few, detect_loop-Bounds p found.handles found.count 0 t after)

  detect_inside :
      (s : Usb) (h : History) → FewHandles → (usb_device_detect p s h).1.overruns ≡ s.overruns
  detect_inside s h few = detect_fits s h (few h)

  init_inside : (s : Usb) (h : History) → (usb_driver_init p s h).1.overruns ≡ s.overruns
  unfolding usb_driver_init open_controller
  init_inside s h = ground arith

  cleanup_inside : (s : Usb) (h : History) → (usb_driver_cleanup p s h).1.overruns ≡ s.overruns
  unfolding usb_driver_cleanup
  cleanup_inside s h = ground (arith, close_loop_lem p s.devices s.device_count 0 s h)

  pub run_usb_call_inside :
      (c : UsbCall) (s : Usb) (h : History)
      → FewHandles
      → (run_usb_call p c s h).1.overruns ≡ s.overruns
  run_usb_call_inside start_driver s h few = init_inside s h
  run_usb_call_inside stop_driver s h few = cleanup_inside s h
  run_usb_call_inside detect_devices s h few = detect_inside s h few
  run_usb_call_inside (send_request device_id length) s h few =
      ground (arith, usb_device_communicate-communicate_promise p device_id length s h)

  pub run_usb_call-StaysInside :
      (c : UsbCall) (s : Usb) (h : History) → StaysInside s → StaysInside (run_usb_call p c s h).1
  run_usb_call-StaysInside c s h (inr crowded) = inr crowded
  run_usb_call-StaysInside start_driver s h (inl clean) = inl (init_inside s h ∙ clean)
  run_usb_call-StaysInside stop_driver s h (inl clean) = inl (cleanup_inside s h ∙ clean)
  run_usb_call-StaysInside detect_devices s h (inl clean) =
      let count = (p.locate_handle_buffer h usb_io_guid).count in
      elim (Bool-cases (ltb max_usb_devices count)) [
        | inl many ↦ inr (h, ground arith)
        | inr few ↦ inl (detect_fits s h (ground arith) ∙ clean)
      ]
  run_usb_call-StaysInside (send_request device_id length) s h (inl clean) =
      inl (ground (arith, usb_device_communicate-communicate_promise p device_id length s h))

  -- Over any calls from the start of the program no device is stored past the end of the table,
  -- whichever handles fail, if LocateHandleBuffer never reports more USB devices than the table has
  -- slots.
  pub reached_inside :
      {s : Usb} {h : History} → FewHandles → UsbReaches p initial_usb [] s h → s.overruns ≡ []
  reached_inside few no_usb_call = refl
  reached_inside few (one_usb_call {t} {u} {g} {f} c r e e') =
      ap (λ (v : Usb). v.overruns) e ∙ run_usb_call_inside c t g few ∙ reached_inside few r
