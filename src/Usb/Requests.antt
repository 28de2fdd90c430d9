-- ===== src/Usb/Requests.antt =====
-- Starting, stopping and addressing the USB driver, on every branch of usb_driver_init,
-- usb_driver_cleanup and usb_device_communicate.
use usb_uefi_firmware.Common.{
  ℕ, zero, suc, ◌+◌, ◌≡◌, refl, true, false, not, ◌||◌, ◌∷◌, arith, ltb, leb, ◌==◌, if◌then◌else◌,
  null, is_null, length,
}
use usb_uefi_firmware.Config.{usb_control_timeout}
use usb_uefi_firmware.Platform.Event.{
  usb2_hc_guid, usb_io_guid, located, opened, closed, freed, control_transfer, History,
}
use usb_uefi_firmware.Platform.Proc.{Flow, next, returned, result_of}
use usb_uefi_firmware.Platform.Services.{Platform}
use usb_uefi_firmware.Platform.Status.{
  Status, success, invalid_parameter, not_ready, not_found, efi_error,
}
use usb_uefi_firmware.Usb.Device.{get_status_request}
use usb_uefi_firmware.Usb.Driver.{
  open_controller, usb_driver_init, usb_device_detect, usb_device_communicate, close_loop,
  usb_driver_cleanup,
}
use usb_uefi_firmware.Usb.State.{UsbDevice, Usb}

module _ (p : Platform) where
  -- What usb_device_communicate promises: it refuses an index beyond the counted devices before it
  -- looks at the slot, and a slot that is not connected; otherwise it makes one transfer of at most
  -- two bytes, whose error is the result. It never changes the driver.
  abbrev pub communicate_promise : ℕ → ℕ → Usb → History → Flow Status × Usb × History
  communicate_promise device_id length s h =
      let device = s.devices device_id in
      let n = if ltb length 2 then length else 2 in
      let status = p.usb_control_transfer h device.usb_io n in
      if not s.initialized || leb s.device_count device_id
      then (returned invalid_parameter, s, h)
      else if not device.is_connected || is_null device.usb_io
      then (returned not_ready, s, h)
      else (
        returned (if efi_error status then status else success),
        s,
        control_transfer device.usb_io get_status_request usb_control_timeout n ∷ h,
      )

  pub usb_device_communicate-communicate_promise :
      (device_id length : ℕ) (s : Usb) (h : History)
      → usb_device_communicate p device_id length s h ≡ communicate_promise device_id length s h
  unfolding usb_device_communicate
  usb_device_communicate-communicate_promise device_id length s h = ground arith

  open_controller_lem :
      (handle buffer : ℕ) (s : Usb) (h : History)
      → let reply = p.open_protocol h handle usb2_hc_guid in
        let (result, t, g) = open_controller p handle buffer s h in
        (result_of result ≡ returned (if efi_error reply.status then reply.status else success))
        × (t.initialized ≡ (s.initialized || not (efi_error reply.status)))
        × (t.hc_handle ≡ (if efi_error reply.status then s.hc_handle else handle))
        × (t.devices ≡ s.devices)
        × (g ≡ freed buffer ∷ (opened handle usb2_hc_guid reply.status ∷ h))
  unfolding open_controller
  open_controller_lem handle buffer s h = ground arith

  -- Starting an idle driver: the status, when the driver runs afterwards and on which handle, that
  -- the device table is untouched, and that an array of handles is freed if any controller is found.
  pub usb_driver_init_cases :
      (s : Usb) (h : History)
      → s.initialized ≡ false
      → let found = p.locate_handle_buffer h usb2_hc_guid in
        let after = located usb2_hc_guid found.status found.buffer ∷ h in
        let handle = found.handles 0 in
        let reply = p.open_protocol after handle usb2_hc_guid in
        let absent = efi_error found.status || found.count == 0 in
        let (result, t, g) = usb_driver_init p s h in
        (result
          ≡ returned (
              if efi_error found.status
              then found.status
              else if found.count == 0
              then not_found
              else if efi_error reply.status
              then reply.status
              else success))
        × (t.initialized ≡ not (absent || efi_error reply.status))
        × (t.hc_handle ≡ (if absent || efi_error reply.status then s.hc_handle else handle))
        × (t.devices ≡ s.devices)
        × (g ≡ (
            if absent
            then after
            else freed found.buffer ∷ (opened handle usb2_hc_guid reply.status ∷ after)))
  unfolding usb_driver_init
  usb_driver_init_cases s h idle =
      let found = p.locate_handle_buffer h usb2_hc_guid in
      ground (
        arith,
        open_controller_lem (found.handles 0) found.buffer s
            (located usb2_hc_guid found.status found.buffer ∷ h),
      )

  pub close_loop_lem :
      (devices : ℕ → UsbDevice) (rounds i : ℕ) (s : Usb) (h : History)
      → ((close_loop p devices rounds i s h).0 ≡ next tt)
        × ((close_loop p devices rounds i s h).1 ≡ s)
  unfolding close_loop
  close_loop_lem devices zero i s h = (refl, refl)
  close_loop_lem devices (suc rounds) i s h = ground (
    arith,
    close_loop_lem devices rounds (i + 1) s h,
    close_loop_lem devices rounds (i + 1) s (closed (devices i).handle usb_io_guid ∷ h),
  )

  -- A cleanup of a running driver succeeds; the driver then has no devices and no controller,
  -- refuses every request and every detection, and the slots of the device table keep what they
  -- held.
  pub usb_driver_cleanup_stops :
      (device_id length : ℕ) (s : Usb) (h : History)
      → s.initialized ≡ true
      → let (result, t, g) = usb_driver_cleanup p s h in
        (result ≡ returned success)
        × (t.initialized ≡ false)
        × (t.device_count ≡ 0)
        × (t.hc_protocol ≡ null)
        × (t.devices ≡ s.devices)
        × (usb_device_communicate p device_id length t g ≡ (returned invalid_parameter, t, g))
        × (usb_device_detect p t g ≡ (returned not_ready, t, g))
  unfolding usb_driver_cleanup usb_device_communicate usb_device_detect
  usb_driver_cleanup_stops device_id length s h running =
      ground (arith, close_loop_lem s.devices s.device_count 0 s h)

  pub usb_driver_cleanup_idle :
      (s : Usb) (h : History)
      → s.initialized ≡ false
      → usb_driver_cleanup p s h ≡ (returned not_ready, s, h)
  unfolding usb_driver_cleanup
  usb_driver_cleanup_idle s h idle = ground arith

  pub usb_device_detect_idle :
      (s : Usb) (h : History)
      → s.initialized ≡ false
      → usb_device_detect p s h ≡ (returned not_ready, s, h)
  unfolding usb_device_detect
  usb_device_detect_idle s h idle = ground arith
