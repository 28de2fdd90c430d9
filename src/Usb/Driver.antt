-- ===== src/Usb/Driver.antt =====
-- usb_driver_init, usb_device_detect, usb_device_communicate, usb_driver_status and
-- usb_driver_cleanup of usb_driver.c.
use usb_uefi_firmware.Common.{
  ℕ, zero, suc, ◌+◌, Bool, true, false, not, ◌&&◌, ◌||◌, List, [], ◌∷◌, ltb, leb, ◌==◌,
  if◌then◌else◌, null, is_null, length,
}
use usb_uefi_firmware.Config.{max_usb_devices, usb_control_timeout}
use usb_uefi_firmware.Platform.Event.{
  usb2_hc_guid, usb_io_guid, located, opened, closed, freed, control_transfer,
}
use usb_uefi_firmware.Platform.Proc.{
  Proc, Call, ◌>>=◌, ◌>>◌, pure, get, modify, require, check_status, emit, invoke, when, function,
  call,
}
use usb_uefi_firmware.Platform.Services.{Platform}
use usb_uefi_firmware.Platform.Status.{
  Status, success, invalid_parameter, not_ready, not_found, already_started, efi_error,
}
use usb_uefi_firmware.Usb.Device.{get_status_request, usb_process_device}
use usb_uefi_firmware.Usb.State.{UsbDevice, Usb}

module _ (p : Platform) where
  -- The first host controller of those found is opened, and the array of handles freed.
  unfoldable pub open_controller : ℕ → ℕ → Proc Usb Status
  open_controller handle buffer = do
    reply ←
        invoke (λ h. p.open_protocol h handle usb2_hc_guid)
          (λ r. opened handle usb2_hc_guid r.status)
    modify (λ s. record s { hc_protocol = reply.value })
    when (not (efi_error reply.status)) (modify (λ s. record s { hc_handle = handle }))
    emit (freed buffer)
    check_status reply.status
    modify (λ s. record s { initialized = true })
    pure success

  unfoldable pub usb_driver_init : Call Usb
  usb_driver_init = function (do
    s ← get
    require (not s.initialized) already_started
    found ←
        invoke (λ h. p.locate_handle_buffer h usb2_hc_guid)
          (λ l. located usb2_hc_guid l.status l.buffer)
    check_status found.status
    require (not (found.count == 0)) not_found
    open_controller (found.handles 0) found.buffer)

  -- The loop over the handles from `index` on, with the rounds that HandleCount leaves; it also ends
  -- when MAX_USB_DEVICES devices are counted.
  unfoldable pub detect_loop : (ℕ → ℕ) → ℕ → ℕ → Proc Usb (Unit {0})
  detect_loop handles zero index = pure tt
  detect_loop handles (suc rounds) index = do
    s ← get
    when (ltb s.device_count max_usb_devices) (do
      status ← call (usb_process_device p (handles index) index)
      when (not (efi_error status)) (modify (λ t. record t { device_count = t.device_count + 1 }))
      detect_loop handles rounds (index + 1))

  unfoldable pub usb_device_detect : Call Usb
  usb_device_detect = function (do
    s ← get
    require s.initialized not_ready
    modify (λ s. record s { device_count = 0 })
    found ←
        invoke (λ h. p.locate_handle_buffer h usb_io_guid)
          (λ l. located usb_io_guid l.status l.buffer)
    check_status found.status
    detect_loop found.handles found.count 0
    emit (freed found.buffer)
    pure success)

  -- The length of the data is MIN(Length, 2), and the timeout USB_CONTROL_TIMEOUT.
  unfoldable pub usb_device_communicate : ℕ → ℕ → Call Usb
  usb_device_communicate device_id length = function (do
    s ← get
    require (not (leb s.device_count device_id || not s.initialized)) invalid_parameter
    let device = s.devices device_id
    require (not (not device.is_connected || is_null device.usb_io)) not_ready
    let n = if ltb length 2 then length else 2
    status ←
        invoke (λ h. p.usb_control_transfer h device.usb_io n)
          (λ _. control_transfer device.usb_io get_status_request usb_control_timeout n)
    check_status status
    pure success)

  -- The loop that closes the protocols of the counted devices, from slot `i` on.
  unfoldable pub close_loop : (ℕ → UsbDevice) → ℕ → ℕ → Proc Usb (Unit {0})
  close_loop devices zero i = pure tt
  close_loop devices (suc rounds) i = do
    when (not (is_null (devices i).usb_io)) (emit (closed (devices i).handle usb_io_guid))
    close_loop devices rounds (i + 1)

  unfoldable pub usb_driver_cleanup : Call Usb
  usb_driver_cleanup = function (do
    s ← get
    require s.initialized not_ready
    close_loop s.devices s.device_count 0
    when (not (is_null s.hc_protocol) && not (is_null s.hc_handle))
        (do emit (closed s.hc_handle usb2_hc_guid); modify (λ s. record s { hc_handle = null }))
    modify (λ s. record s { initialized = false; device_count = 0; hc_protocol = null })
    pure success)

-- What usb_driver_status prints: whether the driver runs, and the two identifiers of each device.
pub record UsbReport : Type 0 where
  pub running : Bool
  pub found : ℕ
  pub identifiers : List (ℕ × ℕ)

unfoldable pub identifier_lines : (ℕ → UsbDevice) → ℕ → ℕ → List (ℕ × ℕ)
identifier_lines devices zero i = []
identifier_lines devices (suc rounds) i =
    ((devices i).vendor_id, (devices i).product_id) ∷ identifier_lines devices rounds (i + 1)

unfoldable pub usb_driver_status : Usb → Status × UsbReport
usb_driver_status s = (
  success,
  record {
    running = s.initialized;
    found = s.device_count;
    identifiers = identifier_lines s.devices s.device_count 0;
  },
)
