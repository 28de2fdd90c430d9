-- ===== src/Main/Waits.antt =====
-- The `r` command of main.c between two events: it always returns, and waits for no event.
use usb_uefi_firmware.Common.{
  ℕ, zero, suc, ◌+◌, ◌≡◌, refl, ◌≢◌, inl, inr, false, ◌∷◌, arith, Bool-cases,
}
use usb_uefi_firmware.Main.Commands.{
  App, Command, reset, quit, command_of, reset_usb, run_command, process_user_commands,
}
use usb_uefi_firmware.Main.Loop.{waits}
use usb_uefi_firmware.Platform.Event.{
  usb_io_guid, located, opened, closed, device_descriptor, config_descriptor, key_read, History,
}
use usb_uefi_firmware.Platform.Proc.{next, returned, fault}
use usb_uefi_firmware.Platform.Services.{DeviceDescriptor, Platform}
use usb_uefi_firmware.Platform.Status.{Status, success, efi_error, is_aborted}
use usb_uefi_firmware.Usb.Device.{record_device, usb_process_device}
use usb_uefi_firmware.Usb.Driver.{
  open_controller, usb_driver_init, detect_loop, usb_device_detect, close_loop, usb_driver_cleanup,
}
use usb_uefi_firmware.Usb.Enumeration.{usb_process_device_cases, detect_loop-Bounds}
use usb_uefi_firmware.Usb.Requests.{close_loop_lem}
use usb_uefi_firmware.Usb.State.{UsbDevice, Usb}

module _ (p : Platform) where
  waits-record_device :
      (handle index io total : ℕ) (d : DeviceDescriptor) (s : Usb) (h : History)
      → waits (record_device p handle index io d total s h).2 ≡ waits h
  unfolding record_device
  waits-record_device handle index io total d s h = ground arith

  waits-usb_process_device :
      (handle index : ℕ) (s : Usb) (h : History)
      → waits (usb_process_device p handle index s h).2 ≡ waits h
  unfolding usb_process_device
  waits-usb_process_device handle index s h =
      let usb = p.open_protocol h handle usb_io_guid in
      let g = opened handle usb_io_guid usb.status ∷ h in
      let d = p.get_device_descriptor g usb.value in
      let config = p.get_config_descriptor (device_descriptor usb.value ∷ g) usb.value in
      ground (
        arith,
        waits-record_device handle index usb.value config.value d s
            (config_descriptor usb.value ∷ (device_descriptor usb.value ∷ g)),
      )

  waits-detect_loop :
      (handles : ℕ → ℕ) (rounds index : ℕ) (s : Usb) (h : History)
      → waits (detect_loop p handles rounds index s h).2 ≡ waits h
  unfolding detect_loop
  waits-detect_loop handles zero index s h = refl
  waits-detect_loop handles (suc rounds) index s h =
      let (result, t, g) = usb_process_device p (handles index) index s h in
      ground (
        arith,
        usb_process_device_cases p (handles index) index s h,
        waits-usb_process_device (handles index) index s h,
        waits-detect_loop handles rounds (index + 1) t g,
        waits-detect_loop handles rounds (index + 1)
            (record t { device_count = t.device_count + 1 }) g,
      )

  detect_returns :
      (s : Usb) (h : History)
      → ((usb_device_detect p s h).0 ≢ fault) × (waits (usb_device_detect p s h).2 ≡ waits h)
  unfolding usb_device_detect
  detect_returns s h =
      let found = p.locate_handle_buffer h usb_io_guid in
      let t = record s { device_count = 0 } in
      let g = located usb_io_guid found.status found.buffer ∷ h in
      ground (
        arith,
        detect_loop-Bounds p found.handles found.count 0 t g,
        waits-detect_loop found.handles found.count 0 t g,
      )

  pub init_returns :
      (s : Usb) (h : History)
      → ((usb_driver_init p s h).0 ≢ fault) × (waits (usb_driver_init p s h).2 ≡ waits h)
  unfolding usb_driver_init open_controller
  init_returns s h = ground arith

  waits-close_loop :
      (devices : ℕ → UsbDevice) (rounds i : ℕ) (s : Usb) (h : History)
      → waits (close_loop p devices rounds i s h).2 ≡ waits h
  unfolding close_loop
  waits-close_loop devices zero i s h = refl
  waits-close_loop devices (suc rounds) i s h = ground (
    arith,
    waits-close_loop devices rounds (i + 1) s h,
    waits-close_loop devices rounds (i + 1) s (closed (devices i).handle usb_io_guid ∷ h),
  )

  cleanup_returns :
      (s : Usb) (h : History)
      → ((usb_driver_cleanup p s h).0 ≢ fault) × (waits (usb_driver_cleanup p s h).2 ≡ waits h)
  unfolding usb_driver_cleanup
  cleanup_returns s h = ground (
    arith,
    close_loop_lem p s.devices s.device_count 0 s h,
    waits-close_loop s.devices s.device_count 0 s h,
  )

  pub reset_returns :
      (a : App) (h : History)
      → ((reset_usb p a h).0 ≡ next tt) × (waits (reset_usb p a h).2 ≡ waits h)
  unfolding reset_usb
  reset_returns a h =
      let first = usb_driver_cleanup p a.usb h in
      let second = usb_driver_init p first.1 first.2 in
      ground (
        arith,
        cleanup_returns a.usb h,
        init_returns first.1 first.2,
        detect_returns second.1 second.2,
      )

  run_command_returns :
      (c : Command) (a : App) (h : History)
      → c ≢ quit
      → ((run_command p c a h).0 ≡ next success) × (waits (run_command p c a h).2 ≡ waits h)
  unfolding run_command
  run_command_returns reset a h other = ground (arith, reset_returns a h)
  run_command_returns quit a h other = absurd (other refl)
  run_command_returns _ a h other = ground arith

  -- A key that is not `q`, and an error of ReadKeyStroke but EFI_ABORTED, do not end the loop.
  pub process_user_commands_returns :
      (a : App) (h : History)
      → is_aborted (p.read_key h).status ≡ false
      → command_of (p.read_key h).value ≢ quit
      → let (result, b, g) = process_user_commands p a h in
        ((status : Status) × (result ≡ returned status) × (is_aborted status ≡ false))
        × (waits g ≡ waits h)
  unfolding process_user_commands is_aborted
  process_user_commands_returns a h read other =
      let key = p.read_key h in
      let done = run_command_returns (command_of key.value) a (key_read ∷ h) other in
      elim (Bool-cases (efi_error key.status)) [
        | inl failed ↦ ((key.status, ground arith, read), ground arith)
        | inr fine ↦ ((success, ground (arith, done), refl), ground (arith, done))
      ]
