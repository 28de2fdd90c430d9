-- ===== src/Usb/Opened.antt =====
-- How often the USB protocols are opened and closed on a handle, by usb_process_device and by the
-- start, the detection and the cleanup of usb_driver.c.
use usb_uefi_firmware.Common.{
  ℕ, zero, suc, ◌+◌, ◌≤◌, ◌<◌, ◌≡◌, refl, Bool, true, false, not, ◌&&◌, [], ◌∷◌, arith, ◌==◌,
  if◌then◌else◌, is_null,
}
use usb_uefi_firmware.Config.{max_usb_devices}
use usb_uefi_firmware.Platform.Event.{
  Guid, usb2_hc_guid, usb_io_guid, opened, closed, device_descriptor, config_descriptor, History,
}
use usb_uefi_firmware.Platform.Services.{DeviceDescriptor, Platform}
use usb_uefi_firmware.Platform.Status.{efi_error, status_laws}
use usb_uefi_firmware.Usb.Device.{record_device, usb_process_device}
use usb_uefi_firmware.Usb.Driver.{detect_loop, close_loop}
use usb_uefi_firmware.Usb.Enumeration.{found_device}
use usb_uefi_firmware.Usb.Slots.{Works, usb_process_device-Works}
use usb_uefi_firmware.Usb.State.{UsbDevice, Usb, update, store}

abbrev pub is_usb_io : Guid → Bool
is_usb_io usb_io_guid = true
is_usb_io _ = false

abbrev pub is_usb2_hc : Guid → Bool
is_usb2_hc usb2_hc_guid = true
is_usb2_hc _ = false

-- How often a protocol of the test was opened on handle `x` with success, and closed.
abbrev pub opens_of : (Guid → Bool) → ℕ → History → ℕ
opens_of test x [] = 0
opens_of test x (opened handle guid status ∷ h) =
    (if test guid && (not (efi_error status) && handle == x) then 1 else 0) + opens_of test x h
opens_of test x (_ ∷ h) = opens_of test x h

abbrev pub closes_of : (Guid → Bool) → ℕ → History → ℕ
closes_of test x [] = 0
closes_of test x (closed handle guid ∷ h) =
    (if test guid && handle == x then 1 else 0) + closes_of test x h
closes_of test x (_ ∷ h) = closes_of test x h

-- Between two histories nothing is opened and nothing closed.
abbrev pub SameOpened : (Guid → Bool) → ℕ → History → History → Type 0
SameOpened test x h g =
    (opens_of test x g ≡ opens_of test x h) × (closes_of test x g ≡ closes_of test x h)

-- Neither USB protocol.
abbrev pub SameUsb : ℕ → History → History → Type 0
SameUsb x h g = SameOpened is_usb_io x h g × SameOpened is_usb2_hc x h g

-- In how many of the first `n` slots handle `x` has an open interface.
abbrev pub held_on : ℕ → (ℕ → UsbDevice) → ℕ → ℕ
held_on x devices zero = 0
held_on x devices (suc n) =
    (if not (is_null (devices n).usb_io) && (devices n).handle == x then 1 else 0)
    + held_on x devices n

held_on-update :
    (x n index : ℕ) (devices : ℕ → UsbDevice) (d : UsbDevice)
    → n ≤ index
    → held_on x (update devices index d) n ≡ held_on x devices n
held_on-update x zero index devices d below = refl
held_on-update x (suc n) index devices d below =
    ground (arith, held_on-update x n index devices d (omega arith))

held_on-store :
    (x index : ℕ) (d : UsbDevice) (s : Usb)
    → index < max_usb_devices
    → held_on x (store index d s).devices (index + 1)
      ≡ (if not (is_null d.usb_io) && d.handle == x then 1 else 0) + held_on x s.devices index
held_on-store x index d s inside = ground (arith, held_on-update x index index s.devices d)

module _ (p : Platform) where
  pub close_loop-held_on :
      (x : ℕ) (devices : ℕ → UsbDevice) (rounds i : ℕ) (s : Usb) (h : History)
      → let g = (close_loop p devices rounds i s h).2 in
        (closes_of is_usb_io x g + held_on x devices i
          ≡ closes_of is_usb_io x h + held_on x devices (i + rounds))
        × (opens_of is_usb_io x g ≡ opens_of is_usb_io x h)
        × SameOpened is_usb2_hc x h g
  unfolding close_loop
  close_loop-held_on x devices zero i s h = ground arith
  close_loop-held_on x devices (suc rounds) i s h = ground (
    arith,
    close_loop-held_on x devices rounds (i + 1) s h,
    close_loop-held_on x devices rounds (i + 1) s (closed (devices i).handle usb_io_guid ∷ h),
  )

  -- Every handle that a detection finds works, and there are no more than slots; a host controller
  -- that opens has an interface, and its handle is not NULL.
  pub record AllWork : Type 0 where
    pub few : (g : History) → (p.locate_handle_buffer g usb_io_guid).count ≤ max_usb_devices
    pub works : (g : History) (k : ℕ) → Works p ((p.locate_handle_buffer g usb_io_guid).handles k)
    pub controller :
        (g : History) (k : ℕ) → is_null ((p.locate_handle_buffer g usb2_hc_guid).handles k) ≡ false
    pub interface :
        (g : History) (handle : ℕ)
        → efi_error (p.open_protocol g handle usb2_hc_guid).status ≡ false
        → is_null (p.open_protocol g handle usb2_hc_guid).value ≡ false

  record_device-opens :
      (x handle index io total : ℕ) (d : DeviceDescriptor) (s : Usb) (h : History)
      → let g = (record_device p handle index io d total s h).2 in
        SameOpened is_usb_io x h g × SameOpened is_usb2_hc x h g
  unfolding record_device
  record_device-opens x handle index io total d s h = ground arith

  usb_process_device-opens :
      (x handle index : ℕ) (s : Usb) (h : History)
      → Works p handle
      → let g = (usb_process_device p handle index s h).2 in
        (opens_of is_usb_io x g ≡ (if handle == x then 1 else 0) + opens_of is_usb_io x h)
        × (closes_of is_usb_io x g ≡ closes_of is_usb_io x h)
        × SameOpened is_usb2_hc x h g
  unfolding usb_process_device
  usb_process_device-opens x handle index s h w =
      let usb = p.open_protocol h handle usb_io_guid in
      let g = opened handle usb_io_guid usb.status ∷ h in
      let d = p.get_device_descriptor g usb.value in
      let config = p.get_config_descriptor (device_descriptor usb.value ∷ g) usb.value in
      ground (
        status_laws,
        w.opens h,
        record_device-opens x handle index usb.value config.value d s
            (config_descriptor usb.value ∷ (device_descriptor usb.value ∷ g)),
      )

  pub detect_loop-opens :
      (x : ℕ) (handles : ℕ → ℕ) (rounds index : ℕ) (s : Usb) (h : History)
      → ((k : ℕ) → Works p (handles k))
      → index + rounds ≤ max_usb_devices
      → s.device_count ≡ index
      → let (result, t, g) = detect_loop p handles rounds index s h in
        (opens_of is_usb_io x g + held_on x s.devices index
          ≡ opens_of is_usb_io x h + held_on x t.devices t.device_count)
        × (closes_of is_usb_io x g ≡ closes_of is_usb_io x h)
        × SameOpened is_usb2_hc x h g
        × (t.hc_protocol ≡ s.hc_protocol)
        × (t.hc_handle ≡ s.hc_handle)
  unfolding detect_loop
  detect_loop-opens x handles zero index s h w room counted = ground arith
  detect_loop-opens x handles (suc rounds) index s h w room counted =
      let (result, t, g) = usb_process_device p (handles index) index s h in
      ground (
        status_laws,
        usb_process_device-Works p (handles index) index s h (w index),
        usb_process_device-opens x (handles index) index s h (w index),
        (w index).exists h,
        held_on-store x index (found_device p (handles index) h) s (omega arith),
        detect_loop-opens x handles rounds (index + 1)
            (record t { device_count = t.device_count + 1 }) g w (omega arith),
      )
