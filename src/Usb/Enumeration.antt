-- ===== src/Usb/Enumeration.antt =====
-- usb_process_device and usb_device_detect of usb_driver.c on every machine: how many devices are
-- counted, and when a store leaves the device table.
use usb_uefi_firmware.Common.{
  ℕ, zero, suc, ◌+◌, ◌≤◌, ◌≡◌, ◌≢◌, ◌⊎◌, Bool, true, false, not, ◌∷◌, arith, if◌then◌else◌,
}
use usb_uefi_firmware.Config.{max_usb_devices}
use usb_uefi_firmware.Platform.Event.{
  usb_io_guid, located, opened, device_descriptor, config_descriptor, History,
}
use usb_uefi_firmware.Platform.Proc.{Flow, next, returned, fault, result_of}
use usb_uefi_firmware.Platform.Services.{DeviceDescriptor, Platform}
use usb_uefi_firmware.Platform.Status.{Status, success, efi_error, status_laws}
use usb_uefi_firmware.Usb.Device.{record_device, usb_process_device}
use usb_uefi_firmware.Usb.Driver.{detect_loop, usb_device_detect}
use usb_uefi_firmware.Usb.State.{UsbDevice, Usb, store}

-- Whether a call has returned a status that is no error.
abbrev pub succeeded : Flow Status → Bool
succeeded (next status) = not (efi_error status)
succeeded (returned status) = not (efi_error status)
succeeded fault = false

module _ (p : Platform) where
  abbrev pub device_of : ℕ → ℕ → DeviceDescriptor → UsbDevice
  device_of handle io d = record {
    handle = handle;
    usb_io = io;
    vendor_id = d.vendor;
    product_id = d.product;
    device_class = d.class;
    is_connected = true;
  }

  -- The device that usb_process_device finds on a handle, from a history on.
  abbrev pub found_device : ℕ → History → UsbDevice
  found_device handle h =
      let usb = p.open_protocol h handle usb_io_guid in
      device_of handle usb.value
        (p.get_device_descriptor (opened handle usb_io_guid usb.status ∷ h) usb.value)

  record_device_cases :
      (handle index io total : ℕ) (d : DeviceDescriptor) (s : Usb) (h : History)
      → let (result, t, g) = record_device p handle index io d total s h in
        ((succeeded (result_of result) ≡ false) × (result ≢ fault) × (t ≡ s))
        ⊎ ((result_of result ≡ returned success) × (t ≡ store index (device_of handle io d) s))
  unfolding record_device
  record_device_cases handle index io total d s h = ground status_laws

  -- A handle is refused, and leaves the driver as it was, or its device is stored at the index of
  -- the handle; the function always returns.
  pub usb_process_device_cases :
      (handle index : ℕ) (s : Usb) (h : History)
      → let (result, t, g) = usb_process_device p handle index s h in
        ((succeeded result ≡ false) × (result ≢ fault) × (t ≡ s))
        ⊎ ((result ≡ returned success) × (t ≡ store index (found_device handle h) s))
  unfolding usb_process_device
  usb_process_device_cases handle index s h =
      let usb = p.open_protocol h handle usb_io_guid in
      let g = opened handle usb_io_guid usb.status ∷ h in
      let d = p.get_device_descriptor g usb.value in
      let config = p.get_config_descriptor (device_descriptor usb.value ∷ g) usb.value in
      ground (
        arith,
        record_device_cases handle index usb.value config.value d s
            (config_descriptor usb.value ∷ (device_descriptor usb.value ∷ g)),
      )

  -- One round of the loop keeps these bounds.
  pub record Bounds (rounds index : ℕ) (s t : Usb) : Type 0 where
    pub at_most : s.device_count ≤ max_usb_devices → t.device_count ≤ max_usb_devices
    pub found : t.device_count ≤ s.device_count + rounds
    pub grows : s.device_count ≤ t.device_count
    pub inside : index + rounds ≤ max_usb_devices → t.overruns ≡ s.overruns
    pub running : t.initialized ≡ s.initialized

  pub detect_loop-Bounds :
      (handles : ℕ → ℕ) (rounds index : ℕ) (s : Usb) (h : History)
      → let (result, t, g) = detect_loop p handles rounds index s h in
        (result ≡ next tt) × Bounds rounds index s t
  unfolding detect_loop
  detect_loop-Bounds handles zero index s h = ground arith
  detect_loop-Bounds handles (suc rounds) index s h =
      let (result, t, g) = usb_process_device p (handles index) index s h in
      ground (
        status_laws,
        usb_process_device_cases (handles index) index s h,
        detect_loop-Bounds handles rounds (index + 1) t g,
        detect_loop-Bounds handles rounds (index + 1)
            (record t { device_count = t.device_count + 1 }) g,
      )

  usb_device_detect_lem :
      (s : Usb) (h : History)
      → s.initialized ≡ true
      → let found = p.locate_handle_buffer h usb_io_guid in
        let (result, t, g) = usb_device_detect p s h in
        (result ≡ returned (if efi_error found.status then found.status else success))
        × (t.device_count ≤ max_usb_devices)
        × (t.device_count ≤ (if efi_error found.status then 0 else found.count))
        × (found.count ≤ max_usb_devices → t.overruns ≡ s.overruns)
        × (t.initialized ≡ true)
  unfolding usb_device_detect
  usb_device_detect_lem s h running =
      let found = p.locate_handle_buffer h usb_io_guid in
      let after = located usb_io_guid found.status found.buffer ∷ h in
      ground (
        arith,
        detect_loop-Bounds found.handles found.count 0 (record s { device_count = 0 }) after,
      )

  -- A detection on a running driver keeps it running, and counts no more devices than there are
  -- slots, and no more than there are handles.
  pub usb_device_detect_bounds :
      (s : Usb) (h : History)
      → s.initialized ≡ true
      → let found = p.locate_handle_buffer h usb_io_guid in
        let (result, t, g) = usb_device_detect p s h in
        (result ≡ returned (if efi_error found.status then found.status else success))
        × (t.device_count ≤ max_usb_devices)
        × (t.device_count ≤ (if efi_error found.status then 0 else found.count))
        × (t.initialized ≡ true)
  usb_device_detect_bounds s h running =
      let (result, slots, handles, _, on) = usb_device_detect_lem s h running in
      (result, slots, handles, on)

  -- Where there are no more handles than slots, a detection stays inside the device table.
  pub usb_device_detect_fits :
      (s : Usb) (h : History)
      → s.initialized ≡ true
      → (p.locate_handle_buffer h usb_io_guid).count ≤ max_usb_devices
      → (usb_device_detect p s h).1.overruns ≡ s.overruns
  usb_device_detect_fits s h running room =
      let (_, _, _, inside, _) = usb_device_detect_lem s h running in inside room
