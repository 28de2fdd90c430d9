-- ===== src/Usb/Slots.antt =====
-- Which slot of the device table usb_device_detect gives to which device.
use usb_uefi_firmware.Common.{ℕ, ◌≡◌, ◌≢◌, true, false, ◌∷◌, arith, is_null}
use usb_uefi_firmware.Platform.Event.{
  usb_io_guid, located, opened, allocated, device_descriptor, config_descriptor, History,
}
use usb_uefi_firmware.Platform.Proc.{returned, fault, result_of}
use usb_uefi_firmware.Platform.Services.{DeviceDescriptor, Platform}
use usb_uefi_firmware.Platform.Status.{success, efi_error}
use usb_uefi_firmware.Usb.Device.{record_device, usb_process_device}
use usb_uefi_firmware.Usb.Driver.{detect_loop}
use usb_uefi_firmware.Usb.Enumeration.{succeeded, device_of, found_device}
use usb_uefi_firmware.Usb.State.{Usb, store}

module _ (p : Platform) where
  -- A handle on which every service works, whatever was called before.
  pub record Works (handle : ℕ) : Type 0 where
    pub opens : (g : History) → efi_error (p.open_protocol g handle usb_io_guid).status ≡ false
    pub exists : (g : History) → is_null (p.open_protocol g handle usb_io_guid).value ≡ false
    pub described : (g : History) (io : ℕ) → efi_error (p.get_device_descriptor g io).status ≡ false
    pub configured :
        (g : History) (io : ℕ) → efi_error (p.get_config_descriptor g io).status ≡ false
    pub allocates : (g : History) (n : ℕ) → is_null (p.allocate_pool g n) ≡ false

  -- A handle on which the USB I/O protocol does not open.
  abbrev pub Fails : ℕ → Type 0
  Fails handle = (g : History) → efi_error (p.open_protocol g handle usb_io_guid).status ≡ true

  record_device-Works :
      (handle index io total : ℕ) (d : DeviceDescriptor) (s : Usb) (h : History)
      → Works handle
      → let (result, t, g) = record_device p handle index io d total s h in
        (result_of result ≡ returned success) × (t ≡ store index (device_of p handle io d) s)
  unfolding record_device
  record_device-Works handle index io total d s h w =
      let buffer = p.allocate_pool h total in
      ground (arith, w.allocates h total, w.configured (allocated total buffer ∷ h) io)

  pub usb_process_device-Works :
      (handle index : ℕ) (s : Usb) (h : History)
      → Works handle
      → let (result, t, g) = usb_process_device p handle index s h in
        (result ≡ returned success) × (t ≡ store index (found_device p handle h) s)
  unfolding usb_process_device
  usb_process_device-Works handle index s h w =
      let usb = p.open_protocol h handle usb_io_guid in
      let g = opened handle usb_io_guid usb.status ∷ h in
      let d = p.get_device_descriptor g usb.value in
      let after = device_descriptor usb.value ∷ g in
      let config = p.get_config_descriptor after usb.value in
      ground (
        arith,
        w.opens h,
        w.described g usb.value,
        w.configured after usb.value,
        record_device-Works handle index usb.value config.value d s
            (config_descriptor usb.value ∷ after) w,
      )

  pub usb_process_device-Fails :
      (handle index : ℕ) (s : Usb) (h : History)
      → Fails handle
      → let (result, t, g) = usb_process_device p handle index s h in
        (succeeded result ≡ false) × (result ≢ fault) × (t ≡ s)
  unfolding usb_process_device
  usb_process_device-Fails handle index s h f = ground (arith, f h)

  -- A slot that holds a connected device of a handle.
  abbrev pub Holds : Usb → ℕ → ℕ → Type 0
  Holds s i handle =
      ((s.devices i).handle ≡ handle)
      × ((s.devices i).is_connected ≡ true)
      × (is_null (s.devices i).usb_io ≡ false)

  -- What OpenProtocol gives on the handle at `i`, when a detection has been through those before it.
  abbrev pub interface_at : ℕ → Usb → History → ℕ
  interface_at i s h =
      let found = p.locate_handle_buffer h usb_io_guid in
      let before =
        (detect_loop p found.handles i 0 (record s { device_count = 0 })
          (located usb_io_guid found.status found.buffer ∷ h)).2 in
      (p.open_protocol before (found.handles i) usb_io_guid).value
