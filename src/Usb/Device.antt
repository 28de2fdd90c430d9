-- ===== src/Usb/Device.antt =====
-- usb_process_device, InitializeMassStorageDevice and InitializeHidDevice of usb_driver.c.
use usb_uefi_firmware.Common.{ℕ, true, not, ◌==◌, if◌then◌else◌, is_null}
use usb_uefi_firmware.Platform.Event.{
  usb_io_guid, UsbRequest, opened, allocated, freed, device_descriptor, config_descriptor,
}
use usb_uefi_firmware.Platform.Proc.{
  returned, Proc, Call, ◌>>=◌, ◌>>◌, pure, modify, require, check_status, emit, invoke, return_if,
  function, call,
}
use usb_uefi_firmware.Platform.Services.{DeviceDescriptor, Platform}
use usb_uefi_firmware.Platform.Status.{Status, success, out_of_resources, efi_error}
use usb_uefi_firmware.Usb.State.{Usb, store}

-- The device classes that the driver tells apart.
abbrev pub usb_class_mass_storage : ℕ
usb_class_mass_storage = 0x08

abbrev pub usb_class_hid : ℕ
usb_class_hid = 0x03

-- Both report and succeed.
unfoldable pub initialize_mass_storage_device : ℕ → ℕ → Call Usb
initialize_mass_storage_device usb_io index s h = (returned success, s, h)

unfoldable pub initialize_hid_device : ℕ → ℕ → Call Usb
initialize_hid_device usb_io index s h = (returned success, s, h)

-- The branch on DeviceClass; its status is not looked at.
unfoldable pub initialize_by_class : ℕ → ℕ → ℕ → Call Usb
unfolding initialize_mass_storage_device initialize_hid_device
initialize_by_class class usb_io index s h =
    if class == usb_class_mass_storage
    then initialize_mass_storage_device usb_io index s h
    else if class == usb_class_hid
    then initialize_hid_device usb_io index s h
    else (returned success, s, h)

-- The request of usb_device_communicate: GET_STATUS, USB_REQ_TYPE_STANDARD | USB_DIR_IN.
abbrev pub get_status_request : UsbRequest
get_status_request = record { request_type = 0x80; request = 0; value = 0; index = 0; length = 2 }

module _ (p : Platform) where
  -- The second half of usb_process_device: the whole configuration, and the device's slot.
  unfoldable pub record_device : ℕ → ℕ → ℕ → DeviceDescriptor → ℕ → Proc Usb Status
  unfolding initialize_by_class
  record_device handle index usb_io d total_length = do
    buffer ←
        invoke (λ h. p.allocate_pool h total_length) (λ pointer. allocated total_length pointer)
    require (not (is_null buffer)) out_of_resources
    whole ← invoke (λ h. p.get_config_descriptor h usb_io) (λ _. config_descriptor usb_io)
    return_if (efi_error whole.status) (emit (freed buffer)) whole.status
    modify (
        store index (record {
          handle = handle;
          usb_io = usb_io;
          vendor_id = d.vendor;
          product_id = d.product;
          device_class = d.class;
          is_connected = true;
        }))
    _ ← call (initialize_by_class d.class usb_io index)
    emit (freed buffer)
    pure success

  unfoldable pub usb_process_device : ℕ → ℕ → Call Usb
  usb_process_device handle index = function (do
    usb ←
        invoke (λ h. p.open_protocol h handle usb_io_guid) (λ r. opened handle usb_io_guid r.status)
    check_status usb.status
    d ← invoke (λ h. p.get_device_descriptor h usb.value) (λ _. device_descriptor usb.value)
    check_status d.status
    config ← invoke (λ h. p.get_config_descriptor h usb.value) (λ _. config_descriptor usb.value)
    check_status config.status
    record_device handle index usb.value d config.value)
