-- ===== src/Usb/State.antt =====
-- The types of usb_driver.h and the static variables of usb_driver.c.
use usb_uefi_firmware.Common.{ℕ, Bool, false, List, [], ◌∷◌, ltb, ◌==◌, if◌then◌else◌, null}
use usb_uefi_firmware.Config.{max_usb_devices}

-- USB_DEVICE_INFO without DeviceName, InterfaceCount and ConfigurationValue, which nothing sets.
pub record UsbDevice : Type 0 where
  pub handle : ℕ
  pub usb_io : ℕ
  pub vendor_id : ℕ  -- UINT16
  pub product_id : ℕ  -- UINT16
  pub device_class : ℕ  -- UINT8
  pub is_connected : Bool

abbrev pub zero_device : UsbDevice
zero_device = record {
  handle = null;
  usb_io = null;
  vendor_id = 0;
  product_id = 0;
  device_class = 0;
  is_connected = false;
}

-- `devices` is mUsbDevices below MAX_USB_DEVICES. A store past the end of that array is undefined
-- behaviour: its index is kept in `overruns`, and the store changes nothing else here.
pub record Usb : Type 0 where
  pub hc_protocol : ℕ
  pub hc_handle : ℕ
  pub initialized : Bool
  pub devices : ℕ → UsbDevice
  pub device_count : ℕ
  pub overruns : List ℕ

abbrev pub initial_usb : Usb
initial_usb = record {
  hc_protocol = null;
  hc_handle = null;
  initialized = false;
  devices = λ _. zero_device;
  device_count = 0;
  overruns = [];
}

abbrev pub update : (ℕ → UsbDevice) → ℕ → UsbDevice → ℕ → UsbDevice
update devices index device i = if index == i then device else devices i

-- `mUsbDevices[index] = device`.
abbrev pub store : ℕ → UsbDevice → Usb → Usb
store index device s =
    if ltb index max_usb_devices
    then record s { devices = update s.devices index device }
    else record s { overruns = index ∷ s.overruns }
