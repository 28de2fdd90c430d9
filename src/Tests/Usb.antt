-- ===== src/Tests/Usb.antt =====
-- Examples for the USB driver.
use usb_uefi_firmware.Common.{ℕ, ◌≡◌, refl, true, [], ◌∷◌, arith}
use usb_uefi_firmware.Config.{max_usb_devices, usb_control_timeout}
use usb_uefi_firmware.Platform.Event.{control_transfer, History}
use usb_uefi_firmware.Platform.Proc.{Flow, returned}
use usb_uefi_firmware.Platform.Status.{Status, invalid_parameter, success_is_no_error, status_laws}
use usb_uefi_firmware.Tests.Machine.{quiet, one_of, running_usb}
use usb_uefi_firmware.Usb.Device.{get_status_request}
use usb_uefi_firmware.Usb.Driver.{usb_device_detect, usb_device_communicate}
use usb_uefi_firmware.Usb.Session.{
  start_driver, detect_devices, run_usb_call, UsbReaches, no_usb_call, one_usb_call,
}
use usb_uefi_firmware.Usb.Skipped.{
  OnlyLast, skipped_device_unreachable, usb_device_detect_overruns, stale_device_addressed,
}
use usb_uefi_firmware.Usb.Slots.{Holds}
use usb_uefi_firmware.Usb.State.{Usb, initial_usb}

one_of-OnlyLast : (n : ℕ) → OnlyLast (one_of n) n running_usb []
one_of-OnlyLast n = (
  success_is_no_error,
  refl,
  λ i less g. ground status_laws,
  record {
    opens = λ g. ground status_laws;
    exists = λ g. ground arith;
    described = λ g io. success_is_no_error;
    configured = λ g io. success_is_no_error;
    allocates = λ g m. refl;
  },
)

skipped_device_unreachable_example :
    let (result, t, g) = usb_device_detect (one_of 1) running_usb [] in
    (t.device_count ≡ 1)
    × Holds (one_of 1) t 1 2
    × (usb_device_communicate (one_of 1) 1 8 t g ≡ (returned invalid_parameter, t, g))
skipped_device_unreachable_example =
    skipped_device_unreachable (one_of 1) 1 1 8 running_usb [] refl (omega arith) (omega arith)
      (one_of-OnlyLast 1) refl

usb_device_detect_overruns_example :
    (usb_device_detect (one_of max_usb_devices) running_usb []).1.overruns ≡ max_usb_devices ∷ []
usb_device_detect_overruns_example =
    usb_device_detect_overruns (one_of max_usb_devices) running_usb [] refl
      (one_of-OnlyLast max_usb_devices)

abbrev after_start : Flow Status × Usb × History
after_start = run_usb_call quiet start_driver initial_usb []

abbrev after_detection : Flow Status × Usb × History
after_detection = run_usb_call quiet detect_devices after_start.1 after_start.2

detecting : UsbReaches quiet initial_usb [] after_detection.1 after_detection.2
detecting = one_usb_call detect_devices (one_usb_call start_driver no_usb_call refl refl) refl refl

-- A driver whose slot 0 holds a device of an earlier detection.
abbrev remembering : Usb
remembering = record running_usb {
  device_count = 1;
  devices = λ i. record {
    handle = 30;
    usb_io = 31;
    vendor_id = 1;
    product_id = 2;
    device_class = 3;
    is_connected = true;
  };
}

stale_device_addressed_example :
    let (result, t, g) = usb_device_detect (one_of 1) remembering [] in
    (t.device_count ≡ 1)
    × (t.devices 0 ≡ remembering.devices 0)
    × ((usb_device_communicate (one_of 1) 0 8 t g).2
        ≡ control_transfer 31 get_status_request usb_control_timeout 2 ∷ g)
stale_device_addressed_example =
    stale_device_addressed (one_of 1) 1 8 remembering [] refl (omega arith) (omega arith)
      (one_of-OnlyLast 1) refl refl
