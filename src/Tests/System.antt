-- ===== src/Tests/System.antt =====
-- Examples for the components together.
use usb_uefi_firmware.Common.{refl, List, [], ◌∷◌, arith}
use usb_uefi_firmware.Flash.Session.{start_manager, write_range}
use usb_uefi_firmware.Loader.Session.{start_loader, load_file}
use usb_uefi_firmware.Platform.Event.{History}
use usb_uefi_firmware.System.Invariant.{KeepsPromises, IsWhole, reached-IsWhole}
use usb_uefi_firmware.System.Steps.{
  Machine, initial_machine, MachineCall, on_uefi, on_usb, on_loader, on_flash, run_machine_call,
  Interleaves, no_machine_call, one_machine_call,
}
use usb_uefi_firmware.Tests.Machine.{quiet}
use usb_uefi_firmware.Uefi.Session.{start_interface}
use usb_uefi_firmware.Usb.Session.{start_driver, detect_devices}

quiet-KeepsPromises : KeepsPromises quiet
quiet-KeepsPromises = record {
  sizes = λ g size buffer. omega arith;
  finds = λ g guid found. ground arith;
  blocks = λ g fvb found. (omega arith, omega arith);
}

-- Four clients, the last call first: the flash manager and the USB driver are started, a file is
-- loaded, the system information is gathered, and a range is written.
abbrev busy_calls : List MachineCall
busy_calls =
    on_flash (write_range 65540 64 100)
    ∷ on_uefi (start_interface 200)
    ∷ on_loader (load_file 5 6 7)
    ∷ on_usb detect_devices
    ∷ on_loader start_loader
    ∷ on_usb start_driver
    ∷ on_flash start_manager
    ∷ []

abbrev after_calls : List MachineCall → Machine × History
after_calls [] = (initial_machine, [])
after_calls (c ∷ cs) = let (s, h) = after_calls cs in run_machine_call quiet c s h

interleaved :
    (cs : List MachineCall)
    → Interleaves quiet initial_machine [] (after_calls cs).0 (after_calls cs).1
interleaved [] = no_machine_call
interleaved (c ∷ cs) = one_machine_call c (interleaved cs) refl refl

reached-IsWhole_example : IsWhole quiet 4096 (after_calls busy_calls).0 (after_calls busy_calls).1
reached-IsWhole_example = reached-IsWhole quiet quiet-KeepsPromises refl (interleaved busy_calls)
