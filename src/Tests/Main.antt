-- ===== src/Tests/Main.antt =====
-- Examples for the application.
use usb_uefi_firmware.Common.{
  ℕ, zero, suc, ◌+◌, ◌≡◌, refl, ◌⊎◌, not, ◌||◌, none, some, List, [], ◌∷◌, arith, if◌then◌else◌,
  get_elem?,
}
use usb_uefi_firmware.Loader.Info.{
  populate_firmware_info, open_file_system, firmware_loader_init, firmware_loader_cleanup,
}
use usb_uefi_firmware.Loader.State.{initial_loader}
use usb_uefi_firmware.Main.Application.{initialize_subsystems, cleanup_and_exit, uefi_main}
use usb_uefi_firmware.Main.Buffers.{uefi_main-SameBuffers}
use usb_uefi_firmware.Main.Closing.{uefi_main_closes}
use usb_uefi_firmware.Main.Commands.{initial_app, command_of}
use usb_uefi_firmware.Main.Loop.{waits}
use usb_uefi_firmware.Main.Quits.{QuitsAt, uefi_main_ends}
use usb_uefi_firmware.Main.Returns.{uefi_main_returns}
use usb_uefi_firmware.Main.Script.{Input, timer_input, key_input, session_outcome, Waited, KeyRead}
use usb_uefi_firmware.Main.Session.{uefi_main-session_outcome}
use usb_uefi_firmware.Main.Shutdown.{IsStopped}
use usb_uefi_firmware.Main.Startup.{is_failure, initialize_subsystems_cases}
use usb_uefi_firmware.Platform.Balance.{SameBuffers}
use usb_uefi_firmware.Platform.Event.{History}
use usb_uefi_firmware.Platform.Proc.{next, returned}
use usb_uefi_firmware.Platform.Status.{
  Status, success, not_found, efi_error, is_aborted, is_buffer_too_small,
}
use usb_uefi_firmware.Tests.Machine.{quiet, one_of, pressing}
use usb_uefi_firmware.Uefi.Cpu.{
  copy_text, brand_ascii, skip_spaces, core_count, detect_cpu_information,
}
use usb_uefi_firmware.Uefi.Interface.{
  gather_versions, gather_system_information, initialize_boot_services_wrappers,
  uefi_interface_init, uefi_interface_cleanup,
}
use usb_uefi_firmware.Uefi.Memory.{
  is_available, is_reserved, statistics_loop, calculate_memory_statistics, gather_memory,
}
use usb_uefi_firmware.Uefi.Security.{uefi_check_secure_boot, uefi_check_tpm, cache_security}
use usb_uefi_firmware.Uefi.Startup.{SizesDescriptors}
use usb_uefi_firmware.Uefi.State.{initial_uefi}
use usb_uefi_firmware.Usb.Device.{
  initialize_mass_storage_device, initialize_hid_device, initialize_by_class, record_device,
  usb_process_device,
}
use usb_uefi_firmware.Usb.Driver.{
  open_controller, usb_driver_init, detect_loop, usb_device_detect, usb_driver_cleanup,
}
use usb_uefi_firmware.Usb.Opened.{is_usb_io, is_usb2_hc, opens_of, closes_of, AllWork}
use usb_uefi_firmware.Usb.State.{initial_usb}
use usb_uefi_firmware.Usb.Table.{Crowded}

abbrev sizes : SizesDescriptors quiet
sizes g size buffer = omega arith

initialize_subsystems_cases_example :
    let (result, a, g) = initialize_subsystems quiet 200 initial_app [] in
    let first = uefi_interface_init quiet 200 initial_uefi [] in
    let second = usb_driver_init quiet initial_usb first.2 in
    let detected = usb_device_detect quiet second.1 second.2 in
    let third = firmware_loader_init quiet initial_loader detected.2 in
    (result ≡ (
      if is_failure first.0
      then first.0
      else if is_failure second.0
      then second.0
      else if is_failure third.0
      then third.0
      else returned success))
    × (a.uefi.initialized ≡ not (is_failure first.0))
    × (a.usb.initialized ≡ not (is_failure first.0 || is_failure second.0))
    × (a.loader.initialized ≡ not (is_failure first.0 || is_failure second.0 || is_failure third.0))
initialize_subsystems_cases_example = initialize_subsystems_cases quiet 200 [] refl sizes

refused : (uefi_main (one_of 1) 200 5 initial_app []).0 ≡ next (some not_found)
unfolding uefi_main initialize_subsystems uefi_interface_init efi_error cleanup_and_exit
    firmware_loader_cleanup usb_driver_cleanup uefi_interface_cleanup
refused = refl

one_of-SizesDescriptors : SizesDescriptors (one_of 1)
one_of-SizesDescriptors g size buffer = omega arith

uefi_main_returns_example :
    let (r, a, g) = uefi_main (one_of 1) 200 5 initial_app [] in
    ((r ≡ next none) ⊎ ((status : Status) × (r ≡ next (some status)) × IsStopped a))
    × ((a.usb.overruns ≡ []) ⊎ Crowded (one_of 1))
uefi_main_returns_example = uefi_main_returns (one_of 1) 200 5 [] refl one_of-SizesDescriptors

-- The machine starts every subsystem.
starts : (initialize_subsystems pressing 200 initial_app []).0 ≡ returned success
unfolding efi_error initialize_subsystems uefi_interface_init gather_system_information
    gather_memory is_buffer_too_small calculate_memory_statistics cache_security
    initialize_boot_services_wrappers usb_driver_init open_controller usb_device_detect detect_loop
    usb_process_device record_device firmware_loader_init open_file_system
starts = refl

no_waits : waits (initialize_subsystems pressing 200 initial_app []).2 ≡ 0
unfolding efi_error initialize_subsystems uefi_interface_init gather_system_information
    gather_memory is_buffer_too_small calculate_memory_statistics cache_security
    initialize_boot_services_wrappers usb_driver_init open_controller usb_device_detect detect_loop
    usb_process_device record_device firmware_loader_init open_file_system uefi_check_secure_boot
    populate_firmware_info brand_ascii copy_text core_count detect_cpu_information skip_spaces
    gather_versions is_available is_reserved statistics_loop initialize_by_class uefi_check_tpm
    initialize_hid_device initialize_mass_storage_device
no_waits = refl

pressing-QuitsAt : QuitsAt pressing 2
unfolding efi_error is_aborted command_of
pressing-QuitsAt = record {
  waits_well = λ h. refl;
  not_aborted = λ h early. refl;
  other_keys = λ h early. ground arith;
  last_is_key = λ h last. ground arith;
  last_reads = λ h last. refl;
  last_quits = λ h last. ground arith;
}

uefi_main_ends_example :
    ((uefi_main pressing 200 3 initial_app []).0 ≡ next (some success))
    × IsStopped (uefi_main pressing 200 3 initial_app []).1
unfolding efi_error
uefi_main_ends_example =
    uefi_main_ends pressing 200 2 2 initial_app [] starts refl refl pressing-QuitsAt
      (omega (arith, no_waits))

pressing-AllWork : AllWork pressing
unfolding efi_error
pressing-AllWork = record {
  few = λ g. omega arith;
  works = λ g k. record {
    opens = λ g'. refl;
    exists = λ g'. ground arith;
    described = λ g' io. refl;
    configured = λ g' io. refl;
    allocates = λ g' n. refl;
  };
  controller = λ g k. ground arith;
  interface = λ g handle found. ground arith;
}

pressing-SizesDescriptors : SizesDescriptors pressing
pressing-SizesDescriptors g size buffer = omega arith

-- The driver is reset once, by the key `r`.
uefi_main_closes_example :
    let (_, _, g) = uefi_main pressing 200 3 initial_app [] in
    (opens_of is_usb_io 2 g ≡ closes_of is_usb_io 2 g)
    × (opens_of is_usb2_hc 2 g ≡ closes_of is_usb2_hc 2 g)
unfolding efi_error
uefi_main_closes_example =
    uefi_main_closes pressing 2 200 3 success pressing-AllWork pressing-SizesDescriptors
      (uefi_main_ends pressing 200 2 2 initial_app [] starts refl refl pressing-QuitsAt
        (omega (arith, no_waits))).0

abbrev session_script : List Input
session_script = timer_input ∷ (key_input b'r' ∷ (key_input b'q' ∷ []))

session-Waited :
    (h : History) (i : ℕ) (input : Input)
    → waits h ≡ 0 + i
    → get_elem? session_script i ≡ some input
    → Waited input (pressing.wait_for_event h)
unfolding efi_error
session-Waited h zero input count at = ground arith
session-Waited h (suc zero) input count at = ground arith
session-Waited h (suc (suc zero)) input count at = ground arith
session-Waited h (suc (suc (suc i))) input count at = ground arith

session-KeyRead :
    (h : History) (i : ℕ) (input : Input)
    → waits h ≡ suc (0 + i)
    → get_elem? session_script i ≡ some input
    → KeyRead input (pressing.read_key h)
unfolding efi_error
session-KeyRead h zero input count at = ground arith
session-KeyRead h (suc zero) input count at = ground arith
session-KeyRead h (suc (suc zero)) input count at = ground arith
session-KeyRead h (suc (suc (suc i))) input count at = ground arith

uefi_main-session_outcome_example :
    (uefi_main pressing 200 3 initial_app []).0 ≡ next (session_outcome session_script)
unfolding efi_error
uefi_main-session_outcome_example =
    uefi_main-session_outcome pressing 200 session_script initial_app [] starts refl refl
      (rw no_waits (record { waited = session-Waited; read = session-KeyRead }))

uefi_main-SameBuffers_example : SameBuffers 4096 [] (uefi_main pressing 200 3 initial_app []).2
unfolding efi_error
uefi_main-SameBuffers_example =
    uefi_main-SameBuffers pressing 200 4096 pressing-SizesDescriptors (λ g guid found. refl) refl 3
      initial_app []
