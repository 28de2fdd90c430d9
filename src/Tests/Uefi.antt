-- ===== src/Tests/Uefi.antt =====
-- Examples for the UEFI interface and the boot service wrappers.
use usb_uefi_firmware.Common.{
  ◌^◌, ◌<◌, ◌≡◌, refl, none, some, [], ◌∷◌, arith, ◌==◌, if◌then◌else◌, u64,
}
use usb_uefi_firmware.Platform.Event.{freed, History}
use usb_uefi_firmware.Platform.Proc.{returned}
use usb_uefi_firmware.Platform.Services.{conventional, reserved, MemoryMap}
use usb_uefi_firmware.Platform.Status.{success, efi_error, is_buffer_too_small}
use usb_uefi_firmware.Tests.Machine.{quiet}
use usb_uefi_firmware.Uefi.Alignment.{
  IsAlignedBlock, allocate_aligned_memory-IsAlignedBlock, free_aligned_memory_mismatch,
}
use usb_uefi_firmware.Uefi.Cpu.{detect_cpu_information}
use usb_uefi_firmware.Uefi.Interface.{
  gather_versions, gather_system_information, initialize_boot_services_wrappers,
  uefi_interface_init,
}
use usb_uefi_firmware.Uefi.Memory.{
  is_available, is_reserved, statistics_loop, calculate_memory_statistics, gather_memory,
}
use usb_uefi_firmware.Uefi.MemoryBag.{bag_of, bag_bytes, calculate_memory_statistics-MemoryBag}
use usb_uefi_firmware.Uefi.Security.{uefi_check_secure_boot, uefi_check_tpm, cache_security}
use usb_uefi_firmware.Uefi.Session.{
  start_interface, check_tpm, run_uefi_call, UefiReaches, no_uefi_call, one_uefi_call,
}
use usb_uefi_firmware.Uefi.Startup.{SizesDescriptors}
use usb_uefi_firmware.Uefi.State.{Uefi, initial_uefi}
use usb_uefi_firmware.Uefi.Statistics.{anything}
use usb_uefi_firmware.Uefi.Wrappers.{align_up, allocate_aligned_memory, free_aligned_memory}

abbrev one_kind : MemoryMap
one_kind = record {
  status = success;
  map_size = 96;
  descriptor_size = 48;
  descriptor_at =
      λ at. record { type = if at == 0 then conventional else reserved; number_of_pages = 16 };
}

-- A start, then a look for a TPM.
abbrev interface_started : Uefi × History
interface_started = run_uefi_call quiet (start_interface 203) initial_uefi []

abbrev tpm_checked : Uefi × History
tpm_checked = run_uefi_call quiet (check_tpm 204) interface_started.0 interface_started.1

informing : UefiReaches quiet initial_uefi [] tpm_checked.0 tpm_checked.1
informing =
    one_uefi_call (check_tpm 204) (one_uefi_call (start_interface 203) no_uefi_call refl refl) refl
      refl

-- The two descriptors of the map are 16 pages each.
informed_memory : tpm_checked.0.info.total_memory ≡ 131072
unfolding uefi_interface_init gather_system_information gather_versions gather_memory
    calculate_memory_statistics statistics_loop is_available is_reserved cache_security
    detect_cpu_information uefi_check_secure_boot uefi_check_tpm is_buffer_too_small efi_error
    initialize_boot_services_wrappers
informed_memory = refl

quiet-SizesDescriptors : SizesDescriptors quiet
quiet-SizesDescriptors g size buffer = omega arith

allocate_aligned_memory-IsAlignedBlock_example :
    let (result, out, g) = allocate_aligned_memory quiet 4 100 (2 ^ 4) 203 none [] in
    (result ≡ returned success) × (out ≡ some 4112) × IsAlignedBlock quiet 4 100 4112 4104 128
unfolding efi_error align_up
allocate_aligned_memory-IsAlignedBlock_example =
    allocate_aligned_memory-IsAlignedBlock quiet 4 100 4 203 [] refl (omega arith) (omega arith)
      (omega arith) refl refl (omega arith)

free_aligned_memory_mismatch_example :
    let (result, out, g) = allocate_aligned_memory quiet 4 100 (2 ^ 4) 203 none [] in
    (out ≡ some 4112)
    × (4104 < 4112)
    × ((free_aligned_memory quiet 4112 100 out g).2 ≡ freed 4112 ∷ g)
unfolding efi_error align_up
free_aligned_memory_mismatch_example =
    free_aligned_memory_mismatch quiet 4 100 4 203 [] refl (omega arith) (omega arith) refl refl
      refl refl (omega arith)

calculate_memory_statistics-MemoryBag_example :
    let m = quiet.get_memory_map [] 96 4096 in
    let t = (calculate_memory_statistics quiet 4096 m initial_uefi []).1 in
    (t.info.total_memory ≡ u64 (bag_bytes quiet anything (bag_of 4096 m)))
    × (t.info.available_memory ≡ u64 (bag_bytes quiet is_available (bag_of 4096 m)))
    × (t.info.reserved_memory ≡ u64 (bag_bytes quiet is_reserved (bag_of 4096 m)))
calculate_memory_statistics-MemoryBag_example =
    calculate_memory_statistics-MemoryBag quiet 4096 (quiet.get_memory_map [] 96 4096) initial_uefi
      [] (omega arith)
