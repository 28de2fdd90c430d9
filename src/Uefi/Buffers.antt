-- ===== src/Uefi/Buffers.antt =====
-- The pool buffers of uefi_interface.c: the memory map is the only one.
use usb_uefi_firmware.Common.{ℕ, ◌≡◌, false, ◌∷◌, arith, null, is_null}
use usb_uefi_firmware.Platform.Balance.{SameBuffers}
use usb_uefi_firmware.Platform.Event.{loaded_image_guid, opened, allocated, memory_map, History}
use usb_uefi_firmware.Platform.Services.{Platform}
use usb_uefi_firmware.Platform.Status.{status_laws}
use usb_uefi_firmware.Uefi.Cpu.{detect_cpu_information}
use usb_uefi_firmware.Uefi.Interface.{
  gather_versions, gather_system_information, initialize_boot_services_wrappers,
  uefi_interface_init, uefi_interface_cleanup,
}
use usb_uefi_firmware.Uefi.Memory.{calculate_memory_statistics, gather_memory}
use usb_uefi_firmware.Uefi.Security.{uefi_check_secure_boot, uefi_check_tpm, cache_security}
use usb_uefi_firmware.Uefi.Startup.{SizesDescriptors, gather_memory_lem}
use usb_uefi_firmware.Uefi.State.{zero_system_info, Uefi, set_info}

module _ (p : Platform) where
  gather_memory-SameBuffers :
      (q : ℕ) (s : Uefi) (h : History)
      → SizesDescriptors p
      → is_null q ≡ false
      → SameBuffers q h (gather_memory p s h).2
  unfolding gather_memory calculate_memory_statistics
  gather_memory-SameBuffers q s h sizes real =
      let sized = p.get_memory_map h 0 null in
      let asked = memory_map null ∷ h in
      let buffer = p.allocate_pool asked sized.map_size in
      let given = allocated sized.map_size buffer ∷ asked in
      ground (status_laws, sizes given sized.map_size buffer)

  cache_security-SameBuffers :
      (q stack : ℕ) (s : Uefi) (h : History) → SameBuffers q h (cache_security p stack s h).2
  unfolding cache_security uefi_check_secure_boot uefi_check_tpm
  cache_security-SameBuffers q stack s h = ground arith

  gather_system_information-SameBuffers :
      (q stack : ℕ) (s : Uefi) (h : History)
      → SizesDescriptors p
      → is_null q ≡ false
      → SameBuffers q h (gather_system_information p stack s h).2
  unfolding gather_system_information
  gather_system_information-SameBuffers q stack s h sizes real =
      let t = set_info (λ _. gather_versions p zero_system_info) s in
      let (result, u, g) = gather_memory p t h in
      let v = set_info (detect_cpu_information p) u in
      ground (
        arith,
        gather_memory_lem p t h sizes,
        gather_memory-SameBuffers q t h sizes real,
        cache_security-SameBuffers q stack v g,
      )

  pub uefi_interface_init-SameBuffers :
      (q stack : ℕ) (s : Uefi) (h : History)
      → SizesDescriptors p
      → is_null q ≡ false
      → SameBuffers q h (uefi_interface_init p stack s h).2
  unfolding uefi_interface_init initialize_boot_services_wrappers
  uefi_interface_init-SameBuffers q stack s h sizes real =
      let image = p.open_protocol h p.image_handle loaded_image_guid in
      let g = opened p.image_handle loaded_image_guid image.status ∷ h in
      ground (
        arith,
        gather_system_information-SameBuffers q stack (record s { loaded_image = image.value }) g
            sizes real,
      )

  pub uefi_interface_cleanup-SameBuffers :
      (q : ℕ) (s : Uefi) (h : History) → SameBuffers q h (uefi_interface_cleanup p s h).2
  unfolding uefi_interface_cleanup
  uefi_interface_cleanup-SameBuffers q s h = ground arith
