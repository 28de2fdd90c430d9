-- ===== src/Main/Others.antt =====
-- The UEFI interface, the loader and main.c itself leave the USB protocols alone.
use usb_uefi_firmware.Common.{ℕ, ◌∷◌, arith, null}
use usb_uefi_firmware.Loader.Info.{open_file_system, firmware_loader_init, firmware_loader_cleanup}
use usb_uefi_firmware.Loader.State.{Loader}
use usb_uefi_firmware.Main.Within.{
  OwnCall, timer_created, timer_closed, timer_armed, waited_once, key_taken, own_event,
}
use usb_uefi_firmware.Platform.Event.{loaded_image_guid, opened, allocated, memory_map, History}
use usb_uefi_firmware.Platform.Services.{Platform}
use usb_uefi_firmware.Platform.Status.{status_laws}
use usb_uefi_firmware.Uefi.Cpu.{detect_cpu_information}
use usb_uefi_firmware.Uefi.Interface.{
  gather_versions, gather_system_information, initialize_boot_services_wrappers,
  uefi_interface_init, uefi_interface_cleanup,
}
use usb_uefi_firmware.Uefi.Memory.{calculate_memory_statistics, gather_memory}
use usb_uefi_firmware.Uefi.Security.{uefi_check_secure_boot, uefi_check_tpm, cache_security}
use usb_uefi_firmware.Uefi.Startup.{SizesDescriptors, gather_memory_lem}
use usb_uefi_firmware.Uefi.State.{zero_system_info, Uefi, set_info}
use usb_uefi_firmware.Usb.Opened.{SameUsb}

module _ (p : Platform) (x : ℕ) where
  gather_memory-SameUsb :
      (s : Uefi) (h : History) → SizesDescriptors p → SameUsb x h (gather_memory p s h).2
  unfolding gather_memory calculate_memory_statistics
  gather_memory-SameUsb s h sizes =
      let sized = p.get_memory_map h 0 null in
      let asked = memory_map null ∷ h in
      let buffer = p.allocate_pool asked sized.map_size in
      let given = allocated sized.map_size buffer ∷ asked in
      ground (status_laws, sizes given sized.map_size buffer)

  cache_security-SameUsb :
      (stack : ℕ) (s : Uefi) (h : History) → SameUsb x h (cache_security p stack s h).2
  unfolding cache_security uefi_check_secure_boot uefi_check_tpm
  cache_security-SameUsb stack s h = ground arith

  gather_system_information-SameUsb :
      (stack : ℕ) (s : Uefi) (h : History)
      → SizesDescriptors p
      → SameUsb x h (gather_system_information p stack s h).2
  unfolding gather_system_information
  gather_system_information-SameUsb stack s h sizes =
      let t = set_info (λ _. gather_versions p zero_system_info) s in
      let (result, u, g) = gather_memory p t h in
      let v = set_info (detect_cpu_information p) u in
      ground (
        arith,
        gather_memory_lem p t h sizes,
        gather_memory-SameUsb t h sizes,
        cache_security-SameUsb stack v g,
      )

  pub uefi_interface_init-SameUsb :
      (stack : ℕ) (s : Uefi) (h : History)
      → SizesDescriptors p
      → SameUsb x h (uefi_interface_init p stack s h).2
  unfolding uefi_interface_init initialize_boot_services_wrappers
  uefi_interface_init-SameUsb stack s h sizes =
      let image = p.open_protocol h p.image_handle loaded_image_guid in
      let g = opened p.image_handle loaded_image_guid image.status ∷ h in
      ground (
        arith,
        gather_system_information-SameUsb stack (record s { loaded_image = image.value }) g sizes,
      )

  pub uefi_interface_cleanup-SameUsb :
      (s : Uefi) (h : History) → SameUsb x h (uefi_interface_cleanup p s h).2
  unfolding uefi_interface_cleanup
  uefi_interface_cleanup-SameUsb s h = ground arith

  pub firmware_loader_init-SameUsb :
      (s : Loader) (h : History) → SameUsb x h (firmware_loader_init p s h).2
  unfolding firmware_loader_init open_file_system
  firmware_loader_init-SameUsb s h = ground arith

  pub firmware_loader_cleanup-SameUsb :
      (s : Loader) (h : History) → SameUsb x h (firmware_loader_cleanup p s h).2
  unfolding firmware_loader_cleanup
  firmware_loader_cleanup-SameUsb s h = ground arith

  pub own_event-SameUsb : (c : OwnCall) (h : History) → SameUsb x h (own_event c ∷ h)
  own_event-SameUsb (timer_created timer) h = ground arith
  own_event-SameUsb (timer_closed timer) h = ground arith
  own_event-SameUsb (timer_armed timer period) h = ground arith
  own_event-SameUsb waited_once h = ground arith
  own_event-SameUsb key_taken h = ground arith
