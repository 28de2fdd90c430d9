-- ===== src/Uefi/Startup.antt =====
-- uefi_interface_init, the cached security features, and uefi_interface_cleanup.
use usb_uefi_firmware.Common.{
  ℕ, ◌<◌, ◌≡◌, true, false, not, ◌&&◌, none, ◌∷◌, arith, ◌==◌, if◌then◌else◌, null, is_null,
}
use usb_uefi_firmware.Platform.Event.{
  loaded_image_guid, tcg2_guid, opened, closed, allocated, memory_map, variable_read, History,
}
use usb_uefi_firmware.Platform.Proc.{next, returned}
use usb_uefi_firmware.Platform.Services.{MemoryMap, Platform}
use usb_uefi_firmware.Platform.Status.{
  success, invalid_parameter, not_ready, efi_error, status_laws,
}
use usb_uefi_firmware.Uefi.Cpu.{detect_cpu_information}
use usb_uefi_firmware.Uefi.Interface.{
  gather_versions, gather_system_information, initialize_boot_services_wrappers,
  uefi_interface_init, uefi_interface_cleanup, uefi_get_system_info, uefi_get_memory_info,
  uefi_detect_amd_platform,
}
use usb_uefi_firmware.Uefi.Memory.{calculate_memory_statistics, gather_memory}
use usb_uefi_firmware.Uefi.Security.{uefi_check_secure_boot, uefi_check_tpm, cache_security}
use usb_uefi_firmware.Uefi.State.{zero_system_info, Uefi, set_info}

module _ (p : Platform) where
  -- GetMemoryMap reports descriptors of some size.
  abbrev pub SizesDescriptors : Type 0
  SizesDescriptors =
      (g : History) (size buffer : ℕ) → 0 < (p.get_memory_map g size buffer).descriptor_size

  calculate_lem :
      (buffer : ℕ) (m : MemoryMap) (s : Uefi) (h : History)
      → 0 < m.descriptor_size
      → let (result, t, g) = calculate_memory_statistics p buffer m s h in
        (result ≡ next tt) × (t.initialized ≡ s.initialized) × (t.loaded_image ≡ s.loaded_image)
  unfolding calculate_memory_statistics
  calculate_lem buffer m s h sized = ground arith

  pub gather_memory_lem :
      (s : Uefi) (h : History)
      → SizesDescriptors
      → let (result, t, g) = gather_memory p s h in
        (result ≡ next tt) × (t.initialized ≡ s.initialized) × (t.loaded_image ≡ s.loaded_image)
  unfolding gather_memory
  gather_memory_lem s h sizes =
      let sized = p.get_memory_map h 0 null in
      let asked = memory_map null ∷ h in
      let buffer = p.allocate_pool asked sized.map_size in
      let given = allocated sized.map_size buffer ∷ asked in
      let filled = p.get_memory_map given sized.map_size buffer in
      ground (
        arith,
        sizes given sized.map_size buffer,
        calculate_lem buffer filled s (memory_map buffer ∷ given),
      )

  -- The two features end up in the system information: Secure Boot is on exactly if its variable is
  -- read without error and is not 0, and a TPM is present exactly if its protocol is found.
  pub cache_security_lem :
      (stack : ℕ) (s : Uefi) (h : History)
      → is_null stack ≡ false
      → let secure = p.get_secure_boot h in
        let tpm =
          p.locate_protocol
            (if is_null p.runtime_services then h else variable_read ∷ h)
            tcg2_guid in
        let (result, t, g) = cache_security p stack s h in
        (result ≡ next tt)
        × (t.initialized ≡ s.initialized)
        × (t.loaded_image ≡ s.loaded_image)
        × (t.info.secure_boot_enabled ≡ (
            not (is_null p.runtime_services)
            && (not (efi_error secure.status) && not (secure.value == 0))))
        × (t.info.tpm_present ≡ (
            not (is_null p.boot_services)
            && (not (efi_error tpm.status) && not (is_null tpm.value))))
  unfolding cache_security uefi_check_secure_boot uefi_check_tpm
  cache_security_lem stack s h local = ground status_laws

  gather_lem :
      (stack : ℕ) (s : Uefi) (h : History)
      → is_null stack ≡ false
      → SizesDescriptors
      → let (result, t, g) = gather_system_information p stack s h in
        (result ≡ returned success)
        × (t.initialized ≡ s.initialized)
        × (t.loaded_image ≡ s.loaded_image)
  unfolding gather_system_information
  gather_lem stack s h local sizes =
      let t = set_info (λ _. gather_versions p zero_system_info) s in
      let (result, u, g) = gather_memory p t h in
      let v = set_info (detect_cpu_information p) u in
      ground (arith, gather_memory_lem t h sizes, cache_security_lem stack v g local)

  -- Starting an idle interface, where GetMemoryMap reports descriptors of some size: only a loaded
  -- image protocol that does not open or missing boot services keep it from running, and give the
  -- status; no failure to read memory, processor, Secure Boot or TPM does.
  pub uefi_interface_init_cases :
      (stack : ℕ) (s : Uefi) (h : History)
      → s.initialized ≡ false
      → is_null stack ≡ false
      → SizesDescriptors
      → let image = p.open_protocol h p.image_handle loaded_image_guid in
        let (result, t, g) = uefi_interface_init p stack s h in
        (result
          ≡ returned (
              if efi_error image.status
              then image.status
              else if is_null p.boot_services
              then not_ready
              else success))
        × (t.initialized ≡ (not (efi_error image.status) && not (is_null p.boot_services)))
        × (t.loaded_image ≡ image.value)
  unfolding uefi_interface_init initialize_boot_services_wrappers
  uefi_interface_init_cases stack s h idle local sizes =
      let image = p.open_protocol h p.image_handle loaded_image_guid in
      let g = opened p.image_handle loaded_image_guid image.status ∷ h in
      ground (status_laws, gather_lem stack (record s { loaded_image = image.value }) g local sizes)

  -- A cleanup of a running interface succeeds and closes the image if it was open; the interface
  -- then refuses the three getters.
  pub uefi_interface_cleanup_stops :
      (out out' : ℕ) (s : Uefi) (h : History)
      → s.initialized ≡ true
      → is_null out ≡ false
      → is_null out' ≡ false
      → let (result, t, g) = uefi_interface_cleanup p s h in
        (result ≡ returned success)
        × (t.initialized ≡ false)
        × (t.loaded_image ≡ null)
        × (g ≡ (if is_null s.loaded_image then h else closed p.image_handle loaded_image_guid ∷ h))
        × (uefi_get_system_info p out t ≡ (invalid_parameter, none))
        × (uefi_get_memory_info p out out' t ≡ (not_ready, none))
        × (uefi_detect_amd_platform p out t ≡ (not_ready, none))
  unfolding uefi_interface_cleanup uefi_get_system_info uefi_get_memory_info
      uefi_detect_amd_platform
  uefi_interface_cleanup_stops out out' s h running given given' = ground arith
