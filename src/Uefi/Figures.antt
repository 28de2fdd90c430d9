-- ===== src/Uefi/Figures.antt =====
-- What GatherSystemInformation of uefi_interface.c writes down: the figures of one memory map and the
-- texts of the processor.
use usb_uefi_firmware.Common.{
  ℕ, zero, suc, ◌+◌, ◌/◌, ◌≤◌, ◌<◌, ◌≡◌, refl, ◌⊎◌, inl, inr, Bool, not, ◌&&◌, ◌∷◌, arith, ◌==◌,
  if◌then◌else◌, null, is_null, Bool-cases, length, u64,
}
use usb_uefi_firmware.Platform.Event.{allocated, memory_map, History}
use usb_uefi_firmware.Platform.Proc.{next, fault}
use usb_uefi_firmware.Platform.Services.{MemoryDescriptor, MemoryMap, Platform}
use usb_uefi_firmware.Platform.Status.{efi_error, is_buffer_too_small}
use usb_uefi_firmware.Uefi.Cpu.{detect_cpu_information}
use usb_uefi_firmware.Uefi.Interface.{gather_versions}
use usb_uefi_firmware.Uefi.Memory.{
  is_available, is_reserved, add_descriptor, statistics_loop, calculate_memory_statistics,
  gather_memory,
}
use usb_uefi_firmware.Uefi.MemoryBag.{
  MemoryBag, bag_of, empty_map, bag_bytes, bag_bytes-empty, calculate_memory_statistics-MemoryBag,
}
use usb_uefi_firmware.Uefi.Processor.{detect_cpu_information_bounds}
use usb_uefi_firmware.Uefi.Security.{uefi_check_secure_boot, uefi_check_tpm, cache_security}
use usb_uefi_firmware.Uefi.State.{SystemInfo, zero_system_info, Uefi, initial_uefi, set_info}
use usb_uefi_firmware.Uefi.Statistics.{anything}

module _ (p : Platform) where
  -- The three memory figures are those of a memory map.
  abbrev pub FiguresOf : MemoryBag → SystemInfo → Type 0
  FiguresOf bag i =
      (i.total_memory ≡ u64 (bag_bytes p anything bag))
      × (i.available_memory ≡ u64 (bag_bytes p is_available bag))
      × (i.reserved_memory ≡ u64 (bag_bytes p is_reserved bag))

  -- An empty map, or one that GetMemoryMap has reported.
  abbrev pub IsReported : MemoryBag → Type 0
  IsReported map =
      (map ≡ empty_map)
      ⊎ ((h : History) × (size : ℕ) × (buffer : ℕ) × (map
            ≡ bag_of buffer (p.get_memory_map h size buffer)))

  abbrev pub HasFigures : SystemInfo → Type 0
  HasFigures i = (map : MemoryBag) × IsReported map × FiguresOf map i

  -- The processor's texts lie inside their arrays, and there are as many threads as cores.
  abbrev pub ProcessorFits : SystemInfo → Type 0
  ProcessorFits i =
      (length i.cpu_vendor < 32)
      × (length i.cpu_family < 64)
      × (i.cpu_cores ≤ 64)
      × (i.cpu_threads ≡ i.cpu_cores)

  no_figures :
      (i : SystemInfo)
      → i.total_memory ≡ 0
      → i.available_memory ≡ 0
      → i.reserved_memory ≡ 0
      → FiguresOf empty_map i
  no_figures i e e' e'' = ground (
    arith,
    bag_bytes-empty p anything,
    bag_bytes-empty p is_available,
    bag_bytes-empty p is_reserved,
  )

  statistics_loop-SameProcessor :
      (descriptor_at : ℕ → MemoryDescriptor) (step entries at : ℕ) (i : SystemInfo)
      → let j = statistics_loop p descriptor_at step entries at i in
        (j.cpu_vendor ≡ i.cpu_vendor)
        × (j.cpu_family ≡ i.cpu_family)
        × (j.cpu_cores ≡ i.cpu_cores)
        × (j.cpu_threads ≡ i.cpu_threads)
  unfolding statistics_loop
  statistics_loop-SameProcessor descriptor_at step zero at i = (refl, refl, refl, refl)
  statistics_loop-SameProcessor descriptor_at step (suc n) at i =
      statistics_loop-SameProcessor descriptor_at step n (at + step)
        (add_descriptor p (descriptor_at at) i)

  gather_memory_result :
      (s : Uefi) (h : History)
      → let sized = p.get_memory_map h 0 null in
        let asked = memory_map null ∷ h in
        let buffer = p.allocate_pool asked sized.map_size in
        let given = allocated sized.map_size buffer ∷ asked in
        let filled = p.get_memory_map given sized.map_size buffer in
        (gather_memory p s h).1 ≡ (
          if is_buffer_too_small sized.status
            && (not (is_null buffer) && not (efi_error filled.status))
          then (calculate_memory_statistics p buffer filled s (memory_map buffer ∷ given)).1
          else s)
  unfolding gather_memory
  gather_memory_result s h = ground arith

  calculate_faults :
      (buffer : ℕ) (m : MemoryMap) (s : Uefi) (h : History)
      → m.descriptor_size ≡ 0
      → (calculate_memory_statistics p buffer m s h).1 ≡ s
  unfolding calculate_memory_statistics
  calculate_faults buffer m s h empty = ground arith

  -- Only the figures change.
  abbrev SameBesides : Uefi → Uefi → Type 0
  SameBesides s t =
      (t.initialized ≡ s.initialized)
      × (t.info.cpu_vendor ≡ s.info.cpu_vendor)
      × (t.info.cpu_family ≡ s.info.cpu_family)
      × (t.info.cpu_cores ≡ s.info.cpu_cores)
      × (t.info.cpu_threads ≡ s.info.cpu_threads)

  calculate-SameBesides :
      (buffer : ℕ) (m : MemoryMap) (s : Uefi) (h : History)
      → SameBesides s (calculate_memory_statistics p buffer m s h).1
  unfolding calculate_memory_statistics
  calculate-SameBesides buffer m s h =
      let entries = m.map_size / m.descriptor_size in
      let i = record (s.info) { total_memory = 0; available_memory = 0; reserved_memory = 0 } in
      ground
        (arith, statistics_loop-SameProcessor m.descriptor_at m.descriptor_size entries buffer i)

  -- The figures are those of some map, and the rest of the information is as in `s`.
  abbrev Measured : Uefi → Uefi → Type 0
  Measured s t = HasFigures t.info × SameBesides s t

  Measured-refl : (s : Uefi) → HasFigures s.info → Measured s s
  Measured-refl s figures = (figures, (refl, refl, refl, refl, refl))

  calculate-Measured :
      (buffer : ℕ) (m : MemoryMap) (s : Uefi) (h : History)
      → IsReported (bag_of buffer m)
      → HasFigures s.info
      → Measured s (calculate_memory_statistics p buffer m s h).1
  calculate-Measured buffer m s h reported figures = elim (Bool-cases (m.descriptor_size == 0)) [
    | inl empty ↦
        rw (calculate_faults buffer m s h (ground (arith, empty))) (Measured-refl s figures)
    | inr sized ↦ (
      (
        bag_of buffer m,
        reported,
        calculate_memory_statistics-MemoryBag p buffer m s h (ground (arith, sized)),
      ),
      calculate-SameBesides buffer m s h,
    )
  ]

  gather_memory-Measured :
      (s : Uefi) (h : History) → HasFigures s.info → Measured s (gather_memory p s h).1
  gather_memory-Measured s h figures =
      let sized = p.get_memory_map h 0 null in
      let asked = memory_map null ∷ h in
      let buffer = p.allocate_pool asked sized.map_size in
      let given = allocated sized.map_size buffer ∷ asked in
      let filled = p.get_memory_map given sized.map_size buffer in
      let reads =
        is_buffer_too_small sized.status
        && (not (is_null buffer) && not (efi_error filled.status)) in
      elim (Bool-cases reads) [
        | inl reading ↦
            rw (gather_memory_result s h, reading)
              (calculate-Measured buffer filled s (memory_map buffer ∷ given)
                (inr (given, sized.map_size, buffer, refl)) figures)
        | inr idle ↦ rw (gather_memory_result s h, idle) (Measured-refl s figures)
      ]

  -- The system information is that of some memory map and of some processor.
  abbrev pub Described : Uefi → Type 0
  Described s = HasFigures s.info × ProcessorFits s.info

  pub gather_versions-Described :
      (s : Uefi) → Described (set_info (λ _. gather_versions p zero_system_info) s)
  unfolding gather_versions
  gather_versions-Described s = (
    (empty_map, inl refl, no_figures (gather_versions p zero_system_info) refl refl refl),
    ground arith,
  )

  pub gather_memory_ends :
      (s : Uefi) (h : History)
      → ((gather_memory p s h).0 ≡ next tt) ⊎ ((gather_memory p s h).0 ≡ fault)
  unfolding gather_memory calculate_memory_statistics
  gather_memory_ends s h = ground arith

  pub gather_memory-Described :
      (s : Uefi) (h : History)
      → Described s
      → let t = (gather_memory p s h).1 in Described t × (t.initialized ≡ s.initialized)
  gather_memory-Described s h (figures, fits) =
      let (now, same) = gather_memory-Measured s h figures in
      ((now, ground (arith, same, fits)), same.0)

  -- After the processor is read, the texts fit and a core is counted.
  pub detect_cpu_information-Described :
      (s : Uefi)
      → Described s
      → let t = set_info (detect_cpu_information p) s in Described t × (1 ≤ t.info.cpu_cores)
  unfolding detect_cpu_information
  detect_cpu_information-Described s (figures, fits) =
      let (vendor, family, counted, few, threads, total) = detect_cpu_information_bounds p s.info in
      ((figures, (vendor, family, few, threads)), counted)

  abbrev pub secured : Bool → Bool → Uefi → Uefi
  secured secure tpm s =
      set_info (λ i. record i { secure_boot_enabled = secure; tpm_present = tpm }) s

  pub cache_security_result :
      (stack : ℕ) (s : Uefi) (h : History)
      → let (result, t, g) = cache_security p stack s h in
        (result ≡ next tt) × (t ≡ secured t.info.secure_boot_enabled t.info.tpm_present s)
  unfolding cache_security uefi_check_secure_boot uefi_check_tpm
  cache_security_result stack s h = ground arith

  pub initial_uefi-Described : Described initial_uefi
  initial_uefi-Described =
      ((empty_map, inl refl, no_figures zero_system_info refl refl refl), ground arith)
