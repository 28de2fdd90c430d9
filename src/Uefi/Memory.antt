-- ===== src/Uefi/Memory.antt =====
-- CalculateMemoryStatistics, and the part of GatherSystemInformation that reads the memory map.
use usb_uefi_firmware.Common.{
  ℕ, zero, suc, ◌+◌, ◌*◌, ◌/◌, Bool, true, false, not, ◌==◌, if◌then◌else◌, null, is_null, u64,
}
use usb_uefi_firmware.Platform.Event.{allocated, freed, memory_map}
use usb_uefi_firmware.Platform.Proc.{Proc, ◌>>=◌, ◌>>◌, modify, emit, invoke, when, divide_fault}
use usb_uefi_firmware.Platform.Services.{
  MemoryType, conventional, boot_services_code, boot_services_data, reserved, runtime_services_code,
  runtime_services_data, unusable, acpi_reclaim, acpi_nvs, MemoryDescriptor, MemoryMap, Platform,
}
use usb_uefi_firmware.Platform.Status.{efi_error, is_buffer_too_small}
use usb_uefi_firmware.Uefi.State.{SystemInfo, Uefi, set_info}

-- The `switch` on the type of a descriptor: which of the two sums its pages are added to.
unfoldable pub is_available : MemoryType → Bool
is_available conventional = true
is_available boot_services_code = true
is_available boot_services_data = true
is_available _ = false

unfoldable pub is_reserved : MemoryType → Bool
is_reserved reserved = true
is_reserved runtime_services_code = true
is_reserved runtime_services_data = true
is_reserved unusable = true
is_reserved acpi_reclaim = true
is_reserved acpi_nvs = true
is_reserved _ = false

module _ (p : Platform) where
  -- One round of the loop.
  abbrev pub add_descriptor : MemoryDescriptor → SystemInfo → SystemInfo
  add_descriptor d i =
      let size = u64 (d.number_of_pages * p.page_size) in
      record i {
        total_memory = u64 (i.total_memory + size);
        available_memory =
            if is_available d.type then u64 (i.available_memory + size) else i.available_memory;
        reserved_memory =
            if is_reserved d.type then u64 (i.reserved_memory + size) else i.reserved_memory;
      }

  -- The loop over the entries left, at the address of the next.
  unfoldable pub statistics_loop : (ℕ → MemoryDescriptor) → ℕ → ℕ → ℕ → SystemInfo → SystemInfo
  statistics_loop descriptor_at step zero at i = i
  statistics_loop descriptor_at step (suc entries) at i =
      statistics_loop descriptor_at step entries (at + step) (add_descriptor (descriptor_at at) i)

  -- `NumEntries = MapSize / DescriptorSize` faults at a descriptor size of 0.
  unfoldable pub calculate_memory_statistics : ℕ → MemoryMap → Proc Uefi (Unit {0})
  calculate_memory_statistics buffer m =
      if m.descriptor_size == 0
      then divide_fault
      else modify (
          set_info (λ i.
            statistics_loop m.descriptor_at m.descriptor_size (m.map_size / m.descriptor_size)
              buffer (record i { total_memory = 0; available_memory = 0; reserved_memory = 0 })))

  -- The first call asks for the size, the second fills the buffer; any failure leaves zeros.
  unfoldable pub gather_memory : Proc Uefi (Unit {0})
  gather_memory = do
    sized ← invoke (λ h. p.get_memory_map h 0 null) (λ _. memory_map null)
    when (is_buffer_too_small sized.status) (do
      buffer ←
          invoke (λ h. p.allocate_pool h sized.map_size)
            (λ pointer. allocated sized.map_size pointer)
      when (not (is_null buffer)) (do
        filled ← invoke (λ h. p.get_memory_map h sized.map_size buffer) (λ _. memory_map buffer)
        when (not (efi_error filled.status)) (calculate_memory_statistics buffer filled)
        emit (freed buffer)))
