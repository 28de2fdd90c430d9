-- ===== src/Uefi/Statistics.antt =====
-- What CalculateMemoryStatistics computes of a memory map.
use usb_uefi_firmware.Common.{
  ℕ, zero, suc, ◌+◌, ◌*◌, ◌/◌, ◌^◌, ◌≤◌, ◌<◌, ◌≡◌, refl, Bool, true, false, ◌&&◌, arith,
  if◌then◌else◌, u64,
}
use usb_uefi_firmware.Platform.Event.{History}
use usb_uefi_firmware.Platform.Proc.{next}
use usb_uefi_firmware.Platform.Services.{
  MemoryType, conventional, MemoryDescriptor, MemoryMap, Platform,
}
use usb_uefi_firmware.Uefi.Memory.{
  is_available, is_reserved, add_descriptor, statistics_loop, calculate_memory_statistics,
}
use usb_uefi_firmware.Uefi.State.{SystemInfo, Uefi}

abbrev pub anything : MemoryType → Bool
anything type = true

module _ (p : Platform) where
  -- The bytes of the descriptors of the chosen types, without wrap of the sum.
  abbrev pub bytes_where : (MemoryType → Bool) → (ℕ → MemoryDescriptor) → ℕ → ℕ → ℕ → ℕ
  bytes_where chosen descriptor_at step zero at = 0
  bytes_where chosen descriptor_at step (suc entries) at =
      (if chosen (descriptor_at at).type
        then u64 ((descriptor_at at).number_of_pages * p.page_size)
        else 0)
      + bytes_where chosen descriptor_at step entries (at + step)

  -- The three sums of the system information fit their UINT64 fields.
  abbrev Fits : SystemInfo → Type 0
  Fits i = (i.total_memory < 2 ^ 64) × (i.available_memory < 2 ^ 64) × (i.reserved_memory < 2 ^ 64)

  pub statistics_loop_lem :
      (descriptor_at : ℕ → MemoryDescriptor) (step entries at : ℕ) (i : SystemInfo)
      → Fits i
      → let j = statistics_loop p descriptor_at step entries at i in
        (j.total_memory ≡ u64 (i.total_memory + bytes_where anything descriptor_at step entries at))
        × (j.available_memory
            ≡ u64 (i.available_memory + bytes_where is_available descriptor_at step entries at))
        × (j.reserved_memory
            ≡ u64 (i.reserved_memory + bytes_where is_reserved descriptor_at step entries at))
  unfolding statistics_loop
  statistics_loop_lem descriptor_at step zero at i fits = omega arith
  statistics_loop_lem descriptor_at step (suc entries) at i fits = ground (
    arith,
    statistics_loop_lem descriptor_at step entries (at + step)
        (add_descriptor p (descriptor_at at) i),
  )

  -- No type is counted twice.
  disjoint : (t : MemoryType) → (is_available t && is_reserved t) ≡ false
  unfolding is_available is_reserved
  disjoint conventional = refl
  disjoint _ = refl

  bytes_where_split :
      (descriptor_at : ℕ → MemoryDescriptor) (step entries at : ℕ)
      → bytes_where is_available descriptor_at step entries at
          + bytes_where is_reserved descriptor_at step entries at
        ≤ bytes_where anything descriptor_at step entries at
  bytes_where_split descriptor_at step zero at = omega arith
  bytes_where_split descriptor_at step (suc entries) at = ground (
    arith,
    disjoint (descriptor_at at).type,
    bytes_where_split descriptor_at step entries (at + step),
  )

  -- For a map whose bytes fit 64 bits, the three figures are the exact sums over the whole map, and
  -- available and reserved memory together do not exceed the total.
  pub calculate_memory_statistics_exact :
      (buffer : ℕ) (m : MemoryMap) (s : Uefi) (h : History)
      → 0 < m.descriptor_size
      → let entries = m.map_size / m.descriptor_size in
        bytes_where anything m.descriptor_at m.descriptor_size entries buffer < 2 ^ 64
        → let (result, t, g) = calculate_memory_statistics p buffer m s h in
          (result ≡ next tt)
          × (t.info.total_memory
              ≡ bytes_where anything m.descriptor_at m.descriptor_size entries buffer)
          × (t.info.available_memory
              ≡ bytes_where is_available m.descriptor_at m.descriptor_size entries buffer)
          × (t.info.reserved_memory
              ≡ bytes_where is_reserved m.descriptor_at m.descriptor_size entries buffer)
          × (t.info.available_memory + t.info.reserved_memory ≤ t.info.total_memory)
  unfolding calculate_memory_statistics
  calculate_memory_statistics_exact buffer m s h sized fits =
      let entries = m.map_size / m.descriptor_size in
      let i = record (s.info) { total_memory = 0; available_memory = 0; reserved_memory = 0 } in
      ground (
        arith,
        statistics_loop_lem m.descriptor_at m.descriptor_size entries buffer i,
        bytes_where_split m.descriptor_at m.descriptor_size entries buffer,
      )
