-- ===== src/Uefi/MemoryBag.antt =====
-- CalculateMemoryStatistics on the memory map as a multiset: a map without the order of its
-- descriptors, which GetMemoryMap does not promise, and without the place of the buffer.
use usb_uefi_firmware.Common.{
  ℕ, zero, suc, ◌+◌, ◌*◌, ◌/◌, ◌<◌, ◌≡◌, refl, ◌∙◌, Bool, List, [], ◌∷◌, arith, if◌then◌else◌, u64,
}
use usb_uefi_firmware.Platform.Event.{History}
use usb_uefi_firmware.Platform.Services.{MemoryType, MemoryDescriptor, MemoryMap, Platform}
use usb_uefi_firmware.Uefi.Memory.{is_available, is_reserved, calculate_memory_statistics}
use usb_uefi_firmware.Uefi.State.{Uefi}
use usb_uefi_firmware.Uefi.Statistics.{anything, bytes_where, statistics_loop_lem}
use mathlib.Core.List.{Perm, Permᴰ}
use mathlib.Core.Logic.{∥∥₁_elim}
use mathlib.Core.Quot
use mathlib.Core.Quot.{Quot}
use native.Mathlib.Nat.{ℕ_set}

-- The descriptors that lie from an address on, one each `step` bytes.
abbrev descriptors : (ℕ → MemoryDescriptor) → ℕ → ℕ → ℕ → List MemoryDescriptor
descriptors descriptor_at step zero at = []
descriptors descriptor_at step (suc entries) at =
    descriptor_at at ∷ descriptors descriptor_at step entries (at + step)

abbrev pub MemoryBag : Type 0
MemoryBag = Quot (Perm {A = MemoryDescriptor})

-- The memory map in a buffer.
pub bag_of : ℕ → MemoryMap → MemoryBag
bag_of buffer m =
    Quot.mk (descriptors m.descriptor_at m.descriptor_size (m.map_size / m.descriptor_size) buffer)

pub empty_map : MemoryBag
empty_map = Quot.mk []

module _ (p : Platform) where
  abbrev bytes_in : (MemoryType → Bool) → List MemoryDescriptor → ℕ
  bytes_in chosen [] = 0
  bytes_in chosen (d ∷ ds) =
      (if chosen d.type then u64 (d.number_of_pages * p.page_size) else 0) + bytes_in chosen ds

  bytes_in-Perm :
      (chosen : MemoryType → Bool) {xs ys : List MemoryDescriptor}
      → Permᴰ xs ys
      → bytes_in chosen xs ≡ bytes_in chosen ys
  bytes_in-Perm chosen Permᴰ.nil = refl
  bytes_in-Perm chosen (Permᴰ.cons e d) = ground (arith, bytes_in-Perm chosen d)
  bytes_in-Perm chosen (Permᴰ.swap e e') = ground arith
  bytes_in-Perm chosen (Permᴰ.trans d d') = bytes_in-Perm chosen d ∙ bytes_in-Perm chosen d'

  -- The bytes of the chosen types in a multiset of descriptors.
  pub bag_bytes : (MemoryType → Bool) → MemoryBag → ℕ
  bag_bytes chosen =
      Quot.lift ℕ_set (bytes_in chosen)
        (λ xs ys h. ∥∥₁_elim h (ℕ_set _ _) (λ d. bytes_in-Perm chosen d))

  pub bag_bytes-empty : (chosen : MemoryType → Bool) → bag_bytes chosen empty_map ≡ 0
  unfolding bag_bytes empty_map
  bag_bytes-empty chosen = refl

  bytes_where-bag :
      (chosen : MemoryType → Bool) (descriptor_at : ℕ → MemoryDescriptor) (step entries at : ℕ)
      → bytes_where p chosen descriptor_at step entries at
        ≡ bytes_in chosen (descriptors descriptor_at step entries at)
  bytes_where-bag chosen descriptor_at step zero at = refl
  bytes_where-bag chosen descriptor_at step (suc n) at =
      omega (arith, bytes_where-bag chosen descriptor_at step n (at + step))

  -- The three figures depend only on the multiset of descriptors, not on their order or on the
  -- buffer: each is the sum of the bytes of its types over the multiset, modulo 2^64.
  pub calculate_memory_statistics-MemoryBag :
      (buffer : ℕ) (m : MemoryMap) (s : Uefi) (h : History)
      → 0 < m.descriptor_size
      → let t = (calculate_memory_statistics p buffer m s h).1 in
        let bag = bag_of buffer m in
        (t.info.total_memory ≡ u64 (bag_bytes anything bag))
        × (t.info.available_memory ≡ u64 (bag_bytes is_available bag))
        × (t.info.reserved_memory ≡ u64 (bag_bytes is_reserved bag))
  unfolding calculate_memory_statistics bag_of bag_bytes
  calculate_memory_statistics-MemoryBag buffer m s h sized =
      let entries = m.map_size / m.descriptor_size in
      let i = record (s.info) { total_memory = 0; available_memory = 0; reserved_memory = 0 } in
      ground (
        arith,
        statistics_loop_lem p m.descriptor_at m.descriptor_size entries buffer i,
        bytes_where-bag anything m.descriptor_at m.descriptor_size entries buffer,
        bytes_where-bag is_available m.descriptor_at m.descriptor_size entries buffer,
        bytes_where-bag is_reserved m.descriptor_at m.descriptor_size entries buffer,
      )
