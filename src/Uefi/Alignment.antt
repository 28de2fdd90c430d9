-- ===== src/Uefi/Alignment.antt =====
-- What ALIGN_UP and AllocateAlignedMemory give for an alignment that is a power of two.
use usb_uefi_firmware.Common.{
  ℕ, zero, suc, ◌+◌, ◌-◌, ◌*◌, ◌/◌, ◌%◌, ◌^◌, ◌≤◌, ◌<◌, bit_and, ◌≡◌, ap, ◌∙◌, false, none, some,
  ◌∷◌, arith, ◌==◌, if◌then◌else◌, null, is_null, u64, sub64,
}
use usb_uefi_firmware.Common.Bits.{pow_pos, bit_and-mask, bit_and-high_mask}
use usb_uefi_firmware.Platform.Event.{Event, allocated, freed, History}
use usb_uefi_firmware.Platform.Proc.{returned}
use usb_uefi_firmware.Platform.Services.{Reply, Platform}
use usb_uefi_firmware.Platform.Status.{success, efi_error}
use usb_uefi_firmware.Uefi.Wrappers.{align_up, allocate_aligned_memory, free_aligned_memory}
use mathlib.Core.Path.{ap₂}
use native.Mathlib.Nat.{pow-suc, mod-eq_of_lt, mod-lt, div-add-mod', pow-le-pow_right, mul-mod_left}

pow_add : (j k m : ℕ) → j + k ≡ m → 2 ^ j * 2 ^ k ≡ 2 ^ m
pow_add j zero m e = let e' : j ≡ m = omega arith in omega (arith, ap (λ (t : ℕ). 2 ^ t) e')
pow_add j (suc k) zero e = absurd (omega arith)
pow_add j (suc k) (suc m) e = omega (
  arith,
  pow-suc 2 k,
  pow-suc 2 m,
  pow_add j k m (omega arith),
  ap (λ (t : ℕ). 2 ^ j * t) (pow-suc 2 k),
)

-- The mask ~(2^k - 1) on 64 bits clears the low k bits.
clear_low : (k j y : ℕ) → j + k ≡ 64 → y < 2 ^ 64 → bit_and y (2 ^ 64 - 2 ^ k) ≡ y / 2 ^ k * 2 ^ k
clear_low k j y e small =
    let whole : 2 ^ j * 2 ^ k ≡ 2 ^ 64 = pow_add j k 64 e in
    let positive : 2 ^ j ≡ (2 ^ j - 1) + 1 = omega (arith, pow_pos j) in
    let mask : 2 ^ 64 - 2 ^ k ≡ (2 ^ j - 1) * 2 ^ k =
      omega (arith, whole, ap (λ (t : ℕ). t * 2 ^ k) positive) in
    let short : y / 2 ^ k < 2 ^ j = grind (arith, whole, div-add-mod' y (2 ^ k)) in
    ap (bit_and y) mask
    ∙ bit_and-high_mask k y (2 ^ j - 1)
    ∙ ap (λ (t : ℕ). t * 2 ^ k) (bit_and-mask j (y / 2 ^ k) ∙ mod-eq_of_lt short)

-- An alignment of 2^k fits a UINTN with a bit to spare.
alignment_fits : (k : ℕ) → k < 64 → 2 ^ k * 2 ≤ 2 ^ 64
alignment_fits k small =
    let wider : 2 ^ suc k ≤ 2 ^ 64 = pow-le-pow_right (omega arith) small in
    omega (arith, wider, pow-suc 2 k)

-- The multiple of 2^k at or next above x.
pub align_up-eq :
    (k x : ℕ) → k < 64 → x + 2 ^ k ≤ 2 ^ 64 → align_up x (2 ^ k) ≡ (x + (2 ^ k - 1)) / 2 ^ k * 2 ^ k
unfolding align_up
align_up-eq k x small fits =
    let ones : sub64 (2 ^ k) 1 ≡ 2 ^ k - 1 = omega (arith, pow_pos k, alignment_fits k small) in
    let sum : u64 (x + sub64 (2 ^ k) 1) ≡ x + (2 ^ k - 1) =
      omega (arith, ones, pow_pos k, alignment_fits k small) in
    let mask : 2 ^ 64 - 1 - sub64 (2 ^ k) 1 ≡ 2 ^ 64 - 2 ^ k = omega (arith, ones, pow_pos k) in
    ap₂ bit_and sum mask
    ∙ clear_low k (64 - k) (x + (2 ^ k - 1)) (omega arith) (omega (arith, pow_pos k))

-- For an alignment of 2^k below 2^64 and an argument that does not wrap, ALIGN_UP gives a multiple
-- of the alignment, at or above its argument, by less than the alignment.
pub align_up_bounds :
    (k x : ℕ)
    → k < 64
    → x + 2 ^ k ≤ 2 ^ 64
    → (x ≤ align_up x (2 ^ k)) × (align_up x (2 ^ k) < x + 2 ^ k) × (align_up x (2 ^ k) % 2 ^ k ≡ 0)
align_up_bounds k x small fits =
    let value = align_up-eq k x small fits in
    let above = mod-lt (x + (2 ^ k - 1)) (pow_pos k) in
    let whole = div-add-mod' (x + (2 ^ k - 1)) (2 ^ k) in
    (
      omega (arith, value, above, whole, pow_pos k),
      omega (arith, value, above, whole, pow_pos k),
      ap (λ (t : ℕ). t % 2 ^ k) value ∙ mul-mod_left ((x + (2 ^ k - 1)) / 2 ^ k) (2 ^ k),
    )

module _ (p : Platform) where
  -- The replies to the two allocations of AllocateAlignedMemory.
  abbrev pub first_reply : ℕ → ℕ → ℕ → History → Reply
  first_reply type size alignment h = p.boot_allocate_pool h type (align_up size alignment)

  abbrev pub pool_event : ℕ → Reply → Event
  pool_event size r = allocated size (if efi_error r.status then null else r.value)

  abbrev pub second_history : ℕ → ℕ → ℕ → History → History
  second_history type size alignment h =
      let first = first_reply type size alignment h in
      freed first.value ∷ (pool_event (align_up size alignment) first ∷ h)

  abbrev pub second_reply : ℕ → ℕ → ℕ → History → Reply
  second_reply type size alignment h =
      p.boot_allocate_pool (second_history type size alignment h) type
        (u64 (align_up size alignment + alignment))

  -- Either the first allocation is aligned and is the result, or it is freed, and the result is the
  -- aligned address at or above a second allocation, which is larger by the alignment; where an
  -- allocation fails, its status is the result and nothing is given out.
  pub allocate_aligned_memory_cases :
      (type size alignment buffer : ℕ) (h : History)
      → is_null buffer ≡ false
      → 0 < size
      → let first = first_reply type size alignment h in
        let second = second_reply type size alignment h in
        let after = second_history type size alignment h in
        let room = align_up size alignment in
        allocate_aligned_memory p type size alignment buffer none h ≡ (
          if efi_error first.status
          then (returned first.status, none, pool_event room first ∷ h)
          else if bit_and first.value (sub64 alignment 1) == 0
          then (returned success, some first.value, pool_event room first ∷ h)
          else if efi_error second.status
          then (returned second.status, none, pool_event (u64 (room + alignment)) second ∷ after)
          else (
            returned success,
            some (align_up second.value alignment),
            pool_event (u64 (room + alignment)) second ∷ after,
          ))
  unfolding allocate_aligned_memory
  allocate_aligned_memory_cases type size alignment buffer h nonnull pos = ground arith

  -- The test `Memory & (Alignment - 1)` is the remainder of the address.
  low_bits_lem : (k x : ℕ) → k < 64 → bit_and x (sub64 (2 ^ k) 1) ≡ x % 2 ^ k
  low_bits_lem k x small =
      let ones : sub64 (2 ^ k) 1 ≡ 2 ^ k - 1 = omega (arith, pow_pos k, alignment_fits k small) in
      ap (bit_and x) ones ∙ bit_and-mask k x

  -- What the caller gets at an alignment of 2^k: an address that is a multiple of it, with `size`
  -- bytes behind it inside the allocation that it comes from.
  abbrev pub IsAlignedBlock : ℕ → ℕ → ℕ → ℕ → ℕ → Type 0
  IsAlignedBlock k size address pointer room =
      (address % 2 ^ k ≡ 0) × (pointer ≤ address) × (address + size ≤ pointer + room)

  -- At an alignment of 2^k, where both allocations succeed and no address wraps, the result is an
  -- aligned block of the first allocation if that is aligned, and of the second otherwise.
  pub allocate_aligned_memory-IsAlignedBlock :
      (type size k buffer : ℕ) (h : History)
      → is_null buffer ≡ false
      → 0 < size
      → k < 64
      → size + 2 ^ k * 2 ≤ 2 ^ 64
      → let first = first_reply type size (2 ^ k) h in
        let second = second_reply type size (2 ^ k) h in
        efi_error first.status ≡ false
        → efi_error second.status ≡ false
        → second.value + 2 ^ k ≤ 2 ^ 64
        → let (result, out, g) = allocate_aligned_memory p type size (2 ^ k) buffer none h in
          let aligned = first.value % 2 ^ k == 0 in
          let address = if aligned then first.value else align_up second.value (2 ^ k) in
          (result ≡ returned success)
          × (out ≡ some address)
          × IsAlignedBlock k size address
              (if aligned then first.value else second.value)
              (if aligned then align_up size (2 ^ k) else u64 (align_up size (2 ^ k) + 2 ^ k))
  allocate_aligned_memory-IsAlignedBlock type size k buffer h nonnull pos small fits ok ok' inside =
      let first = first_reply type size (2 ^ k) h in
      let second = second_reply type size (2 ^ k) h in
      ground (
        arith,
        allocate_aligned_memory_cases type size (2 ^ k) buffer h nonnull pos,
        low_bits_lem k first.value small,
        align_up_bounds k size small (omega arith),
        align_up_bounds k second.value small inside,
      )

  -- At an alignment of 2^k, where both allocations succeed, none is aligned and no address wraps,
  -- the caller gets an address above the one that AllocatePool returned, and FreeAlignedMemory
  -- hands that address to FreePool.
  pub free_aligned_memory_mismatch :
      (type size k buffer : ℕ) (h : History)
      → is_null buffer ≡ false
      → 0 < size
      → k < 64
      → let first = first_reply type size (2 ^ k) h in
        let second = second_reply type size (2 ^ k) h in
        efi_error first.status ≡ false
        → efi_error second.status ≡ false
        → (first.value % 2 ^ k == 0) ≡ false
        → (second.value % 2 ^ k == 0) ≡ false
        → second.value + 2 ^ k ≤ 2 ^ 64
        → let (result, out, g) = allocate_aligned_memory p type size (2 ^ k) buffer none h in
          let address = align_up second.value (2 ^ k) in
          (out ≡ some address)
          × (second.value < address)
          × ((free_aligned_memory p address size out g).2 ≡ freed address ∷ g)
  unfolding free_aligned_memory
  free_aligned_memory_mismatch type size k buffer h nonnull pos small ok ok' odd odd' inside =
      let first = first_reply type size (2 ^ k) h in
      let second = second_reply type size (2 ^ k) h in
      ground (
        arith,
        allocate_aligned_memory_cases type size (2 ^ k) buffer h nonnull pos,
        low_bits_lem k first.value small,
        align_up_bounds k second.value small inside,
      )
