-- ===== src/Flash/Protection.antt =====
-- What the region checks of flash_manager.c decide, byte by byte.
use usb_uefi_firmware.Common.{
  ℕ, ◌+◌, ◌*◌, ◌^◌, ◌≤◌, ◌<◌, String, ◌≡◌, refl, ◌↔◌, ◌⊎◌, inl, Bool, false, ◌&&◌, ◌||◌, List, [],
  ◌∷◌, arith, ltb, leb, if◌then◌else◌, Each, u32, sub32,
}
use usb_uefi_firmware.Flash.Regions.{
  flash_regions, region_end, protection_loop, check_region_write_protection,
}
use usb_uefi_firmware.Flash.State.{FlashRegion}
use usb_uefi_firmware.Platform.Status.{success, write_protected}

-- A region that is not empty and ends within 32 bits.
pub record IsRegion (r : FlashRegion) : Type 0 where
  pub occupied : 0 < r.size
  pub fits : r.start_address + r.size ≤ 2 ^ 32

-- Whether a byte lies in a region, and in a protected one of a list.
abbrev pub covers : FlashRegion → ℕ → Bool
covers r x = leb r.start_address x && ltb x (r.start_address + r.size)

abbrev pub protected_at : List FlashRegion → ℕ → Bool
protected_at [] x = false
protected_at (r ∷ rs) x = (r.write_protected && covers r x) || protected_at rs x

-- How many regions hold a byte.
abbrev pub regions_at : List FlashRegion → ℕ → ℕ
regions_at [] x = 0
regions_at (r ∷ rs) x = (if covers r x then 1 else 0) + regions_at rs x

pub region_end_lem : (r : FlashRegion) → IsRegion r → region_end r + 1 ≡ r.start_address + r.size
unfolding region_end
region_end_lem r v = omega (arith, v.occupied, v.fits)

-- No byte of the range a .. b lies in a protected region.
abbrev pub Unprotected : List FlashRegion → ℕ → ℕ → Type 0
Unprotected rs a b = (x : ℕ) → a ≤ x → x ≤ b → protected_at rs x ≡ false

protection_loop_sound :
    (rs : List FlashRegion) (a b x : ℕ)
    → Each IsRegion rs
    → protection_loop a b rs ≡ success
    → a ≤ x
    → x ≤ b
    → protected_at rs x ≡ false
unfolding protection_loop
protection_loop_sound [] a b x v h p q = refl
protection_loop_sound (r ∷ rs) a b x v h p q =
    ground (arith, region_end_lem r v.0, protection_loop_sound rs a b x v.1)

protection_loop_complete :
    (rs : List FlashRegion) (a b : ℕ)
    → Each IsRegion rs
    → a ≤ b
    → Unprotected rs a b
    → protection_loop a b rs ≡ success
unfolding protection_loop
protection_loop_complete [] a b v ab u = refl
protection_loop_complete (r ∷ rs) a b v ab u = ground (
  arith,
  region_end_lem r v.0,
  u a,
  u r.start_address,
  protection_loop_complete rs a b v.1 ab (λ x p q. ground (arith, u x p q)),
)

-- Where every region is not empty and ends within 32 bits, the check passes a range that is not
-- empty and ends within 32 bits exactly when none of its bytes lies in a protected region.
pub check_region_write_protection-Unprotected :
    (rs : List FlashRegion) (address size : ℕ)
    → Each IsRegion rs
    → 0 < size
    → address + size ≤ 2 ^ 32
    → (check_region_write_protection rs address size ≡ success)
      ↔ ((x : ℕ) → address ≤ x → x < address + size → protected_at rs x ≡ false)
unfolding check_region_write_protection
check_region_write_protection-Unprotected rs address size v pos fit = (
  λ h x p q.
      protection_loop_sound rs address (sub32 (u32 (address + size)) 1) x v h p (omega arith),
  λ u.
      protection_loop_complete rs address (sub32 (u32 (address + size)) 1) v (omega arith)
        (λ x p q. u x p (omega arith)),
)

-- A refused write gets EFI_WRITE_PROTECTED and nothing else.
pub check_region_write_protection_cases :
    (rs : List FlashRegion) (address last : ℕ)
    → (protection_loop address last rs ≡ success)
      ⊎ (protection_loop address last rs ≡ write_protected)
unfolding protection_loop
check_region_write_protection_cases [] address last = inl refl
check_region_write_protection_cases (r ∷ rs) address last =
    ground (arith, check_region_write_protection_cases rs address last)

-- The table of a device between 256 KB and 4 GB is well formed.
pub flash_regions-IsRegion :
    (copy : String → String) (total : ℕ)
    → 256 * 1024 < total
    → total ≤ 2 ^ 32
    → Each IsRegion (flash_regions copy total)
unfolding flash_regions
flash_regions-IsRegion copy total lo hi = omega arith

-- The regions of a device above 256 KB and up to 4 GB tile it: every byte of the device lies in
-- exactly one, and no other byte lies in any.
pub flash_regions_tile :
    (copy : String → String) (total x : ℕ)
    → 256 * 1024 < total
    → total ≤ 2 ^ 32
    → regions_at (flash_regions copy total) x ≡ (if ltb x total then 1 else 0)
unfolding flash_regions
flash_regions_tile copy total x lo hi = ground arith

-- The protected bytes of a device above 256 KB and up to 4 GB are its first and its last 64 KB.
pub protected_at-flash_regions :
    (copy : String → String) (total x : ℕ)
    → 256 * 1024 < total
    → total ≤ 2 ^ 32
    → protected_at (flash_regions copy total) x
      ≡ (ltb x (64 * 1024) || (leb (sub32 (u32 total) (64 * 1024)) x && ltb x total))
unfolding flash_regions
protected_at-flash_regions copy total x lo hi = ground arith
