-- ===== src/Flash/Geometry.antt =====
-- The geometry that flash_manager_init of flash_manager.c records of a device, and the calls of the
-- device that touch a byte.
use usb_uefi_firmware.Common.{
  ℕ, ◌+◌, ◌*◌, ◌/◌, ◌^◌, ◌≤◌, ◌<◌, ◌≡◌, Bool, true, false, ◌&&◌, ◌||◌, [], ◌∷◌, arith, ltb, leb,
  is_null,
}
use usb_uefi_firmware.Flash.Lifecycle.{open_fvb_lem, read_attributes_lem, detect_flash_device_lem}
use usb_uefi_firmware.Flash.Manager.{
  open_fvb, default_info, read_attributes, read_geometry, detect_flash_device,
  initialize_flash_regions, flash_manager_init, flash_manager_cleanup,
}
use usb_uefi_firmware.Flash.State.{Flash, zero_info}
use usb_uefi_firmware.Platform.Event.{block_written, block_erased, History}
use usb_uefi_firmware.Platform.Services.{Platform}
use usb_uefi_firmware.Platform.Status.{efi_error, status_laws}
use native.Mathlib.Nat.{div-mul-le_self, mul_comm, lt_of_mul-lt-mul_right, mul-le-mul_right}

-- Whether a write or an erase of the history touches a byte of a device with sectors of `sector`
-- bytes.
abbrev pub touches : ℕ → ℕ → History → Bool
touches sector x [] = false
touches sector x (block_written fvb lba at size buffer ∷ h) =
    (leb (lba * sector + at) x && ltb x (lba * sector + at + size)) || touches sector x h
touches sector x (block_erased fvb lba n ∷ h) =
    (leb (lba * sector) x && ltb x ((lba + n) * sector)) || touches sector x h
touches sector x (_ ∷ h) = touches sector x h

-- The device always reports the same geometry, of `count` sectors, `per_region` of which are 64 KB;
-- it has between 256 KB and 4 GB.
pub record HasGeometry (p : Platform) (sector count per_region : ℕ) : Type 0 where
  pub answers : (g : History) (fvb : ℕ) → efi_error (p.get_block_size g fvb).status ≡ false
  pub sectors : (g : History) (fvb : ℕ) → (p.get_block_size g fvb).size ≡ sector
  pub counts : (g : History) (fvb : ℕ) → (p.get_block_size g fvb).count ≡ count
  pub whole : per_region * sector ≡ 64 * 1024
  pub large : 256 * 1024 < sector * count
  pub small : sector * count ≤ 2 ^ 32

-- A manager that runs on a device has recorded that geometry.
abbrev pub Records : ℕ → ℕ → Flash → Type 0
Records sector count s =
    s.initialized ≡ true
    → is_null s.fvb_protocol ≡ false
    → (s.info.sector_size ≡ sector) × (s.info.total_size ≡ sector * count)

module _ (p : Platform) (sector count per_region : ℕ)
    (geometry : HasGeometry p sector count per_region) where
  pub sector_bound : (0 < sector) × (sector ≤ 64 * 1024)
  sector_bound = grind (arith, geometry.whole)

  read_geometry-Records :
      (fvb : ℕ) (s : Flash) (h : History)
      → ((read_geometry p fvb s h).1.info.sector_size ≡ sector)
        × ((read_geometry p fvb s h).1.info.total_size ≡ sector * count)
  unfolding read_geometry
  read_geometry-Records fvb s h = ground (
    arith,
    geometry.answers h fvb,
    geometry.sectors h fvb,
    geometry.counts h fvb,
    geometry.small,
    sector_bound,
  )

  -- An address of a sector below the last 64 KB, with the end of its sector.
  pub sector_below :
      (address : ℕ)
      → address + 64 * 1024 < sector * count
      → (address / sector + 1) * sector + 64 * 1024 ≤ sector * count
  sector_below address below =
      let q = address / sector in
      let low : q * sector ≤ address = div-mul-le_self address sector in
      let spread : (q + per_region) * sector ≡ q * sector + 64 * 1024 =
        grind (arith, geometry.whole) in
      let turned : count * sector ≡ sector * count = mul_comm count sector in
      let less : q + per_region < count = lt_of_mul-lt-mul_right sector (omega arith) in
      let most : (q + 1 + per_region) * sector ≤ count * sector =
        mul-le-mul_right sector (omega arith) in
      let apart : (q + 1 + per_region) * sector ≡ (q + 1) * sector + 64 * 1024 =
        grind (arith, geometry.whole) in
      omega arith

  touches-open_fvb :
      (x : ℕ) (s : Flash) (h : History) → touches sector x (open_fvb p s h).2 ≡ touches sector x h
  unfolding open_fvb
  touches-open_fvb x s h = ground arith

  detect_flash_device-Records :
      (s : Flash) (h : History)
      → is_null s.fvb_protocol ≡ false
      → ((detect_flash_device p s h).1.info.sector_size ≡ sector)
        × ((detect_flash_device p s h).1.info.total_size ≡ sector * count)
  unfolding detect_flash_device
  detect_flash_device-Records s h present =
      let t = record s { info = default_info p } in
      let asked = read_attributes p s.fvb_protocol t h in
      ground (
        arith,
        read_attributes_lem p s.fvb_protocol t h,
        read_geometry-Records s.fvb_protocol asked.1 asked.2,
      )

  touches-detect_flash_device :
      (x : ℕ) (s : Flash) (h : History)
      → touches sector x (detect_flash_device p s h).2 ≡ touches sector x h
  unfolding detect_flash_device read_attributes read_geometry
  touches-detect_flash_device x s h = ground arith

  pub init-Records :
      (s : Flash) (h : History)
      → s.initialized ≡ false
      → Records sector count (flash_manager_init p s h).1
  unfolding flash_manager_init initialize_flash_regions
  init-Records s h idle started present =
      let t = record s { info = zero_info; regions = [] } in
      let found = open_fvb p t h in
      ground (
        status_laws,
        open_fvb_lem p t h,
        detect_flash_device_lem p found.1 found.2,
        detect_flash_device-Records found.1 found.2,
      )

  pub touches-init :
      (x : ℕ) (s : Flash) (h : History)
      → touches sector x (flash_manager_init p s h).2 ≡ touches sector x h
  unfolding flash_manager_init initialize_flash_regions
  touches-init x s h =
      let t = record s { info = zero_info; regions = [] } in
      let found = open_fvb p t h in
      ground (
        status_laws,
        open_fvb_lem p t h,
        touches-open_fvb x t h,
        detect_flash_device_lem p found.1 found.2,
        touches-detect_flash_device x found.1 found.2,
      )

  pub touches-cleanup :
      (x : ℕ) (s : Flash) (h : History)
      → (touches sector x (flash_manager_cleanup p s h).2 ≡ touches sector x h)
        × Records sector count (flash_manager_cleanup p s h).1
  unfolding flash_manager_cleanup
  touches-cleanup x s h = (ground arith, λ started present. ground arith)
