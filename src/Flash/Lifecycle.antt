-- ===== src/Flash/Lifecycle.antt =====
-- flash_manager_init and flash_manager_cleanup of flash_manager.c.
use usb_uefi_firmware.Common.{
  ℕ, ◌^◌, ◌<◌, ◌≡◌, refl, ◌⊎◌, inl, inr, true, false, [], ◌∷◌, arith, if◌then◌else◌, is_null,
  Bool-cases,
}
use usb_uefi_firmware.Flash.Manager.{
  open_fvb, default_info, read_attributes, read_geometry, detect_flash_device,
  initialize_flash_regions, flash_manager_init, flash_manager_cleanup,
}
use usb_uefi_firmware.Flash.Regions.{flash_regions}
use usb_uefi_firmware.Flash.State.{Flash, zero_info, initial_flash}
use usb_uefi_firmware.Platform.Event.{firmware_volume_block_guid, located, closed, History}
use usb_uefi_firmware.Platform.Proc.{next, returned}
use usb_uefi_firmware.Platform.Services.{Platform}
use usb_uefi_firmware.Platform.Status.{success, already_started, efi_error, status_laws}

-- What holds of the manager between two calls: it has regions exactly while it is initialized, and
-- they are the table of the device's size.
pub record IsCoherent (p : Platform) (s : Flash) : Type 0 where
  pub table : s.initialized ≡ true → s.regions ≡ flash_regions (p.str_cpy_s 64) s.info.total_size
  pub idle : s.initialized ≡ false → s.regions ≡ []
  pub sized : s.initialized ≡ true → s.info.total_size < 2 ^ 64
  pub sectors : s.info.sector_size < 2 ^ 32

-- The protocol and its handle are both NULL or both in use.
abbrev pub IsPaired : Flash → Type 0
IsPaired s =
    ((s.fvb_protocol ≡ 0) × (s.fvb_handle ≡ 0))
    ⊎ ((is_null s.fvb_protocol ≡ false) × (is_null s.fvb_handle ≡ false))

module _ (p : Platform) where
  pub open_fvb_lem :
      (s : Flash) (h : History)
      → ((open_fvb p s h).0 ≡ next tt)
        × ((open_fvb p s h).1.initialized ≡ s.initialized)
        × ((open_fvb p s h).1.info ≡ s.info)
  unfolding open_fvb
  open_fvb_lem s h = ground arith

  pub read_attributes_lem :
      (fvb : ℕ) (s : Flash) (h : History)
      → ((read_attributes p fvb s h).0 ≡ next tt)
        × ((read_attributes p fvb s h).1.initialized ≡ s.initialized)
        × ((read_attributes p fvb s h).1.info.total_size ≡ s.info.total_size)
        × ((read_attributes p fvb s h).1.info.sector_size ≡ s.info.sector_size)
        × ((read_attributes p fvb s h).1.fvb_protocol ≡ s.fvb_protocol)
        × ((read_attributes p fvb s h).1.fvb_handle ≡ s.fvb_handle)
  unfolding read_attributes
  read_attributes_lem fvb s h = ground arith

  pub read_geometry_lem :
      (fvb : ℕ) (s : Flash) (h : History)
      → s.info.total_size < 2 ^ 64
      → s.info.sector_size < 2 ^ 32
      → ((read_geometry p fvb s h).0 ≡ next tt)
        × ((read_geometry p fvb s h).1.initialized ≡ s.initialized)
        × ((read_geometry p fvb s h).1.info.total_size < 2 ^ 64)
        × ((read_geometry p fvb s h).1.info.sector_size < 2 ^ 32)
        × ((read_geometry p fvb s h).1.info.write_protected ≡ s.info.write_protected)
        × ((read_geometry p fvb s h).1.fvb_protocol ≡ s.fvb_protocol)
        × ((read_geometry p fvb s h).1.fvb_handle ≡ s.fvb_handle)
  unfolding read_geometry
  read_geometry_lem fvb s h total sector = ground arith

  pub detect_flash_device_lem :
      (s : Flash) (h : History)
      → ((detect_flash_device p s h).0 ≡ returned success)
        × ((detect_flash_device p s h).1.initialized ≡ s.initialized)
        × ((detect_flash_device p s h).1.info.total_size < 2 ^ 64)
        × ((detect_flash_device p s h).1.info.sector_size < 2 ^ 32)
        × ((detect_flash_device p s h).1.fvb_protocol ≡ s.fvb_protocol)
        × ((detect_flash_device p s h).1.fvb_handle ≡ s.fvb_handle)
  unfolding detect_flash_device
  detect_flash_device_lem s h =
      let t = record s { info = default_info p } in
      let asked = read_attributes p s.fvb_protocol t h in
      elim (Bool-cases (is_null s.fvb_protocol)) [
        | inl absent ↦ ground arith
        | inr present ↦ ground (
          arith,
          read_attributes_lem s.fvb_protocol t h,
          read_geometry_lem s.fvb_protocol asked.1 asked.2,
        )
      ]

  -- An uninitialized manager always starts, also without an FVB protocol or with one that fails,
  -- and its state is then coherent (`IsCoherent`): its regions are the table of the size of its
  -- device.
  pub flash_manager_init_starts :
      (s : Flash) (h : History)
      → s.initialized ≡ false
      → ((flash_manager_init p s h).0 ≡ returned success)
        × ((flash_manager_init p s h).1.initialized ≡ true)
        × IsCoherent p (flash_manager_init p s h).1
  unfolding flash_manager_init initialize_flash_regions
  flash_manager_init_starts s h idle =
      let t = record s { info = zero_info; regions = [] } in
      let found = open_fvb p t h in
      ground (status_laws, open_fvb_lem t h, detect_flash_device_lem found.1 found.2)

  -- A second start is refused, and changes nothing.
  pub flash_manager_init_again :
      (s : Flash) (h : History)
      → s.initialized ≡ true
      → flash_manager_init p s h ≡ (returned already_started, s, h)
  unfolding flash_manager_init
  flash_manager_init_again s h started = ground arith

  -- What the services promise: no handle is NULL, and an OpenProtocol that succeeds gives an
  -- interface.
  abbrev pub OpensInterfaces : Type 0
  OpensInterfaces =
      ((g : History)
        → is_null ((p.locate_handle_buffer g firmware_volume_block_guid).handles 0) ≡ false)
      × ((g : History) (handle : ℕ)
          → efi_error (p.open_protocol g handle firmware_volume_block_guid).status ≡ false
          → is_null (p.open_protocol g handle firmware_volume_block_guid).value ≡ false)

  pub open_fvb-IsPaired :
      (s : Flash) (h : History) → OpensInterfaces → s.fvb_handle ≡ 0 → IsPaired (open_fvb p s h).1
  unfolding open_fvb
  open_fvb-IsPaired s h (handles, opens) z =
      let found = p.locate_handle_buffer h firmware_volume_block_guid in
      let after = located firmware_volume_block_guid found.status found.buffer ∷ h in
      ground (arith, handles h, opens after (found.handles 0))

  pub flash_manager_init-IsPaired :
      (s : Flash) (h : History)
      → OpensInterfaces
      → s.initialized ≡ false
      → s.fvb_handle ≡ 0
      → IsPaired (flash_manager_init p s h).1
  unfolding flash_manager_init initialize_flash_regions
  flash_manager_init-IsPaired s h promised idle z =
      let t = record s { info = zero_info; regions = [] } in
      let found = open_fvb p t h in
      ground (
        status_laws,
        open_fvb_lem t h,
        open_fvb-IsPaired t h promised,
        detect_flash_device_lem found.1 found.2,
      )

  -- After a start and a cleanup every static variable is back at its initial value, if a
  -- successful OpenProtocol gives an interface and no handle is NULL; and the FVB protocol is
  -- closed exactly if one was in use.
  pub cleanup-init :
      (h : History)
      → OpensInterfaces
      → let started = flash_manager_init p initial_flash h in
        let (result, s, after) = flash_manager_cleanup p started.1 started.2 in
        (result ≡ returned success)
        × (s ≡ initial_flash)
        × (after ≡ (
            if is_null started.1.fvb_protocol
            then started.2
            else closed started.1.fvb_handle firmware_volume_block_guid ∷ started.2))
  unfolding flash_manager_cleanup
  cleanup-init h promised = ground (
    arith,
    flash_manager_init_starts initial_flash h refl,
    flash_manager_init-IsPaired initial_flash h promised,
  )
