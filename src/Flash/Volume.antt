-- ===== src/Flash/Volume.antt =====
-- What flash_manager_init of flash_manager.c makes of a volume that can be read.
use usb_uefi_firmware.Common.{
  ℕ, ◌+◌, ◌^◌, ◌≤◌, ◌<◌, bit_and, ◌≡◌, true, false, [], arith, ◌==◌, is_null,
}
use usb_uefi_firmware.Flash.Access.{flash_write, flash_erase_sector}
use usb_uefi_firmware.Flash.Lifecycle.{
  open_fvb_lem, read_geometry_lem, detect_flash_device_lem, flash_manager_init_starts,
}
use usb_uefi_firmware.Flash.Manager.{
  open_fvb, default_info, read_attributes, detect_flash_device, initialize_flash_regions,
  flash_manager_init,
}
use usb_uefi_firmware.Flash.State.{Flash, zero_info}
use usb_uefi_firmware.Platform.Event.{History}
use usb_uefi_firmware.Platform.Proc.{returned}
use usb_uefi_firmware.Platform.Services.{Platform}
use usb_uefi_firmware.Platform.Status.{write_protected, efi_error, status_laws}

module _ (p : Platform) where
  protected_volume_lem :
      (s : Flash) (h : History)
      → is_null s.fvb_protocol ≡ false
      → efi_error (p.get_attributes h s.fvb_protocol).status ≡ false
      → (bit_and (p.get_attributes h s.fvb_protocol).value p.fvb2_read_status == 0) ≡ false
      → (detect_flash_device p s h).1.info.write_protected ≡ true
  unfolding detect_flash_device read_attributes
  protected_volume_lem s h present answered readable =
      let t = record s { info = default_info p } in
      let asked = read_attributes p s.fvb_protocol t h in
      ground (arith, read_geometry_lem p s.fvb_protocol asked.1 asked.2)

  -- A manager whose device counts as write-protected refuses every write and erase within it.
  protected_device_lem :
      (address buffer size : ℕ) (s : Flash) (h : History)
      → s.initialized ≡ true
      → s.info.write_protected ≡ true
      → s.info.total_size < 2 ^ 64
      → is_null buffer ≡ false
      → 0 < size
      → address + size ≤ s.info.total_size
      → (flash_write p address buffer size s h ≡ (returned write_protected, s, h))
        × (flash_erase_sector p address s h ≡ (returned write_protected, s, h))
  unfolding flash_write flash_erase_sector
  protected_device_lem address buffer size s h started guarded small b pos fit = ground arith

  init_protects :
      (s : Flash) (h : History)
      → s.initialized ≡ false
      → let found = open_fvb p (record s { info = zero_info; regions = [] }) h in
        is_null found.1.fvb_protocol ≡ false
        → efi_error (p.get_attributes found.2 found.1.fvb_protocol).status ≡ false
        → (bit_and (p.get_attributes found.2 found.1.fvb_protocol).value p.fvb2_read_status == 0)
          ≡ false
        → (flash_manager_init p s h).1.info.write_protected ≡ true
  unfolding flash_manager_init initialize_flash_regions
  init_protects s h idle present answered readable =
      let t = record s { info = zero_info; regions = [] } in
      let found = open_fvb p t h in
      ground (
        status_laws,
        open_fvb_lem p t h,
        detect_flash_device_lem p found.1 found.2,
        protected_volume_lem found.1 found.2 present answered readable,
      )

  -- A volume whose attributes say that it can be read is taken for write-protected: after a start
  -- on it, every write and erase within the device is refused, and none reaches the volume.
  pub readable_volume_refuses_writes :
      (address buffer size : ℕ) (s : Flash) (h : History)
      → s.initialized ≡ false
      → let found = open_fvb p (record s { info = zero_info; regions = [] }) h in
        is_null found.1.fvb_protocol ≡ false
        → efi_error (p.get_attributes found.2 found.1.fvb_protocol).status ≡ false
        → (bit_and (p.get_attributes found.2 found.1.fvb_protocol).value p.fvb2_read_status == 0)
          ≡ false
        → is_null buffer ≡ false
        → 0 < size
        → let (result, t, g) = flash_manager_init p s h in
          address + size ≤ t.info.total_size
          → (flash_write p address buffer size t g ≡ (returned write_protected, t, g))
            × (flash_erase_sector p address t g ≡ (returned write_protected, t, g))
  readable_volume_refuses_writes address buffer size s h idle present answered readable b pos fit =
      let started = flash_manager_init_starts p s h idle in
      protected_device_lem address buffer size (flash_manager_init p s h).1
        (flash_manager_init p s h).2 started.1 (init_protects s h idle present answered readable)
        (started.2.sized started.1) b pos fit
