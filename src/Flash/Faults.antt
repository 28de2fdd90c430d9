-- ===== src/Flash/Faults.antt =====
-- The divisions by the sector size in flash_manager.c, over any calls.
use usb_uefi_firmware.Common.{ℕ, ◌^◌, ◌<◌, ◌≡◌, ◌≢◌, inl, inr, true, false, [], arith, Bool-cases}
use usb_uefi_firmware.Flash.Access.{flash_read, flash_write, flash_erase_sector}
use usb_uefi_firmware.Flash.Lifecycle.{open_fvb_lem, read_attributes_lem, detect_flash_device_lem}
use usb_uefi_firmware.Flash.Manager.{
  open_fvb, default_info, read_attributes, read_geometry, detect_flash_device,
  initialize_flash_regions, flash_manager_init, flash_manager_cleanup,
}
use usb_uefi_firmware.Flash.Reads.{access_keeps_state, access_never_faults}
use usb_uefi_firmware.Flash.Session.{
  FlashCall, start_manager, stop_manager, read_range, write_range, erase_at, run_call, Reaches,
  no_call, one_call,
}
use usb_uefi_firmware.Flash.State.{Flash, zero_info, initial_flash}
use usb_uefi_firmware.Platform.Event.{History}
use usb_uefi_firmware.Platform.Proc.{fault}
use usb_uefi_firmware.Platform.Services.{Platform}
use usb_uefi_firmware.Platform.Status.{efi_error, status_laws}

module _ (p : Platform) where
  -- A device that answers GetBlockSize without error has blocks of some size below 4 GB.
  abbrev pub ReportsBlocks : Type 0
  ReportsBlocks =
      (g : History) (fvb : ℕ)
      → let block = p.get_block_size g fvb in
        efi_error block.status ≡ false → (0 < block.size) × (block.size < 2 ^ 32)

  -- A manager that runs knows a sector size.
  abbrev HasSectors : Flash → Type 0
  HasSectors s = s.initialized ≡ true → 0 < s.info.sector_size

  read_geometry-sectors :
      (fvb : ℕ) (s : Flash) (h : History)
      → ReportsBlocks
      → 0 < s.info.sector_size
      → 0 < (read_geometry p fvb s h).1.info.sector_size
  unfolding read_geometry
  read_geometry-sectors fvb s h blocks pos = ground (arith, blocks h fvb)

  detect_flash_device-sectors :
      (s : Flash) (h : History) → ReportsBlocks → 0 < (detect_flash_device p s h).1.info.sector_size
  unfolding detect_flash_device
  detect_flash_device-sectors s h blocks =
      let t = record s { info = default_info p } in
      let asked = read_attributes p s.fvb_protocol t h in
      ground (
        arith,
        read_attributes_lem p s.fvb_protocol t h,
        read_geometry-sectors s.fvb_protocol asked.1 asked.2 blocks,
      )

  init-sectors :
      (s : Flash) (h : History)
      → ReportsBlocks
      → s.initialized ≡ false
      → ((flash_manager_init p s h).0 ≢ fault) × HasSectors (flash_manager_init p s h).1
  unfolding flash_manager_init initialize_flash_regions
  init-sectors s h blocks idle =
      let t = record s { info = zero_info; regions = [] } in
      let found = open_fvb p t h in
      ground (
        status_laws,
        open_fvb_lem p t h,
        detect_flash_device_lem p found.1 found.2,
        detect_flash_device-sectors found.1 found.2 blocks,
      )

  started_again :
      (s : Flash) (h : History)
      → s.initialized ≡ true
      → ((flash_manager_init p s h).0 ≢ fault) × ((flash_manager_init p s h).1 ≡ s)
  unfolding flash_manager_init
  started_again s h running = ground status_laws

  cleanup-sectors :
      (s : Flash) (h : History)
      → ((flash_manager_cleanup p s h).0 ≢ fault) × HasSectors (flash_manager_cleanup p s h).1
  unfolding flash_manager_cleanup
  cleanup-sectors s h = ground arith

  -- Without a start every access is refused before its division.
  stopped_access_never_faults :
      (address buffer size : ℕ) (s : Flash) (h : History)
      → s.initialized ≡ false
      → ((flash_read p address buffer size s h).0 ≢ fault)
        × ((flash_write p address buffer size s h).0 ≢ fault)
        × ((flash_erase_sector p address s h).0 ≢ fault)
  unfolding flash_read flash_write flash_erase_sector
  stopped_access_never_faults address buffer size s h idle = ground arith

  access-sectors :
      (address buffer size : ℕ) (s : Flash) (h : History)
      → HasSectors s
      → ((flash_read p address buffer size s h).0 ≢ fault)
        × ((flash_write p address buffer size s h).0 ≢ fault)
        × ((flash_erase_sector p address s h).0 ≢ fault)
  access-sectors address buffer size s h sectors = elim (Bool-cases s.initialized) [
    | inl running ↦ access_never_faults p address buffer size s h (sectors running)
    | inr idle ↦ stopped_access_never_faults address buffer size s h idle
  ]

  pub run_call-sectors :
      (c : FlashCall) (s : Flash) (h : History)
      → ReportsBlocks
      → HasSectors s
      → ((run_call p c s h).0 ≢ fault) × HasSectors (run_call p c s h).1
  run_call-sectors start_manager s h blocks sectors = elim (Bool-cases s.initialized) [
    | inl running ↦ let (ends, same) = started_again s h running in (ends, rw same sectors)
    | inr idle ↦ init-sectors s h blocks idle
  ]
  run_call-sectors stop_manager s h blocks sectors = cleanup-sectors s h
  run_call-sectors (read_range a b n) s h blocks sectors =
      ((access-sectors a b n s h sectors).0, rw (access_keeps_state p a b n s h).0 sectors)
  run_call-sectors (write_range a b n) s h blocks sectors =
      ((access-sectors a b n s h sectors).1, rw (access_keeps_state p a b n s h).1 sectors)
  run_call-sectors (erase_at a) s h blocks sectors =
      ((access-sectors a 0 0 s h sectors).2, rw (access_keeps_state p a 0 0 s h).2 sectors)

  Reaches-sectors :
      {s : Flash} {h : History} {t : Flash} {g : History}
      → ReportsBlocks
      → HasSectors s
      → Reaches p s h t g
      → HasSectors t
  Reaches-sectors blocks sectors no_call = sectors
  Reaches-sectors blocks sectors (one_call {t} {u} {g} {f} c r e e') =
      rw e (run_call-sectors c t g blocks (Reaches-sectors blocks sectors r)).1

  -- Where a device that answers GetBlockSize without error reports a size from 1 to 2^32 - 1, no call
  -- divides by zero after any calls from the start of the program, whatever its arguments and whether
  -- or not the device answers.
  pub reached_never_faults :
      {s : Flash} {h : History} (c : FlashCall)
      → ReportsBlocks
      → Reaches p initial_flash [] s h
      → (run_call p c s h).0 ≢ fault
  reached_never_faults {s} {h} c blocks r =
      (run_call-sectors c s h blocks (Reaches-sectors blocks (λ started. cc) r)).0
