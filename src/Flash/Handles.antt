-- ===== src/Flash/Handles.antt =====
-- The FVB protocol over every sequence of calls of the flash manager: how often it is opened and
-- closed.
use usb_uefi_firmware.Common.{
  ℕ, ◌+◌, ◌≡◌, refl, inl, inr, Bool, true, false, not, ◌&&◌, [], ◌∷◌, arith, if◌then◌else◌, is_null,
  Bool-cases,
}
use usb_uefi_firmware.Flash.Access.{flash_read, flash_write, flash_erase_sector}
use usb_uefi_firmware.Flash.Lifecycle.{
  IsPaired, open_fvb_lem, detect_flash_device_lem, flash_manager_init_starts,
  flash_manager_init_again, OpensInterfaces, flash_manager_init-IsPaired,
}
use usb_uefi_firmware.Flash.Manager.{
  open_fvb, read_attributes, read_geometry, detect_flash_device, initialize_flash_regions,
  flash_manager_init, flash_manager_cleanup,
}
use usb_uefi_firmware.Flash.Reads.{access_keeps_state}
use usb_uefi_firmware.Flash.Session.{
  FlashCall, start_manager, stop_manager, read_range, write_range, erase_at, run_call, Reaches,
  no_call, one_call,
}
use usb_uefi_firmware.Flash.State.{Flash, zero_info, initial_flash}
use usb_uefi_firmware.Platform.Event.{
  Guid, firmware_volume_block_guid, located, opened, closed, History,
}
use usb_uefi_firmware.Platform.Services.{Platform}
use usb_uefi_firmware.Platform.Status.{efi_error, status_laws}

abbrev is_fvb : Guid → Bool
is_fvb firmware_volume_block_guid = true
is_fvb _ = false

-- How often the protocol was opened with success, and closed.
abbrev pub fvb_opens : History → ℕ
fvb_opens [] = 0
fvb_opens (opened handle guid status ∷ h) =
    (if is_fvb guid && not (efi_error status) then 1 else 0) + fvb_opens h
fvb_opens (_ ∷ h) = fvb_opens h

abbrev pub fvb_closes : History → ℕ
fvb_closes [] = 0
fvb_closes (closed handle guid ∷ h) = (if is_fvb guid then 1 else 0) + fvb_closes h
fvb_closes (_ ∷ h) = fvb_closes h

-- An open protocol is one that the manager holds, and an idle manager holds none.
pub record HoldsOpened (s : Flash) (h : History) : Type 0 where
  pub counted : fvb_opens h ≡ fvb_closes h + (if is_null s.fvb_protocol then 0 else 1)
  pub paired : IsPaired s
  pub unused : s.initialized ≡ false → s.fvb_handle ≡ 0

module _ (p : Platform) where
  open_fvb_counts :
      (s : Flash) (h : History)
      → OpensInterfaces p
      → let (r, t, g) = open_fvb p s h in
        (fvb_opens g ≡ fvb_opens h + (if is_null t.fvb_protocol then 0 else 1))
        × (fvb_closes g ≡ fvb_closes h)
  unfolding open_fvb
  open_fvb_counts s h (handles, opens) =
      let found = p.locate_handle_buffer h firmware_volume_block_guid in
      let asked = located firmware_volume_block_guid found.status found.buffer ∷ h in
      ground (arith, opens asked (found.handles 0))

  detect_flash_device_counts :
      (s : Flash) (h : History)
      → (fvb_opens (detect_flash_device p s h).2 ≡ fvb_opens h)
        × (fvb_closes (detect_flash_device p s h).2 ≡ fvb_closes h)
  unfolding detect_flash_device read_attributes read_geometry
  detect_flash_device_counts s h = ground arith

  init-HoldsOpened :
      (s : Flash) (h : History)
      → OpensInterfaces p
      → s.initialized ≡ false
      → HoldsOpened s h
      → HoldsOpened (flash_manager_init p s h).1 (flash_manager_init p s h).2
  unfolding flash_manager_init initialize_flash_regions
  init-HoldsOpened s h promised idle v =
      let t = record s { info = zero_info; regions = [] } in
      let found = open_fvb p t h in
      let unused = v.unused idle in
      record {
        counted = ground (
          status_laws,
          open_fvb_lem p t h,
          open_fvb_counts t h promised,
          detect_flash_device_lem p found.1 found.2,
          detect_flash_device_counts found.1 found.2,
        );
        paired = flash_manager_init-IsPaired p s h promised idle unused;
        unused = λ stopped. ground (arith, flash_manager_init_starts p s h idle);
      }

  cleanup-HoldsOpened :
      (s : Flash) (h : History)
      → HoldsOpened s h
      → HoldsOpened (flash_manager_cleanup p s h).1 (flash_manager_cleanup p s h).2
  unfolding flash_manager_cleanup
  cleanup-HoldsOpened s h v = ground arith

  access-HoldsOpened :
      (address buffer size : ℕ) (s : Flash) (h : History)
      → HoldsOpened s h
      → HoldsOpened s (flash_read p address buffer size s h).2
        × HoldsOpened s (flash_write p address buffer size s h).2
        × HoldsOpened s (flash_erase_sector p address s h).2
  unfolding flash_read flash_write flash_erase_sector
  access-HoldsOpened address buffer size s h v = ground arith

  run_call-HoldsOpened :
      (c : FlashCall) (s : Flash) (h : History)
      → OpensInterfaces p
      → HoldsOpened s h
      → HoldsOpened (run_call p c s h).1 (run_call p c s h).2
  run_call-HoldsOpened start_manager s h promised v = elim (Bool-cases s.initialized) [
    | inl started ↦ rw (flash_manager_init_again p s h started) v
    | inr idle ↦ init-HoldsOpened s h promised idle v
  ]
  run_call-HoldsOpened stop_manager s h promised v = cleanup-HoldsOpened s h v
  run_call-HoldsOpened (read_range a b n) s h promised v =
      rw (access_keeps_state p a b n s h).0 (access-HoldsOpened a b n s h v).0
  run_call-HoldsOpened (write_range a b n) s h promised v =
      rw (access_keeps_state p a b n s h).1 (access-HoldsOpened a b n s h v).1
  run_call-HoldsOpened (erase_at a) s h promised v =
      rw (access_keeps_state p a 0 0 s h).2 (access-HoldsOpened a 0 0 s h v).2

  Reaches-HoldsOpened :
      {s : Flash} {h : History} {t : Flash} {g : History}
      → OpensInterfaces p
      → HoldsOpened s h
      → Reaches p s h t g
      → HoldsOpened t g
  Reaches-HoldsOpened promised v no_call = v
  Reaches-HoldsOpened promised v (one_call {t} {u} {g} {f} c r e e') =
      rw (e, e') (run_call-HoldsOpened c t g promised (Reaches-HoldsOpened promised v r))

  -- After any calls from the start of the program, the FVB protocol has been opened once more than
  -- closed if the manager runs and holds it, and as often otherwise; where a successful
  -- OpenProtocol gives an interface and no handle is NULL.
  pub reached_fvb_balance :
      {s : Flash} {h : History}
      → OpensInterfaces p
      → Reaches p initial_flash [] s h
      → fvb_opens h
        ≡ fvb_closes h + (if s.initialized && not (is_null s.fvb_protocol) then 1 else 0)
  reached_fvb_balance {s} {h} promised r =
      let fresh : HoldsOpened initial_flash [] = record {
        counted = refl;
        paired = inl (refl, refl);
        unused = λ _. refl;
      } in
      let v = Reaches-HoldsOpened promised fresh r in ground (arith, v.unused)
