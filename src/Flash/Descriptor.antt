-- ===== src/Flash/Descriptor.antt =====
-- The last 64 KB of the device, the region of the flash descriptor, over every sequence of calls of
-- the flash manager.
use usb_uefi_firmware.Common.{
  ℕ, ◌+◌, ◌*◌, ◌^◌, ◌≤◌, ◌<◌, ◌≡◌, refl, ap, ◌∙◌, inl, inr, true, false, not, ◌&&◌, [], arith,
  is_null, Bool-cases,
}
use usb_uefi_firmware.Flash.Access.{flash_read, flash_write, flash_erase_sector}
use usb_uefi_firmware.Flash.Geometry.{
  touches, HasGeometry, Records, sector_bound, sector_below, init-Records, touches-init,
  touches-cleanup,
}
use usb_uefi_firmware.Flash.Lifecycle.{IsCoherent, flash_manager_init_again}
use usb_uefi_firmware.Flash.Reads.{access_keeps_state}
use usb_uefi_firmware.Flash.Session.{
  FlashCall, start_manager, stop_manager, read_range, write_range, erase_at, run_call, Reaches,
  no_call, one_call, Reaches-IsCoherent, initial_flash-IsCoherent,
}
use usb_uefi_firmware.Flash.State.{Flash, initial_flash}
use usb_uefi_firmware.Flash.Writes.{
  IsReady, write_promise, flash_write-write_promise, erase_promise,
  flash_erase_sector-erase_promise,
}
use usb_uefi_firmware.Platform.Event.{History}
use usb_uefi_firmware.Platform.Services.{Platform}
use native.Mathlib.Nat.{div-add-mod'}

module _ (p : Platform) where
  -- No range that is written wraps at 2^64.
  abbrev FitsCall : FlashCall → Type 0
  FitsCall (write_range address buffer size) = address + size < 2 ^ 64
  FitsCall _ = Unit

  abbrev pub AllFit :
      {s : Flash} {h : History} {t : Flash} {g : History} → Reaches p s h t g → Type 0
  AllFit no_call = Unit
  AllFit (one_call c r e e') = FitsCall c × AllFit r

  module _ (sector count per_region : ℕ) (geometry : HasGeometry p sector count per_region) where
    -- A manager that runs on a device is ready; any other makes no call.
    Records-IsReady :
        (s : Flash)
        → IsCoherent p s
        → Records sector count s
        → s.initialized ≡ true
        → is_null s.fvb_protocol ≡ false
        → IsReady (p.str_cpy_s 64) s
    Records-IsReady s v recorded started present =
        let (sectors, total) = recorded started present in
        record {
          started = started;
          table = v.table started;
          large = omega (arith, geometry.large);
          small = omega (arith, geometry.small);
          sectors = omega (arith, sector_bound p sector count per_region geometry);
          device = present;
        }

    access_silent :
        (address buffer size : ℕ) (s : Flash) (h : History)
        → (s.initialized && not (is_null s.fvb_protocol)) ≡ false
        → ((flash_write p address buffer size s h).2 ≡ h)
          × ((flash_erase_sector p address s h).2 ≡ h)
    unfolding flash_write flash_erase_sector
    access_silent address buffer size s h idle = ground arith

    touches-flash_read :
        (address buffer size x : ℕ) (s : Flash) (h : History)
        → touches sector x (flash_read p address buffer size s h).2 ≡ touches sector x h
    unfolding flash_read
    touches-flash_read address buffer size x s h = ground arith

    touches-write_promise :
        (address buffer size x : ℕ) (s : Flash) (h : History)
        → s.info.sector_size ≡ sector
        → s.info.total_size ≤ x + 64 * 1024
        → touches sector x (write_promise p address buffer size s h).2 ≡ touches sector x h
    touches-write_promise address buffer size x s h sectors high =
        let parted = div-add-mod' address s.info.sector_size in ground arith

    touches-erase_promise :
        (address x : ℕ) (s : Flash) (h : History)
        → s.info.sector_size ≡ sector
        → s.info.total_size ≡ sector * count
        → s.info.total_size ≤ x + 64 * 1024
        → touches sector x (erase_promise p address s h).2 ≡ touches sector x h
    touches-erase_promise address x s h sectors total high =
        ground (arith, sector_below p sector count per_region geometry address)

    -- A call leaves the last 64 KB alone, and the geometry recorded.
    touches-access :
        (address buffer size x : ℕ) (s : Flash) (h : History)
        → IsCoherent p s
        → Records sector count s
        → sector * count ≤ x + 64 * 1024
        → (address + size < 2 ^ 64
            → touches sector x (flash_write p address buffer size s h).2 ≡ touches sector x h)
          × (touches sector x (flash_erase_sector p address s h).2 ≡ touches sector x h)
    touches-access address buffer size x s h v recorded high =
        elim (Bool-cases (s.initialized && not (is_null s.fvb_protocol))) [
          | inl working ↦
              let started : s.initialized ≡ true = ground arith in
              let present : is_null s.fvb_protocol ≡ false = ground arith in
              let ready = Records-IsReady s v recorded started present in
              let (sectors, total) = recorded started present in
              (
                λ fits.
                    rw
                      (flash_write-write_promise p (p.str_cpy_s 64) address buffer size s h ready
                        fits)
                      (touches-write_promise address buffer size x s h sectors (omega arith)),
                rw (flash_erase_sector-erase_promise p (p.str_cpy_s 64) address s h ready)
                    (touches-erase_promise address x s h sectors total (omega arith)),
              )
          | inr idle ↦
              let (quiet_write, quiet_erase) = access_silent address buffer size s h idle in
              (λ fits. ap (touches sector x) quiet_write, ap (touches sector x) quiet_erase)
        ]

    run_call_spares :
        (x : ℕ) (c : FlashCall) (s : Flash) (h : History)
        → FitsCall c
        → IsCoherent p s
        → Records sector count s
        → sector * count ≤ x + 64 * 1024
        → (touches sector x (run_call p c s h).2 ≡ touches sector x h)
          × Records sector count (run_call p c s h).1
    run_call_spares x start_manager s h fits v recorded high = (
      touches-init p sector count per_region geometry x s h,
      elim (Bool-cases s.initialized) [
        | inl started ↦ rw (flash_manager_init_again p s h started) recorded
        | inr idle ↦ init-Records p sector count per_region geometry s h idle
      ],
    )
    run_call_spares x stop_manager s h fits v recorded high =
        touches-cleanup p sector count per_region geometry x s h
    run_call_spares x (read_range a b n) s h fits v recorded high =
        (touches-flash_read a b n x s h, rw (access_keeps_state p a b n s h).0 recorded)
    run_call_spares x (write_range a b n) s h fits v recorded high = (
      (touches-access a b n x s h v recorded high).0 fits,
      rw (access_keeps_state p a b n s h).1 recorded,
    )
    run_call_spares x (erase_at a) s h fits v recorded high = (
      (touches-access a 0 0 x s h v recorded high).1,
      rw (access_keeps_state p a 0 0 s h).2 recorded,
    )

    Reaches_spares :
        {s : Flash} {h : History} (x : ℕ)
        → sector * count ≤ x + 64 * 1024
        → (r : Reaches p initial_flash [] s h) → AllFit r
        → (touches sector x h ≡ false) × Records sector count s
    Reaches_spares x high no_call fits = (refl, λ started. cc)
    Reaches_spares x high (one_call {t} {u} {g} {f} c r e e') (fit, fits) =
        let (spared, recorded) = Reaches_spares x high r fits in
        let v = Reaches-IsCoherent p (initial_flash-IsCoherent p) r in
        let step = run_call_spares x c t g fit v recorded high in
        (rw e' (step.0 ∙ spared), rw e step.1)

    -- Over any calls from the start of the program, no write and no erase touches a byte of the last
    -- 64 KB of the device, if no range that is written wraps at 2^64; where the device always reports
    -- the same geometry, between 256 KB and 4 GB with sectors that divide 64 KB.
    pub reached_descriptor_spared :
        {s : Flash} {h : History} (x : ℕ) (r : Reaches p initial_flash [] s h)
        → AllFit r
        → sector * count ≤ x + 64 * 1024
        → touches sector x h ≡ false
    reached_descriptor_spared x r fits high = (Reaches_spares x high r fits).0
