-- ===== src/Flash/Session.antt =====
-- Every sequence of calls of the flash manager, by whatever client.
use usb_uefi_firmware.Common.{
  ℕ, ◌+◌, ◌*◌, ◌/◌, ◌%◌, ◌^◌, ◌≤◌, ◌<◌, ◌≡◌, refl, ◌⊎◌, inl, inr, true, false, List, [], ◌∷◌, arith,
  Bool-cases, Each, u32, sub32,
}
use usb_uefi_firmware.Flash.Access.{flash_read, flash_write, flash_erase_sector}
use usb_uefi_firmware.Flash.Lifecycle.{
  IsCoherent, flash_manager_init_starts, flash_manager_init_again,
}
use usb_uefi_firmware.Flash.Manager.{flash_manager_init, flash_manager_cleanup}
use usb_uefi_firmware.Flash.Protection.{
  IsRegion, protected_at, check_region_write_protection-Unprotected,
  check_region_write_protection_cases, flash_regions-IsRegion,
}
use usb_uefi_firmware.Flash.Reads.{access_keeps_state}
use usb_uefi_firmware.Flash.Regions.{check_region_write_protection}
use usb_uefi_firmware.Flash.State.{Flash, initial_flash}
use usb_uefi_firmware.Platform.Event.{block_written, History}
use usb_uefi_firmware.Platform.Proc.{returned, Call}
use usb_uefi_firmware.Platform.Services.{Platform}
use usb_uefi_firmware.Platform.Status.{success, status_laws}
use native.Mathlib.Nat.{div-add-mod'}

-- The calls that a client can make, with their arguments.
pub data FlashCall : Type 0 where
  start_manager stop_manager : FlashCall
  read_range write_range : ℕ → ℕ → ℕ → FlashCall
  erase_at : ℕ → FlashCall

module _ (p : Platform) where
  abbrev pub run_call : FlashCall → Call Flash
  run_call start_manager = flash_manager_init p
  run_call stop_manager = flash_manager_cleanup p
  run_call (read_range address buffer size) = flash_read p address buffer size
  run_call (write_range address buffer size) = flash_write p address buffer size
  run_call (erase_at address) = flash_erase_sector p address

  -- A sequence of calls, the first one first: the state and the history after them.
  unfoldable pub run_calls : List FlashCall → Flash → History → Flash × History
  run_calls [] s h = (s, h)
  run_calls (c ∷ cs) s h = let (result, t, g) = run_call c s h in run_calls cs t g

  -- A call succeeds, or it is refused before it asks the device for anything.
  abbrev pub Completes : FlashCall → Flash → History → Type 0
  Completes c s h = let (result, t, g) = run_call c s h in (result ≡ returned success) ⊎ (g ≡ h)

  abbrev pub AllComplete : List FlashCall → Flash → History → Type 0
  AllComplete [] s h = Unit
  AllComplete (c ∷ cs) s h =
      let (result, t, g) = run_call c s h in Completes c s h × AllComplete cs t g

  -- The states and histories after any number of calls.
  pub data Reaches (s : Flash) (h : History) : Flash → History → Type 0 where
    no_call : Reaches s h s h
    one_call :
        {t u : Flash} {g f : History} (c : FlashCall)
        → Reaches s h t g
        → u ≡ (run_call c t g).1
        → f ≡ (run_call c t g).2
        → Reaches s h u f

  flash_manager_cleanup-IsCoherent :
      (s : Flash) (h : History) → IsCoherent p s → IsCoherent p (flash_manager_cleanup p s h).1
  unfolding flash_manager_cleanup
  flash_manager_cleanup-IsCoherent s h v = ground arith

  pub run_call-IsCoherent :
      (c : FlashCall) (s : Flash) (h : History) → IsCoherent p s → IsCoherent p (run_call c s h).1
  run_call-IsCoherent start_manager s h v = elim (Bool-cases s.initialized) [
    | inl started ↦ rw (flash_manager_init_again p s h started) v
    | inr idle ↦ (flash_manager_init_starts p s h idle).2
  ]
  run_call-IsCoherent stop_manager s h v = flash_manager_cleanup-IsCoherent s h v
  run_call-IsCoherent (read_range a b n) s h v = rw (access_keeps_state p a b n s h).0 v
  run_call-IsCoherent (write_range a b n) s h v = rw (access_keeps_state p a b n s h).1 v
  run_call-IsCoherent (erase_at a) s h v = rw (access_keeps_state p a 0 0 s h).2 v

  pub Reaches-IsCoherent :
      {s : Flash} {h : History} {t : Flash} {g : History}
      → IsCoherent p s
      → Reaches s h t g
      → IsCoherent p t
  Reaches-IsCoherent v no_call = v
  Reaches-IsCoherent v (one_call {t} {u} {g} {f} c r e e') =
      rw e (run_call-IsCoherent c t g (Reaches-IsCoherent v r))

  pub initial_flash-IsCoherent : IsCoherent p initial_flash
  initial_flash-IsCoherent = record {
    table = λ started. cc;
    idle = λ _. refl;
    sized = λ started. cc;
    sectors = omega arith;
  }

  -- The source and the place of a write that reaches the device.
  flash_write_changes :
      (address buffer size : ℕ) (s : Flash) (h : History)
      → address + size < 2 ^ 64
      → let (result, t, g) = flash_write p address buffer size s h in
        (g ≡ h)
        ⊎ ((g
              ≡ block_written s.fvb_protocol
                  (address / s.info.sector_size)
                  (address % s.info.sector_size)
                  size
                  buffer
                ∷ h)
            × (s.initialized ≡ true)
            × (0 < size)
            × (address + size ≤ s.info.total_size)
            × (check_region_write_protection s.regions address size ≡ success))
  unfolding flash_write check_region_write_protection
  flash_write_changes address buffer size s h fits = ground (
    status_laws,
    check_region_write_protection_cases s.regions address (sub32 (u32 (address + size)) 1),
  )

  -- What flash_write may do: nothing, or one write of the buffer to the bytes of the range, of which
  -- the one at offset `k` is not protected and lies inside the device.
  abbrev pub WritesUnprotected : ℕ → ℕ → ℕ → ℕ → Flash → History → History → Type 0
  WritesUnprotected address buffer size k s h g =
      (g ≡ h)
      ⊎ ((lba at : ℕ) × (g ≡ block_written s.fvb_protocol lba at size buffer ∷ h)
          × (lba * s.info.sector_size + at ≡ address)
          × (protected_at s.regions (lba * s.info.sector_size + at + k) ≡ false)
          × (lba * s.info.sector_size + at + k < s.info.total_size))

  -- After any calls from the start of the program, on a device above 256 KB and up to 4 GB: flash_write
  -- of a range that does not wrap at 2^64 leaves the history as it is, or makes one write of the buffer,
  -- whose block and offset are those of the address, and every byte that it writes (the one at any
  -- offset k below the size) lies inside the device and in no protected region.
  pub reached_write_unprotected :
      {s : Flash} {h : History} (address buffer size k : ℕ)
      → Reaches initial_flash [] s h
      → 256 * 1024 < s.info.total_size
      → s.info.total_size ≤ 2 ^ 32
      → address + size < 2 ^ 64
      → k < size
      → WritesUnprotected address buffer size k s h (flash_write p address buffer size s h).2
  reached_write_unprotected {s} {h} address buffer size k r large small fits below =
      elim (flash_write_changes address buffer size s h fits) [
        | inl same ↦ inl same
        | inr (made, started, pos, inside, passed) ↦
            let v = Reaches-IsCoherent initial_flash-IsCoherent r in
            let table = v.table started in
            let regions : Each IsRegion s.regions =
              rw table (flash_regions-IsRegion (p.str_cpy_s 64) s.info.total_size large small) in
            let exact =
              check_region_write_protection-Unprotected s.regions address size regions pos
                (omega arith) in
            let lba = address / s.info.sector_size in
            let at = address % s.info.sector_size in
            let place = div-add-mod' address s.info.sector_size in
            inr (
              lba,
              at,
              made,
              place,
              exact.0 passed (lba * s.info.sector_size + at + k) (omega arith) (omega arith),
              omega arith,
            )
      ]
