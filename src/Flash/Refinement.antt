-- ===== src/Flash/Refinement.antt =====
-- The flash manager of flash_manager.c implements the image of Flash/Contents.
use usb_uefi_firmware.Common.{
  ℕ, ◌+◌, ◌*◌, ◌/◌, ◌%◌, ◌^◌, ◌<◌, String, ◌≡◌, refl, sym, ap, inl, inr, not, ◌||◌, List, [], ◌∷◌,
  arith, leb, Bool-cases, Each,
}
use usb_uefi_firmware.Debug.Columns.{shown}
use usb_uefi_firmware.Flash.Access.{flash_read, flash_write, flash_erase_sector}
use usb_uefi_firmware.Flash.Contents.{
  StoresBytes, Image, Shows, refuses, spec_call, IsAccess, spec_calls,
}
use usb_uefi_firmware.Flash.Effects.{completes_well, write-Shows, read-Shows, erase-Shows, Shows-at}
use usb_uefi_firmware.Flash.Lifecycle.{flash_manager_init_again}
use usb_uefi_firmware.Flash.Reads.{flash_read-read_promise, access_keeps_state}
use usb_uefi_firmware.Flash.Session.{
  FlashCall, start_manager, stop_manager, read_range, write_range, erase_at, run_call, run_calls,
  Completes, AllComplete,
}
use usb_uefi_firmware.Flash.State.{Flash}
use usb_uefi_firmware.Flash.Writes.{
  IsReady, writable, flash_write-write_promise, flash_erase_sector-erase_promise,
}
use usb_uefi_firmware.Platform.Event.{block_read, block_written, block_erased, History}
use usb_uefi_firmware.Platform.Proc.{Flow, returned}
use usb_uefi_firmware.Platform.Services.{Platform}
use usb_uefi_firmware.Platform.Status.{Status, success, status_laws}

module _ (p : Platform) (sector : ℕ) (device memory : History → ℕ → ℕ)
    (stores : StoresBytes p sector device memory) where
  module _ (copy : String → String) (s : Flash) (ready : IsReady copy s)
      (sectors : s.info.sector_size ≡ sector) where
    read_call-Shows :
        (address buffer size : ℕ) (h : History) (i : Image)
        → address + size < 2 ^ 64
        → Completes p (read_range address buffer size) s h
        → Shows device memory h i
        → Shows device memory
            (flash_read p address buffer size s h).2
            (spec_call s.info (read_range address buffer size) i)
    unfolding spec_call
    read_call-Shows address buffer size h i fits done v =
        let promise = flash_read-read_promise p address buffer size s h ready.sectors fits in
        let status =
          p.block_read_status h s.fvb_protocol (address / sector) (address % sector) size in
        elim (Bool-cases (refuses s.info address buffer size)) [
          | inl bad ↦
              Shows-at p sector device memory stores (ground (arith, promise)) (ground arith) v
          | inr good ↦
              let reached : flash_read p address buffer size s h ≡ (
                returned status,
                s,
                block_read s.fvb_protocol (address / sector) (address % sector) size buffer ∷ h,
              ) =
                ground (arith, promise, ready.started, ready.device) in
              Shows-at p sector device memory stores
                (ap (λ (x : Flow Status × Flash × History). x.2) reached) (ground arith)
                (read-Shows p sector device memory stores s.fvb_protocol address buffer size h i
                  (completes_well _ _ _ _ _ reached done) v)
        ]

    write_call-Shows :
        (address buffer size : ℕ) (h : History) (i : Image)
        → address + size < 2 ^ 64
        → Completes p (write_range address buffer size) s h
        → Shows device memory h i
        → Shows device memory
            (flash_write p address buffer size s h).2
            (spec_call s.info (write_range address buffer size) i)
    unfolding spec_call
    write_call-Shows address buffer size h i fits done v =
        let promise = flash_write-write_promise p copy address buffer size s h ready fits in
        let barred = s.info.write_protected || not (writable s.info.total_size address size) in
        let status =
          p.block_write_status h s.fvb_protocol (address / sector) (address % sector) size in
        elim (Bool-cases (refuses s.info address buffer size || barred)) [
          | inl bad ↦
              Shows-at p sector device memory stores (ground (arith, promise)) (ground arith) v
          | inr good ↦
              let reached : flash_write p address buffer size s h ≡ (
                returned status,
                s,
                block_written s.fvb_protocol (address / sector) (address % sector) size buffer ∷ h,
              ) =
                ground (arith, promise) in
              Shows-at p sector device memory stores
                (ap (λ (x : Flow Status × Flash × History). x.2) reached) (ground arith)
                (write-Shows p sector device memory stores s.fvb_protocol address buffer size h i
                  (completes_well _ _ _ _ _ reached done) v)
        ]

    erase_call-Shows :
        (address : ℕ) (h : History) (i : Image)
        → Completes p (erase_at address) s h
        → Shows device memory h i
        → Shows device memory
            (flash_erase_sector p address s h).2
            (spec_call s.info (erase_at address) i)
    unfolding spec_call
    erase_call-Shows address h i done v =
        let promise = flash_erase_sector-erase_promise p copy address s h ready in
        let barred = s.info.write_protected || leb s.info.total_size (address + 64 * 1024) in
        let status = p.block_erase_status h s.fvb_protocol (address / sector) in
        elim (Bool-cases (leb s.info.total_size address || barred)) [
          | inl bad ↦
              Shows-at p sector device memory stores (ground (arith, promise)) (ground arith) v
          | inr good ↦
              let reached : flash_erase_sector p address s h
                  ≡ (returned status, s, block_erased s.fvb_protocol (address / sector) 1 ∷ h) =
                ground (arith, promise) in
              Shows-at p sector device memory stores
                (ap (λ (x : Flow Status × Flash × History). x.2) reached) (ground arith)
                (erase-Shows p sector device memory stores s.fvb_protocol address h i
                  (completes_well _ _ _ _ _ reached done) v)
        ]

    call-Shows :
        (c : FlashCall) (h : History) (i : Image)
        → IsAccess c
        → Completes p c s h
        → Shows device memory h i
        → ((run_call p c s h).1 ≡ s)
          × Shows device memory (run_call p c s h).2 (spec_call s.info c i)
    unfolding spec_call
    call-Shows start_manager h i fits done v =
        rw (flash_manager_init_again p s h ready.started) (refl, v)
    call-Shows stop_manager h i fits done v = absurd fits
    call-Shows (read_range a b n) h i fits done v =
        ((access_keeps_state p a b n s h).0, read_call-Shows a b n h i fits done v)
    call-Shows (write_range a b n) h i fits done v =
        ((access_keeps_state p a b n s h).1, write_call-Shows a b n h i fits done v)
    call-Shows (erase_at a) h i fits done v =
        ((access_keeps_state p a 0 0 s h).2, erase_call-Shows a h i done v)

    AllComplete-at :
        (cs : List FlashCall) (t : Flash) (h : History)
        → t ≡ s
        → AllComplete p cs t h
        → AllComplete p cs s h
    AllComplete-at cs t h same done = rw (sym same) done

    -- Any sequence of reads, writes and erases on a ready manager (`IsReady`), no range of which wraps at
    -- 2^64, leaves the device and the memory as the image of Flash/Contents says that they are, if each
    -- call succeeds or is refused before it asks the device for anything (`AllComplete`): a refused
    -- call changes no byte, a write only the bytes of its range, an erase those of its sector, a read
    -- those of its buffer; and the manager stays as it is. This is for a device on which an access
    -- that succeeds does what the FVB protocol documents (`StoresBytes`).
    pub run_calls-Shows :
        (cs : List FlashCall) (h : History) (i : Image)
        → Each IsAccess cs
        → AllComplete p cs s h
        → Shows device memory h i
        → ((run_calls p cs s h).0 ≡ s)
          × Shows device memory (run_calls p cs s h).1 (spec_calls s.info cs i)
    unfolding run_calls spec_calls
    run_calls-Shows [] h i fits done v = (refl, v)
    run_calls-Shows (c ∷ cs) h i (fits, rest) (done, dones) v =
        let (_, t, g) = run_call p c s h in
        let (same, shown) = call-Shows c h i fits done v in
        rw (same, run_calls)
          (run_calls-Shows cs g (spec_call s.info c i) rest (AllComplete-at cs t g same dones)
            shown)

    -- On such a device, where flash_write returns EFI_SUCCESS for a range that does not wrap and
    -- flash_read then returns it for the same range, the second buffer holds the bytes that the first one
    -- held before the write.
    pub read-write :
        (address buffer buffer' size k : ℕ) (h : History)
        → address + size < 2 ^ 64
        → (flash_write p address buffer size s h).0 ≡ returned success
        → (flash_read p address buffer' size s (flash_write p address buffer size s h).2).0
          ≡ returned success
        → k < size
        → memory
            (flash_read p address buffer' size s (flash_write p address buffer size s h).2).2
            (buffer' + k)
          ≡ memory h (buffer + k)
    unfolding spec_call
    read-write address buffer buffer' size k h fits stored fetched below =
        let i : Image = record { device = device h; memory = memory h } in
        let g = (flash_write p address buffer size s h).2 in
        let shown =
          write_call-Shows address buffer size h i fits (inl stored)
            (record { same_device = λ x. refl; same_memory = λ y. refl }) in
        let last =
          read_call-Shows address buffer' size g
            (spec_call s.info (write_range address buffer size) i) fits (inl fetched) shown in
        ground (
          status_laws,
          flash_write-write_promise p copy address buffer size s h ready fits,
          flash_read-read_promise p address buffer' size s g ready.sectors fits,
          last.same_memory (buffer' + k),
        )
