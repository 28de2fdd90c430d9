-- ===== src/Flash/Effects.antt =====
-- What one access that succeeds does to the image of Flash/Contents.
use usb_uefi_firmware.Common.{
  ℕ, ◌+◌, ◌-◌, ◌*◌, ◌/◌, ◌%◌, ◌≡◌, sym, ap, ◌∙◌, ◌≢◌, ◌⊎◌, inl, inr, false, ◌∷◌, arith, length,
}
use usb_uefi_firmware.Flash.Contents.{replace, StoresBytes, Image, Shows}
use usb_uefi_firmware.Flash.State.{Flash}
use usb_uefi_firmware.Platform.Event.{Event, block_read, block_written, block_erased, History}
use usb_uefi_firmware.Platform.Proc.{Flow, returned}
use usb_uefi_firmware.Platform.Services.{Platform}
use usb_uefi_firmware.Platform.Status.{Status, success, efi_error, status_laws}
use native.Mathlib.Nat.{div-add-mod'}

no_longer : (e : Event) (h : History) → e ∷ h ≢ h
no_longer e h same = let longer = ap length same in absurd (omega (arith, longer))

-- A call that has made one access and completes has succeeded at it.
pub completes_well :
    (status : Status) (e : Event) (s : Flash) (h : History) (end : Flow Status × Flash × History)
    → end ≡ (returned status, s, e ∷ h)
    → (end.0 ≡ returned success) ⊎ (end.2 ≡ h)
    → efi_error status ≡ false
completes_well status e s h end reached (inl fine) = ground (status_laws, reached, fine)
completes_well status e s h end reached (inr same) =
    absurd (no_longer e h (sym (ap (λ (x : Flow Status × Flash × History). x.2) reached) ∙ same))

module _ (p : Platform) (sector : ℕ) (device memory : History → ℕ → ℕ)
    (stores : StoresBytes p sector device memory) where
  -- The history after a write, a read and an erase that reach the device.
  pub write-Shows :
      (fvb address buffer size : ℕ) (h : History) (i : Image)
      → efi_error (p.block_write_status h fvb (address / sector) (address % sector) size) ≡ false
      → Shows device memory h i
      → Shows device memory
          (block_written fvb (address / sector) (address % sector) size buffer ∷ h)
          (record i { device = replace address size (λ k. i.memory (buffer + k)) i.device })
  write-Shows fvb address buffer size h i fine v =
      let place = div-add-mod' address sector in
      record {
        same_device = λ x. ground (
          arith,
          stores.written h fvb (address / sector) (address % sector) size buffer x fine,
          v.same_device x,
          v.same_memory (buffer + (x - address)),
          ap (λ (start : ℕ). replace start size (λ k. memory h (buffer + k)) (device h) x) place,
        );
        same_memory = λ y.
            stores.write_keeps h fvb (address / sector) (address % sector) size buffer y
            ∙ v.same_memory y;
      }

  pub read-Shows :
      (fvb address buffer size : ℕ) (h : History) (i : Image)
      → efi_error (p.block_read_status h fvb (address / sector) (address % sector) size) ≡ false
      → Shows device memory h i
      → Shows device memory
          (block_read fvb (address / sector) (address % sector) size buffer ∷ h)
          (record i { memory = replace buffer size (λ k. i.device (address + k)) i.memory })
  read-Shows fvb address buffer size h i fine v =
      let place = div-add-mod' address sector in
      record {
        same_device = λ x.
            stores.read_keeps h fvb (address / sector) (address % sector) size buffer x
            ∙ v.same_device x;
        same_memory = λ y. ground (
          arith,
          stores.read h fvb (address / sector) (address % sector) size buffer y fine,
          v.same_memory y,
          v.same_device (address + (y - buffer)),
          ap (λ (start : ℕ). device h (start + (y - buffer))) place,
        );
      }

  pub erase-Shows :
      (fvb address : ℕ) (h : History) (i : Image)
      → efi_error (p.block_erase_status h fvb (address / sector)) ≡ false
      → Shows device memory h i
      → Shows device memory
          (block_erased fvb (address / sector) 1 ∷ h)
          (record i { device = replace (address / sector * sector) sector (λ k. 255) i.device })
  erase-Shows fvb address h i fine v = record {
    same_device =
        λ x. ground (arith, stores.erased h fvb (address / sector) x fine, v.same_device x);
    same_memory = λ y. stores.erase_keeps h fvb (address / sector) y ∙ v.same_memory y;
  }

  pub Shows-at :
      {h g : History} {i j : Image}
      → g ≡ h
      → j ≡ i
      → Shows device memory h i
      → Shows device memory g j
  Shows-at e e' v = rw (e, e') v
