-- ===== src/Flash/Contents.antt =====
-- What the calls of flash_manager.c do to the bytes of the device and of the memory, against an image
-- of both.
use usb_uefi_firmware.Common.{
  ℕ, ◌+◌, ◌-◌, ◌*◌, ◌/◌, ◌^◌, ◌<◌, ◌≡◌, Bool, false, not, ◌&&◌, ◌||◌, List, [], ◌∷◌, ltb, leb, ◌==◌,
  if◌then◌else◌, is_null,
}
use usb_uefi_firmware.Flash.Session.{
  FlashCall, start_manager, stop_manager, read_range, write_range, erase_at,
}
use usb_uefi_firmware.Flash.State.{FlashDeviceInfo}
use usb_uefi_firmware.Flash.Writes.{writable}
use usb_uefi_firmware.Platform.Event.{block_read, block_written, block_erased, History}
use usb_uefi_firmware.Platform.Services.{Platform}
use usb_uefi_firmware.Platform.Status.{efi_error}

-- The bytes with `size` of them from `start` on replaced.
abbrev pub replace : ℕ → ℕ → (ℕ → ℕ) → (ℕ → ℕ) → ℕ → ℕ
replace start size source old x =
    if leb start x && ltb x (start + size) then source (x - start) else old x

-- What the FVB protocol documents of a device whose bytes, and whose memory, are functions of the
-- history: a write or an erase that succeeds changes the bytes of its range and nothing else, and a read
-- that succeeds the bytes of the buffer. What an access that fails leaves in its range is open. An
-- erased byte is 255, and the volume has no sticky bits.
pub record StoresBytes (p : Platform) (sector : ℕ) (device memory : History → ℕ → ℕ) : Type 0 where
  pub written :
      (h : History) (fvb lba at size buffer x : ℕ)
      → efi_error (p.block_write_status h fvb lba at size) ≡ false
      → device (block_written fvb lba at size buffer ∷ h) x
        ≡ replace (lba * sector + at) size (λ k. memory h (buffer + k)) (device h) x
  pub write_keeps :
      (h : History) (fvb lba at size buffer y : ℕ)
      → memory (block_written fvb lba at size buffer ∷ h) y ≡ memory h y
  pub erased :
      (h : History) (fvb lba x : ℕ)
      → efi_error (p.block_erase_status h fvb lba) ≡ false
      → device (block_erased fvb lba 1 ∷ h) x
        ≡ replace (lba * sector) sector (λ k. 255) (device h) x
  pub erase_keeps :
      (h : History) (fvb lba y : ℕ) → memory (block_erased fvb lba 1 ∷ h) y ≡ memory h y
  pub read :
      (h : History) (fvb lba at size buffer y : ℕ)
      → efi_error (p.block_read_status h fvb lba at size) ≡ false
      → memory (block_read fvb lba at size buffer ∷ h) y
        ≡ replace buffer size (λ k. device h (lba * sector + at + k)) (memory h) y
  pub read_keeps :
      (h : History) (fvb lba at size buffer x : ℕ)
      → device (block_read fvb lba at size buffer ∷ h) x ≡ device h x

-- The image that a client may think of: the bytes of the device and of the memory.
pub record Image : Type 0 where
  pub device : ℕ → ℕ
  pub memory : ℕ → ℕ

-- The bytes after a history are those of the image.
pub record Shows (device memory : History → ℕ → ℕ) (h : History) (i : Image) : Type 0 where
  pub same_device : (x : ℕ) → device h x ≡ i.device x
  pub same_memory : (y : ℕ) → memory h y ≡ i.memory y

-- A NULL buffer, an empty range and one that leaves the device are refused.
abbrev pub refuses : FlashDeviceInfo → ℕ → ℕ → ℕ → Bool
refuses info address buffer size =
    is_null buffer || size == 0 || ltb info.total_size (address + size)

-- What a call does to the image; a refused call does nothing.
unfoldable pub spec_call : FlashDeviceInfo → FlashCall → Image → Image
spec_call info (read_range address buffer size) i =
    if refuses info address buffer size
    then i
    else record i { memory = replace buffer size (λ k. i.device (address + k)) i.memory }
spec_call info (write_range address buffer size) i =
    if refuses info address buffer size
      || (info.write_protected || not (writable info.total_size address size))
    then i
    else record i { device = replace address size (λ k. i.memory (buffer + k)) i.device }
spec_call info (erase_at address) i =
    if leb info.total_size address
      || (info.write_protected || leb info.total_size (address + 64 * 1024))
    then i
    else record i {
      device =
          replace (address / info.sector_size * info.sector_size) info.sector_size (λ k. 255)
            i.device;
    }
spec_call info _ i = i

-- A call for this picture: a start or an access whose range does not wrap; stopping the manager is none.
abbrev pub IsAccess : FlashCall → Type 0
IsAccess start_manager = Unit
IsAccess stop_manager = ⊥
IsAccess (read_range address buffer size) = address + size < 2 ^ 64
IsAccess (write_range address buffer size) = address + size < 2 ^ 64
IsAccess (erase_at address) = Unit

-- What a sequence of calls does to the image, the first call first.
unfoldable pub spec_calls : FlashDeviceInfo → List FlashCall → Image → Image
spec_calls info [] i = i
spec_calls info (c ∷ cs) i = spec_calls info cs (spec_call info c i)
