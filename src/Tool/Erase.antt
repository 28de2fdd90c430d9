-- ===== src/Tool/Erase.antt =====
-- What erase_flash of flash_utility.c erases.
use usb_uefi_firmware.Common.{ℕ, ◌+◌, Bool, false, ◌&&◌, ◌||◌, [], ◌∷◌, ltb, leb}
use usb_uefi_firmware.Tool.State.{sector_erased, Log}

-- Whether a sector that was erased holds an address.
abbrev pub erased_at : ℕ → ℕ → Log → Bool
erased_at sector_size x [] = false
erased_at sector_size x (sector_erased start ∷ log) =
    (leb start x && ltb x (start + sector_size)) || erased_at sector_size x log
erased_at sector_size x (_ ∷ log) = erased_at sector_size x log
