-- ===== src/Flash/Regions.antt =====
-- The region table and the two checks against it: InitializeFlashRegions,
-- CheckRegionWriteProtection and CheckRegionEraseSupport.
use usb_uefi_firmware.Common.{
  ℕ, ◌+◌, ◌*◌, String, true, false, not, ◌&&◌, List, [], ◌∷◌, leb, if◌then◌else◌, u32, sub32,
}
use usb_uefi_firmware.Flash.State.{boot_block, main_firmware, nvram, descriptor, FlashRegion}
use usb_uefi_firmware.Platform.Status.{Status, success, unsupported, write_protected, not_found}

-- The four regions of InitializeFlashRegions, at the truncations of its UINT32 fields; `copy` is
-- StrCpyS into an array of MAX_FLASH_NAME_LEN characters.
unfoldable pub flash_regions : (String → String) → ℕ → List FlashRegion
flash_regions copy total =
    record {
      type = boot_block;
      start_address = 0;
      size = 64 * 1024;
      write_protected = true;
      erase_required = true;
      name = copy "Boot Block";
    }
    ∷ record {
      type = main_firmware;
      start_address = 64 * 1024;
      size = sub32 (u32 total) (256 * 1024);
      write_protected = false;
      erase_required = true;
      name = copy "Main Firmware";
    }
    ∷ record {
      type = nvram;
      start_address = sub32 (u32 total) (192 * 1024);
      size = 128 * 1024;
      write_protected = false;
      erase_required = true;
      name = copy "NVRAM";
    }
    ∷ record {
      type = descriptor;
      start_address = sub32 (u32 total) (64 * 1024);
      size = 64 * 1024;
      write_protected = true;
      erase_required = false;
      name = copy "Flash Descriptor";
    }
    ∷ []

-- `UINT32 RegionEnd`.
unfoldable pub region_end : FlashRegion → ℕ
region_end r = sub32 (u32 (r.start_address + r.size)) 1

-- The loop of CheckRegionWriteProtection, over the regions from `i` on.
unfoldable pub protection_loop : ℕ → ℕ → List FlashRegion → Status
protection_loop address last [] = success
protection_loop address last (r ∷ rs) =
    let rest = protection_loop address last rs in
    if leb address (region_end r) && leb r.start_address last
    then if r.write_protected then write_protected else rest
    else rest

-- `EndAddress` is a UINT32, so the sum, which is a UINTN, is cut to 32 bits.
unfoldable pub check_region_write_protection : List FlashRegion → ℕ → ℕ → Status
check_region_write_protection regions address size =
    protection_loop address (sub32 (u32 (address + size)) 1) regions

unfoldable pub check_region_erase_support : List FlashRegion → ℕ → Status
check_region_erase_support [] address = not_found
check_region_erase_support (r ∷ rs) address =
    let rest = check_region_erase_support rs address in
    if leb r.start_address address && leb address (region_end r)
    then if not r.erase_required then unsupported else success
    else rest
