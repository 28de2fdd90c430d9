-- ===== src/Flash/State.antt =====
-- The types of flash_manager.h and the static variables of flash_manager.c. `regions` is the part of
-- mFlashRegions below mRegionCount, so that mRegionCount is its length.
use usb_uefi_firmware.Common.{ℕ, String, Bool, false, List, [], null}

pub data FlashRegionType : Type 0 where
  boot_block main_firmware nvram descriptor custom : FlashRegionType

pub record FlashRegion : Type 0 where
  pub type : FlashRegionType
  pub start_address : ℕ  -- UINT32
  pub size : ℕ  -- UINT32
  pub write_protected : Bool
  pub erase_required : Bool
  pub name : String

pub record FlashDeviceInfo : Type 0 where
  pub device_name : String
  pub device_id : ℕ  -- UINT32
  pub vendor_id : ℕ  -- UINT16
  pub total_size : ℕ  -- UINT64
  pub sector_size : ℕ  -- UINT32
  pub write_protected : Bool
  pub block_count : ℕ  -- UINT32

pub record Flash : Type 0 where
  pub initialized : Bool
  pub fvb_protocol : ℕ
  pub fvb_handle : ℕ
  pub info : FlashDeviceInfo
  pub regions : List FlashRegion

-- ZeroMemory of mFlashInfo.
abbrev pub zero_info : FlashDeviceInfo
zero_info = record {
  device_name = "";
  device_id = 0;
  vendor_id = 0;
  total_size = 0;
  sector_size = 0;
  write_protected = false;
  block_count = 0;
}

-- The initial values of the static variables.
abbrev pub initial_flash : Flash
initial_flash = record {
  initialized = false;
  fvb_protocol = null;
  fvb_handle = null;
  info = zero_info;
  regions = [];
}
