-- ===== src/Flash/Manager.antt =====
-- flash_manager_init, DetectFlashDevice, flash_get_device_info, flash_manager_status and
-- flash_manager_cleanup.
use usb_uefi_firmware.Common.{
  ℕ, ◌+◌, ◌*◌, ◌/◌, bit_and, String, Bool, true, false, not, ◌&&◌, ◌||◌, Option, none, some, List,
  [], ◌∷◌, ◌==◌, if◌then◌else◌, null, is_null, length, u32, u64,
}
use usb_uefi_firmware.Flash.Regions.{flash_regions, region_end}
use usb_uefi_firmware.Flash.State.{FlashRegion, FlashDeviceInfo, Flash, zero_info}
use usb_uefi_firmware.Platform.Event.{
  firmware_volume_block_guid, located, opened, closed, freed, block_info,
}
use usb_uefi_firmware.Platform.Proc.{
  Proc, Call, ◌>>=◌, ◌>>◌, pure, get, modify, require, check_status, emit, invoke, when, function,
  call,
}
use usb_uefi_firmware.Platform.Services.{Platform}
use usb_uefi_firmware.Platform.Status.{
  Status, success, invalid_parameter, not_ready, already_started, efi_error,
}

module _ (p : Platform) where
  -- Lines that open the first firmware volume block; with none the manager goes on without it.
  unfoldable pub open_fvb : Proc Flash (Unit {0})
  open_fvb = do
    found ←
        invoke (λ h. p.locate_handle_buffer h firmware_volume_block_guid)
          (λ l. located firmware_volume_block_guid l.status l.buffer)
    if efi_error found.status then modify (λ s. record s { fvb_protocol = null }) else (do
      let handle = found.handles 0
      reply ←
          invoke (λ h. p.open_protocol h handle firmware_volume_block_guid)
            (λ r. opened handle firmware_volume_block_guid r.status)
      modify (λ s. record s { fvb_protocol = reply.value })
      when (not (efi_error reply.status)) (modify (λ s. record s { fvb_handle = handle }))
      emit (freed found.buffer)
      when (efi_error reply.status) (modify (λ s. record s { fvb_protocol = null })))

  -- The defaults that DetectFlashDevice starts from.
  abbrev pub default_info : FlashDeviceInfo
  default_info = record {
    device_name = p.str_cpy_s 128 "Generic SPI Flash";
    device_id = 0x12345678;
    vendor_id = 0xABCD;
    total_size = 16 * 1024 * 1024;
    sector_size = 4096;
    write_protected = false;
    block_count = 16 * 1024 * 1024 / 4096;
  }

  abbrev set_info : (FlashDeviceInfo → FlashDeviceInfo) → Proc Flash (Unit {0})
  set_info f = modify (λ s. record s { info = f s.info })

  -- GetAttributes, and the protection of the device from its answer.
  unfoldable pub read_attributes : ℕ → Proc Flash (Unit {0})
  read_attributes fvb = do
    attributes ← invoke (λ h. p.get_attributes h fvb) (λ _. block_info fvb)
    when (not (efi_error attributes.status)) (
        set_info (λ i. record i {
          write_protected = not (bit_and attributes.value p.fvb2_read_status == 0);
        }))

  -- GetBlockSize, and the geometry of the device from its answer.
  unfoldable pub read_geometry : ℕ → Proc Flash (Unit {0})
  read_geometry fvb = do
    block ← invoke (λ h. p.get_block_size h fvb) (λ _. block_info fvb)
    when (not (efi_error block.status)) (
        set_info (λ i. record i {
          sector_size = u32 block.size;
          block_count = u32 block.count;
          total_size = u64 (block.size * block.count);
        }))

  unfoldable pub detect_flash_device : Call Flash
  detect_flash_device = function (do
    set_info (λ _. default_info)
    s ← get
    when (not (is_null s.fvb_protocol))
        (do read_attributes s.fvb_protocol; read_geometry s.fvb_protocol)
    pure success)

  unfoldable pub initialize_flash_regions : Call Flash
  initialize_flash_regions = function (do
    modify (λ s. record s { regions = flash_regions (p.str_cpy_s 64) s.info.total_size })
    pure success)

  unfoldable pub flash_manager_init : Call Flash
  flash_manager_init = function (do
    s ← get
    require (not s.initialized) already_started
    modify (λ s. record s { info = zero_info; regions = [] })
    open_fvb
    _ ← call detect_flash_device
    status ← call initialize_flash_regions
    check_status status
    modify (λ s. record s { initialized = true })
    pure success)

  -- `info` is the caller's pointer; the copy that it receives is the second part.
  unfoldable pub flash_get_device_info : ℕ → Flash → Status × Option FlashDeviceInfo
  flash_get_device_info info s =
      if is_null info || not s.initialized
      then (invalid_parameter, none)
      else (success, some s.info)

  unfoldable pub flash_manager_cleanup : Call Flash
  flash_manager_cleanup = function (do
    s ← get
    require s.initialized not_ready
    when (not (is_null s.fvb_protocol) && not (is_null s.fvb_handle)) (do
      emit (closed s.fvb_handle firmware_volume_block_guid)
      modify (λ s. record s { fvb_protocol = null; fvb_handle = null }))
    modify (λ s. record s { info = zero_info; regions = []; initialized = false })
    pure success)

-- What flash_manager_status prints of a region: its number, name, first and last address, size in
-- KB, and the marks of its two flags.
pub record RegionLine : Type 0 where
  pub number : ℕ
  pub name : String
  pub first : ℕ
  pub last : ℕ
  pub kilobytes : ℕ
  pub read_only : Bool
  pub erasable : Bool

abbrev pub region_line : ℕ → FlashRegion → RegionLine
region_line i r = record {
  number = i + 1;
  name = r.name;
  first = r.start_address;
  last = region_end r;
  kilobytes = r.size / 1024;
  read_only = r.write_protected;
  erasable = r.erase_required;
}

-- The loop over the regions, from number `i` on.
unfoldable pub region_lines : ℕ → List FlashRegion → List RegionLine
region_lines i [] = []
region_lines i (r ∷ rs) = region_line i r ∷ region_lines (i + 1) rs

pub record StatusReport : Type 0 where
  pub device : String
  pub total_kilobytes : ℕ
  pub sector_bytes : ℕ
  pub blocks : ℕ
  pub write_protected : Bool
  pub fvb_available : Bool
  pub region_count : ℕ
  pub lines : List RegionLine

-- flash_manager_status: its status, and what it prints once it knows the manager to be ready.
unfoldable pub flash_manager_status : Flash → Status × Option StatusReport
flash_manager_status s = if not s.initialized then (not_ready, none) else (
  success,
  some (record {
    device = s.info.device_name;
    total_kilobytes = s.info.total_size / 1024;
    sector_bytes = s.info.sector_size;
    blocks = s.info.block_count;
    write_protected = s.info.write_protected;
    fvb_available = not (is_null s.fvb_protocol);
    region_count = length s.regions;
    lines = region_lines 0 s.regions;
  }),
)
