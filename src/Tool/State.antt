-- ===== src/Tool/State.antt =====
-- The types of flash_utility.c, its calls of the C library, and the replies that it gets.
use usb_uefi_firmware.Common.{ℕ, Bool, false, Option, List, []}

pub data Operation : Type 0 where
  op_none op_read op_write op_erase op_verify op_backup op_restore op_info : Operation

-- config_t. A text is the list of its characters before the NUL.
pub record ToolConfig : Type 0 where
  pub operation : Operation
  pub device_path : List ℕ
  pub input_file : List ℕ
  pub output_file : List ℕ
  pub address : ℕ  -- uint32_t
  pub size : ℕ  -- uint32_t
  pub buffer_size : ℕ  -- uint32_t
  pub verbose : Bool
  pub force : Bool
  pub verify_after_write : Bool

-- `config_t config = {0}`.
abbrev pub zero_config : ToolConfig
zero_config = record {
  operation = op_none;
  device_path = [];
  input_file = [];
  output_file = [];
  address = 0;
  size = 0;
  buffer_size = 0;
  verbose = false;
  force = false;
  verify_after_write = false;
}

-- flash_device_info_t.
pub record ToolDevice : Type 0 where
  pub path : List ℕ
  pub total_size : ℕ  -- uint32_t
  pub sector_size : ℕ  -- uint32_t
  pub device_id : ℕ  -- uint32_t
  pub vendor_id : ℕ  -- uint16_t
  pub write_protected : Bool
  pub detected : Bool

-- `flash_device_info_t flash_info = {0}`.
abbrev pub zero_device_info : ToolDevice
zero_device_info = record {
  path = [];
  total_size = 0;
  sector_size = 0;
  device_id = 0;
  vendor_id = 0;
  write_protected = false;
  detected = false;
}

-- The calls of the C library that succeed, newest first. A chunk has its number of bytes; an
-- erased sector its address.
pub data ToolEvent : Type 0 where
  malloced buffer_freed file_fopened file_fclosed : ToolEvent
  chunk_written chunk_read sector_erased : ℕ → ToolEvent

abbrev pub Log : Type 0
Log = List ToolEvent

-- malloc, fopen and open with whether they succeed, fwrite and fread of so many bytes with their
-- result, the size of the input file, and that of the device by fstat, which may fail. open and close
-- of the device are not in the log.
pub record Host : Type 0 where
  pub malloc : Log → ℕ → Bool
  pub fopen : Log → Bool
  pub fwrite : Log → ℕ → ℕ
  pub fread : Log → ℕ → ℕ
  pub file_size : ℕ
  pub opens_device : List ℕ → Bool
  pub device_size : List ℕ → Option ℕ
