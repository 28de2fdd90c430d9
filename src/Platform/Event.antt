-- ===== src/Platform/Event.antt =====
-- The calls of the program into the platform, with their arguments and the replies on which later
-- calls depend. A history is a list of them, newest first.
use usb_uefi_firmware.Common.{ℕ, List}
use usb_uefi_firmware.Platform.Status.{Status}

-- The protocols that the program names by their GUIDs.
pub data Guid : Type 0 where
  loaded_image_guid simple_file_system_guid firmware_volume_block_guid usb2_hc_guid usb_io_guid
        tcg2_guid device_path_guid :
      Guid

-- EFI_USB_DEVICE_REQUEST.
pub record UsbRequest : Type 0 where
  pub request_type : ℕ  -- UINT8
  pub request : ℕ  -- UINT8
  pub value : ℕ  -- UINT16
  pub index : ℕ  -- UINT16
  pub length : ℕ  -- UINT16

pub data Event : Type 0 where
  -- Boot services. `located` has the status and the pool buffer of the reply, `opened`
  -- the status; `searched` is LocateHandleBuffer with any search type.
  located : Guid → Status → ℕ → Event
  searched : ℕ → Event
  opened : ℕ → Guid → Status → Event
  closed : ℕ → Guid → Event
  allocated : ℕ → ℕ → Event
  freed : ℕ → Event
  handled : ℕ → Guid → Event
  -- CopyMem: destination, source, size.
  copied : ℕ → ℕ → ℕ → Event
  -- EFI_FIRMWARE_VOLUME_BLOCK_PROTOCOL: block, offset, size, buffer.
  block_info : ℕ → Event
  block_read : ℕ → ℕ → ℕ → ℕ → ℕ → Event
  block_written : ℕ → ℕ → ℕ → ℕ → ℕ → Event
  block_erased : ℕ → ℕ → ℕ → Event
  -- EFI_SIMPLE_FILE_SYSTEM_PROTOCOL and EFI_FILE_PROTOCOL. The two calls that open have the status
  -- and the new file.
  volume_opened : Status → ℕ → Event
  file_opened : Status → ℕ → Event
  file_info : ℕ → Event
  file_read : ℕ → ℕ → ℕ → ℕ → Event
  file_closed : ℕ → Event
  -- EFI_USB_IO_PROTOCOL: the interface, and for a transfer its request, timeout and length.
  device_descriptor : ℕ → Event
  config_descriptor : ℕ → Event
  control_transfer : ℕ → UsbRequest → ℕ → ℕ → Event
  -- Events, timers and the console.
  event_created : ℕ → Event
  event_signalled : ℕ → Event
  timer_set : ℕ → ℕ → Event
  event_waited : Event
  event_closed : ℕ → Event
  key_read : Event
  -- The memory map, variables and protocols that uefi_interface.c asks for.
  memory_map : ℕ → Event
  variable_read : Event
  protocol_located : Guid → Event

abbrev pub History : Type 0
History = List Event
