-- ===== src/Platform/Services.antt =====
-- The replies of the platform, one function for each service that the program calls.
use usb_uefi_firmware.Common.{ℕ, String, Option, List}
use usb_uefi_firmware.Platform.Event.{Guid, History}
use usb_uefi_firmware.Platform.Status.{Status}

-- LocateHandleBuffer: the array of handles, its length, and the pool buffer that holds it.
pub record Located : Type 0 where
  pub status : Status
  pub count : ℕ
  pub handles : ℕ → ℕ
  pub buffer : ℕ

-- A call with one result; what it holds after a failed call is the platform's too.
pub record Reply : Type 0 where
  pub status : Status
  pub value : ℕ

-- GetBlockSize.
pub record BlockSize : Type 0 where
  pub status : Status
  pub size : ℕ
  pub count : ℕ

-- The fields of EFI_USB_DEVICE_DESCRIPTOR that the driver stores.
pub record DeviceDescriptor : Type 0 where
  pub status : Status
  pub vendor : ℕ
  pub product : ℕ
  pub class : ℕ

-- EFI_MEMORY_TYPE, as far as the program tells its values apart.
pub data MemoryType : Type 0 where
  conventional boot_services_code boot_services_data : MemoryType
  reserved runtime_services_code runtime_services_data unusable acpi_reclaim acpi_nvs : MemoryType
  other_memory : ℕ → MemoryType

-- The fields of EFI_MEMORY_DESCRIPTOR that the program reads.
pub record MemoryDescriptor : Type 0 where
  pub type : MemoryType
  pub number_of_pages : ℕ

-- GetMemoryMap: its sizes, and the descriptor at each address of the buffer.
pub record MemoryMap : Type 0 where
  pub status : Status
  pub map_size : ℕ
  pub descriptor_size : ℕ
  pub descriptor_at : ℕ → MemoryDescriptor

-- AsmCpuid: four UINT32 registers.
pub record Registers : Type 0 where
  pub eax : ℕ
  pub ebx : ℕ
  pub ecx : ℕ
  pub edx : ℕ

-- The fields of EFI_SYSTEM_TABLE that the program reads. `firmware_vendor` is `none` for NULL.
pub record SystemTable : Type 0 where
  pub revision : ℕ
  pub firmware_vendor : Option String
  pub firmware_revision : ℕ

pub record Platform : Type 0 where
  pub image_handle : ℕ
  -- OpenProtocol, LocateHandleBuffer and AllocatePool, whose NULL is 0.
  pub open_protocol : History → ℕ → Guid → Reply
  pub locate_handle_buffer : History → Guid → Located
  pub allocate_pool : History → ℕ → ℕ
  -- The device handle of the loaded image.
  pub device_handle : ℕ → ℕ
  -- StrCpyS into an empty array of so many characters.
  pub str_cpy_s : ℕ → String → String
  -- The firmware volume: GetAttributes, the mask EFI_FVB2_READ_STATUS, GetBlockSize, Read, Write
  -- and EraseBlocks.
  pub get_attributes : History → ℕ → Reply
  pub fvb2_read_status : ℕ
  pub get_block_size : History → ℕ → BlockSize
  pub block_read_status : History → ℕ → ℕ → ℕ → ℕ → Status
  pub block_write_status : History → ℕ → ℕ → ℕ → ℕ → Status
  pub block_erase_status : History → ℕ → ℕ → Status
  -- sizeof (EFI_FILE_INFO) + 512, the buffer for the information on a file.
  pub file_info_room : ℕ
  -- Files: OpenVolume, Open, GetInfo with the file's size, and Read with the bytes read.
  pub open_volume : History → ℕ → Reply
  pub open_file : History → ℕ → ℕ → Reply
  pub get_file_info : History → ℕ → Reply
  pub read_file : History → ℕ → ℕ → Reply
  -- USB: the two descriptors, the second with its total length, and the control transfer.
  pub get_device_descriptor : History → ℕ → DeviceDescriptor
  pub get_config_descriptor : History → ℕ → Reply
  pub usb_control_transfer : History → ℕ → ℕ → Status
  -- gBS and gRT as pointers, and the system table.
  pub boot_services : ℕ
  pub runtime_services : ℕ
  pub system_table : SystemTable
  -- GetMemoryMap into a buffer of a size, EFI_PAGE_SIZE, and the variable SecureBoot, whose value
  -- is what the byte holds after the call.
  pub get_memory_map : History → ℕ → ℕ → MemoryMap
  pub page_size : ℕ
  pub get_secure_boot : History → Reply
  pub locate_protocol : History → Guid → Reply
  -- AsmCpuid, the cast of a CHAR8 to a CHAR16, AsciiStrCpyS of a text with its NUL, and StrStr.
  pub cpuid : ℕ → Registers
  pub widen : ℕ → ℕ
  pub ascii_str_cpy_s : ℕ → List ℕ → List ℕ
  pub str_str : List ℕ → List ℕ → ℕ
  -- Boot services called by boot_services.c: AllocatePool of a memory type, FreePool, HandleProtocol,
  -- CloseProtocol, CreateEvent, SignalEvent and SetTimer.
  pub boot_allocate_pool : History → ℕ → ℕ → Reply
  pub boot_free_pool : History → ℕ → Status
  pub handle_protocol : History → ℕ → Guid → Reply
  pub close_protocol : History → ℕ → Guid → Status
  pub create_event : History → Reply
  pub signal_event : History → ℕ → Status
  pub set_timer : History → ℕ → ℕ → Status
  -- GetDevicePathSize, and CompareMem of two addresses and a size.
  pub get_device_path_size : ℕ → ℕ
  pub compare_mem : ℕ → ℕ → ℕ → ℕ
  -- The main loop: WaitForEvent with the index of the event, and ReadKeyStroke with the character.
  pub wait_for_event : History → Reply
  pub read_key : History → Reply
  -- LocateHandleBuffer with a search type, a GUID whose NULL is `none`, and a search key.
  pub search_handles : History → ℕ → Option Guid → ℕ → Located
  -- StrCpyS of a text of characters into an empty array.
  pub str_cpy_codes : ℕ → List ℕ → List ℕ
  -- gST as a pointer, and its fields ConIn and ConOut.
  pub system_table_pointer : ℕ
  pub con_in : ℕ
  pub con_out : ℕ
