-- ===== src/Tests/Machine.antt =====
-- A machine that replies to every call, and variants of it, for the examples.
use usb_uefi_firmware.Common.{ℕ, suc, ◌+◌, true, some, ltb, leb, ◌==◌, if◌then◌else◌}
use usb_uefi_firmware.Flash.Regions.{flash_regions}
use usb_uefi_firmware.Flash.State.{Flash, zero_info}
use usb_uefi_firmware.Loader.State.{Loader, initial_loader}
use usb_uefi_firmware.Main.Loop.{waits}
use usb_uefi_firmware.Platform.Services.{conventional, Platform}
use usb_uefi_firmware.Platform.Status.{success, bad_buffer_size, buffer_too_small, not_found}
use usb_uefi_firmware.Uefi.State.{Uefi, initial_uefi}
use usb_uefi_firmware.Usb.State.{Usb, initial_usb}

-- Two handles, one device and one file; every service works.
abbrev pub quiet : Platform
quiet = record {
  image_handle = 7;
  open_protocol = λ h handle guid. record { status = success; value = handle + 100 };
  locate_handle_buffer =
      λ h guid. record { status = success; count = 2; handles = λ i. i + 1; buffer = 50 };
  allocate_pool = λ h n. 4096;
  device_handle = λ image. 9;
  str_cpy_s = λ room text. text;
  get_attributes = λ h fvb. record { status = success; value = 0 };
  fvb2_read_status = 2;
  get_block_size = λ h fvb. record { status = success; size = 4096; count = 256 };
  block_read_status = λ h fvb lba offset size. success;
  block_write_status = λ h fvb lba offset size. success;
  block_erase_status = λ h fvb lba. success;
  file_info_room = 592;
  open_volume = λ h fs. record { status = success; value = 60 };
  open_file = λ h root name. record { status = success; value = 61 };
  get_file_info = λ h file. record { status = success; value = 10 };
  read_file = λ h file size. record { status = success; value = size };
  get_device_descriptor =
      λ h io. record { status = success; vendor = 0x046D; product = 0xC31C; class = 3 };
  get_config_descriptor = λ h io. record { status = success; value = 34 };
  usb_control_transfer = λ h io n. success;
  boot_services = 1;
  runtime_services = 1;
  system_table = record {
    revision = 0x20046;
    firmware_vendor = some "EDK II";
    firmware_revision = 1;
  };
  get_memory_map = λ h size buffer. record {
    status = if size == 0 then buffer_too_small else success;
    map_size = 96;
    descriptor_size = 48;
    descriptor_at = λ at. record { type = conventional; number_of_pages = 16 };
  };
  page_size = 4096;
  get_secure_boot = λ h. record { status = success; value = 1 };
  locate_protocol = λ h guid. record { status = success; value = 70 };
  cpuid = λ leaf. record { eax = 0; ebx = 0; ecx = 0; edx = 0 };
  widen = λ c. c;
  ascii_str_cpy_s = λ room text. text;
  str_str = λ text part. 0;
  boot_allocate_pool = λ h type size. record { status = success; value = 4104 };
  boot_free_pool = λ h pointer. success;
  handle_protocol = λ h handle guid. record { status = success; value = handle };
  close_protocol = λ h handle guid. success;
  create_event = λ h. record { status = success; value = 80 };
  signal_event = λ h event. success;
  set_timer = λ h event period. success;
  get_device_path_size = λ path. 4;
  compare_mem = λ a b size. 0;
  wait_for_event = λ h. record { status = success; value = if ltb (waits h) 2 then 1 else 0 };
  read_key = λ h. record { status = success; value = b'q' };
  search_handles =
      λ h kind guid key. record { status = success; count = 1; handles = λ i. 1; buffer = 51 };
  str_cpy_codes = λ room text. text;
  system_table_pointer = 1;
  con_in = 90;
  con_out = 91;
}

-- A volume whose attributes hold EFI_FVB2_READ_STATUS.
abbrev pub readable_volume : Platform
readable_volume = record quiet { get_attributes = λ h fvb. record { status = success; value = 2 } }

-- USB I/O opens on the handle `n + 1` alone, the last of `n + 1` handles.
abbrev pub one_of : ℕ → Platform
one_of n = record quiet {
  open_protocol = λ h handle guid. record {
    status = if handle == n + 1 then success else not_found;
    value = handle + 100;
  };
  locate_handle_buffer =
      λ h guid. record { status = success; count = suc n; handles = λ i. i + 1; buffer = 50 };
}

-- A tick, the key `r`, and then the key `q`.
abbrev pub pressing : Platform
pressing = record quiet {
  wait_for_event = λ h. record { status = success; value = if waits h == 0 then 1 else 0 };
  read_key = λ h. record { status = success; value = if leb (waits h) 2 then b'r' else b'q' };
}

-- The device refuses accesses across the end of a block.
abbrev pub blockwise : Platform
blockwise = record quiet {
  block_read_status =
      λ h fvb lba at size. if ltb 4096 (at + size) then bad_buffer_size else success;
  block_write_status =
      λ h fvb lba at size. if ltb 4096 (at + size) then bad_buffer_size else success;
}

-- Started subsystems.
abbrev pub started_flash : Flash
started_flash = record {
  initialized = true;
  fvb_protocol = 101;
  fvb_handle = 1;
  info = record zero_info { total_size = 1048576; sector_size = 4096 };
  regions = flash_regions (λ text. text) 1048576;
}

abbrev pub running_usb : Usb
running_usb = record initial_usb { initialized = true }

abbrev pub running_loader : Loader
running_loader = record initial_loader {
  initialized = true;
  file_system = 109;
  file_system_handle = 9;
}

abbrev pub running_uefi : Uefi
running_uefi = record initial_uefi { initialized = true; loaded_image = 107 }
