-- ===== src/Tool/Operations.antt =====
-- The other operations of flash_utility.c, its parser of sizes, and the choice of the operation.
use usb_uefi_firmware.Common.{
  ℕ, zero, suc, ◌+◌, ◌*◌, ◌/◌, true, false, not, ◌&&◌, ◌||◌, Option, none, some, List, ◌∷◌,
  if◌then◌else◌, take, u32, sub32,
}
use usb_uefi_firmware.Tool.State.{
  op_none, op_read, op_write, op_erase, op_verify, op_backup, op_restore, op_info, ToolConfig,
  ToolDevice, sector_erased, Log, Host,
}
use usb_uefi_firmware.Tool.Transfer.{read_flash, write_flash}

-- The loop of erase_flash, from sector `i` on.
unfoldable pub erase_loop : ℕ → ℕ → ℕ → ℕ → Log → Log
erase_loop address sector_size zero i log = log
erase_loop address sector_size (suc sectors) i log =
    erase_loop address sector_size sectors (i + 1)
      (sector_erased (u32 (address + u32 (i * sector_size))) ∷ log)

-- `(size + sector_size - 1) / sector_size` on uint32_t.
unfoldable pub sector_count : ℕ → ℕ → ℕ
sector_count size sector_size = sub32 (u32 (size + sector_size)) 1 / sector_size

-- detect_tool_device sets the sector size to 4096, so the division never faults.
unfoldable pub erase_flash : ToolConfig → ToolDevice → Log → ℕ × Log
erase_flash config info log =
    if not info.detected || (info.write_protected && not config.force) then (1, log) else (
      0,
      erase_loop config.address info.sector_size (sector_count config.size info.sector_size) 0 log,
    )

-- It prints that it succeeded.
unfoldable pub verify_flash : ToolConfig → ToolDevice → Log → ℕ × Log
verify_flash config info log = (0, log)

unfoldable pub show_flash_info : ToolDevice → Log → ℕ × Log
show_flash_info info log = (if not info.detected then 1 else 0, log)

unfoldable pub backup_flash : Host → ℕ → ToolConfig → ToolDevice → Log → Option (ℕ × Log)
backup_flash host fuel config info =
    read_flash host fuel (record config { address = 0; size = info.total_size }) info

unfoldable pub restore_flash : Host → ℕ → ToolConfig → ToolDevice → Log → Option (ℕ × Log)
restore_flash host fuel config = write_flash host fuel (record config { address = 0 })

-- detect_flash_device on Linux: the size of the device, or 16 MB where fstat fails.
unfoldable pub detect_tool_device : Host → List ℕ → ToolDevice → ℕ × ToolDevice
detect_tool_device host path info =
    let named = record info { path = take 255 path } in
    if host.opens_device path
    then (
      0,
      record named {
        total_size = elim (host.device_size path) [
          | none ↦ 16 * 1024 * 1024
          | some size ↦ u32 size
        ];
        sector_size = 4096;
        device_id = 0x12345678;
        vendor_id = 0xABCD;
        write_protected = false;
        detected = true;
      },
    )
    else (1, named)

-- The loop of calculate_checksum, from an address on.
unfoldable pub tool_checksum_loop : (ℕ → ℕ) → ℕ → ℕ → ℕ → ℕ
tool_checksum_loop memory at zero checksum = checksum
tool_checksum_loop memory at (suc n) checksum =
    tool_checksum_loop memory (at + 1) n (u32 (checksum + memory at))

unfoldable pub calculate_checksum : (ℕ → ℕ) → ℕ → ℕ → ℕ
calculate_checksum memory data_at size = tool_checksum_loop memory data_at size 0

-- The `switch` of main; without an operation it shows the usage and fails.
unfoldable pub run_operation : Host → ℕ → ToolConfig → ToolDevice → Log → Option (ℕ × Log)
run_operation host fuel config info log = elim config.operation [
  | op_none ↦ some (1, log)
  | op_read ↦ read_flash host fuel config info log
  | op_write ↦ write_flash host fuel config info log
  | op_erase ↦ some (erase_flash config info log)
  | op_verify ↦ some (verify_flash config info log)
  | op_backup ↦ backup_flash host fuel config info log
  | op_restore ↦ restore_flash host fuel config info log
  | op_info ↦ some (show_flash_info info log)
]
