-- ===== src/Tool/Undetected.antt =====
-- main of flash_utility.c without a device.
use usb_uefi_firmware.Common.{ℕ, ◌≡◌, ◌≢◌, some, arith, length}
use usb_uefi_firmware.Tool.Arguments.{
  CommandLine, accepted, parse_arguments, run_configuration, tool_main,
}
use usb_uefi_firmware.Tool.Operations.{
  erase_flash, show_flash_info, backup_flash, restore_flash, run_operation,
}
use usb_uefi_firmware.Tool.State.{op_verify, ToolConfig, zero_config, zero_device_info, Log, Host}
use usb_uefi_firmware.Tool.Transfer.{read_flash, write_flash}

module _ {S : Type 0} (c : CommandLine S) (host : Host) (fuel : ℕ) where
  run_operation_undetected :
      (config : ToolConfig) (log : Log)
      → config.operation ≢ op_verify
      → run_operation host fuel config zero_device_info log ≡ some (1, log)
  unfolding run_operation read_flash write_flash erase_flash show_flash_info backup_flash
      restore_flash
  run_operation_undetected config log other = ground arith

  run_configuration_undetected :
      (config : ToolConfig) (log : Log)
      → length config.device_path ≡ 0
      → config.operation ≢ op_verify
      → run_configuration c host fuel config log ≡ some (1, log)
  unfolding run_configuration
  run_configuration_undetected config log pathless other =
      ground (arith, run_operation_undetected config log other)

  -- main with accepted arguments but no device path: every operation but the verification, also
  -- none at all, ends with exit code 1, and no call is made.
  pub tool_main_undetected :
      (s : S) (config : ToolConfig) (log : Log)
      → parse_arguments c fuel s zero_config ≡ some (accepted config)
      → length config.device_path ≡ 0
      → config.operation ≢ op_verify
      → tool_main c host fuel s log ≡ some (1, log)
  unfolding tool_main
  tool_main_undetected s config log parsed pathless other =
      rw parsed (run_configuration_undetected config log pathless other)
