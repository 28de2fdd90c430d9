-- ===== src/Tool/Main.antt =====
-- main of flash_utility.c, from the command line to the exit code.
use usb_uefi_firmware.Common.{ℕ, ◌^◌, ◌≤◌, ◌<◌, ◌≡◌, refl, Option, none, some, List, arith, u32}
use usb_uefi_firmware.Tool.Arguments.{
  CommandLine, ParsedArguments, accepted, refused, exited, parse_arguments, run_configuration,
  run_parsed, tool_main,
}
use usb_uefi_firmware.Tool.Balance.{EndsGivingBack, run_operation-EndsGivingBack}
use usb_uefi_firmware.Tool.Operations.{detect_tool_device}
use usb_uefi_firmware.Tool.Parsing.{
  IsWellFormed, ReturnsWellFormed, Progresses, parse_arguments-ReturnsWellFormed,
}
use usb_uefi_firmware.Tool.State.{ToolConfig, zero_config, zero_device_info, Log, Host}

detect_tool_device_bound :
    (host : Host) (path : List ℕ)
    → (detect_tool_device host path zero_device_info).1.total_size < 2 ^ 32
unfolding detect_tool_device
detect_tool_device_bound host path = ground arith

module _ {S : Type 0} (c : CommandLine S) (host : Host) (fuel : ℕ) where
  run_configuration-EndsGivingBack :
      (config : ToolConfig) (log : Log)
      → IsWellFormed config
      → 0 < config.buffer_size
      → 2 ^ 32 ≤ fuel
      → EndsGivingBack 0 0 log (run_configuration c host fuel config log)
  unfolding run_configuration
  run_configuration-EndsGivingBack config log v pos enough =
      let detected_info = detect_tool_device host config.device_path zero_device_info in
      let file : u32 host.file_size ≤ fuel = omega arith in
      let small = detect_tool_device_bound host config.device_path in
      let size = v.size_fits in
      let with_device =
        run_operation-EndsGivingBack host fuel config detected_info.1 log pos size small
          (omega arith) (omega arith) file in
      let without =
        run_operation-EndsGivingBack host fuel config zero_device_info log pos size (omega arith)
          (omega arith) (omega arith) file in
      ground (arith, with_device, without)

  run_parsed-EndsGivingBack :
      (log : Log) (parsed : Option ParsedArguments)
      → ReturnsWellFormed parsed
      → ((config : ToolConfig) → parsed ≡ some (accepted config) → 0 < config.buffer_size)
      → 2 ^ 32 ≤ fuel
      → EndsGivingBack 0 0 log (run_parsed c host fuel log parsed)
  run_parsed-EndsGivingBack log none v pos enough = v
  run_parsed-EndsGivingBack log (some (accepted config)) v pos enough =
      run_configuration-EndsGivingBack config log v (pos config refl) enough
  run_parsed-EndsGivingBack log (some refused) v pos enough = omega arith
  run_parsed-EndsGivingBack log (some exited) v pos enough = omega arith

  -- For every command line that does not ask for an empty buffer, where getopt_long makes progress,
  -- the program ends with exit code 0 or 1 and has given back every buffer and file that it took,
  -- whichever call of the C library fails; on fuel of at least 2^32, and at least one unit for each
  -- argument.
  pub tool_main-EndsGivingBack :
      (left : S → ℕ) (s : S) (log : Log)
      → Progresses c left
      → left s ≤ fuel
      → 2 ^ 32 ≤ fuel
      → ((config : ToolConfig)
          → parse_arguments c fuel s zero_config ≡ some (accepted config)
          → 0 < config.buffer_size)
      → EndsGivingBack 0 0 log (tool_main c host fuel s log)
  unfolding tool_main
  tool_main-EndsGivingBack left s log progress short enough pos =
      run_parsed-EndsGivingBack log (parse_arguments c fuel s zero_config)
        (parse_arguments-ReturnsWellFormed c left fuel s progress short) pos enough
