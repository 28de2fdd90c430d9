-- ===== src/Tool/Arguments.antt =====
-- parse_arguments, parse_size_string, parse_address_string and main of flash_utility.c. The loop over
-- the options runs on fuel, one unit for each option.
use usb_uefi_firmware.Common.{
  ℕ, zero, suc, ◌*◌, true, ◌||◌, Option, none, some, List, ltb, ◌==◌, if◌then◌else◌, length, take,
  u32,
}
use usb_uefi_firmware.Tool.Operations.{detect_tool_device, run_operation}
use usb_uefi_firmware.Tool.State.{
  op_none, op_read, op_write, op_erase, op_verify, op_backup, op_restore, op_info, ToolConfig,
  zero_config, zero_device_info, Log, Host,
}

-- The C library's part: getopt_long and strtoul. A state of the option parser gives the next option,
-- with its code, its argument and the state after it; or none for -1. `operand` is argv[optind] if
-- there is one, and `skip` is `optind++`. strtoul gives a number and the first character that it
-- did not read, 0 at the end of the text.
pub record CommandLine (S : Type 0) : Type 0 where
  pub next_option : S → Option (ℕ × List ℕ × S)
  pub operand : S → Option (List ℕ)
  pub skip : S → S
  pub strtoul : List ℕ → ℕ × ℕ

-- What one round of the loop does: it goes on, ends the program with exit(0), or is refused.
pub data Round (S : Type 0) : Type 0 where
  go_on : S → ToolConfig → Round S
  exit_now : Round S
  invalid_option : Round S

-- parse_arguments returns 0 with the configuration, or 1, or it has ended the program.
pub data ParsedArguments : Type 0 where
  accepted : ToolConfig → ParsedArguments
  refused : ParsedArguments
  exited : ParsedArguments

module _ {S : Type 0} (c : CommandLine S) where
  unfoldable pub parse_size_string : List ℕ → ℕ
  parse_size_string text =
      let (number, last) = c.strtoul text in
      if last == b'K' || last == b'k'
      then u32 (u32 number * 1024)
      else if last == b'M' || last == b'm'
      then u32 (u32 number * u32 (1024 * 1024))
      else u32 number

  unfoldable pub parse_address_string : List ℕ → ℕ
  parse_address_string text = u32 (c.strtoul text).0

  -- `if (optind < argc) { ...; optind++; }`.
  abbrev pub with_operand : (List ℕ → ToolConfig → ToolConfig) → S → ToolConfig → Round S
  with_operand f s config = elim (c.operand s) [
    | none ↦ go_on s config
    | some text ↦ go_on (c.skip s) (f text config)
  ]

  abbrev pub set_size : List ℕ → ToolConfig → ToolConfig
  set_size text config = record config { size = parse_size_string text }

  abbrev pub set_input : List ℕ → ToolConfig → ToolConfig
  set_input text config = record config { input_file = take 255 text }

  -- The `switch` on the option's code.
  unfoldable pub apply_option : ℕ → List ℕ → S → ToolConfig → Round S
  apply_option code optarg s config =
      if code == b'r'
      then with_operand set_size s
          (record config { operation = op_read; address = parse_address_string optarg })
      else if code == b'w'
      then with_operand set_input s
          (record config { operation = op_write; address = parse_address_string optarg })
      else if code == b'e'
      then with_operand set_size s
          (record config { operation = op_erase; address = parse_address_string optarg })
      else if code == b'v'
      then go_on s (record config { operation = op_verify; input_file = take 255 optarg })
      else if code == b'b'
      then go_on s (record config { operation = op_backup; output_file = take 255 optarg })
      else if code == b'R'
      then go_on s (record config { operation = op_restore; input_file = take 255 optarg })
      else if code == b'i'
      then go_on s (record config { operation = op_info })
      else if code == b'd'
      then go_on s (record config { device_path = take 255 optarg })
      else if code == b'o'
      then go_on s (record config { output_file = take 255 optarg })
      else if code == b's'
      then go_on s (record config { buffer_size = parse_size_string optarg })
      else if code == b'f'
      then go_on s (record config { force = true })
      else if code == b'V'
      then go_on s (record config { verbose = true })
      else if code == 1000
      then go_on s (record config { verify_after_write = true })
      else if code == 1001 || code == b'h'
      then exit_now
      else invalid_option

  -- One round of the loop, with the rounds after it.
  abbrev pub after_round :
      (S → ToolConfig → Option ParsedArguments) → Round S → Option ParsedArguments
  after_round rest (go_on s config) = rest s config
  after_round rest exit_now = some exited
  after_round rest invalid_option = some refused

  abbrev pub next_round :
      (S → ToolConfig → Option ParsedArguments)
      → Option (ℕ × List ℕ × S)
      → ToolConfig
      → Option ParsedArguments
  next_round rest none config = some (accepted config)
  next_round rest (some (code, optarg, s)) config =
      after_round rest (apply_option code optarg s config)

  unfoldable pub option_loop : ℕ → S → ToolConfig → Option ParsedArguments
  option_loop zero s config = next_round (λ _ _. none) (c.next_option s) config
  option_loop (suc fuel) s config = next_round (option_loop fuel) (c.next_option s) config

  unfoldable pub parse_arguments : ℕ → S → ToolConfig → Option ParsedArguments
  parse_arguments fuel s config =
      option_loop fuel s (record config { buffer_size = 64 * 1024; operation = op_none })

  -- main once the arguments are parsed.
  unfoldable pub run_configuration : Host → ℕ → ToolConfig → Log → Option (ℕ × Log)
  run_configuration host fuel config log =
      let detected_info = detect_tool_device host config.device_path zero_device_info in
      if ltb 0 (length config.device_path)
      then if detected_info.0 == 0
        then run_operation host fuel config detected_info.1 log
        else some (1, log)
      else run_operation host fuel config zero_device_info log

  -- main with what parse_arguments has returned.
  abbrev pub run_parsed : Host → ℕ → Log → Option ParsedArguments → Option (ℕ × Log)
  run_parsed host fuel log none = none
  run_parsed host fuel log (some (accepted config)) = run_configuration host fuel config log
  run_parsed host fuel log (some exited) = some (0, log)
  run_parsed host fuel log (some refused) = some (1, log)

  -- main: the exit code of the program.
  unfoldable pub tool_main : Host → ℕ → S → Log → Option (ℕ × Log)
  tool_main host fuel s log = run_parsed host fuel log (parse_arguments fuel s zero_config)
