-- ===== src/Tests/Tool.antt =====
-- Examples for the flash utility.
use usb_uefi_firmware.Common.{
  ℕ, ◌^◌, ◌<◌, ◌≡◌, refl, true, Option, none, some, List, [], ◌∷◌, arith, length,
}
use usb_uefi_firmware.Tool.Arguments.{
  CommandLine, accepted, parse_address_string, apply_option, option_loop, parse_arguments,
  tool_main,
}
use usb_uefi_firmware.Tool.Balance.{EndsGivingBack}
use usb_uefi_firmware.Tool.Complete.{outcome, read_flash_complete, read_flash_endless}
use usb_uefi_firmware.Tool.Main.{tool_main-EndsGivingBack}
use usb_uefi_firmware.Tool.Parsing.{
  ReturnsWellFormed, Progresses, parse_arguments-ReturnsWellFormed,
}
use usb_uefi_firmware.Tool.State.{
  op_read, ToolConfig, zero_config, ToolDevice, zero_device_info, Host,
}
use usb_uefi_firmware.Tool.Transfer.{read_flash}

abbrev working_host : Host
working_host = record {
  malloc = λ log n. true;
  fopen = λ log. true;
  fwrite = λ log n. n;
  fread = λ log n. n;
  file_size = 10;
  opens_device = λ path. true;
  device_size = λ path. some 1048576;
}

abbrev to_stdout : ToolConfig
to_stdout = record zero_config { operation = op_read; address = 8192; size = 10; buffer_size = 4 }

abbrev detected_device : ToolDevice
detected_device = record zero_device_info {
  total_size = 1048576;
  sector_size = 4096;
  detected = true;
}

read_flash_complete_example :
    outcome (read_flash working_host 10 to_stdout detected_device []) ≡ some (0, 10)
read_flash_complete_example =
    read_flash_complete working_host 10 to_stdout detected_device [] (λ g n. refl) (λ g n. refl)
      (λ g. refl) refl (omega arith) (omega arith) (omega arith)

read_flash_endless_example :
    read_flash working_host 1000 (record to_stdout { buffer_size = 0 }) detected_device [] ≡ none
read_flash_endless_example =
    read_flash_endless working_host 1000 (record to_stdout { buffer_size = 0 }) detected_device []
      (λ g n. refl) (λ g n. refl) (λ g. refl) refl refl (omega arith) (omega arith)

abbrev next_of : List (ℕ × List ℕ) → Option (ℕ × List ℕ × List (ℕ × List ℕ))
next_of [] = none
next_of ((code, text) ∷ rest) = some (code, text, rest)

-- A command line as the options that are left, without operands; every number is read as 8192.
abbrev options_only : CommandLine (List (ℕ × List ℕ))
options_only = record {
  next_option = next_of;
  operand = λ s. none;
  skip = λ s. s;
  strtoul = λ text. (8192, 0);
}

-- `-r 0x2000`.
abbrev read_option : List (ℕ × List ℕ)
read_option = (b'r', b'0' ∷ []) ∷ []

next_of_shorter :
    (s t : List (ℕ × List ℕ)) (code : ℕ) (text : List ℕ)
    → next_of s ≡ some (code, text, t)
    → length t < length s
next_of_shorter [] t code text e = ground arith
next_of_shorter ((c, x) ∷ rest) t code text e = ground arith

options_only-Progresses : Progresses options_only length
options_only-Progresses = record {
  falls = λ s t code text e. next_of_shorter s t code text e;
  skips = λ s. omega arith;
}

parse_arguments-ReturnsWellFormed_example :
    ReturnsWellFormed (parse_arguments options_only 1 read_option zero_config)
parse_arguments-ReturnsWellFormed_example =
    parse_arguments-ReturnsWellFormed options_only length 1 read_option options_only-Progresses
      (omega arith)

-- A memory of ones.
abbrev ones : ℕ → ℕ
ones i = 1

read_parsed :
    parse_arguments options_only (2 ^ 32) read_option zero_config
    ≡ some
        (accepted (record zero_config { operation = op_read; address = 8192; buffer_size = 65536 }))
unfolding parse_arguments option_loop apply_option parse_address_string
read_parsed = refl

tool_main-EndsGivingBack_example :
    EndsGivingBack 0 0 [] (tool_main options_only working_host (2 ^ 32) read_option [])
tool_main-EndsGivingBack_example =
    tool_main-EndsGivingBack options_only working_host (2 ^ 32) length read_option []
      options_only-Progresses (omega arith) (omega arith)
      (λ config parsed. ground (arith, read_parsed))
