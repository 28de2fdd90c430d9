-- ===== src/Tool/Usage.antt =====
-- The options of flash_utility.c: the table and the text that getopt_long is given, and show_usage.
use usb_uefi_firmware.Common.{
  ℕ, ◌<◌, String, ◌≡◌, Bool, true, false, not, ◌||◌, Option, none, some, List, [], ◌∷◌, arith, ◌==◌,
  if◌then◌else◌,
}
use usb_uefi_firmware.Tool.Arguments.{CommandLine, Round, invalid_option, apply_option}
use usb_uefi_firmware.Tool.State.{ToolConfig}

-- struct option: the name, whether it takes an argument, and the code that getopt_long returns.
pub record LongOption : Type 0 where
  pub name : String
  pub has_argument : Bool
  pub code : ℕ

abbrev pub long_options : List LongOption
long_options =
    record { name = "read"; has_argument = true; code = b'r' }
    ∷ record { name = "write"; has_argument = true; code = b'w' }
    ∷ record { name = "erase"; has_argument = true; code = b'e' }
    ∷ record { name = "verify"; has_argument = true; code = b'v' }
    ∷ record { name = "backup"; has_argument = true; code = b'b' }
    ∷ record { name = "restore"; has_argument = true; code = b'R' }
    ∷ record { name = "info"; has_argument = false; code = b'i' }
    ∷ record { name = "device"; has_argument = true; code = b'd' }
    ∷ record { name = "output"; has_argument = true; code = b'o' }
    ∷ record { name = "buffer-size"; has_argument = true; code = b's' }
    ∷ record { name = "force"; has_argument = false; code = b'f' }
    ∷ record { name = "verbose"; has_argument = false; code = b'V' }
    ∷ record { name = "verify-after-write"; has_argument = false; code = 1000 }
    ∷ record { name = "version"; has_argument = false; code = 1001 }
    ∷ record { name = "help"; has_argument = false; code = b'h' }
    ∷ []

-- "r:w:e:v:b:R:id:o:s:fVh": a character, followed by a colon if it takes an argument.
abbrev pub short_options : List ℕ
short_options =
    b'r' ∷ b':' ∷ b'w' ∷ b':' ∷ b'e' ∷ b':' ∷ b'v' ∷ b':' ∷ b'b' ∷ b':' ∷ b'R' ∷ b':' ∷ b'i' ∷ b'd'
    ∷ b':' ∷ b'o' ∷ b':' ∷ b's' ∷ b':' ∷ b'f' ∷ b'V' ∷ b'h' ∷ []

-- A line of show_usage: the character, if there is one, the name, what follows it, and the text.
pub record UsageLine : Type 0 where
  pub short : Option ℕ
  pub long : String
  pub operands : String
  pub what : String

abbrev pub show_usage_operations : List UsageLine
show_usage_operations =
    record { short = some b'r'; long = "read"; operands = "ADDR SIZE"; what = "Read flash memory" }
    ∷ record {
      short = some b'w';
      long = "write";
      operands = "ADDR FILE";
      what = "Write file to flash";
    }
    ∷ record {
      short = some b'e';
      long = "erase";
      operands = "ADDR SIZE";
      what = "Erase flash region";
    }
    ∷ record {
      short = some b'v';
      long = "verify";
      operands = "FILE";
      what = "Verify flash against file";
    }
    ∷ record { short = some b'b'; long = "backup"; operands = "FILE"; what = "Backup entire flash" }
    ∷ record {
      short = some b'R';
      long = "restore";
      operands = "FILE";
      what = "Restore flash from backup";
    }
    ∷ record { short = some b'i'; long = "info"; operands = ""; what = "Show flash information" }
    ∷ []

abbrev pub show_usage_options : List UsageLine
show_usage_options =
    record { short = some b'd'; long = "device"; operands = "PATH"; what = "Flash device path" }
    ∷ record {
      short = some b'o';
      long = "output";
      operands = "FILE";
      what = "Output file for read operations";
    }
    ∷ record {
      short = some b's';
      long = "buffer-size";
      operands = "SIZE";
      what = "Buffer size for operations";
    }
    ∷ record {
      short = some b'f';
      long = "force";
      operands = "";
      what = "Force operation (skip warnings)";
    }
    ∷ record { short = some b'V'; long = "verbose"; operands = ""; what = "Verbose output" }
    ∷ record {
      short = none;
      long = "verify-after-write";
      operands = "";
      what = "Verify data after write";
    }
    ∷ record { short = none; long = "version"; operands = ""; what = "Show version information" }
    ∷ record { short = some b'h'; long = "help"; operands = ""; what = "Show this help" }
    ∷ []

-- Whether a code is that of an entry of the table.
abbrev has_code : ℕ → List LongOption → Bool
has_code c [] = false
has_code c (o ∷ os) = c == o.code || has_code c os

-- Whether the text has a character as an option, and whether with a colon after it.
abbrev pub short_argument : ℕ → List ℕ → Option Bool
short_argument c [] = none
short_argument c (x ∷ []) = if c == x then some false else none
short_argument c (x ∷ y ∷ rest) =
    let later = short_argument c (y ∷ rest) in if c == x then some (y == b':') else later

abbrev long_argument : ℕ → List LongOption → Option Bool
long_argument c [] = none
long_argument c (o ∷ os) =
    let later = long_argument c os in if c == o.code then some o.has_argument else later

abbrev pub is_invalid : {S : Type 0} → Round S → Bool
is_invalid invalid_option = true
is_invalid _ = false

-- The `switch` refuses exactly the codes that the table has not.
pub apply_option-long_options :
    {S : Type 0} (c : CommandLine S) (code : ℕ) (optarg : List ℕ) (s : S) (config : ToolConfig)
    → is_invalid (apply_option c code optarg s config) ≡ not (has_code code long_options)
unfolding apply_option
apply_option-long_options c code optarg s config = ground arith

-- A code below 256 but the colon is an option of the text exactly if it is one of the table, and the
-- two agree on whether it takes an argument.
pub short_options-long_options :
    (code : ℕ)
    → code < 256
    → (code == b':') ≡ false
    → short_argument code short_options ≡ long_argument code long_options
short_options-long_options code small other = ground arith

-- Whether the usage lists a character.
abbrev pub documented : ℕ → List UsageLine → Bool
documented c [] = false
documented c (u ∷ us) = elim u.short [ none ↦ false | some x ↦ c == x ] || documented c us

-- For a character, three things are the same: the usage lists it, getopt_long is given it as an option
-- (but for the colon of its text), and the `switch` does not refuse it.
pub apply_option-documented :
    {S : Type 0} (c : CommandLine S) (code : ℕ) (optarg : List ℕ) (s : S) (config : ToolConfig)
    → code < 256
    → (code == b':') ≡ false
    → (is_invalid (apply_option c code optarg s config)
        ≡ not (documented code show_usage_operations || documented code show_usage_options))
      × (is_invalid (apply_option c code optarg s config)
          ≡ elim (short_argument code short_options) [ none ↦ true | some takes ↦ false ])
unfolding apply_option
apply_option-documented c code optarg s config small other = ground arith
