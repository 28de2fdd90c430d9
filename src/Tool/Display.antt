-- ===== src/Tool/Display.antt =====
-- print_progress, format_size and show_version of flash_utility.c, and the examples of show_usage.
use usb_uefi_firmware.Common.{
  ℕ, zero, suc, ◌+◌, ◌*◌, String, List, [], ◌∷◌, ltb, leb, if◌then◌else◌,
}

-- What the code does with a `float`: conversion from an unsigned number, division, multiplication,
-- and the conversion of a float that is not negative to `int`.
pub record Floats (W : Type 0) : Type 0 where
  pub of_number : ℕ → W
  pub divided : W → W → W
  pub times : W → W → W
  pub truncated : W → ℕ

abbrev pub bar_width : ℕ
bar_width = 50

-- `for (int i = …; i < bar_width; i++) printf("%c", i < filled ? '=' : ' ');` over the rounds left.
unfoldable pub bar_loop : ℕ → ℕ → ℕ → List ℕ
bar_loop filled zero i = []
bar_loop filled (suc rounds) i =
    (if ltb i filled then b'=' else b' ') ∷ bar_loop filled rounds (i + 1)

-- "\r%s: [", the bar and "] %3.0f%% (%zu/%zu)" with their arguments.
pub record ProgressLine (W : Type 0) : Type 0 where
  pub operation : String
  pub bar : List ℕ
  pub percent : W
  pub current : ℕ
  pub total : ℕ

-- The text of "%.1f MB", "%.1f KB" and "%u bytes".
pub data SizeText (W : Type 0) : Type 0 where
  in_megabytes : W → SizeText W
  in_kilobytes : W → SizeText W
  in_bytes : ℕ → SizeText W

module _ {W : Type 0} (floats : Floats W) where
  abbrev pub progress_of : ℕ → ℕ → W
  progress_of current total = floats.divided (floats.of_number current) (floats.of_number total)

  unfoldable pub filled_of : ℕ → ℕ → ℕ
  filled_of current total =
      floats.truncated (floats.times (progress_of current total) (floats.of_number bar_width))

  unfoldable pub print_progress : ℕ → ℕ → String → ProgressLine W
  print_progress current total operation = record {
    operation = operation;
    bar = bar_loop (filled_of current total) bar_width 0;
    percent = floats.times (progress_of current total) (floats.of_number 100);
    current = current;
    total = total;
  }

  unfoldable pub format_size : ℕ → SizeText W
  format_size size =
      if leb (1024 * 1024) size
      then in_megabytes (floats.divided (floats.of_number size) (floats.of_number (1024 * 1024)))
      else if leb 1024 size
      then in_kilobytes (floats.divided (floats.of_number size) (floats.of_number 1024))
      else in_bytes size

abbrev pub flash_util_version_major : ℕ
flash_util_version_major = 1

abbrev pub flash_util_version_minor : ℕ
flash_util_version_minor = 0

abbrev pub flash_util_version_patch : ℕ
flash_util_version_patch = 0

-- The lines of show_version on Linux; the date and the time of the build are the compiler's.
pub data VersionLine : Type 0 where
  tool_version : ℕ → ℕ → ℕ → VersionLine
  built : String → String → VersionLine
  version_text : String → VersionLine

unfoldable pub show_version : String → String → List VersionLine
show_version date time =
    tool_version flash_util_version_major flash_util_version_minor flash_util_version_patch
    ∷ built date time
    ∷ version_text "Platform: Linux"
    ∷ version_text "Copyright (c) 2025 USB UEFI Firmware Project"
    ∷ []

-- What follows the program's name in each example of show_usage.
abbrev pub show_usage_examples : List String
show_usage_examples =
    "-d /dev/mtd0 -i" ∷ "-d /dev/mtd0 -r 0x0 0x10000 -o firmware.bin"
    ∷ "-d /dev/mtd0 -w 0x10000 update.bin" ∷ "-d /dev/mtd0 -b full_backup.bin" ∷ []
