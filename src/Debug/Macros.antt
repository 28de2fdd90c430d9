-- ===== src/Debug/Macros.antt =====
-- The tracing macros and DBG_ASSERT of debug_utils.h. `usb_debug` is ENABLE_USB_DEBUG of the build.
use usb_uefi_firmware.Common.{
  ℕ, ◌*◌, ◌/◌, ◌%◌, ◌^◌, bit_and, String, ◌≡◌, refl, ap, ◌∙◌, Bool, true, false, not, ◌&&◌, Option,
  none, some, arith, ◌==◌, if◌then◌else◌,
}
use usb_uefi_firmware.Common.Bits.{pow_pos, bit_and-mask, bit_and-high_mask}
use usb_uefi_firmware.Debug.Print.{
  Severity, d_error, d_warn, d_info, d_verbose, severity_of, debug_print,
}
use usb_uefi_firmware.Debug.State.{
  level_error, level_warn, level_info, level_verbose, cat_usb, cat_firmware, cat_uefi, DebugFilter,
}

pub data DebugMacro : Type 0 where
  dbg_enter dbg_exit dbg_exit_status : DebugMacro
  dbg_usb_error dbg_usb_warn dbg_usb_info dbg_usb_verbose : DebugMacro
  dbg_firmware_error dbg_firmware_info dbg_uefi_error dbg_uefi_info : DebugMacro

-- The two numbers that each macro hands to DebugPrint.
unfoldable pub macro_level : DebugMacro → ℕ
macro_level dbg_usb_error = level_error
macro_level dbg_firmware_error = level_error
macro_level dbg_uefi_error = level_error
macro_level dbg_usb_warn = level_warn
macro_level dbg_usb_info = level_info
macro_level dbg_firmware_info = level_info
macro_level dbg_uefi_info = level_info
macro_level _ = level_verbose

unfoldable pub macro_category : DebugMacro → ℕ
macro_category dbg_firmware_error = cat_firmware
macro_category dbg_firmware_info = cat_firmware
macro_category dbg_uefi_error = cat_uefi
macro_category dbg_uefi_info = cat_uefi
macro_category _ = cat_usb

-- `text` is the formatted message; a release build leaves the macros empty.
unfoldable pub run_macro : Bool → DebugFilter → DebugMacro → String → Option (Severity × String)
run_macro usb_debug filter m text =
    if usb_debug then debug_print filter (macro_level m) (macro_category m) text else none

-- DBG_ASSERT goes on, or ends in CpuDeadLoop after it has printed its message, if the filter lets it.
pub data Asserted : Type 0 where
  assertion_held : Asserted
  assertion_failed : Option (Severity × String) → Asserted

unfoldable pub debug_assert : Bool → DebugFilter → Bool → String → Asserted
debug_assert usb_debug filter expression text =
    if usb_debug && not expression
    then assertion_failed (debug_print filter level_error cat_usb text)
    else assertion_held

-- A binary digit of a number.
abbrev pub has_bit : ℕ → ℕ → Bool
has_bit k n = n / 2 ^ k % 2 == 1

test_bit : (k n : ℕ) → bit_and n (1 * 2 ^ k) ≡ n / 2 ^ k % 2 * 2 ^ k
test_bit k n = bit_and-high_mask k n 1 ∙ ap (λ (t : ℕ). t * 2 ^ k) (bit_and-mask 1 (n / 2 ^ k))

-- What the names of the macros promise: the severity of the message, with its digit in the level of
-- the filter, and the digit of the category.
abbrev pub macro_severity : DebugMacro → Severity
macro_severity dbg_usb_error = d_error
macro_severity dbg_firmware_error = d_error
macro_severity dbg_uefi_error = d_error
macro_severity dbg_usb_warn = d_warn
macro_severity dbg_usb_info = d_info
macro_severity dbg_firmware_info = d_info
macro_severity dbg_uefi_info = d_info
macro_severity _ = d_verbose

abbrev pub severity_digit : Severity → ℕ
severity_digit d_error = 0
severity_digit d_warn = 1
severity_digit d_info = 2
severity_digit d_verbose = 3

abbrev pub macro_digit : DebugMacro → ℕ
macro_digit dbg_firmware_error = 5
macro_digit dbg_firmware_info = 5
macro_digit dbg_uefi_error = 6
macro_digit dbg_uefi_info = 6
macro_digit _ = 4

abbrev pub lets_through : DebugFilter → ℕ → ℕ → Bool
lets_through filter i j = has_bit i filter.level && has_bit j filter.categories

debug_print-lets_through :
    (filter : DebugFilter) (i j : ℕ) (text : String)
    → debug_print filter (1 * 2 ^ i) (1 * 2 ^ j) text
      ≡ (if lets_through filter i j then some (severity_of (1 * 2 ^ i), text) else none)
unfolding debug_print
debug_print-lets_through filter i j text =
    grind (arith, test_bit i filter.level, test_bit j filter.categories, pow_pos i, pow_pos j)

macro_level_lem : (m : DebugMacro) → macro_level m ≡ 1 * 2 ^ severity_digit (macro_severity m)
unfolding macro_level
macro_level_lem dbg_usb_error = refl
macro_level_lem dbg_firmware_error = refl
macro_level_lem dbg_uefi_error = refl
macro_level_lem dbg_usb_warn = refl
macro_level_lem dbg_usb_info = refl
macro_level_lem dbg_firmware_info = refl
macro_level_lem dbg_uefi_info = refl
macro_level_lem _ = refl

macro_category_lem : (m : DebugMacro) → macro_category m ≡ 1 * 2 ^ macro_digit m
unfolding macro_category
macro_category_lem dbg_firmware_error = refl
macro_category_lem dbg_firmware_info = refl
macro_category_lem dbg_uefi_error = refl
macro_category_lem dbg_uefi_info = refl
macro_category_lem _ = refl

severity_of_lem : (v : Severity) → severity_of (1 * 2 ^ severity_digit v) ≡ v
unfolding severity_of
severity_of_lem d_error = refl
severity_of_lem d_warn = refl
severity_of_lem d_info = refl
severity_of_lem d_verbose = refl

-- A macro prints, with the severity of its name, exactly in a build with ENABLE_USB_DEBUG and where
-- the filter has the digit of its severity and that of its category.
pub run_macro-lets_through :
    (usb_debug : Bool) (filter : DebugFilter) (m : DebugMacro) (text : String)
    → run_macro usb_debug filter m text ≡ (
        if usb_debug && lets_through filter (severity_digit (macro_severity m)) (macro_digit m)
        then some (macro_severity m, text)
        else none)
unfolding run_macro
run_macro-lets_through true filter m text =
    let i = severity_digit (macro_severity m) in
    rw (macro_level_lem m, macro_category_lem m)
      (debug_print-lets_through filter i (macro_digit m) text
        ∙ ap
            (λ (v : Severity).
              if lets_through filter i (macro_digit m) then some (v, text) else none)
            (severity_of_lem (macro_severity m)))
run_macro-lets_through false filter m text = refl
