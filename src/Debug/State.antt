-- ===== src/Debug/State.antt =====
-- The constants of debug_utils.h, the timer, and the two global variables of main.c that select the
-- messages.
use usb_uefi_firmware.Common.{ℕ, ◌+◌, String, Option}

abbrev pub level_error : ℕ
level_error = 0x00000001

abbrev pub level_warn : ℕ
level_warn = 0x00000002

abbrev pub level_info : ℕ
level_info = 0x00000004

abbrev pub level_verbose : ℕ
level_verbose = 0x00000008

abbrev pub level_all : ℕ
level_all = 0xFFFFFFFF

abbrev pub cat_usb : ℕ
cat_usb = 0x00000010

abbrev pub cat_firmware : ℕ
cat_firmware = 0x00000020

abbrev pub cat_uefi : ℕ
cat_uefi = 0x00000040

abbrev pub cat_boot : ℕ
cat_boot = 0x00000080

abbrev pub cat_network : ℕ
cat_network = 0x00000100

-- gDebugLevel and gDebugCategories.
pub record DebugFilter : Type 0 where
  pub level : ℕ  -- UINT32
  pub categories : ℕ  -- UINT32

abbrev pub initial_filter : DebugFilter
initial_filter = record { level = level_all; categories = cat_usb + cat_firmware + cat_uefi }

-- DEBUG_TIMER. A description is `none` for NULL.
pub record DebugTimer : Type 0 where
  pub start_tick : ℕ  -- UINT64
  pub end_tick : ℕ  -- UINT64
  pub description : Option String
