-- ===== src/Loader/Validate.antt =====
-- firmware_validate. `memory` is the byte at each address when the function runs.
use usb_uefi_firmware.Common.{ℕ, zero, suc, ◌+◌, ◌||◌, ◌==◌, if◌then◌else◌, is_null, u32}
use usb_uefi_firmware.Loader.State.{validated, Loader}
use usb_uefi_firmware.Platform.Status.{Status, success, invalid_parameter}

-- The loop `for (Index …) Checksum += Data[Index]`, over the rounds left.
unfoldable pub checksum_loop : (ℕ → ℕ) → ℕ → ℕ → ℕ → ℕ
checksum_loop memory at zero checksum = checksum
checksum_loop memory at (suc rounds) checksum =
    checksum_loop memory (at + 1) rounds (u32 (checksum + memory at))

unfoldable pub firmware_validate : (ℕ → ℕ) → ℕ → ℕ → Loader → Status × Loader
firmware_validate memory buffer size s =
    if is_null buffer || size == 0 then (invalid_parameter, s) else (
      success,
      record s {
        info = record (s.info) {
          status = validated;
          checksum = checksum_loop memory buffer size 0;
          size = size;
        };
      },
    )
