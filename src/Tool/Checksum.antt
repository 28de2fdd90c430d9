-- ===== src/Tool/Checksum.antt =====
-- calculate_checksum of flash_utility.c beside firmware_validate of firmware_loader.c.
use usb_uefi_firmware.Common.{ℕ, zero, suc, ◌+◌, ◌^◌, ◌<◌, ◌≡◌, false, arith, is_null, u32}
use usb_uefi_firmware.Loader.Checksum.{byte_sum, firmware_validate-byte_sum}
use usb_uefi_firmware.Loader.State.{Loader}
use usb_uefi_firmware.Loader.Validate.{firmware_validate}
use usb_uefi_firmware.Tool.Operations.{tool_checksum_loop, calculate_checksum}

tool_checksum_loop-byte_sum :
    (memory : ℕ → ℕ) (at n checksum : ℕ)
    → checksum < 2 ^ 32
    → tool_checksum_loop memory at n checksum ≡ u32 (checksum + byte_sum memory at n)
unfolding tool_checksum_loop
tool_checksum_loop-byte_sum memory at zero checksum h = omega arith
tool_checksum_loop-byte_sum memory at (suc n) checksum h = omega (
  arith,
  tool_checksum_loop-byte_sum memory (at + 1) n (u32 (checksum + memory at)) (omega arith),
)

-- The tool's checksum is the sum of the bytes modulo 2^32.
pub calculate_checksum-byte_sum :
    (memory : ℕ → ℕ) (at n : ℕ) → calculate_checksum memory at n ≡ u32 (byte_sum memory at n)
unfolding calculate_checksum
calculate_checksum-byte_sum memory at n = ground (arith, tool_checksum_loop-byte_sum memory at n 0)

-- For a buffer that is neither NULL nor empty, the checksum that firmware_validate records is the one
-- that the host tool computes of the same bytes.
pub firmware_validate-calculate_checksum :
    (memory : ℕ → ℕ) (buffer size : ℕ) (s : Loader)
    → is_null buffer ≡ false
    → 0 < size
    → (firmware_validate memory buffer size s).1.info.checksum
      ≡ calculate_checksum memory buffer size
firmware_validate-calculate_checksum memory buffer size s nonnull pos = ground (
  arith,
  firmware_validate-byte_sum memory buffer size s nonnull pos,
  calculate_checksum-byte_sum memory buffer size,
)
