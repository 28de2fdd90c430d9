-- ===== src/Loader/Checksum.antt =====
-- The checksum of firmware_validate.
use usb_uefi_firmware.Common.{ℕ, zero, suc, ◌+◌, ◌^◌, ◌<◌, ◌≡◌, false, arith, is_null, u32}
use usb_uefi_firmware.Loader.State.{validated, Loader}
use usb_uefi_firmware.Loader.Validate.{checksum_loop, firmware_validate}
use usb_uefi_firmware.Platform.Status.{success}

-- The sum of the bytes from an address on, without wrap.
abbrev pub byte_sum : (ℕ → ℕ) → ℕ → ℕ → ℕ
byte_sum memory at zero = 0
byte_sum memory at (suc n) = memory at + byte_sum memory (at + 1) n

-- The loop gives the sum of the bytes modulo 2^32, from any start below it.
pub checksum_loop-byte_sum :
    (memory : ℕ → ℕ) (at n checksum : ℕ)
    → checksum < 2 ^ 32
    → checksum_loop memory at n checksum ≡ u32 (checksum + byte_sum memory at n)
unfolding checksum_loop
checksum_loop-byte_sum memory at zero checksum h = omega arith
checksum_loop-byte_sum memory at (suc n) checksum h =
    omega
      (arith, checksum_loop-byte_sum memory (at + 1) n (u32 (checksum + memory at)) (omega arith))

-- For a buffer that is neither NULL nor empty, firmware_validate succeeds, records the byte sum
-- modulo 2^32, the size and the status, and changes nothing else; it needs no initialized loader.
pub firmware_validate-byte_sum :
    (memory : ℕ → ℕ) (buffer size : ℕ) (s : Loader)
    → is_null buffer ≡ false
    → 0 < size
    → firmware_validate memory buffer size s ≡ (
      success,
      record s {
        info = record (s.info) {
          status = validated;
          checksum = u32 (byte_sum memory buffer size);
          size = size;
        };
      },
    )
unfolding firmware_validate
firmware_validate-byte_sum memory buffer size s nonnull pos =
    ground (arith, checksum_loop-byte_sum memory buffer size 0)

-- Two images of one size, in a buffer that is neither NULL nor empty, whose byte sums agree modulo
-- 2^32 are both accepted, with the same resulting state.
pub firmware_validate_collides :
    (memory memory' : ℕ → ℕ) (buffer size : ℕ) (s : Loader)
    → is_null buffer ≡ false
    → 0 < size
    → u32 (byte_sum memory buffer size) ≡ u32 (byte_sum memory' buffer size)
    → (firmware_validate memory buffer size s ≡ firmware_validate memory' buffer size s)
      × ((firmware_validate memory' buffer size s).0 ≡ success)
firmware_validate_collides memory memory' buffer size s nonnull pos same = ground (
  arith,
  firmware_validate-byte_sum memory buffer size s nonnull pos,
  firmware_validate-byte_sum memory' buffer size s nonnull pos,
)
