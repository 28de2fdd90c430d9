-- ===== src/Uefi/Processor.antt =====
-- The processor's part of the system information.
use usb_uefi_firmware.Common.{ℕ, zero, suc, ◌/◌, ◌^◌, ◌≤◌, ◌<◌, ◌≡◌, List, [], ◌∷◌, arith, length}
use usb_uefi_firmware.Common.Bits.{bit_and-mask}
use usb_uefi_firmware.Platform.Services.{Platform}
use usb_uefi_firmware.Uefi.Cpu.{
  vendor_ascii, copy_text, brand_ascii, skip_spaces, core_count, detect_cpu_information,
}
use usb_uefi_firmware.Uefi.State.{SystemInfo}

module _ (p : Platform) where
  -- Leaf 4 gives from 1 to 64 cores, so the correction of a count of 0 never applies.
  pub core_count_bounds : (1 ≤ core_count p) × (core_count p ≤ 64)
  unfolding core_count
  core_count_bounds = ground (arith, bit_and-mask 6 ((p.cpuid 4).eax / 2 ^ 26))

  -- A copied text has no more characters than its room, none of them from behind a NUL.
  length-copy_text-le : (room : ℕ) (source : List ℕ) → length (copy_text p room source) ≤ room
  unfolding copy_text
  length-copy_text-le zero source = omega arith
  length-copy_text-le (suc room) [] = omega arith
  length-copy_text-le (suc room) (c ∷ source) = ground (arith, length-copy_text-le room source)

  -- Whatever the processor answers, the two texts stay inside their arrays of 32 and 64 characters
  -- with room for the NUL, the core count is between 1 and 64 and the number of threads the same,
  -- and the memory figures are untouched.
  pub detect_cpu_information_bounds :
      (i : SystemInfo)
      → let j = detect_cpu_information p i in
        (length j.cpu_vendor < 32)
        × (length j.cpu_family < 64)
        × (1 ≤ j.cpu_cores)
        × (j.cpu_cores ≤ 64)
        × (j.cpu_threads ≡ j.cpu_cores)
        × (j.total_memory ≡ i.total_memory)
  unfolding detect_cpu_information
  detect_cpu_information_bounds i = ground (
    arith,
    core_count_bounds,
    length-copy_text-le 12 (vendor_ascii (p.cpuid 0)),
    length-copy_text-le 63 (skip_spaces p (brand_ascii p)),
  )
