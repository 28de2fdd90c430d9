-- ===== src/Uefi/Cpu.antt =====
-- DetectCpuInformation.
use usb_uefi_firmware.Common.{
  ℕ, zero, suc, ◌+◌, ◌/◌, ◌%◌, ◌^◌, bit_and, List, [], ◌∷◌, ◌++◌, leb, ◌==◌, if◌then◌else◌, u32,
}
use usb_uefi_firmware.Platform.Services.{Registers, Platform}
use usb_uefi_firmware.Uefi.State.{SystemInfo}

-- The four bytes of a UINT32 in memory.
abbrev pub bytes_of : ℕ → List ℕ
bytes_of w = w % 256 ∷ (w / 256 % 256 ∷ (w / 65536 % 256 ∷ (w / 16777216 % 256 ∷ [])))

abbrev pub nul : ℕ
nul = 0

-- VendorAscii, with its NUL.
abbrev pub vendor_ascii : Registers → List ℕ
vendor_ascii r = bytes_of r.ebx ++ (bytes_of r.edx ++ (bytes_of r.ecx ++ nul ∷ []))

abbrev pub register_bytes : Registers → List ℕ
register_bytes r = bytes_of r.eax ++ (bytes_of r.ebx ++ (bytes_of r.ecx ++ bytes_of r.edx))

module _ (p : Platform) where
  -- `for (i = 0; Source[i] != '\0' && i < room; i++) Target[i] = (CHAR16)Source[i];`
  unfoldable pub copy_text : ℕ → List ℕ → List ℕ
  copy_text zero source = []
  copy_text (suc room) [] = []
  copy_text (suc room) (c ∷ source) = if c == nul then [] else p.widen c ∷ copy_text room source

  -- BrandAscii: three leaves and a NUL, or the vendor where the processor has no such leaves.
  unfoldable pub brand_ascii : List ℕ
  brand_ascii =
      if leb 0x80000004 (p.cpuid 0x80000000).eax
      then register_bytes (p.cpuid 0x80000002)
        ++ (register_bytes (p.cpuid 0x80000003)
            ++ (register_bytes (p.cpuid 0x80000004) ++ nul ∷ []))
      else p.ascii_str_cpy_s 49 (vendor_ascii (p.cpuid 0))

  -- `while (*BrandSrc == ' ') BrandSrc++;`
  unfoldable pub skip_spaces : List ℕ → List ℕ
  skip_spaces [] = []
  skip_spaces (c ∷ source) = if c == b' ' then skip_spaces source else c ∷ source

  -- The core count of leaf 4, and the correction of a count of 0.
  unfoldable pub core_count : ℕ
  core_count =
      let cores = u32 (bit_and ((p.cpuid 4).eax / 2 ^ 26) 0x3F + 1) in
      if cores == 0 then 1 else cores

  unfoldable pub detect_cpu_information : SystemInfo → SystemInfo
  detect_cpu_information i = record i {
    cpu_vendor = copy_text 12 (vendor_ascii (p.cpuid 0));
    cpu_family = copy_text 63 (skip_spaces brand_ascii);
    cpu_cores = core_count;
    cpu_threads = core_count;
  }
