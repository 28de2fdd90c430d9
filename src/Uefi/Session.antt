-- ===== src/Uefi/Session.antt =====
-- Every sequence of calls of uefi_interface.c that change its state, by whatever client.
use usb_uefi_firmware.Common.{ℕ, ◌≡◌, refl, Bool, false, [], arith, is_null}
use usb_uefi_firmware.Platform.Balance.{SameBuffers}
use usb_uefi_firmware.Platform.Event.{History}
use usb_uefi_firmware.Platform.Services.{Platform}
use usb_uefi_firmware.Uefi.Buffers.{
  uefi_interface_init-SameBuffers, uefi_interface_cleanup-SameBuffers,
}
use usb_uefi_firmware.Uefi.Figures.{secured, initial_uefi-Described}
use usb_uefi_firmware.Uefi.Informed.{IsInformed, IsIdle-IsInformed, uefi_interface_init-IsInformed}
use usb_uefi_firmware.Uefi.Interface.{uefi_interface_init, uefi_interface_cleanup}
use usb_uefi_firmware.Uefi.Security.{uefi_check_secure_boot, uefi_check_tpm}
use usb_uefi_firmware.Uefi.Startup.{SizesDescriptors}
use usb_uefi_firmware.Uefi.State.{Uefi, initial_uefi}

pub data UefiCall : Type 0 where
  start_interface check_secure_boot check_tpm : ℕ → UefiCall
  stop_interface : UefiCall

module _ (p : Platform) where
  abbrev pub run_uefi_call : UefiCall → Uefi → History → Uefi × History
  run_uefi_call (start_interface stack) s h =
      let (result, t, g) = uefi_interface_init p stack s h in (t, g)
  run_uefi_call (check_secure_boot out) s h =
      let (status, enabled, t, g) = uefi_check_secure_boot p out s h in (t, g)
  run_uefi_call (check_tpm out) s h =
      let (status, present, t, g) = uefi_check_tpm p out s h in (t, g)
  run_uefi_call stop_interface s h = let (result, t, g) = uefi_interface_cleanup p s h in (t, g)

  pub data UefiReaches (s : Uefi) (h : History) : Uefi → History → Type 0 where
    no_uefi_call : UefiReaches s h s h
    one_uefi_call :
        {t u : Uefi} {g f : History} (c : UefiCall)
        → UefiReaches s h t g
        → u ≡ (run_uefi_call c t g).0
        → f ≡ (run_uefi_call c t g).1
        → UefiReaches s h u f

  secured-IsInformed :
      (secure tpm : Bool) (s t : Uefi)
      → t ≡ secured p secure tpm s
      → IsInformed p s
      → IsInformed p t
  secured-IsInformed secure tpm s t e good = rw e good

  check_secure_boot_result :
      (out : ℕ) (s : Uefi) (h : History)
      → let t = (uefi_check_secure_boot p out s h).2 in
        t ≡ secured p t.info.secure_boot_enabled s.info.tpm_present s
  unfolding uefi_check_secure_boot
  check_secure_boot_result out s h = ground arith

  check_tpm_result :
      (out : ℕ) (s : Uefi) (h : History)
      → let t = (uefi_check_tpm p out s h).2 in
        t ≡ secured p s.info.secure_boot_enabled t.info.tpm_present s
  unfolding uefi_check_tpm
  check_tpm_result out s h = ground arith

  abbrev stopped_with : ℕ → Uefi → Uefi
  stopped_with pointer s = record s { initialized = false; loaded_image = pointer }

  stopped-IsInformed :
      (pointer : ℕ) (s t : Uefi) → t ≡ stopped_with pointer s → IsInformed p s → IsInformed p t
  stopped-IsInformed pointer s t e good =
      rw e (IsIdle-IsInformed p (stopped_with pointer s) (good.0, refl))

  uefi_interface_cleanup_result :
      (s : Uefi) (h : History)
      → let t = (uefi_interface_cleanup p s h).1 in t ≡ stopped_with t.loaded_image s
  unfolding uefi_interface_cleanup
  uefi_interface_cleanup_result s h = ground arith

  pub run_uefi_call-IsInformed :
      (c : UefiCall) (s : Uefi) (h : History)
      → IsInformed p s
      → IsInformed p (run_uefi_call c s h).0
  run_uefi_call-IsInformed (start_interface stack) s h good =
      uefi_interface_init-IsInformed p stack s h good
  run_uefi_call-IsInformed (check_secure_boot out) s h good =
      let t = (uefi_check_secure_boot p out s h).2 in
      secured-IsInformed t.info.secure_boot_enabled s.info.tpm_present s t
        (check_secure_boot_result out s h) good
  run_uefi_call-IsInformed (check_tpm out) s h good =
      let t = (uefi_check_tpm p out s h).2 in
      secured-IsInformed s.info.secure_boot_enabled t.info.tpm_present s t
        (check_tpm_result out s h) good
  run_uefi_call-IsInformed stop_interface s h good =
      let t = (uefi_interface_cleanup p s h).1 in
      stopped-IsInformed t.loaded_image s t (uefi_interface_cleanup_result s h) good

  pub run_uefi_call-SameBuffers :
      (q : ℕ) (c : UefiCall) (s : Uefi) (h : History)
      → SizesDescriptors p
      → is_null q ≡ false
      → SameBuffers q h (run_uefi_call c s h).1
  unfolding uefi_check_secure_boot uefi_check_tpm
  run_uefi_call-SameBuffers q (start_interface stack) s h sizes real =
      uefi_interface_init-SameBuffers p q stack s h sizes real
  run_uefi_call-SameBuffers q (check_secure_boot out) s h sizes real = ground arith
  run_uefi_call-SameBuffers q (check_tpm out) s h sizes real = ground arith
  run_uefi_call-SameBuffers q stop_interface s h sizes real =
      uefi_interface_cleanup-SameBuffers p q s h

  UefiReaches-IsInformed :
      {s : Uefi} {h : History} {t : Uefi} {g : History}
      → IsInformed p s
      → UefiReaches s h t g
      → IsInformed p t
  UefiReaches-IsInformed good no_uefi_call = good
  UefiReaches-IsInformed good (one_uefi_call {t} {u} {g} {f} c r e e') =
      rw e (run_uefi_call-IsInformed c t g (UefiReaches-IsInformed good r))

  -- After any calls from the start of the program and whatever services fail, the three memory
  -- figures are the sums modulo 2^64 over one map that GetMemoryMap has reported, or all 0; the
  -- processor's texts lie inside their arrays, and there are at most 64 cores and as many threads. A
  -- running interface has counted a core and has boot services.
  pub reached-IsInformed :
      {s : Uefi} {h : History} → UefiReaches initial_uefi [] s h → IsInformed p s
  reached-IsInformed r =
      UefiReaches-IsInformed (IsIdle-IsInformed p initial_uefi (initial_uefi-Described p, refl)) r
