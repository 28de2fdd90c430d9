-- ===== src/Uefi/Informed.antt =====
-- What uefi_interface_init leaves in the system information, whichever service fails.
use usb_uefi_firmware.Common.{
  ℕ, ◌≤◌, ◌≡◌, ◌∙◌, inl, inr, Bool, true, false, not, ◌∷◌, arith, is_null, Bool-cases,
}
use usb_uefi_firmware.Platform.Ensures.{
  Ensures, bind-Ensures, Ensures-plain, require-Ensures, check_status-Ensures, call-Ensures,
  function-Ensures,
}
use usb_uefi_firmware.Platform.Event.{loaded_image_guid, opened, History}
use usb_uefi_firmware.Platform.Proc.{Proc, ◌>>=◌, ◌>>◌, pure, modify, require, check_status, call}
use usb_uefi_firmware.Platform.Services.{Platform}
use usb_uefi_firmware.Platform.Status.{Status, success, already_started, efi_error}
use usb_uefi_firmware.Uefi.Cpu.{detect_cpu_information}
use usb_uefi_firmware.Uefi.Figures.{
  Described, gather_versions-Described, gather_memory_ends, gather_memory-Described,
  detect_cpu_information-Described, secured, cache_security_result,
}
use usb_uefi_firmware.Uefi.Interface.{
  gather_versions, gather_system_information, initialize_boot_services_wrappers,
  uefi_interface_init,
}
use usb_uefi_firmware.Uefi.Memory.{gather_memory}
use usb_uefi_firmware.Uefi.Security.{cache_security}
use usb_uefi_firmware.Uefi.State.{zero_system_info, Uefi, set_info}

module _ (p : Platform) where
  -- What holds of the interface between two calls; a running one has counted a core.
  abbrev pub IsInformed : Uefi → Type 0
  IsInformed s =
      Described p s
      × (s.initialized ≡ true → (1 ≤ s.info.cpu_cores) × (is_null p.boot_services ≡ false))

  abbrev pub IsIdle : Uefi → Type 0
  IsIdle s = Described p s × (s.initialized ≡ false)

  -- An idle interface that has gathered the system information.
  abbrev HasGathered : Status → Uefi → Type 0
  HasGathered status s = IsIdle s × (1 ≤ s.info.cpu_cores)

  pub IsIdle-IsInformed : (s : Uefi) → IsIdle s → IsInformed s
  IsIdle-IsInformed s (described, idle) =
      (described, λ running. absurd (ground (arith, running, idle)))

  gather_memory-Ensures :
      (s : Uefi) (h : History)
      → IsIdle s
      → Ensures IsInformed HasGathered (λ _. IsIdle) (gather_memory p s h)
  gather_memory-Ensures s h (described, idle) =
      let (now, same) = gather_memory-Described p s h described in
      let still : IsIdle (gather_memory p s h).1 = (now, same ∙ idle) in
      Ensures-plain IsInformed HasGathered (λ _. IsIdle) (gather_memory p s h)
        (gather_memory_ends p s h) (IsIdle-IsInformed (gather_memory p s h).1 still) still

  secured-HasGathered :
      (status : Status) (secure tpm : Bool) (s t : Uefi)
      → t ≡ secured p secure tpm s
      → HasGathered status s
      → HasGathered status t
  secured-HasGathered status secure tpm s t e gathered = rw e gathered

  cache_security-Ensures :
      (stack : ℕ) (s : Uefi) (h : History)
      → HasGathered success s
      → Ensures IsInformed HasGathered (λ _. HasGathered success) (cache_security p stack s h)
  cache_security-Ensures stack s h gathered =
      let t = (cache_security p stack s h).1 in
      let (ends, e) = cache_security_result p stack s h in
      let after =
        secured-HasGathered success t.info.secure_boot_enabled t.info.tpm_present s t e gathered in
      Ensures-plain IsInformed HasGathered (λ _. HasGathered success) (cache_security p stack s h)
        (inl ends) (IsIdle-IsInformed t after.0) after

  gather_system_information-Ensures :
      (stack : ℕ) (s : Uefi) (h : History)
      → s.initialized ≡ false
      → Ensures IsInformed
          (λ _. IsInformed)
          HasGathered
          (call (gather_system_information p stack) s h)
  unfolding gather_system_information
  gather_system_information-Ensures stack s h idle =
      let finish : Proc Uefi Status = cache_security p stack >> pure success in
      let rest : Proc Uefi Status = modify (set_info (detect_cpu_information p)) >> finish in
      let versions = set_info (λ _. gather_versions p zero_system_info) in
      call-Ensures IsInformed (λ _. IsInformed) HasGathered
        (modify versions >> (gather_memory p >> rest)) s h
        (bind-Ensures IsInformed HasGathered (λ _. IsIdle) HasGathered (gather_memory p) (λ _. rest)
          (versions s) h
          (gather_memory-Ensures (versions s) h (gather_versions-Described p s, idle))
          (λ _ t g (described, idle').
            let u = set_info (detect_cpu_information p) t in
            let (now, counted) = detect_cpu_information-Described p t described in
            bind-Ensures IsInformed HasGathered (λ _. HasGathered success) HasGathered
              (cache_security p stack) (λ _. pure success) u g
              (cache_security-Ensures stack u g ((now, idle'), counted))
              (λ _ v f gathered. gathered)))

  -- What uefi_interface_init does after it has gathered the information.
  abbrev finish_start : Proc Uefi Status
  finish_start = do
    status ← call (initialize_boot_services_wrappers p)
    check_status status
    modify (λ s. record s { initialized = true })
    pure success

  finish_start-Ensures :
      (s : Uefi) (h : History)
      → HasGathered success s
      → Ensures IsInformed (λ _. IsInformed) (λ _. IsInformed) (finish_start s h)
  unfolding initialize_boot_services_wrappers efi_error
  finish_start-Ensures s h (idle, counted) = elim (Bool-cases (is_null p.boot_services)) [
    | inl missing ↦ rw missing (IsIdle-IsInformed s idle)
    | inr present ↦ rw present (idle.0, λ _. (counted, present))
  ]

  gather_and_finish-Ensures :
      (stack : ℕ) (s : Uefi) (h : History)
      → s.initialized ≡ false
      → let finish : Status → Proc Uefi Status = λ status. check_status status >> finish_start in
        Ensures IsInformed
          (λ _. IsInformed)
          (λ _. IsInformed)
          ((call (gather_system_information p stack) >>= finish) s h)
  gather_and_finish-Ensures stack s h idle =
      let finish : Status → Proc Uefi Status = λ status. check_status status >> finish_start in
      bind-Ensures IsInformed (λ _. IsInformed) HasGathered (λ _. IsInformed)
        (call (gather_system_information p stack)) finish s h
        (gather_system_information-Ensures stack s h idle)
        (λ status t g gathered.
          check_status-Ensures IsInformed (λ _. IsInformed) (λ _. IsInformed) status finish_start t
            g (IsIdle-IsInformed t gathered.0) (finish_start-Ensures t g gathered))

  pub uefi_interface_init-IsInformed :
      (stack : ℕ) (s : Uefi) (h : History)
      → IsInformed s
      → IsInformed (uefi_interface_init p stack s h).1
  unfolding uefi_interface_init
  uefi_interface_init-IsInformed stack s h good =
      let finish : Status → Proc Uefi Status = λ status. check_status status >> finish_start in
      let gather : Proc Uefi Status = call (gather_system_information p stack) >>= finish in
      let image = λ (f : History). p.open_protocol f p.image_handle loaded_image_guid in
      let open_image : Proc Uefi Status = λ t g.
        (check_status (image g).status >> gather) (record t { loaded_image = (image g).value })
          (opened p.image_handle loaded_image_guid (image g).status ∷ g) in
      let t = record s { loaded_image = (image h).value } in
      let g = opened p.image_handle loaded_image_guid (image h).status ∷ h in
      function-Ensures IsInformed (require (not s.initialized) already_started >> open_image) s h (
        require-Ensures IsInformed (λ _. IsInformed) (λ _. IsInformed) (not s.initialized)
          already_started open_image s h (λ _. good)
          (λ e.
            let idle : s.initialized ≡ false = ground (arith, e) in
            check_status-Ensures IsInformed (λ _. IsInformed) (λ _. IsInformed) (image h).status
              gather t g (IsIdle-IsInformed t (good.0, idle))
              (gather_and_finish-Ensures stack t g idle)))
