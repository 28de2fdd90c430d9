-- ===== src/Main/Session.antt =====
-- UefiMain of main.c under a script of events.
use usb_uefi_firmware.Common.{
  ℕ, suc, ◌+◌, ◌≡◌, refl, sym, ap, ◌∙◌, ◌≢◌, ◌⊎◌, inl, inr, true, false, Option, some, List, [],
  ◌∷◌, arith, ◌==◌, if◌then◌else◌, Bool-cases, length,
}
use usb_uefi_firmware.Main.Application.{
  timer_period, initialize_subsystems, event_round, event_loop, run_main_loop, uefi_main,
}
use usb_uefi_firmware.Main.Commands.{
  App, Command, help, usb_status, firmware_status, system_status, debug_level, reset, quit,
  run_tests, unknown_key, command_of, process_user_commands,
}
use usb_uefi_firmware.Main.Loop.{waits}
use usb_uefi_firmware.Main.Quits.{quit_command, round_quits, round_goes_on}
use usb_uefi_firmware.Main.Script.{
  Input, timer_input, key_input, no_key_input, failed_input, is_quit, session_outcome, Follows,
}
use usb_uefi_firmware.Main.Shutdown.{cleanup_and_exit_stops}
use usb_uefi_firmware.Platform.Event.{event_created, timer_set, event_waited, key_read, History}
use usb_uefi_firmware.Platform.Proc.{Flow, next, returned, Proc}
use usb_uefi_firmware.Platform.Services.{Platform}
use usb_uefi_firmware.Platform.Status.{Status, success, efi_error, is_aborted, status_laws}

module _ (p : Platform) (stack timer : ℕ) where
  Follows-rest :
      (from : ℕ) (input : Input) (script : List Input)
      → Follows p from (input ∷ script)
      → Follows p (suc from) script
  Follows-rest from input script v = record {
    waited = λ h i x e e'. v.waited h (suc i) x (omega arith) e';
    read = λ h i x e e'. v.read h (suc i) x (omega arith) e';
  }

  round_fails :
      (rest : Proc App (Option Status)) (a : App) (h : History)
      → efi_error (p.wait_for_event h).status ≡ true
      → (event_round p stack timer rest a h).0 ≡ next (some (p.wait_for_event h).status)
  unfolding event_round
  round_fails rest a h failed = ground arith

  -- An aborted read ends the loop like `q`.
  round_aborts :
      (rest : Proc App (Option Status)) (a : App) (h : History)
      → efi_error (p.wait_for_event h).status ≡ false
      → (p.wait_for_event h).value ≡ 0
      → efi_error (p.read_key (event_waited ∷ h)).status ≡ true
      → is_aborted (p.read_key (event_waited ∷ h)).status ≡ true
      → (event_round p stack timer rest a h).0 ≡ next (some success)
  unfolding event_round process_user_commands
  round_aborts rest a h waited key failed gone = ground arith

  -- A read that fails otherwise is passed over.
  round_passes :
      (rest : Proc App (Option Status)) (a : App) (h : History)
      → efi_error (p.wait_for_event h).status ≡ false
      → (p.wait_for_event h).value ≡ 0
      → efi_error (p.read_key (event_waited ∷ h)).status ≡ true
      → is_aborted (p.read_key (event_waited ∷ h)).status ≡ false
      → event_round p stack timer rest a h ≡ rest a (key_read ∷ (event_waited ∷ h))
  unfolding event_round process_user_commands
  round_passes rest a h waited key failed alive = ground arith

  round_ticks :
      (rest : Proc App (Option Status)) (a : App) (h : History)
      → efi_error (p.wait_for_event h).status ≡ false
      → ((p.wait_for_event h).value == 0) ≡ false
      → event_round p stack timer rest a h ≡ rest a (event_waited ∷ h)
  unfolding event_round
  round_ticks rest a h waited tick = ground arith

  quit_dec : (c : Command) → ((c ≡ quit) × (is_quit c ≡ true)) ⊎ ((c ≢ quit) × (is_quit c ≡ false))
  quit_dec quit = inl (refl, refl)
  quit_dec help = inr (λ e. cc, refl)
  quit_dec usb_status = inr (λ e. cc, refl)
  quit_dec firmware_status = inr (λ e. cc, refl)
  quit_dec system_status = inr (λ e. cc, refl)
  quit_dec debug_level = inr (λ e. cc, refl)
  quit_dec reset = inr (λ e. cc, refl)
  quit_dec run_tests = inr (λ e. cc, refl)
  quit_dec unknown_key = inr (λ e. cc, refl)

  not_aborted_lem : (e : Status) → efi_error e ≡ false → is_aborted e ≡ false
  unfolding efi_error is_aborted
  not_aborted_lem e fine = ground arith

  key_round :
      (rest : Proc App (Option Status)) (left : Option Status) (c : ℕ) (a : App) (h : History)
      → efi_error (p.wait_for_event h).status ≡ false
      → (p.wait_for_event h).value ≡ 0
      → efi_error (p.read_key (event_waited ∷ h)).status ≡ false
      → (p.read_key (event_waited ∷ h)).value ≡ c
      → ((b : App) (g : History) → waits g ≡ 1 + waits h → (rest b g).0 ≡ next left)
      → (event_round p stack timer rest a h).0
        ≡ next (if is_quit (command_of c) then some success else left)
  key_round rest left c a h waited reported read e good =
      let g = event_waited ∷ h in
      let same : command_of (p.read_key g).value ≡ command_of c = ap command_of e in
      elim (quit_dec (command_of c)) [
        | inl (quits, test) ↦ rw test (
            round_quits p stack timer rest a h waited reported
              (quit_command p stack timer a g read (same ∙ quits)))
        | inr (other, test) ↦
            let alive : is_aborted (p.read_key g).status ≡ false =
              not_aborted_lem (p.read_key g).status read in
            let (b, f, e', more) =
              round_goes_on p stack timer rest a h waited alive (λ q. other (sym same ∙ q)) in
            rw test (ap (λ (r : Flow (Option Status) × App × History). r.0) e' ∙ good b f more)
      ]

  -- The loop, with one unit of fuel for each event of a script that the platform follows, ends as
  -- `session_outcome` says.
  pub event_loop-session_outcome :
      (from : ℕ) (script : List Input) (a : App) (h : History)
      → Follows p from script
      → waits h ≡ from
      → (event_loop p stack (length script) timer a h).0 ≡ next (session_outcome script)
  unfolding event_loop session_outcome
  event_loop-session_outcome from [] a h v count = refl
  event_loop-session_outcome from (timer_input ∷ script) a h v count =
      let (fine, value) = v.waited h 0 timer_input (omega arith) refl in
      let g = event_waited ∷ h in
      ap (λ (r : Flow (Option Status) × App × History). r.0)
        (round_ticks (event_loop p stack (length script) timer) a h fine value)
      ∙ event_loop-session_outcome (suc from) script a g (Follows-rest from timer_input script v)
          (omega arith)
  event_loop-session_outcome from (key_input c ∷ script) a h v count =
      let (fine, value) = v.waited h 0 (key_input c) (omega arith) refl in
      let (read, same) = v.read (event_waited ∷ h) 0 (key_input c) (omega arith) refl in
      key_round (event_loop p stack (length script) timer) (session_outcome script) c a h fine value
        read same
        (λ b g more.
          event_loop-session_outcome (suc from) script b g
            (Follows-rest from (key_input c) script v) (omega arith))
  event_loop-session_outcome from (no_key_input e ∷ script) a h v count =
      let (fine, value) = v.waited h 0 (no_key_input e) (omega arith) refl in
      let g = event_waited ∷ h in
      let (same, failed) = v.read g 0 (no_key_input e) (omega arith) refl in
      let wrong : efi_error (p.read_key g).status ≡ true = ap efi_error same ∙ failed in
      elim (Bool-cases (is_aborted e)) [
        | inl gone ↦ rw gone (
            round_aborts (event_loop p stack (length script) timer) a h fine value wrong
              (ap is_aborted same ∙ gone))
        | inr alive ↦ rw alive (
            ap (λ (r : Flow (Option Status) × App × History). r.0)
              (round_passes (event_loop p stack (length script) timer) a h fine value wrong
                (ap is_aborted same ∙ alive))
            ∙ event_loop-session_outcome (suc from) script a (key_read ∷ g)
                (Follows-rest from (no_key_input e) script v) (omega arith))
      ]
  event_loop-session_outcome from (failed_input e ∷ script) a h v count =
      let (same, failed) = v.waited h 0 (failed_input e) (omega arith) refl in
      round_fails (event_loop p stack (length script) timer) a h (ap efi_error same ∙ failed)
      ∙ ap (λ (x : Status). next (some x)) same

module _ (p : Platform) (stack : ℕ) where
  run_main_loop-session_outcome :
      (script : List Input) (a : App) (h : History)
      → let timer = p.create_event h in
        let before = event_created timer.value ∷ h in
        efi_error timer.status ≡ false
        → efi_error (p.set_timer before timer.value timer_period) ≡ false
        → Follows p (waits h) script
        → (run_main_loop p stack (length script) a h).0 ≡ next (session_outcome script)
  unfolding run_main_loop
  run_main_loop-session_outcome script a h created set v =
      let timer = p.create_event h in
      let started = timer_set timer.value timer_period ∷ (event_created timer.value ∷ h) in
      ground (arith, event_loop-session_outcome p stack timer.value (waits h) script a started v)

  -- Where the subsystems start and the timer is created and set, and the platform then reports the
  -- events of a script (`Follows`), UefiMain with one unit of fuel for each event ends as
  -- `session_outcome` says: with EFI_SUCCESS at the first `q` or at a read that gives EFI_ABORTED, with
  -- the error of the first wait that fails, and not yet if the script has none of these, whatever
  -- other keys it has.
  pub uefi_main-session_outcome :
      (script : List Input) (a : App) (h : History)
      → let (r, b, g) = initialize_subsystems p stack a h in
        let timer = p.create_event g in
        let before = event_created timer.value ∷ g in
        r ≡ returned success
        → efi_error timer.status ≡ false
        → efi_error (p.set_timer before timer.value timer_period) ≡ false
        → Follows p (waits g) script
        → (uefi_main p stack (length script) a h).0 ≡ next (session_outcome script)
  unfolding uefi_main
  uefi_main-session_outcome script a h ready created set v =
      let (r, b, g) = initialize_subsystems p stack a h in
      let (e, c, f) = run_main_loop p stack (length script) b g in
      ground (
        status_laws,
        run_main_loop-session_outcome script b g created set v,
        cleanup_and_exit_stops p stack c f,
      )
