-- ===== src/Main/Quits.antt =====
-- UefiMain of main.c under any events before the key `q`.
use usb_uefi_firmware.Common.{
  ℕ, zero, suc, ◌+◌, ◌≤◌, ◌≡◌, refl, ap, ◌∙◌, ◌≢◌, inl, inr, false, Option, some, ◌∷◌, arith, ◌==◌,
  Bool-cases,
}
use usb_uefi_firmware.Main.Application.{
  timer_period, initialize_subsystems, event_round, event_loop, run_main_loop, uefi_main,
}
use usb_uefi_firmware.Main.Commands.{
  App, Command, quit, command_of, run_command, process_user_commands,
}
use usb_uefi_firmware.Main.Loop.{waits}
use usb_uefi_firmware.Main.Shutdown.{IsStopped, cleanup_and_exit_stops}
use usb_uefi_firmware.Main.Waits.{process_user_commands_returns}
use usb_uefi_firmware.Platform.Event.{event_created, timer_set, event_waited, key_read, History}
use usb_uefi_firmware.Platform.Proc.{Flow, next, returned, Proc}
use usb_uefi_firmware.Platform.Services.{Platform}
use usb_uefi_firmware.Platform.Status.{Status, success, aborted, efi_error, is_aborted, status_laws}

-- The platform reports `n` events, each a tick, a key other than `q`, or a key that cannot be read,
-- and then the key `q`.
pub record QuitsAt (p : Platform) (n : ℕ) : Type 0 where
  pub waits_well : (h : History) → efi_error (p.wait_for_event h).status ≡ false
  pub not_aborted : (h : History) → waits h ≤ n → is_aborted (p.read_key h).status ≡ false
  pub other_keys : (h : History) → waits h ≤ n → command_of (p.read_key h).value ≢ quit
  pub last_is_key : (h : History) → waits h ≡ n → (p.wait_for_event h).value ≡ 0
  pub last_reads : (h : History) → waits h ≡ n + 1 → efi_error (p.read_key h).status ≡ false
  pub last_quits : (h : History) → waits h ≡ n + 1 → command_of (p.read_key h).value ≡ quit

module _ (p : Platform) (stack timer : ℕ) where
  pub quit_command :
      (a : App) (h : History)
      → efi_error (p.read_key h).status ≡ false
      → command_of (p.read_key h).value ≡ quit
      → process_user_commands p a h ≡ (returned aborted, a, key_read ∷ h)
  unfolding process_user_commands run_command
  quit_command a h read q =
      let e : run_command p (command_of (p.read_key h).value) a (key_read ∷ h)
          ≡ (next aborted, a, key_read ∷ h) =
        ap (λ (c : Command). run_command p c a (key_read ∷ h)) q in
      ground (arith, e)

  pub round_quits :
      (rest : Proc App (Option Status)) (a : App) (h : History)
      → efi_error (p.wait_for_event h).status ≡ false
      → (p.wait_for_event h).value ≡ 0
      → process_user_commands p a (event_waited ∷ h)
        ≡ (returned aborted, a, key_read ∷ event_waited ∷ h)
      → (event_round p stack timer rest a h).0 ≡ next (some success)
  unfolding event_round is_aborted
  round_quits rest a h waited key done = ground arith

  -- A round with another event goes on with the rest, after one more wait.
  pub round_goes_on :
      (rest : Proc App (Option Status)) (a : App) (h : History)
      → efi_error (p.wait_for_event h).status ≡ false
      → is_aborted (p.read_key (event_waited ∷ h)).status ≡ false
      → command_of (p.read_key (event_waited ∷ h)).value ≢ quit
      → (b : App) × (g : History) × (event_round p stack timer rest a h ≡ rest b g)
        × (waits g ≡ 1 + waits h)
  unfolding event_round
  round_goes_on rest a h waited read other =
      let g = event_waited ∷ h in
      let ((status, e, alive), count) = process_user_commands_returns p a g read other in
      elim (Bool-cases ((p.wait_for_event h).value == 0)) [
        | inl key ↦
            let (result, b, f) = process_user_commands p a g in (b, f, ground arith, ground arith)
        | inr tick ↦ (a, g, ground arith, refl)
      ]

  pub event_loop_ends :
      (total n : ℕ) (a : App) (h : History)
      → QuitsAt p total
      → waits h + n ≡ total
      → (event_loop p stack (suc n) timer a h).0 ≡ next (some success)
  unfolding event_loop
  event_loop_ends total zero a h promised count =
      round_quits (event_loop p stack 0 timer) a h (promised.waits_well h)
        (promised.last_is_key h (omega arith))
        (quit_command a (event_waited ∷ h) (promised.last_reads (event_waited ∷ h) (omega arith))
          (promised.last_quits (event_waited ∷ h) (omega arith)))
  event_loop_ends total (suc n) a h promised count =
      let (b, g, e, more) =
        round_goes_on (event_loop p stack (suc n) timer) a h (promised.waits_well h)
          (promised.not_aborted (event_waited ∷ h) (omega arith))
          (promised.other_keys (event_waited ∷ h) (omega arith)) in
      ap (λ (r : Flow (Option Status) × App × History). r.0) e
      ∙ event_loop_ends total n b g promised (omega arith)

module _ (p : Platform) (stack : ℕ) where
  run_main_loop_ends :
      (total n : ℕ) (a : App) (h : History)
      → let timer = p.create_event h in
        let before = event_created timer.value ∷ h in
        efi_error timer.status ≡ false
        → efi_error (p.set_timer before timer.value timer_period) ≡ false
        → QuitsAt p total
        → waits h + n ≡ total
        → (run_main_loop p stack (suc n) a h).0 ≡ next (some success)
  unfolding run_main_loop
  run_main_loop_ends total n a h created set promised count =
      let timer = p.create_event h in
      let started = timer_set timer.value timer_period ∷ (event_created timer.value ∷ h) in
      ground (arith, event_loop_ends p stack timer.value total n a started promised count)

  -- Where the subsystems start, the timer is created and set, and the platform still reports `n`
  -- events before the key `q` (`QuitsAt`), whichever ticks and other keys they are, `r` with its new
  -- start of the USB driver included: UefiMain with one unit of fuel for each event returns
  -- EFI_SUCCESS, and no subsystem is initialized any more.
  pub uefi_main_ends :
      (total n : ℕ) (a : App) (h : History)
      → let (r, b, g) = initialize_subsystems p stack a h in
        let timer = p.create_event g in
        let before = event_created timer.value ∷ g in
        r ≡ returned success
        → efi_error timer.status ≡ false
        → efi_error (p.set_timer before timer.value timer_period) ≡ false
        → QuitsAt p total
        → waits g + n ≡ total
        → ((uefi_main p stack (suc n) a h).0 ≡ next (some success))
          × IsStopped (uefi_main p stack (suc n) a h).1
  unfolding uefi_main
  uefi_main_ends total n a h ready created set promised count =
      let (r, b, g) = initialize_subsystems p stack a h in
      let (e, c, f) = run_main_loop p stack (suc n) b g in
      ground (
        status_laws,
        run_main_loop_ends total n b g created set promised count,
        cleanup_and_exit_stops p stack c f,
      )
