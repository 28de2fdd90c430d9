-- ===== src/Main/Returns.antt =====
-- UefiMain of main.c returns, and leaves nothing running.
use usb_uefi_firmware.Common.{
  ℕ, zero, suc, ◌≡◌, refl, ◌⊎◌, inl, inr, Bool, true, false, Option, none, some, [], ◌∷◌, arith,
  is_null,
}
use usb_uefi_firmware.Loader.Lifecycle.{firmware_loader_init_starts}
use usb_uefi_firmware.Main.Application.{
  timer_period, initialize_subsystems, event_round, event_loop, run_main_loop, uefi_main,
}
use usb_uefi_firmware.Main.Commands.{
  App, initial_app, Command, reset, command_of, run_command, process_user_commands,
}
use usb_uefi_firmware.Main.Inside.{uefi_main-KeepsInside}
use usb_uefi_firmware.Main.Shutdown.{IsStopped, cleanup_and_exit_stops, uefi_main_stops}
use usb_uefi_firmware.Main.Startup.{initialize_subsystems_cases}
use usb_uefi_firmware.Main.Waits.{init_returns, reset_returns}
use usb_uefi_firmware.Platform.Event.{event_created, timer_set, event_waited, key_read, History}
use usb_uefi_firmware.Platform.Proc.{Flow, next, returned, fault}
use usb_uefi_firmware.Platform.Services.{Platform}
use usb_uefi_firmware.Platform.Status.{Status, status_laws}
use usb_uefi_firmware.Uefi.Interface.{uefi_interface_init}
use usb_uefi_firmware.Uefi.Startup.{SizesDescriptors, uefi_interface_init_cases}
use usb_uefi_firmware.Uefi.State.{initial_uefi}
use usb_uefi_firmware.Usb.Driver.{usb_driver_init, usb_device_detect}
use usb_uefi_firmware.Usb.State.{initial_usb}
use usb_uefi_firmware.Usb.Table.{Crowded}

abbrev is_next : {A : Type 0} → Flow A → Bool
is_next (next a) = true
is_next (returned status) = false
is_next fault = false

abbrev is_fault : {A : Type 0} → Flow A → Bool
is_fault fault = true
is_fault _ = false

next_cases :
    (r : Flow (Option Status))
    → is_next r ≡ true
    → (r ≡ next none) ⊎ ((status : Status) × (r ≡ next (some status)))
next_cases (next none) e = inl refl
next_cases (next (some status)) e = inr (status, refl)
next_cases (returned status) e = absurd cc
next_cases fault e = absurd cc

module _ (p : Platform) (stack : ℕ) where
  run_command_ends : (c : Command) (a : App) (h : History) → is_next (run_command p c a h).0 ≡ true
  unfolding run_command
  run_command_ends reset a h = ground (arith, reset_returns p a h)
  run_command_ends _ a h = refl

  process_user_commands_ends :
      (a : App) (h : History) → is_fault (process_user_commands p a h).0 ≡ false
  unfolding process_user_commands
  process_user_commands_ends a h =
      ground (arith, run_command_ends (command_of (p.read_key h).value) a (key_read ∷ h))

  event_loop_ends :
      (fuel timer : ℕ) (a : App) (h : History)
      → is_next (event_loop p stack fuel timer a h).0 ≡ true
  unfolding event_loop event_round
  event_loop_ends zero timer a h = refl
  event_loop_ends (suc n) timer a h =
      let g = event_waited ∷ h in
      let (result, b, f) = process_user_commands p a g in
      ground (
        arith,
        process_user_commands_ends a g,
        event_loop_ends n timer a g,
        event_loop_ends n timer b f,
      )

  run_main_loop_ends :
      (fuel : ℕ) (a : App) (h : History) → is_next (run_main_loop p stack fuel a h).0 ≡ true
  unfolding run_main_loop
  run_main_loop_ends fuel a h =
      let timer = p.create_event h in
      let started = timer_set timer.value timer_period ∷ (event_created timer.value ∷ h) in
      ground (arith, event_loop_ends fuel timer.value a started)

  initialize_subsystems_ends :
      (h : History)
      → is_null stack ≡ false
      → SizesDescriptors p
      → is_fault (initialize_subsystems p stack initial_app h).0 ≡ false
  initialize_subsystems_ends h local sizes =
      let first = uefi_interface_init p stack initial_uefi h in
      let second = usb_driver_init p initial_usb first.2 in
      let detected = usb_device_detect p second.1 second.2 in
      ground (
        status_laws,
        initialize_subsystems_cases p stack h local sizes,
        uefi_interface_init_cases p stack initial_uefi h refl local sizes,
        init_returns p initial_usb first.2,
        firmware_loader_init_starts p detected.2,
      )

  uefi_main_ends_or_runs :
      (fuel : ℕ) (h : History)
      → is_null stack ≡ false
      → SizesDescriptors p
      → is_next (uefi_main p stack fuel initial_app h).0 ≡ true
  unfolding uefi_main
  uefi_main_ends_or_runs fuel h local sizes =
      let (r, b, g) = initialize_subsystems p stack initial_app h in
      let (e, c, f) = run_main_loop p stack fuel b g in
      ground (
        arith,
        initialize_subsystems_ends h local sizes,
        run_main_loop_ends fuel b g,
        cleanup_and_exit_stops p stack b g,
        cleanup_and_exit_stops p stack c f,
      )

  -- From the initial state, where GetMemoryMap reports descriptors of some size, UefiMain does not
  -- divide by zero, whichever service fails and whatever keys are read: after the events that the fuel
  -- gives it either still waits for the next, or it has returned a status, and then no subsystem is
  -- initialized any more. It has stored no device past the end of the table, unless
  -- LocateHandleBuffer reports more USB devices than the table has slots (`Crowded`).
  pub uefi_main_returns :
      (fuel : ℕ) (h : History)
      → is_null stack ≡ false
      → SizesDescriptors p
      → let (r, a, g) = uefi_main p stack fuel initial_app h in
        ((r ≡ next none) ⊎ ((status : Status) × (r ≡ next (some status)) × IsStopped a))
        × ((a.usb.overruns ≡ []) ⊎ Crowded p)
  uefi_main_returns fuel h local sizes = (
    elim (next_cases (uefi_main p stack fuel initial_app h).0
        (uefi_main_ends_or_runs fuel h local sizes)) [
          | inl runs ↦ inl runs
          | inr (status, ended) ↦
              inr (status, ended, uefi_main_stops p stack fuel status initial_app h ended)
        ],
    (uefi_main-KeepsInside p stack fuel).within initial_app h (inl refl),
  )
