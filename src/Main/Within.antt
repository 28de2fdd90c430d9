-- ===== src/Main/Within.antt =====
-- UefiMain of main.c, taken apart: a relation between the state and history before and after it holds
-- if it holds of the start, the reset and the cleanup, and of the calls that main.c makes of its timer,
-- its events and the console.
use usb_uefi_firmware.Common.{
  ℕ, zero, suc, ◌≡◌, refl, inl, inr, Option, none, some, ◌∷◌, ◌==◌, Bool-cases,
}
use usb_uefi_firmware.Main.Application.{
  timer_period, initialize_subsystems, event_round, event_loop, settle, run_main_loop,
  cleanup_and_exit, uefi_main,
}
use usb_uefi_firmware.Main.Commands.{
  App, Command, reset, quit, command_of, reset_usb, run_command, process_user_commands,
}
use usb_uefi_firmware.Platform.Event.{
  Event, event_created, timer_set, event_waited, event_closed, key_read, History,
}
use usb_uefi_firmware.Platform.Proc.{Proc, ◌>>◌, pure, emit, invoke}
use usb_uefi_firmware.Platform.Services.{Platform}
use usb_uefi_firmware.Platform.Status.{Status, success, aborted, efi_error, is_aborted}
use usb_uefi_firmware.Platform.Within.{
  Chains, Within, pure-Within, bind-Within, check_status-Within, if-Within, function-Within,
  call-Within,
}

pub data OwnCall : Type 0 where
  timer_created timer_closed : ℕ → OwnCall
  timer_armed : ℕ → ℕ → OwnCall
  waited_once key_taken : OwnCall

abbrev pub own_event : OwnCall → Event
own_event (timer_created timer) = event_created timer
own_event (timer_closed timer) = event_closed timer
own_event (timer_armed timer period) = timer_set timer period
own_event waited_once = event_waited
own_event key_taken = key_read

module _ (p : Platform) (stack : ℕ) (R : App → History → App → History → Type 0) where
  pub record Parts : Type 0 where
    pub chains : Chains R
    pub start : Within R (initialize_subsystems p stack)
    pub restart : Within R (reset_usb p)
    pub stop : Within R (cleanup_and_exit p stack)
    pub own : (c : OwnCall) (a : App) (h : History) → R a h a (own_event c ∷ h)

module _ (p : Platform) (stack : ℕ) {R : App → History → App → History → Type 0}
    (parts : Parts p stack R) where
  own-Within :
      {A : Type 0} (reply : History → A) (event : A → Event) (c : A → OwnCall)
      → ((r : A) → event r ≡ own_event (c r))
      → Within R (invoke reply event)
  own-Within reply event c same = record {
    within = λ a h. rw (same (reply h)) (parts.own (c (reply h)) a h);
  }

  emit-Within : (c : OwnCall) → Within R (emit (own_event c))
  emit-Within c = record { within = λ a h. parts.own c a h }

  run_command-Within : (c : Command) → Within R (run_command p c)
  unfolding run_command
  run_command-Within reset =
      bind-Within parts.chains _ _ parts.restart (λ _. pure-Within parts.chains success)
  run_command-Within quit = pure-Within parts.chains aborted
  run_command-Within _ = pure-Within parts.chains success

  process_user_commands-Within : Within R (process_user_commands p)
  unfolding process_user_commands
  process_user_commands-Within = function-Within _ (
      bind-Within parts.chains _ _
        (own-Within (λ h. p.read_key h) (λ _. key_read) (λ _. key_taken) (λ _. refl))
        (λ key.
          bind-Within parts.chains _ _ (check_status-Within parts.chains key.status)
            (λ _. run_command-Within (command_of key.value))))

  -- Each way out of the loop closes the timer.
  closing-Within :
      (timer : ℕ) (end : Option Status) → Within R (emit (event_closed timer) >> pure end)
  closing-Within timer end =
      bind-Within parts.chains _ _ (emit-Within (timer_closed timer))
        (λ _. pure-Within parts.chains end)

  event_round-Within :
      (timer : ℕ) (again : Proc App (Option Status))
      → Within R again
      → Within R (event_round p stack timer again)
  unfolding event_round
  event_round-Within timer again w =
      bind-Within parts.chains _ _
        (own-Within (λ h. p.wait_for_event h) (λ _. event_waited) (λ _. waited_once) (λ _. refl))
        (λ waited.
          if-Within parts.chains (efi_error waited.status) _ _
            (closing-Within timer (some waited.status))
            (if-Within parts.chains (waited.value == 0) _ _
              (bind-Within parts.chains _ _ (call-Within _ process_user_commands-Within) (λ status.
                if-Within parts.chains (is_aborted status) _ _ (closing-Within timer (some success))
                  w))
              w))

  event_loop-Within : (fuel timer : ℕ) → Within R (event_loop p stack fuel timer)
  unfolding event_loop
  event_loop-Within zero timer = pure-Within parts.chains none
  event_loop-Within (suc fuel) timer =
      event_round-Within timer (event_loop p stack fuel timer) (event_loop-Within fuel timer)

  settle-Within :
      (status : Status) (body : Proc App (Option Status))
      → Within R body
      → Within R (settle p stack status body)
  settle-Within status body w = record {
    within = λ a h. elim (Bool-cases (efi_error status)) [
      | inl error ↦ rw error (parts.chains.same a h)
      | inr fine ↦ rw fine (w.within a h)
    ];
  }

  run_main_loop-Within : (fuel : ℕ) → Within R (run_main_loop p stack fuel)
  unfolding run_main_loop
  run_main_loop-Within fuel =
      bind-Within parts.chains _ _
        (own-Within (λ h. p.create_event h) (λ r. event_created r.value)
          (λ r. timer_created r.value) (λ _. refl))
        (λ timer. settle-Within timer.status _ (
          bind-Within parts.chains _ _
            (own-Within (λ h. p.set_timer h timer.value timer_period)
              (λ _. timer_set timer.value timer_period) (λ _. timer_armed timer.value timer_period)
              (λ _. refl))
            (λ set. settle-Within set _ (event_loop-Within fuel timer.value))))

  ended-Within :
      (ended : Option Status)
      → Within R {A = Option Status} (elim ended [
        | none ↦ pure none
        | some result ↦ cleanup_and_exit p stack >> pure (some result)
      ])
  ended-Within none = pure-Within parts.chains none
  ended-Within (some result) =
      bind-Within parts.chains _ _ parts.stop (λ _. pure-Within parts.chains (some result))

  pub uefi_main-Within : (fuel : ℕ) → Within R (uefi_main p stack fuel)
  unfolding uefi_main
  uefi_main-Within fuel = bind-Within parts.chains _ _ (call-Within _ parts.start) (λ status.
      if-Within parts.chains (efi_error status) _ _
        (bind-Within parts.chains _ _ parts.stop (λ _. pure-Within parts.chains (some status)))
        (bind-Within parts.chains _ _ (run_main_loop-Within fuel) ended-Within))
