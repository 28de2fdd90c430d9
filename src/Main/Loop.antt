-- ===== src/Main/Loop.antt =====
-- The main loop of main.c: how it ends, and the commands that it carries out.
use usb_uefi_firmware.Common.{
  ℕ, zero, suc, ◌+◌, ◌≤◌, ◌<◌, ◌≡◌, ◌∙◌, ◌≢◌, true, false, Option, none, some, [], ◌∷◌, arith, ◌==◌,
  if◌then◌else◌,
}
use usb_uefi_firmware.Main.Application.{timer_period, event_round, event_loop, run_main_loop}
use usb_uefi_firmware.Main.Commands.{
  App, reset, is_key, command_of, run_command, process_user_commands,
}
use usb_uefi_firmware.Platform.Event.{
  Event, event_created, timer_set, event_waited, event_closed, key_read, History,
}
use usb_uefi_firmware.Platform.Proc.{next, returned, Proc}
use usb_uefi_firmware.Platform.Services.{Platform}
use usb_uefi_firmware.Platform.Status.{Status, success, aborted, efi_error, is_aborted}

-- How often the program has waited for an event.
abbrev pub waits : History → ℕ
waits [] = 0
waits (event_waited ∷ h) = 1 + waits h
waits (_ ∷ h) = waits h

-- The last call.
abbrev pub newest : History → Option Event
newest [] = none
newest (e ∷ h) = some e

module _ (p : Platform) where
  -- Where a key is read without error and is not `r` or `R`, the result is EFI_ABORTED for `q` and
  -- `Q` and EFI_SUCCESS for every other key, no subsystem changes, and reading the key is the only
  -- call.
  pub process_user_commands_cases :
      (a : App) (h : History)
      → let key = p.read_key h in
        let command = command_of key.value in
        let (result, b, g) = process_user_commands p a h in
        efi_error key.status ≡ false
        → command ≢ reset
        → (result ≡ returned (if is_key b'q' b'Q' key.value then aborted else success))
          × (b ≡ a)
          × (g ≡ key_read ∷ h)
  unfolding process_user_commands command_of run_command
  process_user_commands_cases a h read other = ground arith

  process_user_commands_quit :
      (a : App) (h : History)
      → efi_error (p.read_key h).status ≡ false
      → (p.read_key h).value ≡ b'q'
      → process_user_commands p a h ≡ (returned aborted, a, key_read ∷ h)
  unfolding process_user_commands command_of run_command
  process_user_commands_quit a h read q = ground arith

module _ (p : Platform) (stack timer : ℕ) where
  event_round_closes :
      (rest : Proc App (Option Status)) (status : Status) (a : App) (h : History)
      → ((b : App) (g : History)
          → (rest b g).0 ≡ next (some status)
          → newest (rest b g).2 ≡ some (event_closed timer))
      → (event_round p stack timer rest a h).0 ≡ next (some status)
      → newest (event_round p stack timer rest a h).2 ≡ some (event_closed timer)
  unfolding event_round
  event_round_closes rest status a h closes ended =
      let waited = event_waited ∷ h in
      let (r, b, g) = process_user_commands p a waited in
      ground (arith, closes a waited, closes b g)

  -- Whenever the loop ends with a status, closing the timer event is the last call it has made.
  pub event_loop_closes :
      (fuel : ℕ) (status : Status) (a : App) (h : History)
      → (event_loop p stack fuel timer a h).0 ≡ next (some status)
      → newest (event_loop p stack fuel timer a h).2 ≡ some (event_closed timer)
  unfolding event_loop
  event_loop_closes zero status a h ended = ground arith
  event_loop_closes (suc n) status a h ended =
      event_round_closes (event_loop p stack n timer) status a h (event_loop_closes n status) ended

  event_round_same :
      (rest rest' : Proc App (Option Status)) (status : Status) (a : App) (h : History)
      → ((b : App) (g : History) → (rest b g).0 ≡ next (some status) → rest' b g ≡ rest b g)
      → (event_round p stack timer rest a h).0 ≡ next (some status)
      → event_round p stack timer rest' a h ≡ event_round p stack timer rest a h
  unfolding event_round
  event_round_same rest rest' status a h same ended =
      let waited = event_waited ∷ h in
      let (r, b, g) = process_user_commands p a waited in ground (arith, same a waited, same b g)

  -- More fuel does not change how the loop ends.
  pub event_loop_fuel :
      (fuel fuel' : ℕ) (status : Status) (a : App) (h : History)
      → fuel ≤ fuel'
      → (event_loop p stack fuel timer a h).0 ≡ next (some status)
      → event_loop p stack fuel' timer a h ≡ event_loop p stack fuel timer a h
  unfolding event_loop
  event_loop_fuel zero fuel' status a h more ended = ground arith
  event_loop_fuel (suc n) zero status a h more ended = ground arith
  event_loop_fuel (suc n) (suc m) status a h more ended =
      event_round_same (event_loop p stack n timer) (event_loop p stack m timer) status a h
        (λ b g. event_loop_fuel n m status b g (omega arith)) ended

-- The platform reports the timer for the first `n` waits, and then the key `q`.
pub record QuitsAfter (p : Platform) (n : ℕ) : Type 0 where
  pub waits_well : (h : History) → efi_error (p.wait_for_event h).status ≡ false
  pub ticks : (h : History) → waits h < n → ((p.wait_for_event h).value == 0) ≡ false
  pub reports_key : (h : History) → waits h ≡ n → (p.wait_for_event h).value ≡ 0
  pub reads : (h : History) → efi_error (p.read_key h).status ≡ false
  pub quits : (h : History) → (p.read_key h).value ≡ b'q'

module _ (p : Platform) (stack timer : ℕ) where
  event_round_tick :
      (rest : Proc App (Option Status)) (a : App) (h : History)
      → efi_error (p.wait_for_event h).status ≡ false
      → ((p.wait_for_event h).value == 0) ≡ false
      → event_round p stack timer rest a h ≡ rest a (event_waited ∷ h)
  unfolding event_round
  event_round_tick rest a h waited tick = ground arith

  event_round_quit :
      (rest : Proc App (Option Status)) (a : App) (h : History)
      → efi_error (p.wait_for_event h).status ≡ false
      → (p.wait_for_event h).value ≡ 0
      → efi_error (p.read_key (event_waited ∷ h)).status ≡ false
      → (p.read_key (event_waited ∷ h)).value ≡ b'q'
      → event_round p stack timer rest a h
        ≡ (next (some success), a, event_closed timer ∷ key_read ∷ event_waited ∷ h)
  unfolding event_round is_aborted
  event_round_quit rest a h waited key read q =
      ground (arith, process_user_commands_quit p a (event_waited ∷ h) read q)

-- The waits for `n` events, on top of a history.
abbrev pub waited_for : ℕ → History → History
waited_for zero h = h
waited_for (suc n) h = waited_for n (event_waited ∷ h)

module _ (p : Platform) (stack timer : ℕ) where
  -- On a platform that still reports `n` ticks before the key `q`, the loop ends with success, on
  -- one unit of fuel for each; its
  -- calls are the waits, the read of the key and the close of the timer event, and no
  -- subsystem's state changes.
  pub event_loop_quits :
      (ticks n : ℕ) (a : App) (h : History)
      → QuitsAfter p ticks
      → waits h + n ≡ ticks
      → event_loop p stack (suc n) timer a h
        ≡ (next (some success), a, event_closed timer ∷ key_read ∷ waited_for (suc n) h)
  unfolding event_loop
  event_loop_quits ticks zero a h promised count =
      event_round_quit p stack timer (event_loop p stack 0 timer) a h (promised.waits_well h)
        (promised.reports_key h (omega arith)) (promised.reads (event_waited ∷ h))
        (promised.quits (event_waited ∷ h))
  event_loop_quits ticks (suc n) a h promised count =
      event_round_tick p stack timer (event_loop p stack (suc n) timer) a h (promised.waits_well h)
        (promised.ticks h (omega arith))
      ∙ event_loop_quits ticks n a (event_waited ∷ h) promised (omega arith)

module _ (p : Platform) (stack : ℕ) where
  -- Where CreateEvent succeeds and SetTimer fails, the main loop returns that error with the timer
  -- event created and not closed.
  pub run_main_loop_leaks :
      (fuel : ℕ) (a : App) (h : History)
      → let created = p.create_event h in
        let before = event_created created.value ∷ h in
        let set = p.set_timer before created.value timer_period in
        efi_error created.status ≡ false
        → efi_error set ≡ true
        → run_main_loop p stack fuel a h
          ≡ (next (some set), a, timer_set created.value timer_period ∷ before)
  unfolding run_main_loop
  run_main_loop_leaks fuel a h created failed = ground arith
