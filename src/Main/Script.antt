-- ===== src/Main/Script.antt =====
-- The main loop of main.c under a script of events.
use usb_uefi_firmware.Common.{
  ℕ, suc, ◌+◌, ◌≡◌, Bool, true, false, Option, none, some, List, [], ◌∷◌, ◌==◌, if◌then◌else◌,
  get_elem?,
}
use usb_uefi_firmware.Main.Commands.{Command, quit, command_of}
use usb_uefi_firmware.Main.Loop.{waits}
use usb_uefi_firmware.Platform.Event.{History}
use usb_uefi_firmware.Platform.Services.{Reply, Platform}
use usb_uefi_firmware.Platform.Status.{Status, success, efi_error, is_aborted}

-- One event of the loop: the timer, a key, a key that ReadKeyStroke does not give, and a
-- WaitForEvent that fails.
pub data Input : Type 0 where
  timer_input : Input
  key_input : ℕ → Input
  no_key_input failed_input : Status → Input

abbrev pub is_quit : Command → Bool
is_quit quit = true
is_quit _ = false

-- How a session with these events ends: at the first `q`, at a read that gives EFI_ABORTED, or at a
-- wait that fails; `none` if it goes on after all of them.
unfoldable pub session_outcome : List Input → Option Status
session_outcome [] = none
session_outcome (timer_input ∷ script) = session_outcome script
session_outcome (key_input c ∷ script) =
    if is_quit (command_of c) then some success else session_outcome script
session_outcome (no_key_input e ∷ script) =
    if is_aborted e then some success else session_outcome script
session_outcome (failed_input e ∷ script) = some e

-- What WaitForEvent and ReadKeyStroke answer for an event.
abbrev pub Waited : Input → Reply → Type 0
Waited timer_input r = (efi_error r.status ≡ false) × ((r.value == 0) ≡ false)
Waited (failed_input e) r = (r.status ≡ e) × (efi_error e ≡ true)
Waited _ r = (efi_error r.status ≡ false) × (r.value ≡ 0)

abbrev pub KeyRead : Input → Reply → Type 0
KeyRead (key_input c) r = (efi_error r.status ≡ false) × (r.value ≡ c)
KeyRead (no_key_input e) r = (r.status ≡ e) × (efi_error e ≡ true)
KeyRead _ r = Unit

-- The platform reports the events of the script, from its wait number `from` on.
pub record Follows (p : Platform) (from : ℕ) (script : List Input) : Type 0 where
  pub waited :
      (h : History) (i : ℕ) (input : Input)
      → waits h ≡ from + i
      → get_elem? script i ≡ some input
      → Waited input (p.wait_for_event h)
  pub read :
      (h : History) (i : ℕ) (input : Input)
      → waits h ≡ suc (from + i)
      → get_elem? script i ≡ some input
      → KeyRead input (p.read_key h)
