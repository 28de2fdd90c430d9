-- ===== src/Platform/Proc.antt =====
-- C functions as programs: each has the static variables of its file as its state, appends its
-- calls to the history, and may return early.
use usb_uefi_firmware.Common.{Bool, true, false, ◌∷◌, if◌then◌else◌}
use usb_uefi_firmware.Platform.Event.{Event, History}
use usb_uefi_firmware.Platform.Status.{Status, efi_error}

-- A body goes on with a value, has returned a status, or has divided by zero, which on x64 is a
-- processor fault that ends the program.
pub data Flow (A : Type 0) : Type 0 where
  next : A → Flow A
  returned : Status → Flow A
  fault : Flow A

abbrev pub Proc : Type 0 → Type 0 → Type 0
Proc S A = S → History → Flow A × S × History

-- A function seen by its callers: it has returned a status, or it faults.
abbrev pub Call : Type 0 → Type 0
Call S = S → History → Flow Status × S × History

infixl 5 ◌>>=◌ ◌>>◌
abbrev pub ◌>>=◌ : {S A B : Type 0} → Proc S A → (A → Proc S B) → Proc S B
◌>>=◌ m f s h =
    let (r, s', h') = m s h in
    elim r [
      | next a ↦ f a s' h'
      | returned status ↦ (returned status, s', h')
      | fault ↦ (fault, s', h')
    ]

abbrev pub ◌>>◌ : {S B : Type 0} → Proc S (Unit {0}) → Proc S B → Proc S B
m >> k = m >>= λ _. k

abbrev pub pure : {S A : Type 0} → A → Proc S A
pure a s h = (next a, s, h)

-- `return status;`
abbrev pub exit : {S A : Type 0} → Status → Proc S A
exit status s h = (returned status, s, h)

abbrev pub get : {S : Type 0} → Proc S S
get s h = (next s, s, h)

abbrev pub put : {S : Type 0} → S → Proc S (Unit {0})
put s' s h = (next tt, s', h)

abbrev pub modify : {S : Type 0} → (S → S) → Proc S (Unit {0})
modify f s h = (next tt, f s, h)

-- `if (!test) return status;`
abbrev pub require : {S : Type 0} → Bool → Status → Proc S (Unit {0})
require test status s h = (if test then next tt else returned status, s, h)

-- CHECK_STATUS of common.h, and every test of the same form.
abbrev pub check_status : {S : Type 0} → Status → Proc S (Unit {0})
check_status status s h = (if efi_error status then returned status else next tt, s, h)

-- A call without a reply that matters.
abbrev pub emit : {S : Type 0} → Event → Proc S (Unit {0})
emit e s h = (next tt, s, e ∷ h)

-- A call whose reply is a function of the history before it.
abbrev pub invoke : {S R : Type 0} → (History → R) → (R → Event) → Proc S R
invoke reply event s h = let r = reply h in (next r, s, event r ∷ h)

-- `if (test) { … }` with no else.
abbrev pub when : {S : Type 0} → Bool → Proc S (Unit {0}) → Proc S (Unit {0})
when test body s h = elim test [ true ↦ body s h | false ↦ (next tt, s, h) ]

-- `if (test) { cleanup; return status; }`
abbrev pub return_if : {S : Type 0} → Bool → Proc S (Unit {0}) → Status → Proc S (Unit {0})
return_if test cleanup status = when test (cleanup >> exit status)

abbrev pub divide_fault : {S A : Type 0} → Proc S A
divide_fault s h = (fault, s, h)

abbrev pub result_of : Flow Status → Flow Status
result_of (next status) = returned status
result_of (returned status) = returned status
result_of fault = fault

-- A whole function: its body ends with the status that it returns.
abbrev pub function : {S : Type 0} → Proc S Status → Call S
function body s h = let (r, s', h') = body s h in (result_of r, s', h')

abbrev reply_of : Flow Status → Flow Status
reply_of (next status) = next status
reply_of (returned status) = next status
reply_of fault = fault

-- A call of another function of the same file, for its status.
abbrev pub call : {S : Type 0} → Call S → Proc S Status
call f s h = let (r, s', h') = f s h in (reply_of r, s', h')
