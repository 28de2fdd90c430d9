-- ===== src/Platform/Ensures.antt =====
-- Conditions on the states in which a procedure of Platform/Proc ends, and how they follow from those
-- of its parts.
use usb_uefi_firmware.Common.{◌≡◌, refl, ◌⊎◌, inl, inr, Bool, true, false, if◌then◌else◌}
use usb_uefi_firmware.Platform.Event.{History}
use usb_uefi_firmware.Platform.Proc.{
  Flow, next, returned, fault, Proc, ◌>>=◌, ◌>>◌, require, check_status, result_of, function, call,
}
use usb_uefi_firmware.Platform.Status.{Status, efi_error}

module _ {S : Type 0} where
  -- `crashed` holds of the state of a fault, `left` of a status that is returned early and the state
  -- then, `goes_on` of the value and the state where the procedure goes on.
  abbrev pub Ensures :
      {A : Type 0}
      → (S → Type 0)
      → (Status → S → Type 0)
      → (A → S → Type 0)
      → Flow A × S × History
      → Type 0
  Ensures crashed left goes_on (next a, s, h) = goes_on a s
  Ensures crashed left goes_on (returned status, s, h) = left status s
  Ensures crashed left goes_on (fault, s, h) = crashed s

  module _ (crashed : S → Type 0) (left : Status → S → Type 0) where
    -- A sequence of two procedures.
    pub bind-Ensures :
        {A B : Type 0} (passed : A → S → Type 0) (goes_on : B → S → Type 0) (m : Proc S A)
        (f : A → Proc S B) (s : S) (h : History)
        → Ensures crashed left passed (m s h)
        → ((a : A) (t : S) (g : History) → passed a t → Ensures crashed left goes_on (f a t g))
        → Ensures crashed left goes_on ((m >>= f) s h)
    bind-Ensures passed goes_on m f s h first after = go (m s h).0 (m s h).1 (m s h).2 first
      where
        go :
            (r : Flow _) (t : S) (g : History)
            → Ensures crashed left passed (r, t, g)
            → Ensures crashed left goes_on (elim r [
              | next a ↦ f a t g
              | returned status ↦ (returned status, t, g)
              | fault ↦ (fault, t, g)
            ])
        go (next a) t g e = after a t g e
        go (returned status) t g e = e
        go fault t g e = e

    -- A procedure that never leaves early.
    pub Ensures-plain :
        (goes_on : Unit {0} → S → Type 0) (end : Flow (Unit {0}) × S × History)
        → (end.0 ≡ next tt) ⊎ (end.0 ≡ fault)
        → crashed end.1
        → goes_on tt end.1
        → Ensures crashed left goes_on end
    Ensures-plain goes_on (next tt, s, h) plain broken whole = whole
    Ensures-plain goes_on (fault, s, h) plain broken whole = broken
    Ensures-plain goes_on (returned status, s, h) plain broken whole =
        absurd (elim plain [ inl e ↦ cc | inr e ↦ cc ])

    -- What follows a test runs in the state before it.
    pub require-Ensures :
        {B : Type 0} (goes_on : B → S → Type 0) (test : Bool) (status : Status) (rest : Proc S B)
        (s : S) (h : History)
        → (test ≡ false → left status s)
        → (test ≡ true → Ensures crashed left goes_on (rest s h))
        → Ensures crashed left goes_on ((require test status >> rest) s h)
    require-Ensures goes_on true status rest s h stops passes = passes refl
    require-Ensures goes_on false status rest s h stops passes = stops refl

    pub check_status-Ensures :
        {B : Type 0} (goes_on : B → S → Type 0) (status : Status) (rest : Proc S B) (s : S)
        (h : History)
        → left status s
        → Ensures crashed left goes_on (rest s h)
        → Ensures crashed left goes_on ((check_status status >> rest) s h)
    check_status-Ensures {B} goes_on status rest s h stops passes = go (efi_error status)
      where
        go :
            (error : Bool)
            → Ensures crashed left goes_on
                (((λ t g. (if error then returned status else next tt, t, g)) >> rest) s h)
        go true = stops
        go false = passes

    -- A call of a function that ends its body with a status and never leaves it early.
    pub call-Ensures :
        (goes_on : Status → S → Type 0) (body : Proc S Status) (s : S) (h : History)
        → Ensures crashed goes_on goes_on (body s h)
        → Ensures crashed left goes_on (call (function body) s h)
    call-Ensures goes_on body s h e = go (body s h).0 (body s h).1 (body s h).2 e
      where
        go :
            (r : Flow Status) (t : S) (g : History)
            → Ensures crashed goes_on goes_on (r, t, g)
            → Ensures crashed left goes_on (call (λ _ _. (result_of r, t, g)) t g)
        go (next status) t g e = e
        go (returned status) t g e = e
        go fault t g e = e

  -- A function whose every end satisfies a condition on the state.
  pub function-Ensures :
      (good : S → Type 0) (body : Proc S Status) (s : S) (h : History)
      → Ensures good (λ _ t. good t) (λ _ t. good t) (body s h)
      → good (function body s h).1
  function-Ensures good body s h e = go (body s h).0 (body s h).1 (body s h).2 e
    where
      go :
          (r : Flow Status) (t : S) (g : History)
          → Ensures good (λ _ u. good u) (λ _ u. good u) (r, t, g)
          → good t
      go (next status) t g e = e
      go (returned status) t g e = e
      go fault t g e = e
