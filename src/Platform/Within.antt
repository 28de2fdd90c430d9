-- ===== src/Platform/Within.antt =====
-- Relations between the state and history before and after a procedure of Platform/Proc, and how they
-- follow from those of its parts.
use usb_uefi_firmware.Common.{Bool, true, false, if◌then◌else◌}
use usb_uefi_firmware.Platform.Event.{History}
use usb_uefi_firmware.Platform.Proc.{
  Flow, next, returned, fault, Proc, Call, ◌>>=◌, pure, check_status, function, call,
}
use usb_uefi_firmware.Platform.Status.{Status}

module _ {S : Type 0} (R : S → History → S → History → Type 0) where
  -- A relation that holds where nothing happens, and over two procedures if over each.
  pub record Chains : Type 0 where
    pub same : (s : S) (h : History) → R s h s h
    pub joined : {s t u : S} {h g f : History} → R s h t g → R t g u f → R s h u f

  -- A procedure that stays within the relation, however it ends.
  pub record Within {A : Type 0} (m : Proc S A) : Type 0 where
    pub within : (s : S) (h : History) → R s h (m s h).1 (m s h).2

module _ {S : Type 0} {R : S → History → S → History → Type 0} (chains : Chains R) where
  pub pure-Within : {A : Type 0} (x : A) → Within R (pure x)
  pure-Within x = record { within = chains.same }

  pub bind-Within :
      {A B : Type 0} (m : Proc S A) (f : A → Proc S B)
      → Within R m
      → ((x : A) → Within R (f x))
      → Within R (m >>= f)
  bind-Within {A} {B} m f first after = record {
    within = λ s h. go s h (m s h).0 (m s h).1 (m s h).2 (first.within s h);
  }
    where
      go :
          (s : S) (h : History) (r : Flow A) (t : S) (g : History)
          → R s h t g
          → let end : Flow B × S × History = elim r [
            | next x ↦ f x t g
            | returned status ↦ (returned status, t, g)
            | fault ↦ (fault, t, g)
          ] in
            R s h end.1 end.2
      go s h (next x) t g way = chains.joined way ((after x).within t g)
      go s h (returned status) t g way = way
      go s h fault t g way = way

  pub check_status-Within : (status : Status) → Within R (check_status status)
  check_status-Within status = record { within = chains.same }

  pub if-Within :
      {A : Type 0} (test : Bool) (m n : Proc S A)
      → Within R m
      → Within R n
      → Within R (if test then m else n)
  if-Within true m n w w' = w
  if-Within false m n w w' = w'

module _ {S : Type 0} {R : S → History → S → History → Type 0} where
  pub function-Within : (body : Proc S Status) → Within R body → Within R (function body)
  function-Within body w = record { within = w.within }

  pub call-Within : (f : Call S) → Within R f → Within R (call f)
  call-Within f w = record { within = w.within }
