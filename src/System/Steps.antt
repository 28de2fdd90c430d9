-- ===== src/System/Steps.antt =====
-- Interleavings: calls of the four subsystems by any clients, and the calls that main.c itself makes,
-- in any order over one history.
use usb_uefi_firmware.Common.{◌≡◌, ◌∷◌}
use usb_uefi_firmware.Flash.Session.{FlashCall, run_call}
use usb_uefi_firmware.Flash.State.{Flash, initial_flash}
use usb_uefi_firmware.Loader.Session.{Client, initial_client, LoaderCall, run_loader_call}
use usb_uefi_firmware.Main.Within.{OwnCall, own_event}
use usb_uefi_firmware.Platform.Event.{History}
use usb_uefi_firmware.Platform.Services.{Platform}
use usb_uefi_firmware.Uefi.Session.{UefiCall, run_uefi_call}
use usb_uefi_firmware.Uefi.State.{Uefi, initial_uefi}
use usb_uefi_firmware.Usb.Session.{UsbCall, run_usb_call}
use usb_uefi_firmware.Usb.State.{Usb, initial_usb}

pub record Machine : Type 0 where
  pub uefi : Uefi
  pub usb : Usb
  pub client : Client
  pub flash : Flash

abbrev pub initial_machine : Machine
initial_machine = record {
  uefi = initial_uefi;
  usb = initial_usb;
  client = initial_client;
  flash = initial_flash;
}

pub data MachineCall : Type 0 where
  on_uefi : UefiCall → MachineCall
  on_usb : UsbCall → MachineCall
  on_loader : LoaderCall → MachineCall
  on_flash : FlashCall → MachineCall
  on_console : OwnCall → MachineCall

module _ (p : Platform) where
  abbrev pub run_machine_call : MachineCall → Machine → History → Machine × History
  run_machine_call (on_uefi c) s h =
      let (t, g) = run_uefi_call p c s.uefi h in (record s { uefi = t }, g)
  run_machine_call (on_usb c) s h =
      let (result, t, g) = run_usb_call p c s.usb h in (record s { usb = t }, g)
  run_machine_call (on_loader c) s h =
      let (t, g) = run_loader_call p c s.client h in (record s { client = t }, g)
  run_machine_call (on_flash c) s h =
      let (result, t, g) = run_call p c s.flash h in (record s { flash = t }, g)
  run_machine_call (on_console c) s h = (s, own_event c ∷ h)

  -- The machine and its history after any number of calls.
  pub data Interleaves (s : Machine) (h : History) : Machine → History → Type 0 where
    no_machine_call : Interleaves s h s h
    one_machine_call :
        {t u : Machine} {g f : History} (c : MachineCall)
        → Interleaves s h t g
        → u ≡ (run_machine_call c t g).0
        → f ≡ (run_machine_call c t g).1
        → Interleaves s h u f

  pub Interleaves-trans :
      {s t : Machine} {h g : History} {u : Machine} {f : History}
      → Interleaves s h t g
      → Interleaves t g u f
      → Interleaves s h u f
  Interleaves-trans r no_machine_call = r
  Interleaves-trans r (one_machine_call c r' e e') =
      one_machine_call c (Interleaves-trans r r') e e'
