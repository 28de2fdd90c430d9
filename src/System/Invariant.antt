-- ===== src/System/Invariant.antt =====
-- What holds of all components together, whatever the order of their calls.
use usb_uefi_firmware.Common.{ℕ, ◌+◌, ◌<◌, ◌≡◌, refl, inl, true, false, [], arith, is_null}
use usb_uefi_firmware.Flash.Buffers.{run_call-SameBuffers}
use usb_uefi_firmware.Flash.Faults.{ReportsBlocks, run_call-sectors}
use usb_uefi_firmware.Flash.Lifecycle.{IsCoherent}
use usb_uefi_firmware.Flash.Session.{run_call-IsCoherent, initial_flash-IsCoherent}
use usb_uefi_firmware.Loader.Lifecycle.{IsConsistent}
use usb_uefi_firmware.Loader.Session.{
  held_times, run_loader_call-buffers, run_loader_call-IsConsistent,
}
use usb_uefi_firmware.Main.Buffers.{own_event-SameBuffers}
use usb_uefi_firmware.Platform.Balance.{allocations, frees}
use usb_uefi_firmware.Platform.Event.{History}
use usb_uefi_firmware.Platform.Services.{Platform}
use usb_uefi_firmware.System.Steps.{
  Machine, initial_machine, MachineCall, on_uefi, on_usb, on_loader, on_flash, on_console,
  run_machine_call, Interleaves, no_machine_call, one_machine_call,
}
use usb_uefi_firmware.Uefi.Figures.{initial_uefi-Described}
use usb_uefi_firmware.Uefi.Informed.{IsInformed, IsIdle-IsInformed}
use usb_uefi_firmware.Uefi.Session.{run_uefi_call-IsInformed, run_uefi_call-SameBuffers}
use usb_uefi_firmware.Uefi.Startup.{SizesDescriptors}
use usb_uefi_firmware.Uefi.State.{initial_uefi}
use usb_uefi_firmware.Usb.Buffers.{FindsHandles, run_usb_call-SameBuffers}
use usb_uefi_firmware.Usb.Session.{IsSound, run_usb_call-IsSound}
use usb_uefi_firmware.Usb.Table.{StaysInside, run_usb_call-StaysInside}

module _ (p : Platform) where
  -- What the platform promises: GetMemoryMap reports descriptors of some size, LocateHandleBuffer
  -- succeeds only with a handle, and a device that answers GetBlockSize reports a size other than 0
  -- and below 2^32.
  pub record KeepsPromises : Type 0 where
    pub sizes : SizesDescriptors p
    pub finds : FindsHandles p
    pub blocks : ReportsBlocks p

  -- The invariants of the components, and over all of them that a pool buffer `q` that is allocated
  -- and not freed is one that the client of the loader holds.
  pub record IsWhole (q : ℕ) (s : Machine) (h : History) : Type 0 where
    pub uefi : IsInformed p s.uefi
    pub usb : IsSound s.usb
    pub inside : StaysInside p s.usb
    pub loader : IsConsistent s.client.loader
    pub flash : IsCoherent p s.flash
    pub sectors : s.flash.initialized ≡ true → 0 < s.flash.info.sector_size
    pub buffers : allocations q h ≡ frees q h + held_times q s.client.held

  run_machine_call-IsWhole :
      (q : ℕ) (c : MachineCall) (s : Machine) (h : History)
      → KeepsPromises
      → is_null q ≡ false
      → IsWhole q s h
      → IsWhole q (run_machine_call p c s h).0 (run_machine_call p c s h).1
  run_machine_call-IsWhole q (on_uefi c) s h kept real v = record {
    uefi = run_uefi_call-IsInformed p c s.uefi h v.uefi;
    usb = v.usb;
    inside = v.inside;
    loader = v.loader;
    flash = v.flash;
    sectors = v.sectors;
    buffers = omega (arith, v.buffers, run_uefi_call-SameBuffers p q c s.uefi h kept.sizes real);
  }
  run_machine_call-IsWhole q (on_usb c) s h kept real v = record {
    uefi = v.uefi;
    usb = run_usb_call-IsSound p c s.usb h v.usb;
    inside = run_usb_call-StaysInside p c s.usb h v.inside;
    loader = v.loader;
    flash = v.flash;
    sectors = v.sectors;
    buffers = omega (arith, v.buffers, run_usb_call-SameBuffers p q c s.usb h kept.finds real);
  }
  run_machine_call-IsWhole q (on_loader c) s h kept real v = record {
    uefi = v.uefi;
    usb = v.usb;
    inside = v.inside;
    loader = run_loader_call-IsConsistent p c s.client h v.loader;
    flash = v.flash;
    sectors = v.sectors;
    buffers = run_loader_call-buffers p q c s.client h real v.buffers;
  }
  run_machine_call-IsWhole q (on_flash c) s h kept real v = record {
    uefi = v.uefi;
    usb = v.usb;
    inside = v.inside;
    loader = v.loader;
    flash = run_call-IsCoherent p c s.flash h v.flash;
    sectors = (run_call-sectors p c s.flash h kept.blocks v.sectors).1;
    buffers = omega (arith, v.buffers, run_call-SameBuffers p q c s.flash h);
  }
  run_machine_call-IsWhole q (on_console c) s h kept real v = record {
    uefi = v.uefi;
    usb = v.usb;
    inside = v.inside;
    loader = v.loader;
    flash = v.flash;
    sectors = v.sectors;
    buffers = omega (arith, v.buffers, own_event-SameBuffers q c h);
  }

  Interleaves-IsWhole :
      {q : ℕ} {s : Machine} {h : History} {t : Machine} {g : History}
      → KeepsPromises
      → is_null q ≡ false
      → IsWhole q s h
      → Interleaves p s h t g
      → IsWhole q t g
  Interleaves-IsWhole kept real v no_machine_call = v
  Interleaves-IsWhole {q} kept real v (one_machine_call {t} {u} {g} {f} c r e e') =
      rw (e, e') (run_machine_call-IsWhole q c t g kept real (Interleaves-IsWhole kept real v r))

  initial_machine-IsWhole : (q : ℕ) → IsWhole q initial_machine []
  initial_machine-IsWhole q = record {
    uefi = IsIdle-IsInformed p initial_uefi (initial_uefi-Described p, refl);
    usb = record { bounded = omega arith; stopped = λ _. refl };
    inside = inl refl;
    loader = record { idle = λ _. refl; handled = λ e. e };
    flash = initial_flash-IsCoherent p;
    sectors = λ started. cc;
    buffers = refl;
  }

  -- After any calls of the four subsystems and of main.c in any order, from the start of the machine,
  -- where GetMemoryMap reports descriptors of some size, LocateHandleBuffer succeeds only with a handle
  -- and a device that answers GetBlockSize reports a size other than 0 and below 2^32
  -- (`KeepsPromises`): the system information is that of a map and a processor, the USB driver counts
  -- no more devices than it has slots and has stored none past them unless more were reported than
  -- there are slots, the loader's file system goes with its handle, the flash manager has the regions
  -- and a sector size of its device; and every pool buffer but NULL that is allocated and not freed is
  -- one that the client of the loader holds.
  pub reached-IsWhole :
      {q : ℕ} {s : Machine} {h : History}
      → KeepsPromises
      → is_null q ≡ false
      → Interleaves p initial_machine [] s h
      → IsWhole q s h
  reached-IsWhole {q} kept real r = Interleaves-IsWhole kept real (initial_machine-IsWhole q) r
