-- ===== src/Main/Closing.antt =====
-- The USB protocols that the whole application of main.c opens and closes.
use usb_uefi_firmware.Common.{ℕ, ◌≡◌, refl, sym, ◌∙◌, ◌⊎◌, inl, inr, false, some, [], ◌∷◌, arith}
use usb_uefi_firmware.Loader.Info.{firmware_loader_init, firmware_loader_cleanup}
use usb_uefi_firmware.Main.Application.{initialize_subsystems, cleanup_and_exit, uefi_main}
use usb_uefi_firmware.Main.Commands.{App, initial_app, reset_usb}
use usb_uefi_firmware.Main.Others.{
  uefi_interface_init-SameUsb, uefi_interface_cleanup-SameUsb, firmware_loader_init-SameUsb,
  firmware_loader_cleanup-SameUsb, own_event-SameUsb,
}
use usb_uefi_firmware.Main.Shutdown.{uefi_main_stops}
use usb_uefi_firmware.Main.Within.{own_event, Parts, uefi_main-Within}
use usb_uefi_firmware.Platform.Event.{History}
use usb_uefi_firmware.Platform.Proc.{next}
use usb_uefi_firmware.Platform.Services.{Platform}
use usb_uefi_firmware.Platform.Status.{Status, status_laws}
use usb_uefi_firmware.Uefi.Interface.{uefi_interface_init, uefi_interface_cleanup}
use usb_uefi_firmware.Uefi.Startup.{SizesDescriptors}
use usb_uefi_firmware.Usb.Closing.{
  HoldsOpen, usb_driver_init_again, usb_driver_init-HoldsOpen, usb_driver_cleanup-HoldsOpen,
  usb_device_detect-HoldsOpen,
}
use usb_uefi_firmware.Usb.Driver.{usb_driver_init, usb_device_detect, usb_driver_cleanup}
use usb_uefi_firmware.Usb.Opened.{is_usb_io, is_usb2_hc, opens_of, closes_of, SameUsb, AllWork}
use usb_uefi_firmware.Usb.State.{Usb, initial_usb}

module _ (p : Platform) (x : ℕ) where
  HoldsOpen-SameUsb : (s : Usb) (h g : History) → HoldsOpen x s h → SameUsb x h g → HoldsOpen x s g
  HoldsOpen-SameUsb s h g v same = record {
    devices = ground (arith, v.devices, same);
    controller = ground (arith, v.controller, same);
    real = v.real;
    idle = v.idle;
  }

  -- Where InitializeSubsystems ends: before the USB driver, after its start, or after its detection
  -- and, on an idle driver, the start of the loader.
  initialize_subsystems_ends :
      (stack : ℕ) (a : App) (h : History)
      → let first = uefi_interface_init p stack a.uefi h in
        let second = usb_driver_init p a.usb first.2 in
        let detected = usb_device_detect p second.1 second.2 in
        let (r, b, g) = initialize_subsystems p stack a h in
        ((b.usb ≡ a.usb) × (g ≡ first.2))
        ⊎ ((b.usb ≡ second.1) × (g ≡ second.2))
        ⊎ ((a.usb.initialized ≡ false)
            × (b.usb ≡ detected.1)
            × ((g ≡ detected.2) ⊎ (g ≡ (firmware_loader_init p a.loader detected.2).2)))
  unfolding initialize_subsystems
  initialize_subsystems_ends stack a h =
      let first = uefi_interface_init p stack a.uefi h in
      ground (status_laws, usb_driver_init_again p a.usb first.2)

  reset_usb_ends :
      (a : App) (h : History)
      → let first = usb_driver_cleanup p a.usb h in
        let second = usb_driver_init p first.1 first.2 in
        let detected = usb_device_detect p second.1 second.2 in
        let (r, b, g) = reset_usb p a h in
        ((b.usb ≡ first.1) × (g ≡ first.2))
        ⊎ ((b.usb ≡ second.1) × (g ≡ second.2))
        ⊎ ((b.usb ≡ detected.1) × (g ≡ detected.2))
  unfolding reset_usb
  reset_usb_ends a h = ground arith

  cleanup_and_exit_ends :
      (stack : ℕ) (a : App) (h : History)
      → let first = firmware_loader_cleanup p a.loader h in
        let second = usb_driver_cleanup p a.usb first.2 in
        let (r, b, g) = cleanup_and_exit p stack a h in
        ((b.usb ≡ a.usb) × (g ≡ first.2))
        ⊎ ((b.usb ≡ second.1)
            × ((g ≡ second.2) ⊎ (g ≡ (uefi_interface_cleanup p a.uefi second.2).2)))
  unfolding cleanup_and_exit
  cleanup_and_exit_ends stack a h = ground arith

  module _ (work : AllWork p) (sizes : SizesDescriptors p) (stack : ℕ) where
    -- What main.c keeps.
    abbrev KeepsOpen : App → History → App → History → Type 0
    KeepsOpen a h b g = HoldsOpen x a.usb h → HoldsOpen x b.usb g

    -- A start followed by a detection, on a driver that counts no devices.
    detected-HoldsOpen :
        (s : Usb) (h : History)
        → s.device_count ≡ 0
        → HoldsOpen x s h
        → let (_, t, g) = usb_driver_init p s h in
          HoldsOpen x (usb_device_detect p t g).1 (usb_device_detect p t g).2
    detected-HoldsOpen s h none_left v =
        let (_, t, g) = usb_driver_init p s h in
        let (v', same) = usb_driver_init-HoldsOpen p x s h work v in
        usb_device_detect-HoldsOpen p x t g work (sym same ∙ none_left) v'

    reset_usb-KeepsOpen :
        (a : App) (h : History) → KeepsOpen a h (reset_usb p a h).1 (reset_usb p a h).2
    reset_usb-KeepsOpen a h v =
        let (_, t, g) = usb_driver_cleanup p a.usb h in
        let (v', none_left) = usb_driver_cleanup-HoldsOpen p x a.usb h v in
        elim (reset_usb_ends a h) [
          | inl (e, e') ↦ rw (e, e') v'
          | inr (inl (e, e')) ↦ rw (e, e') (usb_driver_init-HoldsOpen p x t g work v').0
          | inr (inr (e, e')) ↦ rw (e, e') (detected-HoldsOpen t g none_left v')
        ]

    initialize_subsystems-KeepsOpen :
        (a : App) (h : History)
        → KeepsOpen a h (initialize_subsystems p stack a h).1 (initialize_subsystems p stack a h).2
    initialize_subsystems-KeepsOpen a h v =
        let g = (uefi_interface_init p stack a.uefi h).2 in
        let v' =
          HoldsOpen-SameUsb a.usb h g v (uefi_interface_init-SameUsb p x stack a.uefi h sizes) in
        let second = usb_driver_init p a.usb g in
        let last = usb_device_detect p second.1 second.2 in
        elim (initialize_subsystems_ends stack a h) [
          | inl (e, e') ↦ rw (e, e') v'
          | inr (inl (e, e')) ↦ rw (e, e') (usb_driver_init-HoldsOpen p x a.usb g work v').0
          | inr (inr (idle, e, inl e')) ↦ rw (e, e') (detected-HoldsOpen a.usb g (v.idle idle) v')
          | inr (inr (idle, e, inr e')) ↦
              rw (e, e')
                (HoldsOpen-SameUsb last.1 last.2 (firmware_loader_init p a.loader last.2).2
                  (detected-HoldsOpen a.usb g (v.idle idle) v')
                  (firmware_loader_init-SameUsb p x a.loader last.2))
        ]

    cleanup_and_exit-KeepsOpen :
        (a : App) (h : History)
        → KeepsOpen a h (cleanup_and_exit p stack a h).1 (cleanup_and_exit p stack a h).2
    cleanup_and_exit-KeepsOpen a h v =
        let g = (firmware_loader_cleanup p a.loader h).2 in
        let v' = HoldsOpen-SameUsb a.usb h g v (firmware_loader_cleanup-SameUsb p x a.loader h) in
        let (_, t, f) = usb_driver_cleanup p a.usb g in
        let v'' = (usb_driver_cleanup-HoldsOpen p x a.usb g v').0 in
        elim (cleanup_and_exit_ends stack a h) [
          | inl (e, e') ↦ rw (e, e') v'
          | inr (e, inl e') ↦ rw (e, e') v''
          | inr (e, inr e') ↦
              rw (e, e')
                (HoldsOpen-SameUsb t f (uefi_interface_cleanup p a.uefi f).2 v''
                  (uefi_interface_cleanup-SameUsb p x a.uefi f))
        ]

    KeepsOpen-Parts : Parts p stack KeepsOpen
    KeepsOpen-Parts = record {
      chains = record { same = λ a h v. v; joined = λ first after v. after (first v) };
      start = record { within = initialize_subsystems-KeepsOpen };
      restart = record { within = reset_usb-KeepsOpen };
      stop = record { within = cleanup_and_exit-KeepsOpen };
      own = λ c a h v. HoldsOpen-SameUsb a.usb h (own_event c ∷ h) v (own_event-SameUsb p x c h);
    }

  -- Where every USB handle works and there are no more of them than slots, a host controller that opens
  -- has a handle and an interface (`AllWork`), and GetMemoryMap reports descriptors of some size: once
  -- UefiMain returns a status, whatever keys were read and however often the driver was reset, it has
  -- closed the USB I/O protocol and the host controller's on every handle as often as it has opened
  -- them.
  pub uefi_main_closes :
      (stack fuel : ℕ) (status : Status)
      → AllWork p
      → SizesDescriptors p
      → (uefi_main p stack fuel initial_app []).0 ≡ next (some status)
      → let (_, _, g) = uefi_main p stack fuel initial_app [] in
        (opens_of is_usb_io x g ≡ closes_of is_usb_io x g)
        × (opens_of is_usb2_hc x g ≡ closes_of is_usb2_hc x g)
  uefi_main_closes stack fuel status work sizes ended =
      let (_, off, _) = uefi_main_stops p stack fuel status initial_app [] ended in
      let unopened : HoldsOpen x initial_usb [] = record {
        devices = refl;
        controller = refl;
        real = λ e. cc;
        idle = λ _. refl;
      } in
      let v =
        (uefi_main-Within p stack (KeepsOpen-Parts work sizes stack) fuel).within initial_app []
          unopened in
      (ground (arith, v.devices, v.idle off), ground (arith, v.controller, off))
