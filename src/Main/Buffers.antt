-- ===== src/Main/Buffers.antt =====
-- The pool buffers of the whole application of main.c.
use usb_uefi_firmware.Common.{ℕ, ◌≡◌, false, ◌∷◌, arith, is_null}
use usb_uefi_firmware.Loader.Info.{open_file_system, firmware_loader_init, firmware_loader_cleanup}
use usb_uefi_firmware.Loader.State.{Loader}
use usb_uefi_firmware.Main.Application.{initialize_subsystems, cleanup_and_exit, uefi_main}
use usb_uefi_firmware.Main.Commands.{App, reset_usb}
use usb_uefi_firmware.Main.Within.{
  OwnCall, timer_created, timer_closed, timer_armed, waited_once, key_taken, own_event, Parts,
  uefi_main-Within,
}
use usb_uefi_firmware.Platform.Balance.{SameBuffers}
use usb_uefi_firmware.Platform.Event.{History}
use usb_uefi_firmware.Platform.Services.{Platform}
use usb_uefi_firmware.Uefi.Buffers.{
  uefi_interface_init-SameBuffers, uefi_interface_cleanup-SameBuffers,
}
use usb_uefi_firmware.Uefi.Interface.{uefi_interface_init}
use usb_uefi_firmware.Uefi.Startup.{SizesDescriptors}
use usb_uefi_firmware.Usb.Buffers.{
  FindsHandles, usb_device_detect-SameBuffers, usb_driver_init-SameBuffers,
  usb_driver_cleanup-SameBuffers,
}
use usb_uefi_firmware.Usb.Driver.{usb_driver_init, usb_device_detect, usb_driver_cleanup}

pub own_event-SameBuffers : (q : ℕ) (c : OwnCall) (h : History) → SameBuffers q h (own_event c ∷ h)
own_event-SameBuffers q (timer_created timer) h = omega arith
own_event-SameBuffers q (timer_closed timer) h = omega arith
own_event-SameBuffers q (timer_armed timer period) h = omega arith
own_event-SameBuffers q waited_once h = omega arith
own_event-SameBuffers q key_taken h = omega arith

module _ (p : Platform) (stack q : ℕ) (sizes : SizesDescriptors p) (finds : FindsHandles p)
    (real : is_null q ≡ false) where
  firmware_loader_init-SameBuffers :
      (s : Loader) (h : History) → SameBuffers q h (firmware_loader_init p s h).2
  unfolding firmware_loader_init open_file_system
  firmware_loader_init-SameBuffers s h = ground arith

  firmware_loader_cleanup-SameBuffers :
      (s : Loader) (h : History) → SameBuffers q h (firmware_loader_cleanup p s h).2
  unfolding firmware_loader_cleanup
  firmware_loader_cleanup-SameBuffers s h = ground arith

  initialize_subsystems-SameBuffers :
      (a : App) (h : History) → SameBuffers q h (initialize_subsystems p stack a h).2
  unfolding initialize_subsystems
  initialize_subsystems-SameBuffers a h =
      let first = uefi_interface_init p stack a.uefi h in
      let second = usb_driver_init p a.usb first.2 in
      let detected = usb_device_detect p second.1 second.2 in
      ground (
        arith,
        uefi_interface_init-SameBuffers p q stack a.uefi h sizes real,
        usb_driver_init-SameBuffers p q a.usb first.2 finds real,
        usb_device_detect-SameBuffers p q second.1 second.2 real,
        firmware_loader_init-SameBuffers a.loader detected.2,
      )

  reset_usb-SameBuffers : (a : App) (h : History) → SameBuffers q h (reset_usb p a h).2
  unfolding reset_usb
  reset_usb-SameBuffers a h =
      let first = usb_driver_cleanup p a.usb h in
      let second = usb_driver_init p first.1 first.2 in
      ground (
        arith,
        usb_driver_cleanup-SameBuffers p q a.usb h,
        usb_driver_init-SameBuffers p q first.1 first.2 finds real,
        usb_device_detect-SameBuffers p q second.1 second.2 real,
      )

  cleanup_and_exit-SameBuffers :
      (a : App) (h : History) → SameBuffers q h (cleanup_and_exit p stack a h).2
  unfolding cleanup_and_exit
  cleanup_and_exit-SameBuffers a h =
      let first = firmware_loader_cleanup p a.loader h in
      let second = usb_driver_cleanup p a.usb first.2 in
      ground (
        arith,
        firmware_loader_cleanup-SameBuffers a.loader h,
        usb_driver_cleanup-SameBuffers p q a.usb first.2,
        uefi_interface_cleanup-SameBuffers p q a.uefi second.2,
      )

  SameBuffers-Parts : Parts p stack (λ a h b g. SameBuffers q h g)
  SameBuffers-Parts = record {
    chains = record { same = λ a h. omega arith; joined = λ first after. omega arith };
    start = record { within = initialize_subsystems-SameBuffers };
    restart = record { within = reset_usb-SameBuffers };
    stop = record { within = cleanup_and_exit-SameBuffers };
    own = λ c a h. own_event-SameBuffers q c h;
  }

  -- From the start of UefiMain to its end, and up to any event of its loop, every pool buffer but
  -- NULL is freed as often as it is allocated, whichever service fails and whatever keys are read;
  -- where GetMemoryMap reports descriptors of some size and LocateHandleBuffer succeeds only with a
  -- handle.
  pub uefi_main-SameBuffers :
      (fuel : ℕ) (a : App) (h : History) → SameBuffers q h (uefi_main p stack fuel a h).2
  uefi_main-SameBuffers fuel = (uefi_main-Within p stack SameBuffers-Parts fuel).within
