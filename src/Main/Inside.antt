-- ===== src/Main/Inside.antt =====
-- The device table of the USB driver over the whole application of main.c.
use usb_uefi_firmware.Common.{ℕ}
use usb_uefi_firmware.Loader.Info.{firmware_loader_init, firmware_loader_cleanup}
use usb_uefi_firmware.Loader.State.{Loader}
use usb_uefi_firmware.Main.Application.{initialize_subsystems, cleanup_and_exit, uefi_main}
use usb_uefi_firmware.Main.Commands.{App, in_uefi, in_usb, in_loader, reset_usb}
use usb_uefi_firmware.Main.Within.{uefi_main-Within}
use usb_uefi_firmware.Platform.Event.{History}
use usb_uefi_firmware.Platform.Proc.{Call}
use usb_uefi_firmware.Platform.Services.{Platform}
use usb_uefi_firmware.Platform.Status.{success}
use usb_uefi_firmware.Platform.Within.{
  Chains, Within, pure-Within, bind-Within, check_status-Within, function-Within,
}
use usb_uefi_firmware.Uefi.Interface.{uefi_interface_init, uefi_interface_cleanup}
use usb_uefi_firmware.Uefi.State.{Uefi}
use usb_uefi_firmware.Usb.Session.{UsbCall, start_driver, stop_driver, detect_devices, run_usb_call}
use usb_uefi_firmware.Usb.Table.{StaysInside, run_usb_call-StaysInside}

module _ (p : Platform) (stack : ℕ) where
  -- What main.c keeps.
  abbrev KeepsInside : App → History → App → History → Type 0
  KeepsInside a h b g = StaysInside p a.usb → StaysInside p b.usb

  KeepsInside-Chains : Chains KeepsInside
  KeepsInside-Chains = record { same = λ a h v. v; joined = λ first after v. after (first v) }

  in_usb-KeepsInside : (c : UsbCall) → Within KeepsInside (in_usb (run_usb_call p c))
  in_usb-KeepsInside c = record { within = λ a h v. run_usb_call-StaysInside p c a.usb h v }

  in_uefi-KeepsInside : (f : Call Uefi) → Within KeepsInside (in_uefi f)
  in_uefi-KeepsInside f = record { within = λ a h v. v }

  in_loader-KeepsInside : (f : Call Loader) → Within KeepsInside (in_loader f)
  in_loader-KeepsInside f = record { within = λ a h v. v }

  initialize_subsystems-KeepsInside : Within KeepsInside (initialize_subsystems p stack)
  unfolding initialize_subsystems
  initialize_subsystems-KeepsInside =
      let chains = KeepsInside-Chains in
      function-Within _ (
        bind-Within chains _ _ (in_uefi-KeepsInside (uefi_interface_init p stack)) (λ uefi.
          bind-Within chains _ _ (check_status-Within chains uefi) (λ _.
            bind-Within chains _ _ (in_usb-KeepsInside start_driver) (λ usb.
              bind-Within chains _ _ (check_status-Within chains usb) (λ _.
                bind-Within chains _ _ (in_usb-KeepsInside detect_devices) (λ _.
                  bind-Within chains _ _ (in_loader-KeepsInside (firmware_loader_init p)) (λ loader.
                    bind-Within chains _ _ (check_status-Within chains loader)
                      (λ _. pure-Within chains success))))))))

  reset_usb-KeepsInside : Within KeepsInside (reset_usb p)
  unfolding reset_usb
  reset_usb-KeepsInside =
      let chains = KeepsInside-Chains in
      bind-Within chains _ _ (in_usb-KeepsInside stop_driver) (λ _.
        bind-Within chains _ _ (in_usb-KeepsInside start_driver) (λ _.
          bind-Within chains _ _ (in_usb-KeepsInside detect_devices) (λ _. pure-Within chains tt)))

  cleanup_and_exit-KeepsInside : Within KeepsInside (cleanup_and_exit p stack)
  unfolding cleanup_and_exit
  cleanup_and_exit-KeepsInside =
      let chains = KeepsInside-Chains in
      bind-Within chains _ _ (in_loader-KeepsInside (firmware_loader_cleanup p)) (λ _.
        bind-Within chains _ _ (in_usb-KeepsInside stop_driver) (λ _.
          bind-Within chains _ _ (in_uefi-KeepsInside (uefi_interface_cleanup p))
            (λ _. pure-Within chains tt)))

  pub uefi_main-KeepsInside : (fuel : ℕ) → Within KeepsInside (uefi_main p stack fuel)
  uefi_main-KeepsInside fuel =
      uefi_main-Within p stack
        (record {
          chains = KeepsInside-Chains;
          start = initialize_subsystems-KeepsInside;
          restart = reset_usb-KeepsInside;
          stop = cleanup_and_exit-KeepsInside;
          own = λ c a h v. v;
        })
        fuel
