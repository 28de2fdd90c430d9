-- ===== src/Flash/Buffers.antt =====
-- The pool buffers of flash_manager.c: the array of handles that flash_manager_init finds.
use usb_uefi_firmware.Common.{ℕ, [], arith}
use usb_uefi_firmware.Flash.Access.{flash_read, flash_write, flash_erase_sector}
use usb_uefi_firmware.Flash.Lifecycle.{open_fvb_lem, detect_flash_device_lem}
use usb_uefi_firmware.Flash.Manager.{
  open_fvb, read_attributes, read_geometry, detect_flash_device, initialize_flash_regions,
  flash_manager_init, flash_manager_cleanup,
}
use usb_uefi_firmware.Flash.Session.{
  FlashCall, start_manager, stop_manager, read_range, write_range, erase_at, run_call,
}
use usb_uefi_firmware.Flash.State.{Flash, zero_info}
use usb_uefi_firmware.Platform.Balance.{SameBuffers}
use usb_uefi_firmware.Platform.Event.{History}
use usb_uefi_firmware.Platform.Services.{Platform}
use usb_uefi_firmware.Platform.Status.{status_laws}

module _ (p : Platform) (q : ℕ) where
  open_fvb-SameBuffers : (s : Flash) (h : History) → SameBuffers q h (open_fvb p s h).2
  unfolding open_fvb
  open_fvb-SameBuffers s h = ground arith

  detect_flash_device-SameBuffers :
      (s : Flash) (h : History) → SameBuffers q h (detect_flash_device p s h).2
  unfolding detect_flash_device read_attributes read_geometry
  detect_flash_device-SameBuffers s h = ground arith

  flash_manager_init-SameBuffers :
      (s : Flash) (h : History) → SameBuffers q h (flash_manager_init p s h).2
  unfolding flash_manager_init initialize_flash_regions
  flash_manager_init-SameBuffers s h =
      let t = record s { info = zero_info; regions = [] } in
      let found = open_fvb p t h in
      ground (
        status_laws,
        open_fvb_lem p t h,
        open_fvb-SameBuffers t h,
        detect_flash_device_lem p found.1 found.2,
        detect_flash_device-SameBuffers found.1 found.2,
      )

  flash_manager_cleanup-SameBuffers :
      (s : Flash) (h : History) → SameBuffers q h (flash_manager_cleanup p s h).2
  unfolding flash_manager_cleanup
  flash_manager_cleanup-SameBuffers s h = ground arith

  access-SameBuffers :
      (address buffer size : ℕ) (s : Flash) (h : History)
      → SameBuffers q h (flash_read p address buffer size s h).2
        × SameBuffers q h (flash_write p address buffer size s h).2
        × SameBuffers q h (flash_erase_sector p address s h).2
  unfolding flash_read flash_write flash_erase_sector
  access-SameBuffers address buffer size s h = ground arith

  pub run_call-SameBuffers :
      (c : FlashCall) (s : Flash) (h : History) → SameBuffers q h (run_call p c s h).2
  run_call-SameBuffers start_manager s h = flash_manager_init-SameBuffers s h
  run_call-SameBuffers stop_manager s h = flash_manager_cleanup-SameBuffers s h
  run_call-SameBuffers (read_range a b n) s h = (access-SameBuffers a b n s h).0
  run_call-SameBuffers (write_range a b n) s h = (access-SameBuffers a b n s h).1
  run_call-SameBuffers (erase_at a) s h = (access-SameBuffers a 0 0 s h).2
