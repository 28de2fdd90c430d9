-- ===== src/Usb/Skipped.antt =====
-- What usb_device_detect does with a device whose handle follows handles that fail.
use usb_uefi_firmware.Common.{
  ℕ, zero, suc, ◌+◌, ◌≤◌, ◌<◌, ◌≡◌, refl, ap, true, false, ◌∷◌, arith, ltb, ◌==◌, if◌then◌else◌,
  is_null,
}
use usb_uefi_firmware.Config.{max_usb_devices, usb_control_timeout}
use usb_uefi_firmware.Platform.Event.{usb_io_guid, located, control_transfer, History}
use usb_uefi_firmware.Platform.Proc.{next, returned}
use usb_uefi_firmware.Platform.Services.{Platform}
use usb_uefi_firmware.Platform.Status.{
  success, invalid_parameter, not_ready, efi_error, status_laws,
}
use usb_uefi_firmware.Usb.Device.{get_status_request, usb_process_device}
use usb_uefi_firmware.Usb.Driver.{detect_loop, usb_device_detect, usb_device_communicate}
use usb_uefi_firmware.Usb.Enumeration.{found_device}
use usb_uefi_firmware.Usb.Slots.{
  Works, Fails, usb_process_device-Works, usb_process_device-Fails, Holds,
}
use usb_uefi_firmware.Usb.State.{UsbDevice, Usb, store}

module _ (p : Platform) where
  -- What a loop leaves behind whose first handles fail and whose last one, at `last`, works.
  record Skips (last handle : ℕ) (s t : Usb) : Type 0 where
    counted : t.device_count ≡ s.device_count + 1
    kept : (j : ℕ) → (j == last) ≡ false → t.devices j ≡ s.devices j
    stored : last < max_usb_devices → Holds p t last handle × (t.overruns ≡ s.overruns)
    overrun : max_usb_devices ≤ last → (t.devices ≡ s.devices) × (t.overruns ≡ last ∷ s.overruns)
    running : t.initialized ≡ s.initialized

  detect_loop_one :
      (handles : ℕ → ℕ) (last : ℕ) (s : Usb) (h : History)
      → Works p (handles last)
      → s.device_count < max_usb_devices
      → let (result, t, g) = detect_loop p handles 1 last s h in
        (result ≡ next tt)
        × (t ≡ record (store last (found_device p (handles last) h) s) {
          device_count = s.device_count + 1;
        })
  unfolding detect_loop
  detect_loop_one handles last s h works room =
      ground (status_laws, usb_process_device-Works p (handles last) last s h works)

  store-Skips :
      (last : ℕ) (device : UsbDevice) (s : Usb)
      → device.is_connected ≡ true
      → is_null device.usb_io ≡ false
      → Skips last device.handle s
          (record (store last device s) { device_count = s.device_count + 1 })
  store-Skips last device s connected given = record {
    counted = ground arith;
    kept = λ j other. ground arith;
    stored = λ inside. ground arith;
    overrun = λ outside. ground arith;
    running = ground arith;
  }

  detect_loop-Skips_one :
      (handles : ℕ → ℕ) (last : ℕ) (s : Usb) (h : History)
      → Works p (handles last)
      → s.device_count < max_usb_devices
      → let (result, t, g) = detect_loop p handles 1 last s h in
        (result ≡ next tt) × Skips last (handles last) s t
  detect_loop-Skips_one handles last s h works room =
      let (done, stored) = detect_loop_one handles last s h works room in
      (done, rw stored (store-Skips last (found_device p (handles last) h) s refl (works.exists h)))

  detect_loop-Skips :
      (handles : ℕ → ℕ) (k index last : ℕ) (s : Usb) (h : History)
      → index + k ≡ last
      → ((i : ℕ) → index ≤ i → i < last → Fails p (handles i))
      → Works p (handles last)
      → s.device_count < max_usb_devices
      → let (result, t, g) = detect_loop p handles (suc k) index s h in
        (result ≡ next tt) × Skips last (handles last) s t
  unfolding detect_loop
  detect_loop-Skips handles zero index last s h e fails works room =
      let e' : index ≡ last = omega arith in
      rw e' (detect_loop-Skips_one handles last s h works room)
  detect_loop-Skips handles (suc k) index last s h e fails works room =
      let (result, t, g) = usb_process_device p (handles index) index s h in
      ground (
        arith,
        usb_process_device-Fails p (handles index) index s h
            (fails index (omega arith) (omega arith)),
        detect_loop-Skips handles k (index + 1) last t g (omega arith)
            (λ i a b. fails i (omega arith) b) works,
      )

  -- The array of handles that a detection finds, all of which fail but the last one, `last`.
  abbrev pub OnlyLast : ℕ → Usb → History → Type 0
  OnlyLast last s h =
      let found = p.locate_handle_buffer h usb_io_guid in
      (efi_error found.status ≡ false)
      × (found.count ≡ suc last)
      × ((i : ℕ) → i < last → Fails p (found.handles i))
      × Works p (found.handles last)

  usb_device_detect-Skips :
      (last : ℕ) (s : Usb) (h : History)
      → s.initialized ≡ true
      → OnlyLast last s h
      → let (result, t, g) = usb_device_detect p s h in
        (result ≡ returned success)
        × Skips last
            ((p.locate_handle_buffer h usb_io_guid).handles last)
            (record s { device_count = 0 })
            t
  unfolding usb_device_detect
  usb_device_detect-Skips last s h running (answered, count, fails, works) =
      let found = p.locate_handle_buffer h usb_io_guid in
      let after = located usb_io_guid found.status found.buffer ∷ h in
      let t = record s { device_count = 0 } in
      let looped =
        detect_loop-Skips found.handles last 0 last t after (omega arith) (λ i _ b. fails i b) works
          (omega arith) in
      ground (arith, looped, ap (λ (n : ℕ). detect_loop p found.handles n 0 t after) count)

  -- Where on a running driver with an empty slot 0 all handles fail but the last, which is neither
  -- the first nor past the table, its device is stored in the slot of its handle and counted as
  -- one, so that no request reaches it: index 0 is not ready, and any other index is refused.
  pub skipped_device_unreachable :
      (last i n : ℕ) (s : Usb) (h : History)
      → s.initialized ≡ true
      → 0 < last
      → last < max_usb_devices
      → OnlyLast last s h
      → (s.devices 0).is_connected ≡ false
      → let (result, t, g) = usb_device_detect p s h in
        (t.device_count ≡ 1)
        × Holds p t last ((p.locate_handle_buffer h usb_io_guid).handles last)
        × (usb_device_communicate p i n t g
            ≡ (returned (if i == 0 then not_ready else invalid_parameter), t, g))
  unfolding usb_device_communicate
  skipped_device_unreachable last i n s h running pos inside only vacant =
      let (done, skips) = usb_device_detect-Skips last s h running only in
      ground (arith, skips.counted, skips.running, skips.stored inside, skips.kept 0)

  -- Where on a running driver the handles of all slots fail and the one after them works, its
  -- device is stored past the end of the device table.
  pub usb_device_detect_overruns :
      (s : Usb) (h : History)
      → s.initialized ≡ true
      → OnlyLast max_usb_devices s h
      → (usb_device_detect p s h).1.overruns ≡ max_usb_devices ∷ s.overruns
  usb_device_detect_overruns s h running only =
      let (done, skips) = usb_device_detect-Skips max_usb_devices s h running only in
      (skips.overrun (omega arith)).1

  -- Where on a running driver slot 0 holds a device of an earlier detection, and now all handles fail
  -- but the last, which is neither the first nor past the table, one device is counted, and a
  -- request to index 0 goes to the interface of the earlier one.
  pub stale_device_addressed :
      (last n : ℕ) (s : Usb) (h : History)
      → s.initialized ≡ true
      → 0 < last
      → last < max_usb_devices
      → OnlyLast last s h
      → (s.devices 0).is_connected ≡ true
      → is_null (s.devices 0).usb_io ≡ false
      → let (result, t, g) = usb_device_detect p s h in
        (t.device_count ≡ 1)
        × (t.devices 0 ≡ s.devices 0)
        × ((usb_device_communicate p 0 n t g).2
            ≡ control_transfer
                (s.devices 0).usb_io
                get_status_request
                usb_control_timeout
                (if ltb n 2 then n else 2)
              ∷ g)
  unfolding usb_device_communicate
  stale_device_addressed last n s h running pos inside only connected given =
      let (done, skips) = usb_device_detect-Skips last s h running only in
      ground (arith, skips.counted, skips.running, skips.kept 0)
