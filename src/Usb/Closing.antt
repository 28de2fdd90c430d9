-- ===== src/Usb/Closing.antt =====
-- What the USB driver has open between two calls: the interfaces of the counted devices, and the host
-- controller of a running driver.
use usb_uefi_firmware.Common.{
  ℕ, ◌+◌, ◌≡◌, refl, sym, ◌∙◌, ◌⊎◌, inl, inr, true, false, ◌&&◌, ◌∷◌, arith, ◌==◌, if◌then◌else◌,
  is_null, Bool-cases,
}
use usb_uefi_firmware.Platform.Event.{usb2_hc_guid, usb_io_guid, located, History}
use usb_uefi_firmware.Platform.Proc.{returned}
use usb_uefi_firmware.Platform.Services.{Platform}
use usb_uefi_firmware.Platform.Status.{already_started}
use usb_uefi_firmware.Usb.Driver.{
  open_controller, usb_driver_init, usb_device_detect, usb_driver_cleanup,
}
use usb_uefi_firmware.Usb.Enumeration.{detect_loop-Bounds}
use usb_uefi_firmware.Usb.Opened.{
  is_usb_io, is_usb2_hc, opens_of, closes_of, SameOpened, held_on, close_loop-held_on, AllWork,
  detect_loop-opens,
}
use usb_uefi_firmware.Usb.Requests.{close_loop_lem}
use usb_uefi_firmware.Usb.State.{Usb}

-- On handle `x` the history has opened both protocols as often as closed, and once more for each
-- interface that the driver holds.
pub record HoldsOpen (x : ℕ) (s : Usb) (h : History) : Type 0 where
  pub devices :
      opens_of is_usb_io x h ≡ closes_of is_usb_io x h + held_on x s.devices s.device_count
  pub controller :
      opens_of is_usb2_hc x h
      ≡ closes_of is_usb2_hc x h + (if s.initialized && s.hc_handle == x then 1 else 0)
  pub real : s.initialized ≡ true → (is_null s.hc_protocol ≡ false) × (is_null s.hc_handle ≡ false)
  pub idle : s.initialized ≡ false → s.device_count ≡ 0

module _ (p : Platform) where
  open_controller_counts :
      (x handle buffer : ℕ) (s : Usb) (h : History)
      → let (r, t, g) = open_controller p handle buffer s h in
        SameOpened is_usb_io x h g × (t.devices ≡ s.devices) × (t.device_count ≡ s.device_count)
  unfolding open_controller
  open_controller_counts x handle buffer s h = ground arith

  open_controller_opens :
      (x handle buffer : ℕ) (s : Usb) (h : History)
      → s.initialized ≡ false
      → let (r, t, g) = open_controller p handle buffer s h in
        (opens_of is_usb2_hc x g
          ≡ (if t.initialized && t.hc_handle == x then 1 else 0) + opens_of is_usb2_hc x h)
        × (closes_of is_usb2_hc x g ≡ closes_of is_usb2_hc x h)
  unfolding open_controller
  open_controller_opens x handle buffer s h idle = ground arith

  open_controller_real :
      (handle buffer : ℕ) (s : Usb) (h : History)
      → AllWork p
      → s.initialized ≡ false
      → is_null handle ≡ false
      → let (r, t, g) = open_controller p handle buffer s h in
        t.initialized ≡ true → (is_null t.hc_protocol ≡ false) × (is_null t.hc_handle ≡ false)
  unfolding open_controller
  open_controller_real handle buffer s h work idle nonnull started =
      ground (arith, work.interface h handle)

  pub usb_driver_init_again :
      (s : Usb) (h : History)
      → s.initialized ≡ true
      → usb_driver_init p s h ≡ (returned already_started, s, h)
  unfolding usb_driver_init
  usb_driver_init_again s h running = ground arith

  -- An idle driver either looks for a controller in vain, or opens the first that it finds.
  usb_driver_init_idle :
      (s : Usb) (h : History)
      → s.initialized ≡ false
      → let found = p.locate_handle_buffer h usb2_hc_guid in
        let after = located usb2_hc_guid found.status found.buffer ∷ h in
        let first = open_controller p (found.handles 0) found.buffer s after in
        let (r, t, g) = usb_driver_init p s h in
        ((t ≡ s) × (g ≡ after)) ⊎ ((t ≡ first.1) × (g ≡ first.2))
  unfolding usb_driver_init
  usb_driver_init_idle s h idle = ground arith

  open_controller-HoldsOpen :
      (x handle buffer : ℕ) (s : Usb) (h : History)
      → AllWork p
      → s.initialized ≡ false
      → is_null handle ≡ false
      → HoldsOpen x s h
      → let (r, t, g) = open_controller p handle buffer s h in
        HoldsOpen x t g × (s.device_count ≡ t.device_count)
  open_controller-HoldsOpen x handle buffer s h work idle nonnull v =
      let (same, table, count) = open_controller_counts x handle buffer s h in
      let none_left = v.idle idle in
      (
        record {
          devices = ground (arith, v.devices, none_left, same, count);
          controller = ground (arith, v.controller, open_controller_opens x handle buffer s h idle);
          real = open_controller_real handle buffer s h work idle nonnull;
          idle = λ e. count ∙ none_left;
        },
        sym count,
      )

  pub usb_driver_init-HoldsOpen :
      (x : ℕ) (s : Usb) (h : History)
      → AllWork p
      → HoldsOpen x s h
      → let (r, t, g) = usb_driver_init p s h in HoldsOpen x t g × (s.device_count ≡ t.device_count)
  usb_driver_init-HoldsOpen x s h work v = elim (Bool-cases s.initialized) [
    | inl running ↦ rw (usb_driver_init_again s h running) (v, refl)
    | inr idle ↦
        let found = p.locate_handle_buffer h usb2_hc_guid in
        let after = located usb2_hc_guid found.status found.buffer ∷ h in
        let v' : HoldsOpen x s after = record {
          devices = v.devices;
          controller = v.controller;
          real = v.real;
          idle = v.idle;
        } in
        elim (usb_driver_init_idle s h idle) [
          | inl (e, e') ↦ rw (e, e') (v', refl)
          | inr (e, e') ↦
              rw (e, e')
                (open_controller-HoldsOpen x (found.handles 0) found.buffer s after work idle
                  (work.controller h 0) v')
        ]
  ]

  pub usb_driver_cleanup-HoldsOpen :
      (x : ℕ) (s : Usb) (h : History)
      → HoldsOpen x s h
      → let (r, t, g) = usb_driver_cleanup p s h in HoldsOpen x t g × (t.device_count ≡ 0)
  unfolding usb_driver_cleanup
  usb_driver_cleanup-HoldsOpen x s h v =
      let loop = close_loop_lem p s.devices s.device_count 0 s h in
      let closed_all = close_loop-held_on p x s.devices s.device_count 0 s h in
      (
        record {
          devices = ground (arith, v.devices, v.idle, loop, closed_all);
          controller = ground (arith, v.controller, v.real, loop, closed_all);
          real = λ e. ground (arith, loop);
          idle = λ e. ground (arith, v.idle, loop);
        },
        ground (arith, v.idle, loop),
      )

  pub usb_device_detect-HoldsOpen :
      (x : ℕ) (s : Usb) (h : History)
      → AllWork p
      → s.device_count ≡ 0
      → HoldsOpen x s h
      → HoldsOpen x (usb_device_detect p s h).1 (usb_device_detect p s h).2
  unfolding usb_device_detect
  usb_device_detect-HoldsOpen x s h work none_yet v =
      let found = p.locate_handle_buffer h usb_io_guid in
      let after = located usb_io_guid found.status found.buffer ∷ h in
      let t = record s { device_count = 0 } in
      let bounds = detect_loop-Bounds p found.handles found.count 0 t after in
      let opens =
        detect_loop-opens p x found.handles found.count 0 t after (work.works h)
          (omega (arith, work.few h)) refl in
      record {
        devices = ground (arith, v.devices, bounds, opens);
        controller = ground (arith, v.controller, bounds, opens);
        real = λ e. ground (arith, v.real, bounds, opens);
        idle = λ e. ground (arith, v.idle, bounds);
      }
