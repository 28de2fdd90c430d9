-- ===== src/Uefi/Wrappers.antt =====
-- boot_services.c: the wrappers of the boot services, and the alignment macros of common.h.
use usb_uefi_firmware.Common.{
  ℕ, ◌+◌, ◌-◌, ◌^◌, bit_and, Bool, true, false, not, ◌&&◌, ◌||◌, Option, none, some, ◌∷◌, ◌==◌,
  if◌then◌else◌, null, is_null, u64, sub64,
}
use usb_uefi_firmware.Platform.Event.{
  Guid, loaded_image_guid, device_path_guid, searched, opened, closed, allocated, freed, handled,
  event_created, event_signalled, timer_set, History,
}
use usb_uefi_firmware.Platform.Proc.{
  returned, Proc, Call, ◌>>=◌, ◌>>◌, pure, put, require, check_status, emit, invoke, function,
}
use usb_uefi_firmware.Platform.Services.{Located, Reply, Platform}
use usb_uefi_firmware.Platform.Status.{Status, success, invalid_parameter, efi_error}

-- ALIGN_UP on UINTN: (x + (align - 1)) & ~(align - 1).
unfoldable pub align_up : ℕ → ℕ → ℕ
align_up x align = bit_and (u64 (x + sub64 align 1)) (2 ^ 64 - 1 - sub64 align 1)

module _ (p : Platform) where
  -- The state of a wrapper is what its OUT pointer holds.
  abbrev boot_allocate : ℕ → ℕ → Proc (Option ℕ) Reply
  boot_allocate type size =
      invoke (λ h. p.boot_allocate_pool h type size)
        (λ r. allocated size (if efi_error r.status then null else r.value))

  unfoldable pub allocate_aligned_memory : ℕ → ℕ → ℕ → ℕ → Call (Option ℕ)
  allocate_aligned_memory type size alignment buffer = function (do
    require (not (is_null buffer || size == 0)) invalid_parameter
    let aligned_size = align_up size alignment
    first ← boot_allocate type aligned_size
    check_status first.status
    if bit_and first.value (sub64 alignment 1) == 0
        then (do put (some first.value); pure success)
        else (do
          emit (freed first.value)
          second ← boot_allocate type (u64 (aligned_size + alignment))
          check_status second.status
          put (some (align_up second.value alignment))
          pure success))

  -- The size is not used.
  unfoldable pub free_aligned_memory : ℕ → ℕ → Call (Option ℕ)
  free_aligned_memory buffer size = function (do
    require (not (is_null buffer)) invalid_parameter
    invoke (λ h. p.boot_free_pool h buffer) (λ _. freed buffer))

  -- The GUID is passed by a pointer, whose NULL is `none`.
  abbrev with_guid : Option Guid → (Guid → Call (Option ℕ)) → Call (Option ℕ)
  with_guid none body s h = (returned invalid_parameter, s, h)
  with_guid (some guid) body s h = body guid s h

  unfoldable pub safe_open_protocol : ℕ → Option Guid → ℕ → Call (Option ℕ)
  safe_open_protocol handle protocol interface = with_guid protocol (λ guid. function (do
    require (not (is_null handle || is_null interface)) invalid_parameter
    reply ← invoke (λ h. p.open_protocol h handle guid) (λ r. opened handle guid r.status)
    put (some reply.value)
    pure reply.status))

  unfoldable pub safe_close_protocol : ℕ → Option Guid → Call (Option ℕ)
  safe_close_protocol handle protocol = with_guid protocol (λ guid. function (do
    require (not (is_null handle)) invalid_parameter
    invoke (λ h. p.close_protocol h handle guid) (λ _. closed handle guid)))

  unfoldable pub create_and_signal_event : ℕ → Call (Option ℕ)
  create_and_signal_event event = function (do
    require (not (is_null event)) invalid_parameter
    created ← invoke (λ h. p.create_event h) (λ r. event_created r.value)
    put (some created.value)
    check_status created.status
    invoke (λ h. p.signal_event h created.value) (λ _. event_signalled created.value))

  unfoldable pub create_timer_event : ℕ → ℕ → Call (Option ℕ)
  create_timer_event trigger_time event = function (do
    require (not (is_null event)) invalid_parameter
    created ← invoke (λ h. p.create_event h) (λ r. event_created r.value)
    put (some created.value)
    check_status created.status
    invoke (λ h. p.set_timer h created.value trigger_time)
        (λ _. timer_set created.value trigger_time))

  unfoldable pub handle_supports_protocol : ℕ → Option Guid → History → Bool × History
  handle_supports_protocol handle none h = (false, h)
  handle_supports_protocol handle (some guid) h =
      if is_null handle
      then (false, h)
      else (not (efi_error (p.handle_protocol h handle guid).status), handled handle guid ∷ h)

  -- GetDevicePathFromHandle and GetLoadedImageInfo, which differ in the protocol.
  abbrev interface_of : Guid → ℕ → ℕ → Call (Option ℕ)
  interface_of guid handle out = function (do
    require (not (is_null handle || is_null out)) invalid_parameter
    reply ← invoke (λ h. p.handle_protocol h handle guid) (λ _. handled handle guid)
    put (some reply.value)
    pure reply.status)

  unfoldable pub get_device_path_from_handle : ℕ → ℕ → Call (Option ℕ)
  get_device_path_from_handle = interface_of device_path_guid

  unfoldable pub get_loaded_image_info : ℕ → ℕ → Call (Option ℕ)
  get_loaded_image_info = interface_of loaded_image_guid

  unfoldable pub compare_device_paths : ℕ → ℕ → Bool
  compare_device_paths a b =
      let size = p.get_device_path_size a in
      if is_null a && is_null b
      then true
      else if is_null a || is_null b
      then false
      else if not (size == p.get_device_path_size b)
      then false
      else p.compare_mem a b size == 0

  -- What is found, beside the status; a failed search gives the caller what the platform left there.
  unfoldable pub safe_locate_handle_buffer :
      ℕ → Option Guid → ℕ → ℕ → ℕ → History → Status × Option Located × History
  safe_locate_handle_buffer kind protocol key number buffer h =
      let found = p.search_handles h kind protocol key in
      if is_null number || is_null buffer
      then (invalid_parameter, none, h)
      else (found.status, some found, searched kind ∷ h)

  unfoldable pub get_console_input : ℕ
  get_console_input = if is_null p.system_table_pointer then null else p.con_in

  unfoldable pub get_console_output : ℕ
  get_console_output = if is_null p.system_table_pointer then null else p.con_out
