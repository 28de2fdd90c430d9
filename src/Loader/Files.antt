-- ===== src/Loader/Files.antt =====
-- firmware_load_from_file.
use usb_uefi_firmware.Common.{ℕ, not, ◌&&◌, ◌||◌, Option, some, ◌==◌, is_null}
use usb_uefi_firmware.Loader.State.{Loader}
use usb_uefi_firmware.Platform.Event.{
  allocated, freed, volume_opened, file_opened, file_info, file_read, file_closed,
}
use usb_uefi_firmware.Platform.Proc.{
  Proc, Call, ◌>>=◌, ◌>>◌, pure, get, modify, require, check_status, emit, invoke, return_if,
  function,
}
use usb_uefi_firmware.Platform.Services.{Platform}
use usb_uefi_firmware.Platform.Status.{
  Status, success, invalid_parameter, not_ready, out_of_resources, aborted, efi_error,
}

-- The loader, with what the caller's Buffer and Size point to once they are set.
pub record Loading : Type 0 where
  pub loader : Loader
  pub buffer : Option ℕ
  pub size : Option ℕ

module _ (p : Platform) where
  abbrev allocate : ℕ → Proc Loading ℕ
  allocate room = invoke (λ h. p.allocate_pool h room) (λ pointer. allocated room pointer)

  abbrev close_files : ℕ → ℕ → Proc Loading (Unit {0})
  close_files root file = emit (file_closed file) >> emit (file_closed root)

  -- `File->Read` into the buffer `contents` of `size` bytes, and what follows it; `info` is the
  -- buffer of the file's information.
  unfoldable pub read_contents : ℕ → ℕ → ℕ → ℕ → ℕ → Proc Loading Status
  read_contents root file info size contents = do
    read ← invoke (λ h. p.read_file h file size) (λ r. file_read file size contents r.value)
    return_if (efi_error read.status)
        (emit (freed contents) >> (emit (freed info) >> close_files root file)) read.status
    return_if (not (read.value == size))
        (emit (freed contents) >> (emit (freed info) >> close_files root file)) aborted
    modify (λ s. record s { buffer = some contents; size = some read.value })
    emit (freed info)
    close_files root file
    pure success

  -- GetInfo into the buffer `info`, and a second buffer of the file's size.
  unfoldable pub read_info : ℕ → ℕ → ℕ → Proc Loading Status
  read_info root file info = do
    reply ← invoke (λ h. p.get_file_info h file) (λ _. file_info file)
    return_if (efi_error reply.status) (emit (freed info) >> close_files root file) reply.status
    contents ← allocate reply.value
    return_if (is_null contents) (emit (freed info) >> close_files root file) out_of_resources
    read_contents root file info reply.value contents

  -- The rest of the function once the file is open.
  unfoldable pub read_whole_file : ℕ → ℕ → Proc Loading Status
  read_whole_file root file = do
    info ← allocate p.file_info_room
    return_if (is_null info) (close_files root file) out_of_resources
    read_info root file info

  -- `file_name`, `buffer` and `size` are the three pointers that the function is given.
  unfoldable pub firmware_load_from_file : ℕ → ℕ → ℕ → Call Loading
  firmware_load_from_file file_name buffer size = function (do
    s ← get
    require (not (is_null file_name || is_null buffer || is_null size)) invalid_parameter
    require (s.loader.initialized && not (is_null s.loader.file_system)) not_ready
    root ← invoke (λ h. p.open_volume h s.loader.file_system) (λ r. volume_opened r.status r.value)
    check_status root.status
    file ← invoke (λ h. p.open_file h root.value file_name) (λ r. file_opened r.status r.value)
    return_if (efi_error file.status) (emit (file_closed root.value)) file.status
    read_whole_file root.value file.value)
