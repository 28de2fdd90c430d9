-- ===== src/Platform/Balance.antt =====
-- What a history holds: the pool buffers and files that were handed out and not given back.
use usb_uefi_firmware.Common.{ℕ, ◌+◌, ◌≡◌, not, ◌&&◌, [], ◌∷◌, ◌==◌, if◌then◌else◌}
use usb_uefi_firmware.Platform.Event.{
  located, allocated, freed, volume_opened, file_opened, file_closed, History,
}
use usb_uefi_firmware.Platform.Status.{efi_error}

-- How often a buffer was allocated, and freed. AllocatePool returns NULL when it
-- fails, and LocateHandleBuffer allocates its array of handles.
abbrev pub allocations : ℕ → History → ℕ
allocations q [] = 0
allocations q (allocated room pointer ∷ h) = (if pointer == q then 1 else 0) + allocations q h
allocations q (located guid status pointer ∷ h) =
    (if not (efi_error status) && pointer == q then 1 else 0) + allocations q h
allocations q (_ ∷ h) = allocations q h

abbrev pub frees : ℕ → History → ℕ
frees q [] = 0
frees q (freed pointer ∷ h) = (if pointer == q then 1 else 0) + frees q h
frees q (_ ∷ h) = frees q h

-- How often a file or volume was opened with success, and closed.
abbrev pub openings : ℕ → History → ℕ
openings f [] = 0
openings f (volume_opened status file ∷ h) =
    (if not (efi_error status) && file == f then 1 else 0) + openings f h
openings f (file_opened status file ∷ h) =
    (if not (efi_error status) && file == f then 1 else 0) + openings f h
openings f (_ ∷ h) = openings f h

abbrev pub closings : ℕ → History → ℕ
closings f [] = 0
closings f (file_closed file ∷ h) = (if file == f then 1 else 0) + closings f h
closings f (_ ∷ h) = closings f h

-- Between two histories a buffer is freed as often as allocated.
abbrev pub SameBuffers : ℕ → History → History → Type 0
SameBuffers q h g = allocations q g + frees q h ≡ frees q g + allocations q h
