-- ===== src/Loader/Delivery.antt =====
-- The bytes that firmware_load_from_file of firmware_loader.c delivers, and their checksum.
use usb_uefi_firmware.Common.{ℕ, ◌+◌, ◌<◌, ◌≡◌, false, some, [], ◌∷◌, ◌==◌, if◌then◌else◌}
use usb_uefi_firmware.Loader.Files.{Loading}
use usb_uefi_firmware.Loader.State.{Loader}
use usb_uefi_firmware.Platform.Event.{
  allocated, freed, volume_opened, file_opened, file_info, file_read, file_closed, History,
}
use usb_uefi_firmware.Platform.Services.{Platform}
use usb_uefi_firmware.Platform.Status.{efi_error}

-- How many bytes a pool buffer has, and 0 once it is freed.
abbrev pub room_of : ℕ → History → ℕ
room_of q [] = 0
room_of q (allocated room pointer ∷ h) = if pointer == q then room else room_of q h
room_of q (freed pointer ∷ h) = if pointer == q then 0 else room_of q h
room_of q (_ ∷ h) = room_of q h

-- What UEFI documents of a memory, and of the bytes `unread h file k` of an open file from its current
-- position on, as functions of the history. A file that Open gives is at its start; `stored h root name`
-- are the bytes of the file of that name. Read fills the buffer with as many of the unread bytes as it
-- reports; AllocatePool and GetInfo do not move the position. AllocatePool gives no buffer that is in
-- use, FreePool keeps the bytes of every other buffer in use, and closing a file changes no memory.
module _ (p : Platform) (stored : History → ℕ → ℕ → ℕ → ℕ) (unread : History → ℕ → ℕ → ℕ)
    (memory : History → ℕ → ℕ) where
  pub record ReadsFiles : Type 0 where
    pub opens :
        (h : History) (root name k : ℕ)
        → let file = p.open_file h root name in
          efi_error file.status ≡ false
          → unread (file_opened file.status file.value ∷ h) file.value k ≡ stored h root name k
    pub allocation_keeps :
        (h : History) (room pointer file k : ℕ)
        → unread (allocated room pointer ∷ h) file k ≡ unread h file k
    pub info_keeps :
        (h : History) (file file' k : ℕ) → unread (file_info file' ∷ h) file k ≡ unread h file k
    pub fills :
        (h : History) (file size buffer k : ℕ)
        → let read = p.read_file h file size in
          efi_error read.status ≡ false
          → k < read.value
          → memory (file_read file size buffer read.value ∷ h) (buffer + k) ≡ unread h file k
    pub fresh_buffer :
        (h : History) (room q : ℕ) → 0 < room_of q h → (p.allocate_pool h room == q) ≡ false
    pub free_keeps :
        (h : History) (pointer q k : ℕ)
        → (q == pointer) ≡ false
        → k < room_of q h
        → memory (freed pointer ∷ h) (q + k) ≡ memory h (q + k)
    pub close_keeps : (h : History) (file y : ℕ) → memory (file_closed file ∷ h) y ≡ memory h y
    pub info_room : 0 < p.file_info_room

-- The caller has received a buffer that holds these bytes, as many as the size says.
abbrev pub HoldsFile : (ℕ → ℕ) → (ℕ → ℕ) → Loading → Type 0
HoldsFile content memory t =
    (buffer n k : ℕ)
    → t.buffer ≡ some buffer
    → t.size ≡ some n
    → k < n
    → memory (buffer + k) ≡ content k

module _ (p : Platform) (stored : History → ℕ → ℕ → ℕ → ℕ) (unread : History → ℕ → ℕ → ℕ)
    (memory : History → ℕ → ℕ) (reads : ReadsFiles p stored unread memory) where
  -- The bytes of the file of that name, when the load asks the volume for it.
  abbrev pub file_bytes : ℕ → Loader → History → ℕ → ℕ
  file_bytes file_name loader h =
      let root = p.open_volume h loader.file_system in
      stored (volume_opened root.status root.value ∷ h) root.value file_name
