-- ===== src/Loader/Session.antt =====
-- Every sequence of calls of the firmware loader, by a client that frees the buffers that it
-- received.
use usb_uefi_firmware.Common.{
  ℕ, ◌+◌, ◌≡◌, refl, false, Option, none, some, List, [], ◌∷◌, arith, ◌==◌, if◌then◌else◌, is_null,
}
use usb_uefi_firmware.Loader.Files.{firmware_load_from_file}
use usb_uefi_firmware.Loader.Info.{open_file_system, firmware_loader_init, firmware_loader_cleanup}
use usb_uefi_firmware.Loader.Lifecycle.{IsConsistent}
use usb_uefi_firmware.Loader.Loading.{fresh, firmware_load_from_file-Balanced, load-Delivers}
use usb_uefi_firmware.Loader.State.{Loader, initial_loader}
use usb_uefi_firmware.Loader.Validate.{firmware_validate}
use usb_uefi_firmware.Platform.Balance.{allocations, frees, openings, closings}
use usb_uefi_firmware.Platform.Event.{freed, History}
use usb_uefi_firmware.Platform.Proc.{call}
use usb_uefi_firmware.Platform.Services.{Platform}

-- The loader, and the buffers that the client holds.
pub record Client : Type 0 where
  pub loader : Loader
  pub held : List ℕ

abbrev pub initial_client : Client
initial_client = record { loader = initial_loader; held = [] }

-- The calls of the loader with their arguments; firmware_validate with the bytes of the memory, and
-- FreePool on a buffer of the client.
pub data LoaderCall : Type 0 where
  start_loader stop_loader : LoaderCall
  load_file : ℕ → ℕ → ℕ → LoaderCall
  check_buffer : (ℕ → ℕ) → ℕ → ℕ → LoaderCall
  give_back : ℕ → LoaderCall

-- How often a buffer is among those held, and the others once one is given back.
abbrev pub held_times : ℕ → List ℕ → ℕ
held_times q [] = 0
held_times q (x ∷ xs) = (if x == q then 1 else 0) + held_times q xs

unfoldable pub without : ℕ → List ℕ → List ℕ
without q [] = []
without q (x ∷ xs) = let rest = without q xs in if x == q then xs else x ∷ rest

abbrev pub receive : Option ℕ → List ℕ → List ℕ
receive none held = held
receive (some buffer) held = buffer ∷ held

module _ (p : Platform) where
  unfoldable pub run_loader_call : LoaderCall → Client → History → Client × History
  run_loader_call start_loader c h =
      let (result, t, g) = firmware_loader_init p c.loader h in (record c { loader = t }, g)
  run_loader_call stop_loader c h =
      let (result, t, g) = firmware_loader_cleanup p c.loader h in (record c { loader = t }, g)
  run_loader_call (load_file file_name buffer size) c h =
      let (result, t, g) = firmware_load_from_file p file_name buffer size (fresh c.loader) h in
      (record { loader = t.loader; held = receive t.buffer c.held }, g)
  run_loader_call (check_buffer memory buffer size) c h =
      (record c { loader = (firmware_validate memory buffer size c.loader).1 }, h)
  run_loader_call (give_back buffer) c h =
      if held_times buffer c.held == 0
      then (c, h)
      else (record c { held = without buffer c.held }, freed buffer ∷ h)

  pub data LoaderReaches : Client → History → Type 0 where
    no_loader_call : LoaderReaches initial_client []
    one_loader_call :
        {c d : Client} {h g : History} (call : LoaderCall)
        → LoaderReaches c h
        → d ≡ (run_loader_call call c h).0
        → g ≡ (run_loader_call call c h).1
        → LoaderReaches d g

  -- Buffer by buffer and file by file: what is allocated and not freed is held, and no file is open.
  pub record Accounts (q f : ℕ) (c : Client) (h : History) : Type 0 where
    pub buffers : allocations q h ≡ frees q h + held_times q c.held
    pub files : openings f h ≡ closings f h

  init_counts :
      (q f : ℕ) (s : Loader) (h : History)
      → let g = (firmware_loader_init p s h).2 in
        (allocations q g ≡ allocations q h)
        × (frees q g ≡ frees q h)
        × (openings f g ≡ openings f h)
        × (closings f g ≡ closings f h)
  unfolding firmware_loader_init open_file_system
  init_counts q f s h = ground arith

  cleanup_counts :
      (q f : ℕ) (s : Loader) (h : History)
      → let g = (firmware_loader_cleanup p s h).2 in
        (allocations q g ≡ allocations q h)
        × (frees q g ≡ frees q h)
        × (openings f g ≡ openings f h)
        × (closings f g ≡ closings f h)
  unfolding firmware_loader_cleanup
  cleanup_counts q f s h = ground arith

  held_times-without :
      (q buffer : ℕ) (held : List ℕ)
      → (held_times buffer held == 0) ≡ false
      → held_times q (without buffer held) + (if buffer == q then 1 else 0) ≡ held_times q held
  unfolding without
  held_times-without q buffer [] some_held = ground arith
  held_times-without q buffer (x ∷ xs) some_held = ground (arith, held_times-without q buffer xs)

  pub run_loader_call-buffers :
      (q : ℕ) (call : LoaderCall) (c : Client) (h : History)
      → is_null q ≡ false
      → allocations q h ≡ frees q h + held_times q c.held
      → let (d, g) = run_loader_call call c h in allocations q g ≡ frees q g + held_times q d.held
  unfolding run_loader_call
  run_loader_call-buffers q start_loader c h real v = ground (arith, init_counts q q c.loader h)
  run_loader_call-buffers q stop_loader c h real v = ground (arith, cleanup_counts q q c.loader h)
  run_loader_call-buffers q (load_file file_name buffer size) c h real v =
      ground (arith, firmware_load_from_file-Balanced p file_name buffer size q q c.loader h real)
  run_loader_call-buffers q (check_buffer memory buffer size) c h real v = v
  run_loader_call-buffers q (give_back buffer) c h real v =
      ground (arith, held_times-without q buffer c.held)

  run_loader_call-files :
      (q f : ℕ) (call : LoaderCall) (c : Client) (h : History)
      → is_null q ≡ false
      → openings f h ≡ closings f h
      → let g = (run_loader_call call c h).1 in openings f g ≡ closings f g
  unfolding run_loader_call
  run_loader_call-files q f start_loader c h real v = ground (arith, init_counts q f c.loader h)
  run_loader_call-files q f stop_loader c h real v = ground (arith, cleanup_counts q f c.loader h)
  run_loader_call-files q f (load_file file_name buffer size) c h real v =
      ground (arith, firmware_load_from_file-Balanced p file_name buffer size q f c.loader h real)
  run_loader_call-files q f (check_buffer memory buffer size) c h real v = v
  run_loader_call-files q f (give_back buffer) c h real v = ground arith

  run_loader_call-Accounts :
      (q f : ℕ) (call : LoaderCall) (c : Client) (h : History)
      → is_null q ≡ false
      → Accounts q f c h
      → Accounts q f (run_loader_call call c h).0 (run_loader_call call c h).1
  run_loader_call-Accounts q f call c h real v = record {
    buffers = run_loader_call-buffers q call c h real v.buffers;
    files = run_loader_call-files q f call c h real v.files;
  }

  -- After any calls of the loader from the start of the program, whichever service fails: every pool
  -- buffer but NULL has been freed as often as allocated, but for the ones that the client received
  -- and has not freed, and every file has been closed as often as opened.
  pub reached-Accounts :
      {c : Client} {h : History} (q f : ℕ)
      → is_null q ≡ false
      → LoaderReaches c h
      → Accounts q f c h
  reached-Accounts q f real no_loader_call = record { buffers = refl; files = refl }
  reached-Accounts q f real (one_loader_call {c} {d} {h} {g} call r e e') =
      rw (e, e') (run_loader_call-Accounts q f call c h real (reached-Accounts q f real r))

  init-IsConsistent :
      (s : Loader) (h : History) → IsConsistent s → IsConsistent (firmware_loader_init p s h).1
  unfolding firmware_loader_init open_file_system
  init-IsConsistent s h v = ground (arith, v.idle, v.handled)

  cleanup-IsConsistent :
      (s : Loader) (h : History) → IsConsistent s → IsConsistent (firmware_loader_cleanup p s h).1
  unfolding firmware_loader_cleanup
  cleanup-IsConsistent s h v = ground (arith, v.idle, v.handled)

  check-IsConsistent :
      (memory : ℕ → ℕ) (buffer size : ℕ) (s : Loader)
      → IsConsistent s
      → IsConsistent (firmware_validate memory buffer size s).1
  unfolding firmware_validate
  check-IsConsistent memory buffer size s v = ground (arith, v.idle, v.handled)

  pub run_loader_call-IsConsistent :
      (call : LoaderCall) (c : Client) (h : History)
      → IsConsistent c.loader
      → IsConsistent (run_loader_call call c h).0.loader
  unfolding run_loader_call
  run_loader_call-IsConsistent start_loader c h v = init-IsConsistent c.loader h v
  run_loader_call-IsConsistent stop_loader c h v = cleanup-IsConsistent c.loader h v
  run_loader_call-IsConsistent (load_file file_name buffer size) c h v =
      rw (load-Delivers p file_name buffer size c.loader h).1 v
  run_loader_call-IsConsistent (check_buffer memory buffer size) c h v =
      check-IsConsistent memory buffer size c.loader v
  run_loader_call-IsConsistent (give_back buffer) c h v = ground (arith, v.idle, v.handled)

  -- Only an initialized loader has a file system, and it comes with its handle.
  pub reached-IsConsistent : {c : Client} {h : History} → LoaderReaches c h → IsConsistent c.loader
  reached-IsConsistent no_loader_call = record { idle = λ _. refl; handled = λ e. e }
  reached-IsConsistent (one_loader_call {c} {d} {h} {g} call r e e') =
      rw e (run_loader_call-IsConsistent call c h (reached-IsConsistent r))
