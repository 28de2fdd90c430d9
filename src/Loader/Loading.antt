-- ===== src/Loader/Loading.antt =====
-- What firmware_load_from_file holds and returns at its end, on each of its paths.
use usb_uefi_firmware.Common.{
  ℕ, ◌+◌, ◌≡◌, ◌≢◌, ◌⊎◌, false, Option, none, some, ◌∷◌, arith, ◌==◌, if◌then◌else◌, is_null,
}
use usb_uefi_firmware.Loader.Files.{
  Loading, read_contents, read_info, read_whole_file, firmware_load_from_file,
}
use usb_uefi_firmware.Loader.State.{Loader}
use usb_uefi_firmware.Platform.Balance.{allocations, frees, openings, closings}
use usb_uefi_firmware.Platform.Event.{allocated, volume_opened, file_opened, file_info, History}
use usb_uefi_firmware.Platform.Proc.{Flow, returned, fault, result_of}
use usb_uefi_firmware.Platform.Services.{Platform}
use usb_uefi_firmware.Platform.Status.{Status, success, status_laws}

-- How often a pointer is the one that the caller received.
abbrev pub handed_out : ℕ → Option ℕ → ℕ
handed_out q none = 0
handed_out q (some pointer) = if pointer == q then 1 else 0

-- Between two histories, every buffer but what was handed out is freed as often as allocated, and
-- every file is closed as often as opened.
abbrev pub Balanced : ℕ → ℕ → Option ℕ → History → History → Type 0
Balanced q f out h g =
    (allocations q g + frees q h ≡ frees q g + allocations q h + handed_out q out)
    × (openings f g + closings f h ≡ closings f g + openings f h)

-- The caller has a buffer and its size exactly if the function has returned EFI_SUCCESS.
abbrev pub Delivers : Flow Status → Loading → Type 0
Delivers result t =
    ((result ≢ returned success) × (result ≢ fault) × (t.buffer ≡ none) × (t.size ≡ none))
    ⊎ ((contents n : ℕ) × (result ≡ returned success)
        × (t.buffer ≡ some contents)
        × (t.size ≡ some n)
        × (is_null contents ≡ false))

abbrev pub fresh : Loader → Loading
fresh loader = record { loader = loader; buffer = none; size = none }

module _ (p : Platform) where
  -- The end of each stage, seen through the two counts: `kept` of the stage's buffers are freed.
  abbrev Ends : ℕ → ℕ → ℕ → ℕ → ℕ → Flow Status × Loading × History → History → Type 0
  Ends root file released q f (result, t, g) h =
      (allocations q g + frees q h + released ≡ frees q g + allocations q h + handed_out q t.buffer)
      × (closings f g ≡ closings f h + (if file == f then 1 else 0) + (if root == f then 1 else 0))
      × (openings f g ≡ openings f h)

  contents-Ends :
      (root file info size contents q f : ℕ) (s : Loading) (h : History)
      → s.buffer ≡ none
      → Ends root file
          ((if info == q then 1 else 0) + (if contents == q then 1 else 0))
          q
          f
          (read_contents p root file info size contents s h)
          h
  unfolding read_contents
  contents-Ends root file info size contents q f s h empty = ground arith

  info-Ends :
      (root file info q f : ℕ) (s : Loading) (h : History)
      → is_null q ≡ false
      → s.buffer ≡ none
      → Ends root file (if info == q then 1 else 0) q f (read_info p root file info s h) h
  unfolding read_info
  info-Ends root file info q f s h nonnull empty =
      let size = (p.get_file_info h file).value in
      let asked = file_info file ∷ h in
      let contents = p.allocate_pool asked size in
      ground
        (arith, contents-Ends root file info size contents q f s (allocated size contents ∷ asked))

  reads-Ends :
      (root file q f : ℕ) (s : Loading) (h : History)
      → is_null q ≡ false
      → s.buffer ≡ none
      → Ends root file 0 q f (read_whole_file p root file s h) h
  unfolding read_whole_file
  reads-Ends root file q f s h nonnull empty =
      let info = p.allocate_pool h p.file_info_room in
      ground (arith, info-Ends root file info q f s (allocated p.file_info_room info ∷ h) nonnull)

  -- On every path, with the services failing wherever they may, and for every buffer but NULL and
  -- every file: the load frees the buffer as often as it allocates it, not counting the one that
  -- the caller receives, and closes the file as often as it opens it.
  pub firmware_load_from_file-Balanced :
      (file_name buffer size q f : ℕ) (loader : Loader) (h : History)
      → is_null q ≡ false
      → let (result, t, g) = firmware_load_from_file p file_name buffer size (fresh loader) h in
        Balanced q f t.buffer h g
  unfolding firmware_load_from_file
  firmware_load_from_file-Balanced file_name buffer size q f loader h nonnull =
      let root = p.open_volume h loader.file_system in
      let after = volume_opened root.status root.value ∷ h in
      let file = p.open_file after root.value file_name in
      ground (
        arith,
        reads-Ends root.value file.value q f (fresh loader)
            (file_opened file.status file.value ∷ after) nonnull,
      )

  abbrev Stage : Loading → Flow Status × Loading × History → Type 0
  Stage s (result, t, g) = Delivers (result_of result) t × (t.loader ≡ s.loader)

  contents-Stage :
      (root file info size contents : ℕ) (s : Loading) (h : History)
      → s.buffer ≡ none
      → s.size ≡ none
      → is_null contents ≡ false
      → Stage s (read_contents p root file info size contents s h)
  unfolding read_contents
  contents-Stage root file info size contents s h empty unsized given = ground status_laws

  info-Stage :
      (root file info : ℕ) (s : Loading) (h : History)
      → s.buffer ≡ none
      → s.size ≡ none
      → Stage s (read_info p root file info s h)
  unfolding read_info
  info-Stage root file info s h empty unsized =
      let size = (p.get_file_info h file).value in
      let contents = p.allocate_pool (file_info file ∷ h) size in
      ground (
        status_laws,
        contents-Stage root file info size contents s
            (allocated size contents ∷ (file_info file ∷ h)),
      )

  reads-Stage :
      (root file : ℕ) (s : Loading) (h : History)
      → s.buffer ≡ none
      → s.size ≡ none
      → Stage s (read_whole_file p root file s h)
  unfolding read_whole_file
  reads-Stage root file s h empty unsized =
      let info = p.allocate_pool h p.file_info_room in
      ground (status_laws, info-Stage root file info s (allocated p.file_info_room info ∷ h))

  pub load-Delivers :
      (file_name buffer size : ℕ) (loader : Loader) (h : History)
      → let (result, t, g) = firmware_load_from_file p file_name buffer size (fresh loader) h in
        Delivers result t × (t.loader ≡ loader)
  unfolding firmware_load_from_file
  load-Delivers file_name buffer size loader h =
      let root = p.open_volume h loader.file_system in
      let after = volume_opened root.status root.value ∷ h in
      let file = p.open_file after root.value file_name in
      ground (
        status_laws,
        reads-Stage root.value file.value (fresh loader)
            (file_opened file.status file.value ∷ after),
      )
