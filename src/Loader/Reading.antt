-- ===== src/Loader/Reading.antt =====
-- What firmware_load_from_file of firmware_loader.c has read when it succeeds.
use usb_uefi_firmware.Common.{
  ℕ, ◌≡◌, sym, ap, ◌∙◌, ◌≢◌, ◌⊎◌, inl, inr, false, none, some, ◌∷◌, is_null,
}
use usb_uefi_firmware.Loader.Files.{
  Loading, read_contents, read_info, read_whole_file, firmware_load_from_file,
}
use usb_uefi_firmware.Loader.Loading.{fresh, load-Delivers}
use usb_uefi_firmware.Loader.State.{Loader}
use usb_uefi_firmware.Platform.Event.{allocated, volume_opened, file_opened, file_info, History}
use usb_uefi_firmware.Platform.Proc.{Flow, returned, fault, result_of}
use usb_uefi_firmware.Platform.Services.{Platform}
use usb_uefi_firmware.Platform.Status.{Status, success, efi_error, status_laws}

module _ (p : Platform) where
  -- From the history `h` on, the open file is asked for its size, a buffer of that size is allocated, and
  -- Read fills it without error; `t` has this buffer and this size.
  abbrev pub ReadsAll : ℕ → Loading → History → Type 0
  ReadsAll file t h =
      let n = (p.get_file_info h file).value in
      let contents = p.allocate_pool (file_info file ∷ h) n in
      let read = p.read_file (allocated n contents ∷ (file_info file ∷ h)) file n in
      (t.buffer ≡ some contents)
      × (t.size ≡ some n)
      × (is_null contents ≡ false)
      × (efi_error read.status ≡ false)
      × (read.value ≡ n)

  -- A load that fails gives the caller nothing; one that succeeds has opened the volume and the file,
  -- and read the file to the size that GetInfo reports.
  abbrev pub LoadsWhole : ℕ → Loader → Flow Status → Loading → History → Type 0
  LoadsWhole file_name loader result t h =
      let root = p.open_volume h loader.file_system in
      let after = volume_opened root.status root.value ∷ h in
      let file = p.open_file after root.value file_name in
      let opened_file = file_opened file.status file.value ∷ after in
      let info = p.allocate_pool opened_file p.file_info_room in
      ((result ≢ returned success) × (result ≢ fault) × (t.buffer ≡ none) × (t.size ≡ none))
      ⊎ ((result ≡ returned success)
          × ReadsAll file.value t (allocated p.file_info_room info ∷ opened_file))

  contents_reads :
      (root file info size contents : ℕ) (s : Loading) (h : History)
      → let (result, t, g) = read_contents p root file info size contents s h in
        result_of result ≡ returned success
        → let read = p.read_file h file size in
          (t.buffer ≡ some contents)
          × (t.size ≡ some size)
          × (efi_error read.status ≡ false)
          × (read.value ≡ size)
  unfolding read_contents
  contents_reads root file info size contents s h well = ground status_laws

  info_reads :
      (root file info : ℕ) (s : Loading) (h : History)
      → let (result, t, g) = read_info p root file info s h in
        result_of result ≡ returned success → ReadsAll file t h
  unfolding read_info
  info_reads root file info s h well =
      let n = (p.get_file_info h file).value in
      let contents = p.allocate_pool (file_info file ∷ h) n in
      ground (
        status_laws,
        contents_reads root file info n contents s (allocated n contents ∷ (file_info file ∷ h)),
      )

  -- A load that succeeds ends as its stages do.
  whole_reads :
      (root file : ℕ) (s : Loading) (h : History)
      → result_of (read_whole_file p root file s h).0 ≡ returned success
      → let info = p.allocate_pool h p.file_info_room in
        read_whole_file p root file s h
        ≡ read_info p root file info s (allocated p.file_info_room info ∷ h)
  unfolding read_whole_file
  whole_reads root file s h well = ground status_laws

  load_reads :
      (file_name buffer size : ℕ) (loader : Loader) (h : History)
      → let (result, t, g) = firmware_load_from_file p file_name buffer size (fresh loader) h in
        result ≡ returned success
        → let root = p.open_volume h loader.file_system in
          let after = volume_opened root.status root.value ∷ h in
          let file = p.open_file after root.value file_name in
          let whole =
            read_whole_file p root.value file.value
              (fresh loader)
              (file_opened file.status file.value ∷ after) in
          (result_of whole.0 ≡ returned success) × (t ≡ whole.1)
  unfolding firmware_load_from_file
  load_reads file_name buffer size loader h well = ground status_laws

  load-LoadsWhole :
      (file_name buffer size : ℕ) (loader : Loader) (h : History)
      → let (result, t, g) = firmware_load_from_file p file_name buffer size (fresh loader) h in
        result ≡ returned success → LoadsWhole file_name loader result t h
  load-LoadsWhole file_name buffer size loader h well =
      let root = p.open_volume h loader.file_system in
      let after = volume_opened root.status root.value ∷ h in
      let file = p.open_file after root.value file_name in
      let g = file_opened file.status file.value ∷ after in
      let info = p.allocate_pool g p.file_info_room in
      let (done, same) = load_reads file_name buffer size loader h well in
      let through = whole_reads root.value file.value (fresh loader) g done in
      let all =
        info_reads root.value file.value info (fresh loader) (allocated p.file_info_room info ∷ g)
          (ap (λ (x : Flow Status × Loading × History). result_of x.0) (sym through) ∙ done) in
      let ends = same ∙ ap (λ (x : Flow Status × Loading × History). x.1) through in
      inr (well, rw ends all)

  -- A load never faults. One that succeeds has read without error as many bytes as GetInfo reports for
  -- the file, and gives the caller the buffer of them, which is not NULL, and that size; any other gives
  -- neither; and the loader's own state is as it was.
  pub firmware_load_from_file-Delivers :
      (file_name buffer size : ℕ) (loader : Loader) (h : History)
      → let (result, t, g) = firmware_load_from_file p file_name buffer size (fresh loader) h in
        LoadsWhole file_name loader result t h × (t.loader ≡ loader)
  firmware_load_from_file-Delivers file_name buffer size loader h =
      let (ends, same) = load-Delivers p file_name buffer size loader h in
      elim ends [
        | inl failed ↦ (inl failed, same)
        | inr (_, _, well, _, _, _) ↦ (load-LoadsWhole file_name buffer size loader h well, same)
      ]
