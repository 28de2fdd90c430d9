-- ===== src/Tool/Transfer.antt =====
-- read_flash and write_flash. The loops run on fuel, one unit for each chunk, and `none` means that
-- it ran out. A result is 0 for success and 1 for failure.
use usb_uefi_firmware.Common.{
  ℕ, zero, suc, Bool, true, false, not, ◌&&◌, ◌||◌, Option, none, some, ◌∷◌, ltb, ◌==◌,
  if◌then◌else◌, length, u32, sub32,
}
use usb_uefi_firmware.Tool.State.{
  ToolConfig, ToolDevice, malloced, buffer_freed, file_fopened, file_fclosed, chunk_written,
  chunk_read, Log, Host,
}

-- `(remaining > buffer_size) ? buffer_size : remaining`.
abbrev pub chunk_size : ℕ → ℕ → ℕ
chunk_size buffer_size remaining = if ltb buffer_size remaining then buffer_size else remaining

-- The loop of read_flash: each chunk goes to the output.
unfoldable pub read_loop : Host → ℕ → ℕ → ℕ → Log → Option (ℕ × Log)
read_loop host zero buffer_size remaining log = if remaining == 0 then some (0, log) else none
read_loop host (suc fuel) buffer_size remaining log =
    let n = chunk_size buffer_size remaining in
    let rest = read_loop host fuel buffer_size (sub32 remaining n) (chunk_written n ∷ log) in
    if remaining == 0
    then some (0, log)
    else if not (host.fwrite log n == n)
    then some (1, log)
    else rest

-- The loop of write_flash: each chunk is read from the input, and the write is only simulated.
unfoldable pub write_loop : Host → ℕ → ℕ → ℕ → Log → Option (ℕ × Log)
write_loop host zero buffer_size remaining log = if remaining == 0 then some (0, log) else none
write_loop host (suc fuel) buffer_size remaining log =
    let n = chunk_size buffer_size remaining in
    let rest = write_loop host fuel buffer_size (sub32 remaining n) (chunk_read n ∷ log) in
    if remaining == 0
    then some (0, log)
    else if not (host.fread log n == n)
    then some (1, log)
    else rest

-- The label `cleanup`, with a file to close or not.
abbrev pub clean_up : Bool → Option (ℕ × Log) → Option (ℕ × Log)
clean_up to_close none = none
clean_up to_close (some (result, log)) =
    some (result, (if to_close then file_fclosed ∷ (buffer_freed ∷ log) else buffer_freed ∷ log))

unfoldable pub read_to_file : Host → ℕ → ToolConfig → Log → Option (ℕ × Log)
read_to_file host fuel config log =
    if host.fopen log
    then clean_up true (read_loop host fuel config.buffer_size config.size (file_fopened ∷ log))
    else some (1, buffer_freed ∷ log)

-- Without an output file the output is stdout, which stays open.
unfoldable pub read_flash : Host → ℕ → ToolConfig → ToolDevice → Log → Option (ℕ × Log)
read_flash host fuel config info log =
    if not info.detected
    then some (1, log)
    else if not (host.malloc log config.buffer_size)
    then some (1, log)
    else if ltb 0 (length config.output_file)
    then read_to_file host fuel config (malloced ∷ log)
    else clean_up false (read_loop host fuel config.buffer_size config.size (malloced ∷ log))

unfoldable pub write_flash : Host → ℕ → ToolConfig → ToolDevice → Log → Option (ℕ × Log)
write_flash host fuel config info log =
    let opened_log = file_fopened ∷ log in
    if not info.detected || (info.write_protected && not config.force)
    then some (1, log)
    else if not (host.fopen log)
    then some (1, log)
    else if not (host.malloc opened_log config.buffer_size)
    then some (1, file_fclosed ∷ opened_log)
    else clean_up true
        (write_loop host fuel config.buffer_size (u32 host.file_size) (malloced ∷ opened_log))
