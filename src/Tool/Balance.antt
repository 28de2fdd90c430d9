-- ===== src/Tool/Balance.antt =====
-- What the operations of flash_utility.c hold when they end, whatever the C library answers.
use usb_uefi_firmware.Common.{
  ℕ, zero, suc, ◌+◌, ◌*◌, ◌^◌, ◌≤◌, ◌<◌, ◌≡◌, Option, none, some, [], ◌∷◌, arith, u32, sub32,
}
use usb_uefi_firmware.Tool.Operations.{
  erase_loop, sector_count, erase_flash, verify_flash, show_flash_info, backup_flash, restore_flash,
  run_operation,
}
use usb_uefi_firmware.Tool.State.{
  ToolConfig, ToolDevice, malloced, buffer_freed, file_fopened, file_fclosed, chunk_written,
  chunk_read, sector_erased, Log, Host,
}
use usb_uefi_firmware.Tool.Transfer.{
  chunk_size, read_loop, write_loop, read_to_file, read_flash, write_flash,
}

-- The buffers and files that a log has open.
abbrev pub mallocs : Log → ℕ
mallocs [] = 0
mallocs (malloced ∷ log) = 1 + mallocs log
mallocs (_ ∷ log) = mallocs log

abbrev pub buffer_frees : Log → ℕ
buffer_frees [] = 0
buffer_frees (buffer_freed ∷ log) = 1 + buffer_frees log
buffer_frees (_ ∷ log) = buffer_frees log

abbrev pub fopens : Log → ℕ
fopens [] = 0
fopens (file_fopened ∷ log) = 1 + fopens log
fopens (_ ∷ log) = fopens log

abbrev pub fcloses : Log → ℕ
fcloses [] = 0
fcloses (file_fclosed ∷ log) = 1 + fcloses log
fcloses (_ ∷ log) = fcloses log

-- Between two logs, `buffers` buffers and `files` files were given back that the first had open.
abbrev pub GivesBack : ℕ → ℕ → Log → Log → Type 0
GivesBack buffers files before after_log =
    (mallocs after_log + buffer_frees before + buffers ≡ buffer_frees after_log + mallocs before)
    × (fopens after_log + fcloses before + files ≡ fcloses after_log + fopens before)

-- An operation has ended, with 0 or 1, and has given those back.
abbrev pub EndsGivingBack : ℕ → ℕ → Log → Option (ℕ × Log) → Type 0
EndsGivingBack buffers files before none = ⊥
EndsGivingBack buffers files before (some (result, log)) =
    (result ≤ 1) × GivesBack buffers files before log

read_loop-EndsGivingBack :
    (host : Host) (fuel buffer_size remaining : ℕ) (log : Log)
    → 0 < buffer_size
    → remaining < 2 ^ 32
    → remaining ≤ fuel
    → EndsGivingBack 0 0 log (read_loop host fuel buffer_size remaining log)
unfolding read_loop
read_loop-EndsGivingBack host zero buffer_size remaining log pos small enough = ground arith
read_loop-EndsGivingBack host (suc n) buffer_size remaining log pos small enough =
    let k = chunk_size buffer_size remaining in
    ground (
      arith,
      read_loop-EndsGivingBack host n buffer_size (sub32 remaining k) (chunk_written k ∷ log) pos,
    )

write_loop-EndsGivingBack :
    (host : Host) (fuel buffer_size remaining : ℕ) (log : Log)
    → 0 < buffer_size
    → remaining < 2 ^ 32
    → remaining ≤ fuel
    → EndsGivingBack 0 0 log (write_loop host fuel buffer_size remaining log)
unfolding write_loop
write_loop-EndsGivingBack host zero buffer_size remaining log pos small enough = ground arith
write_loop-EndsGivingBack host (suc n) buffer_size remaining log pos small enough =
    let k = chunk_size buffer_size remaining in
    ground (
      arith,
      write_loop-EndsGivingBack host n buffer_size (sub32 remaining k) (chunk_read k ∷ log) pos,
    )

read_to_file-EndsGivingBack :
    (host : Host) (fuel : ℕ) (config : ToolConfig) (log : Log)
    → 0 < config.buffer_size
    → config.size < 2 ^ 32
    → config.size ≤ fuel
    → EndsGivingBack 1 0 log (read_to_file host fuel config log)
unfolding read_to_file
read_to_file-EndsGivingBack host fuel config log pos small enough = ground (
  arith,
  read_loop-EndsGivingBack host fuel config.buffer_size config.size (file_fopened ∷ log) pos,
)

read_flash-EndsGivingBack :
    (host : Host) (fuel : ℕ) (config : ToolConfig) (info : ToolDevice) (log : Log)
    → 0 < config.buffer_size
    → config.size < 2 ^ 32
    → config.size ≤ fuel
    → EndsGivingBack 0 0 log (read_flash host fuel config info log)
unfolding read_flash
read_flash-EndsGivingBack host fuel config info log pos small enough = ground (
  arith,
  read_to_file-EndsGivingBack host fuel config (malloced ∷ log) pos,
  read_loop-EndsGivingBack host fuel config.buffer_size config.size (malloced ∷ log) pos,
)

write_flash-EndsGivingBack :
    (host : Host) (fuel : ℕ) (config : ToolConfig) (info : ToolDevice) (log : Log)
    → 0 < config.buffer_size
    → u32 host.file_size ≤ fuel
    → EndsGivingBack 0 0 log (write_flash host fuel config info log)
unfolding write_flash
write_flash-EndsGivingBack host fuel config info log pos enough = ground (
  arith,
  write_loop-EndsGivingBack host fuel config.buffer_size (u32 host.file_size)
      (malloced ∷ (file_fopened ∷ log)) pos,
)

erase_loop-GivesBack :
    (address sector_size sectors i : ℕ) (log : Log)
    → GivesBack 0 0 log (erase_loop address sector_size sectors i log)
unfolding erase_loop
erase_loop-GivesBack address sector_size zero i log = ground arith
erase_loop-GivesBack address sector_size (suc n) i log =
    let start = u32 (address + u32 (i * sector_size)) in
    ground (arith, erase_loop-GivesBack address sector_size n (i + 1) (sector_erased start ∷ log))

-- Every operation with a buffer that is not empty ends, with 0 or 1, on fuel for the bytes asked
-- for, the input file and the device; and whichever call of the C library fails, it has given back
-- every buffer and file that it took.
pub run_operation-EndsGivingBack :
    (host : Host) (fuel : ℕ) (config : ToolConfig) (info : ToolDevice) (log : Log)
    → 0 < config.buffer_size
    → config.size < 2 ^ 32
    → info.total_size < 2 ^ 32
    → config.size ≤ fuel
    → info.total_size ≤ fuel
    → u32 host.file_size ≤ fuel
    → EndsGivingBack 0 0 log (run_operation host fuel config info log)
unfolding run_operation erase_flash verify_flash show_flash_info backup_flash restore_flash
run_operation-EndsGivingBack host fuel config info log pos small small' asked whole file = ground (
  arith,
  read_flash-EndsGivingBack host fuel config info log pos small asked,
  read_flash-EndsGivingBack host fuel (record config { address = 0; size = info.total_size }) info
      log pos small' whole,
  write_flash-EndsGivingBack host fuel config info log pos file,
  write_flash-EndsGivingBack host fuel (record config { address = 0 }) info log pos file,
  erase_loop-GivesBack config.address info.sector_size (sector_count config.size info.sector_size) 0
      log,
)
