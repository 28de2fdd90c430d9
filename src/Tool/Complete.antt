-- ===== src/Tool/Complete.antt =====
-- What the operations of flash_utility.c do to the end.
use usb_uefi_firmware.Common.{
  ℕ, zero, suc, ◌+◌, ◌^◌, ◌≤◌, ◌<◌, ◌≡◌, ap, true, false, not, ◌&&◌, Option, none, some, [], ◌∷◌,
  arith, sub32,
}
use usb_uefi_firmware.Tool.Operations.{restore_flash}
use usb_uefi_firmware.Tool.State.{
  ToolConfig, ToolDevice, malloced, file_fopened, chunk_written, chunk_read, Log, Host,
}
use usb_uefi_firmware.Tool.Transfer.{
  chunk_size, read_loop, write_loop, read_to_file, read_flash, write_flash,
}

-- The bytes that went to the output.
abbrev pub bytes_written : Log → ℕ
bytes_written [] = 0
bytes_written (chunk_written n ∷ log) = n + bytes_written log
bytes_written (_ ∷ log) = bytes_written log

-- Every fwrite writes all it is given.
abbrev pub WritesAll : Host → Type 0
WritesAll host = (log : Log) (n : ℕ) → host.fwrite log n ≡ n

-- The result of an operation that ends, and the bytes that went to the output by then.
abbrev pub outcome : Option (ℕ × Log) → Option (ℕ × ℕ)
outcome none = none
outcome (some (result, log)) = some (result, bytes_written log)

read_loop_all :
    (host : Host) (fuel buffer_size remaining : ℕ) (log : Log)
    → WritesAll host
    → 0 < buffer_size
    → remaining < 2 ^ 32
    → remaining ≤ fuel
    → outcome (read_loop host fuel buffer_size remaining log)
      ≡ some (0, remaining + bytes_written log)
unfolding read_loop
read_loop_all host zero buffer_size remaining log all pos small enough = ground arith
read_loop_all host (suc n) buffer_size remaining log all pos small enough =
    let k = chunk_size buffer_size remaining in
    ground (
      arith,
      all log k,
      read_loop_all host n buffer_size (sub32 remaining k) (chunk_written k ∷ log) all pos,
    )

-- Where the device is detected, the memory and the file are there, every fwrite is complete and the
-- buffer is not empty, read_flash succeeds after writing exactly the bytes asked for, on fuel of
-- one unit for each byte.
pub read_flash_complete :
    (host : Host) (fuel : ℕ) (config : ToolConfig) (info : ToolDevice) (log : Log)
    → WritesAll host
    → ((g : Log) (n : ℕ) → host.malloc g n ≡ true)
    → ((g : Log) → host.fopen g ≡ true)
    → info.detected ≡ true
    → 0 < config.buffer_size
    → config.size < 2 ^ 32
    → config.size ≤ fuel
    → outcome (read_flash host fuel config info log) ≡ some (0, config.size + bytes_written log)
unfolding read_flash read_to_file
read_flash_complete host fuel config info log all memory files found pos small enough =
    let given = malloced ∷ log in
    ground (
      arith,
      memory log config.buffer_size,
      files given,
      read_loop_all host fuel config.buffer_size config.size given all,
      read_loop_all host fuel config.buffer_size config.size (file_fopened ∷ given) all,
    )

-- The bytes that came from the input.
abbrev pub bytes_read : Log → ℕ
bytes_read [] = 0
bytes_read (chunk_read n ∷ log) = n + bytes_read log
bytes_read (_ ∷ log) = bytes_read log

abbrev pub input_outcome : Option (ℕ × Log) → Option (ℕ × ℕ)
input_outcome none = none
input_outcome (some (result, log)) = some (result, bytes_read log)

-- Every fread reads all it is asked for.
abbrev pub ReadsAll : Host → Type 0
ReadsAll host = (log : Log) (n : ℕ) → host.fread log n ≡ n

write_loop_all :
    (host : Host) (fuel buffer_size remaining : ℕ) (log : Log)
    → ReadsAll host
    → 0 < buffer_size
    → remaining < 2 ^ 32
    → remaining ≤ fuel
    → input_outcome (write_loop host fuel buffer_size remaining log)
      ≡ some (0, remaining + bytes_read log)
unfolding write_loop
write_loop_all host zero buffer_size remaining log all pos small enough = ground arith
write_loop_all host (suc n) buffer_size remaining log all pos small enough =
    let k = chunk_size buffer_size remaining in
    ground (
      arith,
      all log k,
      write_loop_all host n buffer_size (sub32 remaining k) (chunk_read k ∷ log) all pos,
    )

-- Where the device is detected, not protected or forced, the memory and the file are there, every
-- fread is complete and the buffer is not empty, restore_flash succeeds after reading the whole
-- input file, on fuel of one unit for each byte; whatever the size of the device.
pub restore_flash_complete :
    (host : Host) (fuel : ℕ) (config : ToolConfig) (info : ToolDevice) (log : Log)
    → ReadsAll host
    → ((g : Log) (n : ℕ) → host.malloc g n ≡ true)
    → ((g : Log) → host.fopen g ≡ true)
    → info.detected ≡ true
    → (info.write_protected && not config.force) ≡ false
    → 0 < config.buffer_size
    → host.file_size < 2 ^ 32
    → host.file_size ≤ fuel
    → input_outcome (restore_flash host fuel config info log)
      ≡ some (0, host.file_size + bytes_read log)
unfolding restore_flash write_flash
restore_flash_complete host fuel config info log all memory files found permitted pos small enough =
    let started = file_fopened ∷ log in
    ground (
      arith,
      memory started config.buffer_size,
      files log,
      write_loop_all host fuel config.buffer_size host.file_size (malloced ∷ started) all,
    )

read_loop_empty :
    (host : Host) (fuel remaining : ℕ) (log : Log)
    → WritesAll host
    → 0 < remaining
    → remaining < 2 ^ 32
    → read_loop host fuel 0 remaining log ≡ none
unfolding read_loop
read_loop_empty host zero remaining log all pos small = ground arith
read_loop_empty host (suc n) remaining log all pos small =
    ground
      (arith, all log 0, read_loop_empty host n remaining (chunk_written 0 ∷ log) all pos small)

-- Where the device is detected, the memory and the file are there and every fwrite is complete,
-- read_flash with a buffer size of 0 and bytes to read never ends: no fuel is enough.
pub read_flash_endless :
    (host : Host) (fuel : ℕ) (config : ToolConfig) (info : ToolDevice) (log : Log)
    → WritesAll host
    → ((g : Log) (n : ℕ) → host.malloc g n ≡ true)
    → ((g : Log) → host.fopen g ≡ true)
    → info.detected ≡ true
    → config.buffer_size ≡ 0
    → 0 < config.size
    → config.size < 2 ^ 32
    → read_flash host fuel config info log ≡ none
unfolding read_flash read_to_file
read_flash_endless host fuel config info log all memory files found empty pos small =
    let given = malloced ∷ log in
    ground (
      arith,
      memory log config.buffer_size,
      files given,
      read_loop_empty host fuel config.size given all,
      read_loop_empty host fuel config.size (file_fopened ∷ given) all,
      ap (λ (b : ℕ). read_loop host fuel b config.size given) empty,
      ap (λ (b : ℕ). read_loop host fuel b config.size (file_fopened ∷ given)) empty,
    )
