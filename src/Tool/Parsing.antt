-- ===== src/Tool/Parsing.antt =====
-- What parse_arguments and main of flash_utility.c give, for every command line.
use usb_uefi_firmware.Common.{
  ℕ, zero, suc, ◌*◌, ◌^◌, ◌≤◌, ◌<◌, ◌≡◌, refl, Option, none, some, List, arith, length,
  length-take-le,
}
use usb_uefi_firmware.Tool.Arguments.{
  CommandLine, Round, go_on, exit_now, invalid_option, ParsedArguments, accepted, parse_size_string,
  parse_address_string, with_operand, set_size, set_input, apply_option, after_round, next_round,
  option_loop, parse_arguments,
}
use usb_uefi_firmware.Tool.State.{Operation, op_read, op_write, op_erase, ToolConfig, zero_config}

-- The numbers fit uint32_t, and the paths fit char[256] with their NUL.
pub record IsWellFormed (config : ToolConfig) : Type 0 where
  pub address_fits : config.address < 2 ^ 32
  pub size_fits : config.size < 2 ^ 32
  pub buffer_fits : config.buffer_size < 2 ^ 32
  pub device_fits : length config.device_path ≤ 255
  pub input_fits : length config.input_file ≤ 255
  pub output_fits : length config.output_file ≤ 255

-- The parser has returned, and an accepted configuration is well formed.
abbrev pub ReturnsWellFormed : Option ParsedArguments → Type 0
ReturnsWellFormed none = ⊥
ReturnsWellFormed (some (accepted config)) = IsWellFormed config
ReturnsWellFormed (some _) = Unit

abbrev GoesOn : {S : Type 0} → (S → ℕ) → ℕ → Round S → Type 0
GoesOn left bound (go_on s config) = IsWellFormed config × (left s ≤ bound)
GoesOn left bound _ = Unit

module _ {S : Type 0} (c : CommandLine S) where
  -- getopt_long makes progress: the number of arguments that are left falls with each option, and
  -- does not grow where one is skipped.
  pub record Progresses (left : S → ℕ) : Type 0 where
    pub falls :
        (s t : S) (code : ℕ) (optarg : List ℕ)
        → c.next_option s ≡ some (code, optarg, t)
        → left t < left s
    pub skips : (s : S) → left (c.skip s) ≤ left s

  parse_size_string_bound : (text : List ℕ) → parse_size_string c text < 2 ^ 32
  unfolding parse_size_string
  parse_size_string_bound text = ground arith

  parse_address_string_bound : (text : List ℕ) → parse_address_string c text < 2 ^ 32
  unfolding parse_address_string
  parse_address_string_bound text = omega arith

  with_operand-GoesOn :
      (left : S → ℕ) (f : List ℕ → ToolConfig → ToolConfig) (s : S) (config : ToolConfig)
      → Progresses left
      → ((text : List ℕ) → IsWellFormed (f text config))
      → IsWellFormed config
      → GoesOn left (left s) (with_operand c f s config)
  with_operand-GoesOn left f s config progress keeps v =
      elim (c.operand s)
        as (λ o. GoesOn left (left s) (elim o as (λ _. Round S) [
          | none ↦ go_on s config
          | some text ↦ go_on (c.skip s) (f text config)
        ])) [ none ↦ (v, omega arith) | some text ↦ (keeps text, progress.skips s) ]

  set_size-IsWellFormed :
      (text : List ℕ) (config : ToolConfig)
      → IsWellFormed config
      → IsWellFormed (set_size c text config)
  set_size-IsWellFormed text config v = ground (arith, parse_size_string_bound text)

  set_input-IsWellFormed :
      (text : List ℕ) (config : ToolConfig)
      → IsWellFormed config
      → IsWellFormed (set_input c text config)
  set_input-IsWellFormed text config v = ground (arith, length-take-le 255 text)

  apply_option-GoesOn :
      (left : S → ℕ) (code : ℕ) (optarg : List ℕ) (s : S) (config : ToolConfig)
      → Progresses left
      → IsWellFormed config
      → GoesOn left (left s) (apply_option c code optarg s config)
  unfolding apply_option
  apply_option-GoesOn left code optarg s config progress v =
      let at = parse_address_string_bound optarg in
      let addressed = λ (o : Operation). record config {
        operation = o;
        address = parse_address_string c optarg;
      } in
      let fits = λ (o : Operation). let w : IsWellFormed (addressed o) = ground arith in w in
      let reading =
        with_operand-GoesOn left (set_size c) s (addressed op_read) progress
          (λ text. set_size-IsWellFormed text (addressed op_read) (fits op_read)) (fits op_read) in
      let writing =
        with_operand-GoesOn left (set_input c) s (addressed op_write) progress
          (λ text. set_input-IsWellFormed text (addressed op_write) (fits op_write))
          (fits op_write) in
      let erasing =
        with_operand-GoesOn left (set_size c) s (addressed op_erase) progress
          (λ text. set_size-IsWellFormed text (addressed op_erase) (fits op_erase))
          (fits op_erase) in
      ground (
        arith,
        reading,
        writing,
        erasing,
        parse_size_string_bound optarg,
        length-take-le 255 optarg,
      )

  after_round-ReturnsWellFormed :
      (left : S → ℕ) (bound : ℕ) (rest : S → ToolConfig → Option ParsedArguments) (r : Round S)
      → GoesOn left bound r
      → ((s : S) (config : ToolConfig)
          → IsWellFormed config
          → left s ≤ bound
          → ReturnsWellFormed (rest s config))
      → ReturnsWellFormed (after_round c rest r)
  after_round-ReturnsWellFormed left bound rest (go_on s config) (v, less) good =
      good s config v less
  after_round-ReturnsWellFormed left bound rest exit_now goes good = tt
  after_round-ReturnsWellFormed left bound rest invalid_option goes good = tt

  -- `bound` is what is left before the round.
  next_round-ReturnsWellFormed :
      (left : S → ℕ) (bound : ℕ) (rest : S → ToolConfig → Option ParsedArguments)
      (found : Option (ℕ × List ℕ × S)) (config : ToolConfig)
      → Progresses left
      → IsWellFormed config
      → ((t : S) (code : ℕ) (optarg : List ℕ) → found ≡ some (code, optarg, t) → left t < bound)
      → ((s : S) (config : ToolConfig)
          → IsWellFormed config
          → left s < bound
          → ReturnsWellFormed (rest s config))
      → ReturnsWellFormed (next_round c rest found config)
  next_round-ReturnsWellFormed left bound rest none config progress v falls good = v
  next_round-ReturnsWellFormed left bound rest (some (code, optarg, t)) config progress v falls
        good =
      let less = falls t code optarg refl in
      after_round-ReturnsWellFormed left (left t) rest (apply_option c code optarg t config)
        (apply_option-GoesOn left code optarg t config progress v)
        (λ s d w most. good s d w (omega arith))

  option_loop-ReturnsWellFormed :
      (left : S → ℕ) (fuel : ℕ) (s : S) (config : ToolConfig)
      → Progresses left
      → IsWellFormed config
      → left s ≤ fuel
      → ReturnsWellFormed (option_loop c fuel s config)
  unfolding option_loop
  option_loop-ReturnsWellFormed left zero s config progress v enough =
      next_round-ReturnsWellFormed left (left s) (λ _ _. none) (c.next_option s) config progress v
        (progress.falls s) (λ t d w less. absurd (omega arith))
  option_loop-ReturnsWellFormed left (suc n) s config progress v enough =
      next_round-ReturnsWellFormed left (left s) (option_loop c n) (c.next_option s) config progress
        v (progress.falls s)
        (λ t d w less. option_loop-ReturnsWellFormed left n t d progress w (omega arith))

  -- Where getopt_long makes progress, the parser with fuel for the arguments that are left always
  -- returns, and a configuration that it accepts is well formed (`IsWellFormed`).
  pub parse_arguments-ReturnsWellFormed :
      (left : S → ℕ) (fuel : ℕ) (s : S)
      → Progresses left
      → left s ≤ fuel
      → ReturnsWellFormed (parse_arguments c fuel s zero_config)
  unfolding parse_arguments
  parse_arguments-ReturnsWellFormed left fuel s progress enough =
      option_loop-ReturnsWellFormed left fuel s (record zero_config { buffer_size = 64 * 1024 })
        progress (omega arith) enough
