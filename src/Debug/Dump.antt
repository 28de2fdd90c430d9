-- ===== src/Debug/Dump.antt =====
-- DebugHexDump. Each call of DEBUG is one printed item.
use usb_uefi_firmware.Common.{
  ℕ, zero, suc, ◌+◌, String, ◌&&◌, ◌||◌, Option, none, some, List, [], ◌∷◌, ◌++◌, ltb, leb, ◌==◌,
  if◌then◌else◌, is_null, u64,
}

pub data Printed : Type 0 where
  -- The title with the number of bytes, and the line below the rows.
  title : String → ℕ → Printed
  rule : Printed
  -- The offset of a row, a byte in hexadecimal, the blank of a byte that is missing, the space in the
  -- middle, the bar, a character, and the end of the row.
  row_at : ℕ → Printed
  hex : ℕ → Printed
  blank middle bar : Printed
  glyph : ℕ → Printed
  end_of_row : Printed

-- The loop over the 16 hexadecimal columns of the row at `i`, from column `j` on.
unfoldable pub hex_columns : (ℕ → ℕ) → ℕ → ℕ → ℕ → ℕ → List Printed
hex_columns memory length_of i zero j = []
hex_columns memory length_of i (suc rounds) j =
    let rest = hex_columns memory length_of i rounds (j + 1) in
    (if ltb (u64 (i + j)) length_of then hex (memory (u64 (i + j))) else blank)
    ∷ (if j == 7 then middle ∷ rest else rest)

-- `c >= 32 && c <= 126 ? c : '.'`.
abbrev pub glyph_of : ℕ → ℕ
glyph_of c = if leb 32 c && leb c 126 then c else b'.'

-- The loop over the characters of the row.
unfoldable pub glyph_columns : (ℕ → ℕ) → ℕ → ℕ → ℕ → ℕ → List Printed
glyph_columns memory length_of i zero j = []
glyph_columns memory length_of i (suc rounds) j =
    let rest = glyph_columns memory length_of i rounds (j + 1) in
    if ltb (u64 (i + j)) length_of then glyph (glyph_of (memory (u64 (i + j)))) ∷ rest else []

unfoldable pub dump_row : (ℕ → ℕ) → ℕ → ℕ → List Printed
dump_row memory length_of i =
    row_at i
    ∷ (hex_columns memory length_of i 16 0
        ++ bar ∷ (glyph_columns memory length_of i 16 0 ++ end_of_row ∷ []))

abbrev pub add_row : List Printed → Option (List Printed) → Option (List Printed)
add_row row none = none
add_row row (some rows) = some (row ++ rows)

-- The loop over the rows, on fuel, one unit for each row.
unfoldable pub dump_rows : (ℕ → ℕ) → ℕ → ℕ → ℕ → Option (List Printed)
dump_rows memory length_of zero i = if ltb i length_of then none else some []
dump_rows memory length_of (suc fuel) i =
    let rest =
      add_row (dump_row memory length_of i) (dump_rows memory length_of fuel (u64 (i + 16))) in
    if ltb i length_of then rest else some []

abbrev pub frame : String → ℕ → Option (List Printed) → Option (List Printed)
frame name length_of none = none
frame name length_of (some rows) = some (title name length_of ∷ (rows ++ rule ∷ []))

-- `memory` holds the bytes from `Data` on, and `data_at` is that pointer.
unfoldable pub debug_hex_dump : (ℕ → ℕ) → ℕ → ℕ → ℕ → Option String → Option (List Printed)
debug_hex_dump memory fuel data_at length_of description =
    if is_null data_at || length_of == 0
    then some []
    else frame (elim description [ none ↦ "Data" | some name ↦ name ]) length_of
        (dump_rows memory length_of fuel 0)
