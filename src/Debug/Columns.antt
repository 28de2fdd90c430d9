-- ===== src/Debug/Columns.antt =====
-- What DebugHexDump prints of the bytes: all of them, in their order.
use usb_uefi_firmware.Common.{
  ℕ, zero, suc, ◌+◌, ◌-◌, ◌*◌, ◌^◌, ◌≤◌, ◌<◌, String, ◌≡◌, refl, ap, ◌∙◌, inl, inr, false, Option,
  none, some, List, [], ◌∷◌, ◌++◌, arith, ltb, if◌then◌else◌, is_null, Bool-cases, u64,
}
use usb_uefi_firmware.Debug.Dump.{
  Printed, rule, hex, bar, end_of_row, hex_columns, glyph_columns, dump_row, add_row, dump_rows,
  frame, debug_hex_dump,
}
use mathlib.Core.List.{append-nil}
use mathlib.Core.Path.{ap₂}

-- The bytes from an address on.
abbrev pub bytes_from : (ℕ → ℕ) → ℕ → ℕ → List ℕ
bytes_from memory at zero = []
bytes_from memory at (suc n) = memory at ∷ bytes_from memory (at + 1) n

-- The bytes that a text shows in hexadecimal.
abbrev pub hexes : List Printed → List ℕ
hexes [] = []
hexes (hex b ∷ items) = b ∷ hexes items
hexes (_ ∷ items) = hexes items

hexes-append : (xs ys : List Printed) → hexes (xs ++ ys) ≡ hexes xs ++ hexes ys
hexes-append [] ys = refl
hexes-append (hex b ∷ xs) ys = cc (hexes-append xs ys)
hexes-append (_ ∷ xs) ys = hexes-append xs ys

-- How many of `rounds` columns from byte `at` on hold a byte.
abbrev pub filled_columns : ℕ → ℕ → ℕ → ℕ
filled_columns length_of rounds at = if ltb (length_of - at) rounds then length_of - at else rounds

-- The bytes of the next columns that lie in the data.
present : (ℕ → ℕ) → ℕ → ℕ → ℕ → List ℕ
present memory length_of at zero = []
present memory length_of at (suc n) =
    let rest = present memory length_of (at + 1) n in
    if ltb at length_of then memory at ∷ rest else rest

present-bytes_from :
    (memory : ℕ → ℕ) (length_of at n : ℕ)
    → present memory length_of at n ≡ bytes_from memory at (filled_columns length_of n at)
unfolding present
present-bytes_from memory length_of at zero = ground arith
present-bytes_from memory length_of at (suc n) = elim (Bool-cases (ltb at length_of)) [
  | inl inside ↦
      let e : filled_columns length_of (suc n) at ≡ suc (filled_columns length_of n (at + 1)) =
        ground arith in
      rw (e, inside)
        (ap (λ (l : List ℕ). memory at ∷ l) (present-bytes_from memory length_of (at + 1) n))
  | inr outside ↦
      let e : filled_columns length_of (suc n) at ≡ 0 = ground arith in
      let e' : filled_columns length_of n (at + 1) ≡ 0 = ground arith in
      rw (e, outside)
        (present-bytes_from memory length_of (at + 1) n ∙ ap (bytes_from memory (at + 1)) e')
]

hexes-hex_columns :
    (memory : ℕ → ℕ) (length_of i rounds j : ℕ)
    → i + j + rounds < 2 ^ 64
    → hexes (hex_columns memory length_of i rounds j) ≡ present memory length_of (i + j) rounds
unfolding hex_columns present
hexes-hex_columns memory length_of i zero j fits = refl
hexes-hex_columns memory length_of i (suc n) j fits =
    let e : i + (j + 1) ≡ i + j + 1 = omega arith in
    let ih = hexes-hex_columns memory length_of i n (j + 1) (omega arith) in
    let next_bytes : hexes (hex_columns memory length_of i n (j + 1))
        ≡ present memory length_of (i + j + 1) n =
      ih ∙ ap (λ (t : ℕ). present memory length_of t n) e in
    ground (arith, next_bytes)

hexes-glyph_columns :
    (memory : ℕ → ℕ) (length_of i rounds j : ℕ)
    → hexes (glyph_columns memory length_of i rounds j) ≡ []
unfolding glyph_columns
hexes-glyph_columns memory length_of i zero j = refl
hexes-glyph_columns memory length_of i (suc n) j =
    ground (arith, hexes-glyph_columns memory length_of i n (j + 1))

hexes-dump_row :
    (memory : ℕ → ℕ) (length_of i : ℕ)
    → i + 16 < 2 ^ 64
    → hexes (dump_row memory length_of i) ≡ bytes_from memory i (filled_columns length_of 16 i)
unfolding dump_row
hexes-dump_row memory length_of i fits =
    let shown_hex = hex_columns memory length_of i 16 0 in
    let shown_glyphs = glyph_columns memory length_of i 16 0 in
    let at_start : i + 0 ≡ i = omega arith in
    let bytes : hexes shown_hex ≡ bytes_from memory i (filled_columns length_of 16 i) =
      hexes-hex_columns memory length_of i 16 0 (omega arith)
      ∙ ap (λ (t : ℕ). present memory length_of t 16) at_start
      ∙ present-bytes_from memory length_of i 16 in
    let others : hexes (bar ∷ (shown_glyphs ++ end_of_row ∷ [])) ≡ [] =
      hexes-append shown_glyphs (end_of_row ∷ [])
      ∙ ap (λ (l : List ℕ). l ++ []) (hexes-glyph_columns memory length_of i 16 0) in
    hexes-append shown_hex (bar ∷ (shown_glyphs ++ end_of_row ∷ []))
    ∙ ap₂ ◌++◌ bytes others
    ∙ append-nil (bytes_from memory i (filled_columns length_of 16 i))

bytes_from-append :
    (memory : ℕ → ℕ) (at m n : ℕ)
    → bytes_from memory at m ++ bytes_from memory (at + m) n ≡ bytes_from memory at (m + n)
bytes_from-append memory at zero n =
    let e : at + 0 ≡ at = omega arith in
    let e' : n ≡ 0 + n = omega arith in
    ap (λ (t : ℕ). bytes_from memory t n) e ∙ ap (bytes_from memory at) e'
bytes_from-append memory at (suc m) n =
    let e : at + suc m ≡ at + 1 + m = omega arith in
    let e' : suc (m + n) ≡ suc m + n = omega arith in
    ap (λ (l : List ℕ). memory at ∷ l)
      (ap (λ (t : ℕ). bytes_from memory (at + 1) m ++ bytes_from memory t n) e
        ∙ bytes_from-append memory (at + 1) m n)
    ∙ ap (bytes_from memory at) e'

-- The bytes that a finished dump shows.
abbrev pub shown : Option (List Printed) → Option (List ℕ)
shown none = none
shown (some items) = some (hexes items)

add_row_lem :
    (row : List Printed) (rows : Option (List Printed)) (xs ys : List ℕ)
    → hexes row ≡ xs
    → shown rows ≡ some ys
    → shown (add_row row rows) ≡ some (xs ++ ys)
add_row_lem row none xs ys e e' = ground arith
add_row_lem row (some rows) xs ys e e' =
    let e'' : hexes rows ≡ ys = cc in ap some (hexes-append row rows ∙ ap₂ ◌++◌ e e'')

row_and_rest :
    (memory : ℕ → ℕ) (length_of i : ℕ)
    → i < length_of
    → bytes_from memory i (filled_columns length_of 16 i)
        ++ bytes_from memory (i + 16) (length_of - (i + 16))
      ≡ bytes_from memory i (length_of - i)
row_and_rest memory length_of i inside = elim (Bool-cases (ltb (length_of - i) 16)) [
  | inl last ↦
      let e : filled_columns length_of 16 i ≡ length_of - i = ground arith in
      let e' : length_of - (i + 16) ≡ 0 = ground arith in
      ap₂ (λ (m n : ℕ). bytes_from memory i m ++ bytes_from memory (i + 16) n) e e'
      ∙ append-nil (bytes_from memory i (length_of - i))
  | inr whole ↦
      let e : filled_columns length_of 16 i ≡ 16 = ground arith in
      let e' : 16 + (length_of - (i + 16)) ≡ length_of - i = ground arith in
      ap (λ (m : ℕ). bytes_from memory i m ++ bytes_from memory (i + 16) (length_of - (i + 16))) e
      ∙ bytes_from-append memory i 16 (length_of - (i + 16))
      ∙ ap (bytes_from memory i) e'
]

dump_rows_lem :
    (memory : ℕ → ℕ) (length_of fuel i : ℕ)
    → length_of + 16 < 2 ^ 64
    → length_of ≤ i + 16 * fuel
    → shown (dump_rows memory length_of fuel i) ≡ some (bytes_from memory i (length_of - i))
unfolding dump_rows
dump_rows_lem memory length_of zero i small enough =
    let e : length_of - i ≡ 0 = omega arith in ground (arith, ap (bytes_from memory i) e)
dump_rows_lem memory length_of (suc n) i small enough = elim (Bool-cases (ltb i length_of)) [
  | inl inside ↦
      let next_row : u64 (i + 16) ≡ i + 16 = ground arith in
      let rest : shown (dump_rows memory length_of n (u64 (i + 16)))
          ≡ some (bytes_from memory (i + 16) (length_of - (i + 16))) =
        rw next_row (dump_rows_lem memory length_of n (i + 16) small (omega arith)) in
      let joined =
        add_row_lem (dump_row memory length_of i) (dump_rows memory length_of n (u64 (i + 16)))
          (bytes_from memory i (filled_columns length_of 16 i))
          (bytes_from memory (i + 16) (length_of - (i + 16)))
          (hexes-dump_row memory length_of i (ground arith)) rest in
      rw inside (joined ∙ ap some (row_and_rest memory length_of i (ground arith)))
  | inr outside ↦
      let e : length_of - i ≡ 0 = ground arith in ground (arith, ap (bytes_from memory i) e)
]

frame_lem :
    (name : String) (n : ℕ) (rows : Option (List Printed)) (ys : List ℕ)
    → shown rows ≡ some ys
    → shown (frame name n rows) ≡ some ys
frame_lem name n none ys e = ground arith
frame_lem name n (some rows) ys e =
    ap some (hexes-append rows (rule ∷ []) ∙ append-nil (hexes rows)) ∙ e

-- For data that end at least 16 bytes below 2^64, DebugHexDump ends on fuel of one unit for each row
-- of 16 bytes, and the bytes that it shows in hexadecimal are exactly the data, in their order.
pub debug_hex_dump_shows :
    (memory : ℕ → ℕ) (fuel data_at length_of : ℕ) (description : Option String)
    → is_null data_at ≡ false
    → length_of + 16 < 2 ^ 64
    → length_of ≤ 16 * fuel
    → shown (debug_hex_dump memory fuel data_at length_of description)
      ≡ some (bytes_from memory 0 length_of)
unfolding debug_hex_dump
debug_hex_dump_shows memory fuel data_at length_of description given small enough =
    let name : String = elim description [ none ↦ "Data" | some name ↦ name ] in
    let whole : length_of - 0 ≡ length_of = omega arith in
    let rows = dump_rows_lem memory length_of fuel 0 small (omega arith) in
    ground (
      arith,
      frame_lem name length_of (dump_rows memory length_of fuel 0) (bytes_from memory 0 length_of),
      rows,
      ap (bytes_from memory 0) whole,
    )
