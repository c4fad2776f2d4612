-- ===== src/Storage/Serializer.antt =====
-- `Serializer` (src/storage/serializer.cpp): texts to numbers, and a row to the bytes of its columns.
-- `now` is what the clock gives.
pub mod Read
use flex_ql_dl.Base.{
  ℕ, zero, suc, ◌+◌, ◌-◌, ◌%◌, ◌^◌, Bool, ◌&&◌, ◌||◌, List, [], ◌∷◌, Option, none, some, ltb, leb,
  if◌then◌else◌, length, get_elem?, Text, stoll,
}
use flex_ql_dl.Storage.Row.{
  ColumnType, int, float, decimal, char, varchar, datetime, Value, le_bytes,
}
use flex_ql_dl.Storage.Row.Layout.{SizedColumn, Schema, column_count}

-- `std::stoi`: the 32 bits of a number in their range.
abbrev pub narrow : Option ℕ → Option ℕ
narrow none = none
narrow (some n) = if ltb n (2 ^ 31) || leb (2 ^ 64 - 2 ^ 31) n then some (n % 2 ^ 32) else none

abbrev pub or_zero : Option ℕ → ℕ
or_zero none = 0
or_zero (some n) = n

-- An exception is caught, and gives 0.
unfoldable pub encode_int : Text → ℕ
unfolding stoll
encode_int val = or_zero (narrow (stoll val))

unfoldable pub encode_datetime : Text → ℕ
unfolding stoll
encode_datetime val = or_zero (stoll val)

abbrev pub encode_varchar : Text → List ℕ
encode_varchar val = val

-- The bytes of a value.
unfoldable pub cell_bytes : Value → List ℕ
unfolding le_bytes
cell_bytes v = elim v.type [
  | int ↦ le_bytes 4 v.bits
  | datetime ↦ le_bytes 8 v.bits
  | decimal ↦ le_bytes 8 v.bits
  | varchar ↦ encode_varchar v.str
  | char ↦ encode_varchar v.str
  | float ↦ le_bytes 4 v.bits
]

-- `column_data.resize(n)`
unfoldable pub resize : ℕ → List (List ℕ) → List (List ℕ)
resize zero cells = []
resize (suc n) [] = [] ∷ resize n []
resize (suc n) (d ∷ cells) = d ∷ resize n cells

-- The loop over the columns, and the expiry behind it. A column for which the row has no value keeps
-- what was there.
unfoldable pub write_cells : List SizedColumn → List Value → ℕ → List (List ℕ) → List (List ℕ)
unfolding cell_bytes le_bytes
write_cells columns values expiry [] = []
write_cells [] values expiry (d ∷ cells) = le_bytes 8 expiry ∷ cells
write_cells (c ∷ columns) [] expiry (d ∷ cells) = d ∷ write_cells columns [] expiry cells
write_cells (c ∷ columns) (v ∷ values) expiry (d ∷ cells) =
    cell_bytes v ∷ write_cells columns values expiry cells

-- Ten years from now, unless the row has a column for it.
abbrev pub expiry_of : ℕ → Schema → List Value → ℕ
expiry_of now schema values = elim (get_elem? values schema.expiry_col_idx) [
  | none ↦ (now + 315360000) % 2 ^ 64
  | some v ↦
      if ltb schema.expiry_col_idx (column_count schema) then v.bits else (now + 315360000) % 2 ^ 64
]

unfoldable pub serialize_row : ℕ → Schema → List Value → List (List ℕ) → List (List ℕ)
unfolding write_cells resize
serialize_row now schema values column_data =
    write_cells schema.columns values (expiry_of now schema values)
      (resize (suc (column_count schema)) column_data)
