-- ===== src/Storage/Serializer/Read.antt =====
-- What `Serializer::serialize_row` (src/storage/serializer.cpp) writes is the row.
use flex_ql_dl.Base.{
  ℕ, suc, ◌+◌, ◌-◌, ◌%◌, ◌^◌, ◌<◌, ltb, leb, ltb→le, le→leb, le→ltb, Bool-cases, inl, inr, true,
  false, Text, stoll, to_string, stoll-to_string, ◌≡◌, refl, sym, ap, ◌∙◌, List, [], ◌∷◌, map, some,
  arith, length, get_elem?,
}
use flex_ql_dl.Storage.Row.{
  ColumnType, int, float, decimal, char, varchar, datetime, ColumnDef, Value, le_bytes, read_value,
}
use flex_ql_dl.Storage.Row.Cells.{IsCell, Value_ext, le_number-le_bytes, c_str-end}
use flex_ql_dl.Storage.Row.Layout.{SizedColumn, Schema, column_count}
use flex_ql_dl.Storage.Table.Holds.{IsRow}
use flex_ql_dl.Storage.Row.Values.{extended, with_low, from_int, value_to_string}
use flex_ql_dl.Storage.Serializer.{
  cell_bytes, resize, write_cells, expiry_of, serialize_row, narrow, or_zero, encode_int,
}

-- The columns of a row, by the bytes of each.
abbrev pub read_cells : ℕ → List ColumnDef → List (List ℕ) → List Value
read_cells junk (d ∷ schema) (bytes ∷ cells) =
    read_value junk d.type (some bytes) ∷ read_cells junk schema cells
read_cells junk schema cells = []

-- Numbers of 64 bits, times and texts of any length.
abbrev pub IsSerial : ColumnType → Type 0
IsSerial decimal = Unit
IsSerial varchar = Unit
IsSerial datetime = Unit
IsSerial _ = ⊥

abbrev pub AreSerial : List ColumnDef → Type 0
AreSerial [] = Unit
AreSerial (d ∷ schema) = IsSerial d.type × AreSerial schema

number_bytes : ColumnType → Value → List ℕ
number_bytes t v = cell_bytes (record v { type = t })

cell_bytes-typed : (t : ColumnType) (v : Value) → v.type ≡ t → cell_bytes v ≡ number_bytes t v
unfolding number_bytes
cell_bytes-typed t v e = ap (λ u. cell_bytes (record v { type = u })) e

read_value-cell_bytes :
    (junk : ℕ) (t : ColumnType) (v : Value)
    → IsSerial t
    → IsCell junk t v
    → read_value junk t (some (cell_bytes v)) ≡ v
unfolding read_value cell_bytes number_bytes le_bytes
read_value-cell_bytes junk int v k h = absurd h
read_value-cell_bytes junk float v k h = absurd h
read_value-cell_bytes junk char v k h = absurd k
read_value-cell_bytes junk decimal v k h =
    ap (λ l. read_value junk decimal (some l)) (cell_bytes-typed decimal v h.0)
    ∙ Value_ext v decimal _ [] (sym h.0) (le_number-le_bytes v.bits h.1) (sym h.2)
read_value-cell_bytes junk datetime v k h =
    ap (λ l. read_value junk datetime (some l)) (cell_bytes-typed datetime v h.0)
    ∙ Value_ext v datetime _ [] (sym h.0) (le_number-le_bytes v.bits h.1) (sym h.2)
read_value-cell_bytes junk varchar v k h =
    ap (λ l. read_value junk varchar (some l)) (cell_bytes-typed varchar v h.0)
    ∙ Value_ext v varchar junk _ (sym h.0) (sym h.1) (c_str-end v.str h.3)

-- The bytes of a value before those of others that are the values read back.
cons_read :
    (junk : ℕ) (c : SizedColumn) (v : Value) (columns : List SizedColumn) (values : List Value)
    (written : List (List ℕ))
    → read_value junk c.def.type (some (cell_bytes v)) ≡ v
    → read_cells junk (map (λ c. c.def) columns) written ≡ values
    → read_cells junk (map (λ c. c.def) (c ∷ columns)) (cell_bytes v ∷ written) ≡ v ∷ values
cons_read junk c v columns values written here rest = rw (here, rest) refl

write_cells-read :
    (junk expiry : ℕ) (columns : List SizedColumn) (values : List Value) (cells : List (List ℕ))
    → AreSerial (map (λ c. c.def) columns)
    → IsRow junk (map (λ c. c.def) columns) values
    → let written = write_cells columns values expiry (resize (suc (length columns)) cells) in
      (read_cells junk (map (λ c. c.def) columns) written ≡ values)
      × (get_elem? written (length columns) ≡ some (le_bytes 8 expiry))
unfolding write_cells resize
write_cells-read junk expiry [] [] [] k h = (refl, refl)
write_cells-read junk expiry [] [] (d ∷ cells) k h = (refl, refl)
write_cells-read junk expiry [] (v ∷ values) cells k h = absurd h
write_cells-read junk expiry (c ∷ columns) [] cells k h = absurd h
write_cells-read junk expiry (c ∷ columns) (v ∷ values) [] k h =
    let (rest, last) = write_cells-read junk expiry columns values [] k.1 h.1 in
    (
      cons_read junk c v columns values _ (read_value-cell_bytes junk c.def.type v k.0 h.0) rest,
      last,
    )
write_cells-read junk expiry (c ∷ columns) (v ∷ values) (d ∷ cells) k h =
    let (rest, last) = write_cells-read junk expiry columns values cells k.1 h.1 in
    (
      cons_read junk c v columns values _ (read_value-cell_bytes junk c.def.type v k.0 h.0) rest,
      last,
    )

-- A row with a value for each column, of numbers of 64 bits, times and texts of up to 127 bytes with
-- no '\0': whatever lay in the columns before, what `serialize_row` leaves in them reads back as
-- the row, and behind them lies the row's expiry, or that of ten years from now.
pub serialize_row-read_cells :
    (junk now : ℕ) (schema : Schema) (values : List Value) (cells : List (List ℕ))
    → AreSerial (map (λ c. c.def) schema.columns)
    → IsRow junk (map (λ c. c.def) schema.columns) values
    → let written = serialize_row now schema values cells in
      (read_cells junk (map (λ c. c.def) schema.columns) written ≡ values)
      × (get_elem? written (column_count schema) ≡ some (le_bytes 8 (expiry_of now schema values)))
unfolding serialize_row
serialize_row-read_cells junk now schema values cells k h =
    write_cells-read junk (expiry_of now schema values) schema.columns values cells k h

narrow-extended : (n : ℕ) → n < 2 ^ 32 → or_zero (narrow (some (extended n))) ≡ n
narrow-extended n h = elim (Bool-cases (ltb n (2 ^ 31))) [
  | inl small ↦ let kept : n % 2 ^ 32 ≡ n = omega (arith, h) in rw small (rw small (rw kept refl))
  | inr large ↦
      let le = ltb→le n (2 ^ 31) large in
      let m = n + (2 ^ 64 - 2 ^ 32) in
      let high : leb (2 ^ 64 - 2 ^ 31) m ≡ true = le→leb (2 ^ 64 - 2 ^ 31) m (omega (arith, le)) in
      let not_low : ltb m (2 ^ 31) ≡ false = le→ltb m (2 ^ 31) (omega (arith, le)) in
      let kept : m % 2 ^ 32 ≡ n = omega (arith, h) in rw large (rw (not_low, high) kept)
]

-- The text that `Value::to_string` gives of an INT is read back by `encode_int`.
pub encode_int-value_to_string :
    (float_text format : ℕ → Text) (junk n : ℕ)
    → n < 2 ^ 32
    → encode_int (value_to_string float_text format (from_int junk n)) ≡ n
unfolding encode_int value_to_string
encode_int-value_to_string float_text format junk n h =
    let low : with_low junk n % 2 ^ 32 ≡ n = omega (arith, h) in
    let wide : extended n < 2 ^ 64 = ground (arith, h) in
    ap (λ m. or_zero (narrow (stoll (to_string (extended m))))) low
    ∙ ap (λ o. or_zero (narrow o)) (stoll-to_string (extended n) wide)
    ∙ narrow-extended n h
