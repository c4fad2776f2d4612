-- ===== src/Storage/RowTests.antt =====
-- The layout and the serialization of rows at concrete inputs.
use flex_ql_dl.Base.{ℕ, ◌<◌, ◌≡◌, refl, false, List, [], ◌∷◌, map, some, arith, get_elem?, take}
use flex_ql_dl.Storage.Row.{decimal, varchar, Value, le_bytes}
use flex_ql_dl.Storage.Row.Layout.{
  SizedColumn, Schema, new_schema, column_count, layout_from, finalize, total_width,
  finalize-total_width,
}
use flex_ql_dl.Storage.Serializer.{serialize_row, expiry_of}
use flex_ql_dl.Storage.Serializer.Read.{read_cells, serialize_row-read_cells}

abbrev number_column : SizedColumn
number_column = record {
  def = record { name = b'A' ∷ []; type = decimal };
  is_primary = false;
  size = 0;
}

-- VARCHAR(n)
abbrev text_column : ℕ → SizedColumn
text_column n = record {
  def = record { name = b'N' ∷ []; type = varchar };
  is_primary = false;
  size = n;
}

abbrev schema : Schema
schema = new_schema (number_column ∷ text_column 20 ∷ [])

finalize-total_width_example :
    ((finalize schema).columns ≡ schema.columns)
    × ((finalize schema).fixed_row_size ≡ total_width schema.columns)
    × ((i : ℕ)
        → i < column_count schema
        → get_elem? (finalize schema).col_offsets i ≡ some (total_width (take i schema.columns)))
finalize-total_width_example = finalize-total_width schema (omega arith)

-- Behind a text of 65534 bytes and its length, the offsets begin at 0 again.
offsets_wrap :
    (finalize (new_schema (text_column 65534 ∷ number_column ∷ []))).col_offsets ≡ 0 ∷ 0 ∷ []
unfolding finalize layout_from
offsets_wrap = refl

abbrev values : List Value
values =
    record { type = decimal; bits = 300; str = [] }
    ∷ record { type = varchar; bits = 0; str = b'x' ∷ [] }
    ∷ []

serialize_row-read_cells_example :
    let written = serialize_row 5 schema values ((9 ∷ []) ∷ []) in
    (read_cells 0 (map (λ c. c.def) schema.columns) written ≡ values)
    × (get_elem? written (column_count schema) ≡ some (le_bytes 8 (expiry_of 5 schema values)))
serialize_row-read_cells_example =
    serialize_row-read_cells 0 5 schema values ((9 ∷ []) ∷ []) (tt, (tt, tt))
      ((refl, omega arith, refl), ((refl, refl, omega arith, (refl, tt)), tt))
