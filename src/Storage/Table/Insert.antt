-- ===== src/Storage/Table/Insert.antt =====
-- `Table::insert_row` on a table that holds rows, src/storage/table.cpp.

use flex_ql_dl.Base.{
  ℕ, ◌<◌, ◌≡◌, refl, ap, ◌∙◌, false, List, [], ◌∷◌, ◌++◌, length, All-append, same_text,
  if◌then◌else◌, done,
}
use flex_ql_dl.Storage.Row.{ColumnDef, Value}
use flex_ql_dl.Storage.Column.{ColumnStore}
use flex_ql_dl.Storage.Table.{Table, id_text, next_rid, insert_values, insert_key, insert_row}
use flex_ql_dl.Storage.Table.Holds.{
  IsRow, Holds, AreRows, Stored, max_table_rows, insert_values-Holds, firsts, firsts-AreRows,
  length-map_stored,
}

-- The number of the next row, by the first column.
pub next_rid-length :
    (junk : ℕ) (d : ColumnDef) (schema : List ColumnDef) (rows : List (List Value))
    (columns : List ColumnStore)
    → AreRows junk (d ∷ schema) rows
    → Holds (d ∷ schema) rows columns
    → next_rid columns ≡ done (length rows)
next_rid-length junk d schema rows [] all h = absurd h
next_rid-length junk d schema rows (c ∷ columns) all h =
    let (same, _, _) = firsts-AreRows junk d schema rows all in
    ap done (h.0.total ∙ length-map_stored (firsts rows) ∙ same)

-- The table whose columns took the values in.
abbrev pub with_values : Table → List Value → Table
with_values t row = record t { columns = insert_values t.columns row }

module _ (junk : ℕ) (d : ColumnDef) (schema : List ColumnDef) (rows : List (List Value))
    (row : List Value) (t : Table) (typed : IsRow junk (d ∷ schema) row)
    (room : length rows < max_table_rows) (s : Stored junk (d ∷ schema) rows t) where
  pub with_values-Stored : Stored junk (d ∷ schema) (rows ++ row ∷ []) (with_values t row)
  with_values-Stored = record {
    same_schema = s.same_schema;
    typed = All-append (IsRow junk (d ∷ schema)) rows (row ∷ []) s.typed (typed, tt);
    holds = insert_values-Holds junk (d ∷ schema) rows t.columns row typed room s.holds;
  }

  pub insert_row-with_values :
      (fuel : ℕ)
      → insert_row fuel t row ≡ (
          if same_text d.name id_text
          then insert_key fuel (length rows) row (with_values t row)
          else done (with_values t row))
  unfolding insert_row
  insert_row-with_values fuel =
      let rid = next_rid-length junk d schema rows t.columns s.typed s.holds in
      rw (rid, s.same_schema) refl

  -- A row that is inserted into a table without an ID comes behind the rows of the table: the
  -- insert ends without a fault, as long as the row has a value of its type for each column and
  -- the column files have room.
  pub insert_row-Stored :
      (fuel : ℕ)
      → same_text d.name id_text ≡ false
      → (t' : Table) × (insert_row fuel t row ≡ done t')
        × Stored junk (d ∷ schema) (rows ++ row ∷ []) t'
  insert_row-Stored fuel no_id =
      (with_values t row, insert_row-with_values fuel ∙ rw no_id refl, with_values-Stored)
