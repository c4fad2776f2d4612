-- ===== src/Executor/Rows.antt =====
-- `Executor::materialize_row` (src/executor/executor.cpp), and the same loop in
-- src/executor/hash_join.cpp. A `Table*` is an address of the heap, so that two pointers to one
-- table share its caches.
pub mod Held
pub mod Lookup
pub mod Indexed
use flex_ql_dl.Base.{ℕ, zero, suc, ◌+◌, List, [], ◌∷◌, ◌++◌, Option, none, some, update}
use flex_ql_dl.Storage.Row.{ColumnDef, Value, read_size, read_value}
use flex_ql_dl.Storage.Column.{ColumnStore}
use flex_ql_dl.Storage.Reader.{read_at}
use flex_ql_dl.Storage.Table.{Table}

abbrev pub Heap : Type 0
Heap = ℕ → Table

-- `junk` is what a union holds that was never written.
module _ (junk : ℕ) where
  -- The loop over the columns.
  unfoldable pub read_row : ℕ → List ColumnDef → List ColumnStore → List Value × List ColumnStore
  unfolding read_value
  read_row rid [] columns = ([], columns)
  read_row rid (d ∷ schema) [] = ([], [])
  read_row rid (d ∷ schema) (c ∷ columns) =
      let (out, f) = read_at rid (read_size d.type) c.file in
      let (values, columns') = read_row rid schema columns in
      (read_value junk d.type out ∷ values, record c { file = f } ∷ columns')

  unfoldable pub materialize_row : ℕ → ℕ → Heap → List Value × Heap
  unfolding read_row
  materialize_row table rid heap =
      let (row, columns) = read_row rid (heap table).schema (heap table).columns in
      (row, update heap table (record (heap table) { columns = columns }))

  -- The rows of the numbers from `rid` on, for `n` rows.
  unfoldable pub materialize_from : ℕ → ℕ → ℕ → Heap → List (List Value) × Heap
  unfolding materialize_row
  materialize_from table rid zero heap = ([], heap)
  materialize_from table rid (suc n) heap =
      let (row, heap') = materialize_row table rid heap in
      let (rows, heap'') = materialize_from table (rid + 1) n heap' in (row ∷ rows, heap'')
