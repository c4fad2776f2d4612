-- ===== src/Executor/HashJoin.antt =====
-- `HashJoin::join` (include/executor/hash_join.h, src/executor/hash_join.cpp). The tables are
-- addresses of the heap, so a table may be joined with itself. `unordered_map` is a function of
-- the key.
pub mod Reference
pub mod Build
pub mod Nested
use flex_ql_dl.Base.{
  ℕ, zero, suc, ◌+◌, List, [], ◌∷◌, ◌++◌, Option, none, some, if◌then◌else◌, update, get_elem?,
  take, Text, same_text,
}
use mathlib.Core.Option
use flex_ql_dl.Storage.Row.{ColumnDef, Value, le_number}
use flex_ql_dl.Storage.Column.{ColumnStore}
use flex_ql_dl.Storage.Reader.{read_at}
use flex_ql_dl.Storage.Table.{Table, get_column}
use flex_ql_dl.Executor.Rows.{Heap, materialize_row}

-- The index of the first column with the name; `none` is -1.
unfoldable pub find_column : Text → List ColumnDef → Option ℕ
find_column name [] = none
find_column name (d ∷ schema) =
    let rest = find_column name schema in
    if same_text d.name name then some 0 else Option.map suc rest

-- `read_at(rid, buf, 8)` and `memcpy(&val, buf.data(), 8)` on the column of an index.
unfoldable pub read_key : ℕ → ℕ → List ColumnStore → Option ℕ × List ColumnStore
read_key rid i [] = (none, [])
read_key rid zero (c ∷ columns) =
    let (out, f) = read_at rid 8 c.file in
    (Option.map (λ buf. le_number (take 8 buf)) out, record c { file = f } ∷ columns)
read_key rid (suc i) (c ∷ columns) =
    let (key, columns') = read_key rid i columns in (key, c ∷ columns')

unfoldable pub table_key : ℕ → ℕ → ℕ → Heap → Option ℕ × Heap
unfolding read_key
table_key table rid i heap =
    let (key, columns) = read_key rid i (heap table).columns in
    (key, update heap table (record (heap table) { columns = columns }))

abbrev pub HashTable : Type 0
HashTable = ℕ → Option (List ℕ)

abbrev pub bucket : Option (List ℕ) → List ℕ
bucket none = []
bucket (some rids) = rids

-- `hash_table[val].push_back(rid)`, if a key was read.
abbrev pub add_rid : Option ℕ → ℕ → HashTable → HashTable
add_rid none rid hash_table = hash_table
add_rid (some val) rid hash_table =
    update hash_table val (some (bucket (hash_table val) ++ rid ∷ []))

-- The build phase, from the row `rid` on, for `n` rows.
unfoldable pub build : ℕ → ℕ → ℕ → ℕ → HashTable → Heap → HashTable × Heap
unfolding table_key
build table i rid zero hash_table heap = (hash_table, heap)
build table i rid (suc n) hash_table heap =
    let (key, heap') = table_key table rid i heap in
    build table i (rid + 1) n (add_rid key rid hash_table) heap'

-- `hash_table.count(val)`, with what is found.
abbrev pub matches : Option ℕ → HashTable → Option (List ℕ)
matches none hash_table = none
matches (some val) hash_table = hash_table val

module _ (junk : ℕ) where
  -- The rows of the second table behind one of the first.
  unfoldable pub join_rids : List Value → ℕ → List ℕ → Heap → List (List Value) × Heap
  join_rids row1 table2 [] heap = ([], heap)
  join_rids row1 table2 (rid ∷ rids) heap =
      let (row2, heap') = materialize_row junk table2 rid heap in
      let (rows, heap'') = join_rids row1 table2 rids heap' in ((row1 ++ row2) ∷ rows, heap'')

  unfoldable pub join_matches : ℕ → ℕ → ℕ → Option (List ℕ) → Heap → List (List Value) × Heap
  unfolding join_rids
  join_matches table1 table2 rid none heap = ([], heap)
  join_matches table1 table2 rid (some rids) heap =
      let (row1, heap') = materialize_row junk table1 rid heap in join_rids row1 table2 rids heap'

  -- The probe phase, from the row `rid` on, for `n` rows.
  unfoldable pub probe : ℕ → ℕ → ℕ → HashTable → ℕ → ℕ → Heap → List (List Value) × Heap
  unfolding table_key join_matches
  probe table1 i table2 hash_table rid zero heap = ([], heap)
  probe table1 i table2 hash_table rid (suc n) heap =
      let (key, heap') = table_key table1 rid i heap in
      let (rows, heap'') = join_matches table1 table2 rid (matches key hash_table) heap' in
      let (more, heap''') = probe table1 i table2 hash_table (rid + 1) n heap'' in
      (rows ++ more, heap''')

  -- `get_total_rows` of the column of an index.
  abbrev pub rows_of : Table → ℕ → ℕ
  rows_of t i = elim (get_column t i) [ none ↦ 0 | some c ↦ c.total_rows ]

  unfoldable pub join_on : ℕ → ℕ → Option ℕ → Option ℕ → Heap → List (List Value) × Heap
  unfolding build probe
  join_on table1 table2 none c2 heap = ([], heap)
  join_on table1 table2 (some i1) none heap = ([], heap)
  join_on table1 table2 (some i1) (some i2) heap =
      let (hash_table, heap') = build table2 i2 0 (rows_of (heap table2) i2) (λ _. none) heap in
      probe table1 i1 table2 hash_table 0 (rows_of (heap' table1) i1) heap'

  unfoldable pub join : ℕ → ℕ → Text → Text → Heap → List (List Value) × Heap
  unfolding find_column join_on
  join table1 table2 col1 col2 heap =
      join_on table1 table2 (find_column col1 (heap table1).schema)
        (find_column col2 (heap table2).schema) heap
