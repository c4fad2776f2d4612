-- ===== src/Storage/Table/Holds.antt =====
-- When the columns of a table hold a list of rows, and that the operations of
-- src/storage/table.cpp keep it so.
use flex_ql_dl.Base.{
  ℕ, zero, suc, ◌<◌, ◌≤◌, ◌≡◌, refl, ap, List, [], ◌∷◌, ◌++◌, map, some, arith, length, get_elem?,
  All,
}
use mathlib.Core.List.{map-append}
use mathlib.Core.Path.{subst}
use mathlib.Core.Option.{some_inj}
use flex_ql_dl.Storage.Row.{
  ColumnType, int, float, decimal, char, varchar, datetime, ColumnDef, Value, stored_bytes,
  stored_size, read_size,
}
use flex_ql_dl.Storage.Row.Cells.{IsCell, length-stored_bytes}
use flex_ql_dl.Storage.Column
use flex_ql_dl.Storage.Column.{ColumnStore}
use flex_ql_dl.Storage.Column.Represents.{Fits, Represents}
use flex_ql_dl.Storage.Column.Open.{max_rows}
use flex_ql_dl.Storage.Column.Append.{insert_fixed-Represents}
use flex_ql_dl.Storage.Column.Lifecycle.{clear-Represents, flush-Represents}
use flex_ql_dl.Storage.Table.{Table, insert_values}

-- The first column of a list of rows, and the other columns.
abbrev pub firsts : List (List Value) → List Value
firsts [] = []
firsts ([] ∷ rows) = firsts rows
firsts ((v ∷ row) ∷ rows) = v ∷ firsts rows

abbrev pub rests : List (List Value) → List (List Value)
rests [] = []
rests ([] ∷ rows) = rests rows
rests ((v ∷ row) ∷ rows) = row ∷ rests rows

-- A value for each column, of its type.
abbrev pub IsRow : ℕ → List ColumnDef → List Value → Type 0
IsRow junk [] [] = Unit
IsRow junk (d ∷ schema) (v ∷ row) = IsCell junk d.type v × IsRow junk schema row
IsRow junk _ _ = ⊥

-- Each column file holds its column of the rows.
abbrev pub Holds : List ColumnDef → List (List Value) → List ColumnStore → Type 0
Holds [] rows [] = Unit
Holds (d ∷ schema) rows (c ∷ columns) =
    Represents (read_size d.type) (map stored_bytes (firsts rows)) c
    × Holds schema (rests rows) columns
Holds _ _ _ = ⊥

pub read_size-Fits : (t : ColumnType) → Fits (read_size t)
read_size-Fits int = (omega arith, omega arith)
read_size-Fits float = (omega arith, omega arith)
read_size-Fits decimal = (omega arith, omega arith)
read_size-Fits char = (omega arith, omega arith)
read_size-Fits varchar = (omega arith, omega arith)
read_size-Fits datetime = (omega arith, omega arith)

-- As many rows as a file holds of the widest items.
abbrev pub max_table_rows : ℕ
max_table_rows = max_rows 128

max_rows-read_size : (t : ColumnType) → max_table_rows ≤ max_rows (read_size t)
max_rows-read_size int = omega arith
max_rows-read_size float = omega arith
max_rows-read_size decimal = omega arith
max_rows-read_size char = omega arith
max_rows-read_size varchar = omega arith
max_rows-read_size datetime = omega arith

stored_size-read_size :
    (junk : ℕ) (t : ColumnType) (v : Value) → IsCell junk t v → stored_size v.type ≡ read_size t
stored_size-read_size junk int v h = absurd h
stored_size-read_size junk float v h = absurd h
stored_size-read_size junk decimal v h = rw h.0 refl
stored_size-read_size junk char v h = rw h.0 refl
stored_size-read_size junk varchar v h = rw h.0 refl
stored_size-read_size junk datetime v h = rw h.0 refl

firsts-append :
    (rows : List (List Value)) (v : Value) (row : List Value)
    → firsts (rows ++ (v ∷ row) ∷ []) ≡ firsts rows ++ v ∷ []
firsts-append [] v row = refl
firsts-append ([] ∷ rows) v row = firsts-append rows v row
firsts-append ((w ∷ r) ∷ rows) v row = ap (λ l. w ∷ l) (firsts-append rows v row)

rests-append :
    (rows : List (List Value)) (v : Value) (row : List Value)
    → rests (rows ++ (v ∷ row) ∷ []) ≡ rests rows ++ row ∷ []
rests-append [] v row = refl
rests-append ([] ∷ rows) v row = rests-append rows v row
rests-append ((w ∷ r) ∷ rows) v row = ap (λ l. r ∷ l) (rests-append rows v row)

length-firsts : (rows : List (List Value)) → length (firsts rows) ≤ length rows
length-firsts [] = omega arith
length-firsts ([] ∷ rows) = omega (arith, length-firsts rows)
length-firsts ((v ∷ row) ∷ rows) = omega (arith, length-firsts rows)

length-rests : (rows : List (List Value)) → length (rests rows) ≤ length rows
length-rests [] = omega arith
length-rests ([] ∷ rows) = omega (arith, length-rests rows)
length-rests ((v ∷ row) ∷ rows) = omega (arith, length-rests rows)

pub length-map_stored : (l : List Value) → length (map stored_bytes l) ≡ length l
length-map_stored [] = refl
length-map_stored (v ∷ l) = ap suc (length-map_stored l)

-- The columns of a row that is inserted take its values in.
pub insert_values-Holds :
    (junk : ℕ) (schema : List ColumnDef) (rows : List (List Value)) (columns : List ColumnStore)
    (row : List Value)
    → IsRow junk schema row
    → length rows < max_table_rows
    → Holds schema rows columns
    → Holds schema (rows ++ row ∷ []) (insert_values columns row)
unfolding insert_values
insert_values-Holds junk [] rows [] [] ok room h = tt
insert_values-Holds junk [] rows [] (v ∷ row) ok room h = absurd ok
insert_values-Holds junk [] rows (c ∷ columns) row ok room h = absurd h
insert_values-Holds junk (d ∷ schema) rows [] row ok room h = absurd h
insert_values-Holds junk (d ∷ schema) rows (c ∷ columns) [] ok room h = absurd ok
insert_values-Holds junk (d ∷ schema) rows (c ∷ columns) (v ∷ row) ok room h =
    let size = read_size d.type in
    let held = map stored_bytes (firsts rows) in
    let few : length held < max_rows size =
      omega
        (arith, length-map_stored (firsts rows), length-firsts rows, max_rows-read_size d.type) in
    let stored =
      insert_fixed-Represents size held (stored_bytes v) c (read_size-Fits d.type)
        (length-stored_bytes junk d.type v ok.0) few h.0 in
    let others =
      insert_values-Holds junk schema (rests rows) columns row ok.1
        (omega (arith, length-rests rows)) h.1 in
    rw
      (
        firsts-append rows v row,
        rests-append rows v row,
        map-append,
        stored_size-read_size junk d.type v ok.0,
      )
      (stored, others)

pub clear-Holds :
    (schema : List ColumnDef) (rows : List (List Value)) (columns : List ColumnStore)
    → Holds schema rows columns
    → Holds schema [] (map Column.clear columns)
clear-Holds [] rows [] h = tt
clear-Holds [] rows (c ∷ columns) h = absurd h
clear-Holds (d ∷ schema) rows [] h = absurd h
clear-Holds (d ∷ schema) rows (c ∷ columns) h = (
  clear-Represents (read_size d.type) (map stored_bytes (firsts rows)) c h.0,
  clear-Holds schema (rests rows) columns h.1,
)

pub flush-Holds :
    (schema : List ColumnDef) (rows : List (List Value)) (columns : List ColumnStore)
    → Holds schema rows columns
    → Holds schema rows (map Column.flush columns)
flush-Holds [] rows [] h = tt
flush-Holds [] rows (c ∷ columns) h = absurd h
flush-Holds (d ∷ schema) rows [] h = absurd h
flush-Holds (d ∷ schema) rows (c ∷ columns) h = (
  flush-Represents (read_size d.type) (map stored_bytes (firsts rows)) c h.0,
  flush-Holds schema (rests rows) columns h.1,
)

-- The rows have a value for each column of the schema.
abbrev pub AreRows : ℕ → List ColumnDef → List (List Value) → Type 0
AreRows junk schema rows = All (IsRow junk schema) rows

pub firsts-AreRows :
    (junk : ℕ) (d : ColumnDef) (schema : List ColumnDef) (rows : List (List Value))
    → AreRows junk (d ∷ schema) rows
    → (length (firsts rows) ≡ length rows)
      × (length (rests rows) ≡ length rows)
      × AreRows junk schema (rests rows)
firsts-AreRows junk d schema [] h = (refl, refl, tt)
firsts-AreRows junk d schema ([] ∷ rows) h = absurd h.0
firsts-AreRows junk d schema ((v ∷ row) ∷ rows) h =
    let (a, b, c) = firsts-AreRows junk d schema rows h.1 in (ap suc a, ap suc b, (h.0.1, c))

-- A row, by the parts of the rows.
pub get_elem?-firsts :
    (junk : ℕ) (d : ColumnDef) (schema : List ColumnDef) (rows : List (List Value)) (rid : ℕ)
    (v : Value) (row : List Value)
    → AreRows junk (d ∷ schema) rows
    → get_elem? rows rid ≡ some (v ∷ row)
    → (get_elem? (firsts rows) rid ≡ some v)
      × (get_elem? (rests rows) rid ≡ some row)
      × IsCell junk d.type v
get_elem?-firsts junk d schema [] rid v row h at = cc
get_elem?-firsts junk d schema ([] ∷ rows) rid v row h at = absurd h.0
get_elem?-firsts junk d schema ((w ∷ r) ∷ rows) zero v row h at =
    let same = some_inj.0 at in
    let value : w ≡ v = cc in
    let others : r ≡ row = cc in
    (ap some value, ap some others, subst (IsCell junk d.type) value h.0.0)
get_elem?-firsts junk d schema ((w ∷ r) ∷ rows) (suc rid) v row h at =
    get_elem?-firsts junk d schema rows rid v row h.1 at

-- The table has the schema, and its columns hold the rows.
pub record Stored (junk : ℕ) (schema : List ColumnDef) (rows : List (List Value)) (t : Table)
    : Type 0 where
  pub same_schema : t.schema ≡ schema
  pub typed : AreRows junk schema rows
  pub holds : Holds schema rows t.columns
