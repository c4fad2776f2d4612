-- ===== src/Executor/HashJoin/Reference.antt =====
-- The nested loop that the hash join is compared with, and the numbers that its keys are read from.
use mathlib.Core.Option
use mathlib.Core.Path.{subst}
use mathlib.Core.Option.{some_inj}
use flex_ql_dl.Base.{
  ℕ, zero, suc, ◌≡◌, refl, sym, ap, ◌∙◌, false, List, [], ◌∷◌, ◌++◌, map, some, arith, length,
  get_elem?, take, ◌==◌, if◌then◌else◌,
}
use flex_ql_dl.Storage.Row.{
  ColumnType, int, float, decimal, char, varchar, datetime, ColumnDef, Value, le_number,
  stored_bytes, read_size, is_varchar, read_value,
}
use flex_ql_dl.Storage.Row.Cells.{IsCell, read_value-stored_bytes}
use flex_ql_dl.Storage.Column.{ColumnStore}
use flex_ql_dl.Storage.Column.Represents.{Represents}
use flex_ql_dl.Storage.History.{Keeps-Represents}
use flex_ql_dl.Storage.Reader.{read_at}
use flex_ql_dl.Storage.Reader.Rows.{read_at-get_elem?}
use flex_ql_dl.Storage.Table.Holds.{
  firsts, rests, IsRow, Holds, AreRows, firsts-AreRows, get_elem?-firsts, length-map_stored,
}
use flex_ql_dl.Executor.Rows.Held.{get_elem?-map}
use flex_ql_dl.Executor.HashJoin.{read_key}

-- The number in a column of a row.
abbrev pub key_of : ℕ → List Value → ℕ
key_of i [] = 0
key_of zero (v ∷ row) = v.bits
key_of (suc i) (v ∷ row) = key_of i row

-- A column of numbers, which eight bytes hold.
abbrev pub IsNumber : ColumnDef → Type 0
IsNumber d = is_varchar d.type ≡ false

-- The schema has the column, and it is one of numbers.
abbrev pub KeyColumn : List ColumnDef → ℕ → Type 0
KeyColumn schema i = (d : ColumnDef) × (get_elem? schema i ≡ some d) × IsNumber d

-- A row behind each of the rows that have the same number as it.
unfoldable pub joined_rows : ℕ → ℕ → List Value → List (List Value) → List (List Value)
joined_rows k i row1 [] = []
joined_rows k i row1 (row2 ∷ rows2) =
    let rest = joined_rows k i row1 rows2 in
    if key_of i row2 == k then (row1 ++ row2) ∷ rest else rest

-- The nested loop.
unfoldable pub nested_rows : ℕ → ℕ → List (List Value) → List (List Value) → List (List Value)
unfolding joined_rows
nested_rows i1 i2 [] rows2 = []
nested_rows i1 i2 (row1 ∷ rows1) rows2 =
    joined_rows (key_of i1 row1) i2 row1 rows2 ++ nested_rows i1 i2 rows1 rows2

pub key-stored_bytes :
    (junk : ℕ) (t : ColumnType) (v : Value)
    → is_varchar t ≡ false
    → IsCell junk t v
    → (read_size t ≡ 8) × (le_number (take 8 (stored_bytes v)) ≡ v.bits)
unfolding read_value
key-stored_bytes junk int v n h = absurd h
key-stored_bytes junk float v n h = absurd h
key-stored_bytes junk varchar v n h = cc
key-stored_bytes junk decimal v n h =
    (refl, ap (λ u. u.bits) (read_value-stored_bytes junk decimal v h))
key-stored_bytes junk char v n h = (refl, ap (λ u. u.bits) (read_value-stored_bytes junk char v h))
key-stored_bytes junk datetime v n h =
    (refl, ap (λ u. u.bits) (read_value-stored_bytes junk datetime v h))

pub read_key-key_of :
    (junk : ℕ) (schema : List ColumnDef) (rows : List (List Value)) (columns : List ColumnStore)
    (rid i : ℕ) (d : ColumnDef) (row : List Value)
    → AreRows junk schema rows
    → IsRow junk schema row
    → get_elem? schema i ≡ some d
    → IsNumber d
    → get_elem? rows rid ≡ some row
    → Holds schema rows columns
    → ((read_key rid i columns).0 ≡ some (key_of i row))
      × Holds schema rows (read_key rid i columns).1
unfolding read_key
read_key-key_of junk [] rows columns rid i d row all ok at number here h = cc
read_key-key_of junk (e ∷ schema) rows [] rid i d row all ok at number here h = absurd h
read_key-key_of junk (e ∷ schema) rows (c ∷ columns) rid i d [] all ok at number here h = absurd ok
read_key-key_of junk (e ∷ schema) rows (c ∷ columns) rid zero d (v ∷ row) all ok at number here h =
    let held = map stored_bytes (firsts rows) in
    let (first, rest, cell) = get_elem?-firsts junk e schema rows rid v row all here in
    let same : e ≡ d = some_inj.0 at in
    let (eight, key) = key-stored_bytes junk e.type v (subst IsNumber (sym same) number) cell in
    let column : Represents 8 held c = subst (λ s. Represents s held c) eight h.0 in
    let (answer, kept) =
      read_at-get_elem? 8 held (omega arith, omega arith) rid c.file column.holds in
    let out : (read_at rid 8 c.file).0 ≡ some (stored_bytes v) =
      answer ∙ get_elem?-map (firsts rows) rid v first in
    let after = record c { file = (read_at rid 8 c.file).1 } in
    let left : Represents 8 held after = Keeps-Represents 8 held c _ column kept in
    (
      ap (Option.map (λ buf. le_number (take 8 buf))) out ∙ ap some key,
      (subst (λ s. Represents s held after) (sym eight) left, h.1),
    )
read_key-key_of junk (e ∷ schema) rows (c ∷ columns) rid (suc i) d (v ∷ row) all ok at number here
      h =
    let (first, rest, cell) = get_elem?-firsts junk e schema rows rid v row all here in
    let (_, _, others) = firsts-AreRows junk e schema rows all in
    let (key, left) =
      read_key-key_of junk schema (rests rows) columns rid i d row others ok.1 at number rest h.1 in
    (key, (h.0, left))

pub total-length :
    (junk i : ℕ) (schema : List ColumnDef) (rows : List (List Value)) (columns : List ColumnStore)
    (d : ColumnDef)
    → AreRows junk schema rows
    → Holds schema rows columns
    → get_elem? schema i ≡ some d
    → (c : ColumnStore) × (get_elem? columns i ≡ some c) × (c.total_rows ≡ length rows)
total-length junk i [] rows columns d all h at = cc
total-length junk i (e ∷ schema) rows [] d all h at = absurd h
total-length junk zero (e ∷ schema) rows (c ∷ columns) d all h at =
    let (same, _, _) = firsts-AreRows junk e schema rows all in
    (c, refl, h.0.total ∙ length-map_stored (firsts rows) ∙ same)
total-length junk (suc i) (e ∷ schema) rows (c ∷ columns) d all h at =
    let (_, same, others) = firsts-AreRows junk e schema rows all in
    let (store, there, total) = total-length junk i schema (rests rows) columns d others h.1 at in
    (store, there, total ∙ same)
