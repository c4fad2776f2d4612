-- ===== src/Executor/HashJoin/Nested.antt =====
-- The hash join against a nested loop over the rows that the tables hold.
use mathlib.Core.Path.{ap₂}
use native.Mathlib.Decide.{dec_lt}
use flex_ql_dl.Base.{
  ℕ, zero, suc, ◌+◌, ◌≡◌, refl, sym, ap, ◌∙◌, inl, inr, List, [], ◌∷◌, ◌++◌, Option, none, some,
  arith, length, get_elem?, drop, Bool-cases, ◌==◌, Text,
}
use flex_ql_dl.Storage.Row.{ColumnDef, Value}
use flex_ql_dl.Executor.HashJoin.Reference.{
  KeyColumn, key_of, joined_rows, nested_rows, total-length,
}
use flex_ql_dl.Executor.Rows.{Heap, materialize_row}
use flex_ql_dl.Executor.Rows.Held.{HeapHolds, materialize_row-get_elem?, drop-next, drop_past}
use flex_ql_dl.Executor.HashJoin.{
  find_column, table_key, HashTable, bucket, build, join_rids, join_matches, probe, rows_of,
  join_on, join,
}
use flex_ql_dl.Executor.HashJoin.Build.{rids_of, table_key-key_of, build-rids_of}

drop-cons {ℓ} :
    {A : Type ℓ} (l : List A) (i : ℕ) (x : A) (r : List A)
    → drop i l ≡ x ∷ r
    → (get_elem? l i ≡ some x) × (drop (i + 1) l ≡ r)
drop-cons l i x r h = elim (dec_lt i (length l)) [
  | yes inside ↦
      let (y, at, next) = drop-next l i inside in
      let both : y ∷ drop (i + 1) l ≡ x ∷ r = sym next ∙ h in
      let head : y ≡ x = cc in (at ∙ ap some head, cc)
  | no outside ↦
      let nothing = drop_past l i (omega (arith, outside)) in
      let clash : [] ≡ x ∷ r = sym nothing ∙ h in cc
]

module _ (junk : ℕ) (Live : ℕ → Type 0) (schemas : ℕ → List ColumnDef)
    (tables : ℕ → List (List Value)) where
  abbrev pub Good : Heap → Type 0
  Good heap = HeapHolds junk Live schemas tables heap

  join_rids-joined_rows :
      (rows2 : List (List Value)) (table2 rid val i : ℕ) (row1 : List Value) (heap : Heap)
      → Good heap
      → Live table2
      → drop rid (tables table2) ≡ rows2
      → ((join_rids junk row1 table2 (rids_of val i rid rows2) heap).0
          ≡ joined_rows val i row1 rows2)
        × Good (join_rids junk row1 table2 (rids_of val i rid rows2) heap).1
  unfolding join_rids joined_rows
  join_rids-joined_rows [] table2 rid val i row1 heap h live all = (refl, h)
  join_rids-joined_rows (row2 ∷ rows2) table2 rid val i row1 heap h live all =
      let (at, next) = drop-cons (tables table2) rid row2 rows2 all in
      elim (Bool-cases (key_of i row2 == val)) [
        | inl same ↦
            let (read, kept) =
              materialize_row-get_elem? junk Live schemas tables table2 rid heap row2 h live at in
            let (rest, left) =
              join_rids-joined_rows rows2 table2 (rid + 1) val i row1
                (materialize_row junk table2 rid heap).1 kept live next in
            rw same (ap₂ (λ r l. (row1 ++ r) ∷ l) read rest, left)
        | inr other ↦
            rw other (join_rids-joined_rows rows2 table2 (rid + 1) val i row1 heap h live next)
      ]

  -- What the probe phase makes of a row, for any table with the right list for its key.
  join_matches-joined_rows :
      (table1 table2 rid val i : ℕ) (found : Option (List ℕ)) (row1 : List Value) (heap : Heap)
      → Good heap
      → Live table1
      → Live table2
      → get_elem? (tables table1) rid ≡ some row1
      → bucket found ≡ rids_of val i 0 (tables table2)
      → ((join_matches junk table1 table2 rid found heap).0
          ≡ joined_rows val i row1 (tables table2))
        × Good (join_matches junk table1 table2 rid found heap).1
  unfolding join_matches join_rids
  join_matches-joined_rows table1 table2 rid val i none row1 heap h live1 live2 at same =
      let (rows, _) = join_rids-joined_rows (tables table2) table2 0 val i row1 heap h live2 refl in
      (ap (λ l. (join_rids junk row1 table2 l heap).0) same ∙ rows, h)
  join_matches-joined_rows table1 table2 rid val i (some rids) row1 heap h live1 live2 at same =
      let (read, kept) =
        materialize_row-get_elem? junk Live schemas tables table1 rid heap row1 h live1 at in
      let heap' = (materialize_row junk table1 rid heap).1 in
      let (rows, left) =
        join_rids-joined_rows (tables table2) table2 0 val i row1 heap' kept live2 refl in
      rw (read, same) (rows, left)

  rows_of-length :
      (table i : ℕ) (heap : Heap)
      → Good heap
      → Live table
      → KeyColumn (schemas table) i
      → rows_of junk (heap table) i ≡ length (tables table)
  rows_of-length table i heap h live (d, at, number) =
      let s = h table live in
      let (c, there, total) =
        total-length junk i (schemas table) (tables table) (heap table).columns d s.typed s.holds
          at in
      rw (there, rows_of) total

  probe-nested_rows :
      (n table1 i1 table2 i2 rid : ℕ) (hash_table : HashTable) (heap : Heap)
      → Good heap
      → Live table1
      → Live table2
      → KeyColumn (schemas table1) i1
      → ((val : ℕ) → bucket (hash_table val) ≡ rids_of val i2 0 (tables table2))
      → rid + n ≡ length (tables table1)
      → ((probe junk table1 i1 table2 hash_table rid n heap).0
          ≡ nested_rows i1 i2 (drop rid (tables table1)) (tables table2))
        × Good (probe junk table1 i1 table2 hash_table rid n heap).1
  unfolding probe nested_rows
  probe-nested_rows zero table1 i1 table2 i2 rid hash_table heap h live1 live2 key built all =
      let none_left = drop_past (tables table1) rid (omega (arith, all)) in rw none_left (refl, h)
  probe-nested_rows (suc n) table1 i1 table2 i2 rid hash_table heap h live1 live2 key built all =
      let (row, at, next) = drop-next (tables table1) rid (omega (arith, all)) in
      let (read, kept) =
        table_key-key_of junk Live schemas tables table1 rid i1 heap row h live1 key at in
      let val = key_of i1 row in
      let heap' = (table_key table1 rid i1 heap).1 in
      let (rows, kept') =
        join_matches-joined_rows table1 table2 rid val i2 (hash_table val) row heap' kept live1
          live2 at (built val) in
      let heap'' = (join_matches junk table1 table2 rid (hash_table val) heap').1 in
      let (more, left) =
        probe-nested_rows n table1 i1 table2 i2 (rid + 1) hash_table heap'' kept' live1 live2 key
          built (omega (arith, all)) in
      rw (read, next) (ap₂ ◌++◌ rows more, left)

  join_on-nested_rows :
      (table1 i1 table2 i2 : ℕ) (heap : Heap)
      → Good heap
      → Live table1
      → Live table2
      → KeyColumn (schemas table1) i1
      → KeyColumn (schemas table2) i2
      → ((join_on junk table1 table2 (some i1) (some i2) heap).0
          ≡ nested_rows i1 i2 (tables table1) (tables table2))
        × Good (join_on junk table1 table2 (some i1) (some i2) heap).1
  unfolding join_on
  join_on-nested_rows table1 i1 table2 i2 heap h live1 live2 key1 key2 =
      let total2 = rows_of-length table2 i2 heap h live2 key2 in
      let n2 = length (tables table2) in
      let (built, kept) =
        build-rids_of junk Live schemas tables n2 table2 i2 0 (λ _. none) heap h live2 key2
          (omega arith) in
      let (hash_table, heap') = build table2 i2 0 n2 (λ _. none) heap in
      let total1 = rows_of-length table1 i1 heap' kept live1 key1 in
      let joined =
        probe-nested_rows (length (tables table1)) table1 i1 table2 i2 0 hash_table heap' kept live1
          live2 key1 built (omega arith) in
      rw total2 (rw total1 joined)

  -- The hash join of two tables of a heap, which may be one table, on columns that both have and
  -- that hold numbers: it gives the rows of a nested loop over the two, in its order, and the
  -- tables still hold their rows.
  pub join-nested_rows :
      (table1 i1 table2 i2 : ℕ) (col1 col2 : Text) (heap : Heap)
      → Good heap
      → Live table1
      → Live table2
      → find_column col1 (schemas table1) ≡ some i1
      → find_column col2 (schemas table2) ≡ some i2
      → KeyColumn (schemas table1) i1
      → KeyColumn (schemas table2) i2
      → ((join junk table1 table2 col1 col2 heap).0
          ≡ nested_rows i1 i2 (tables table1) (tables table2))
        × Good (join junk table1 table2 col1 col2 heap).1
  unfolding join
  join-nested_rows table1 i1 table2 i2 col1 col2 heap h live1 live2 found1 found2 key1 key2 =
      let s1 = (h table1 live1).same_schema in
      let s2 = (h table2 live2).same_schema in
      let one : find_column col1 (heap table1).schema ≡ some i1 =
        ap (find_column col1) s1 ∙ found1 in
      let two : find_column col2 (heap table2).schema ≡ some i2 =
        ap (find_column col2) s2 ∙ found2 in
      rw (one, two) (join_on-nested_rows table1 i1 table2 i2 heap h live1 live2 key1 key2)
