-- ===== src/Executor/Select/Refines.antt =====
-- `exec_select` on tables that hold rows.
use mathlib.Core.Path.{subst}
use flex_ql_dl.Base.{
  ℕ, ◌≡◌, refl, ap, ◌∙◌, Bool, true, false, List, [], ◌∷◌, map, none, some, arith, length,
  if◌then◌else◌, All, Text, done,
}
use flex_ql_dl.Storage.Row.{ColumnDef, Value}
use flex_ql_dl.Storage.Table.Holds.{Holds, AreRows}
use flex_ql_dl.Parser.Ast.{SelectStmt, WhereClause}
use flex_ql_dl.Executor.Rows.{Heap, materialize_from}
use flex_ql_dl.Executor.Rows.Held.{HeapHolds, materialize_from-drop}
use flex_ql_dl.Executor.HashJoin
use flex_ql_dl.Executor.HashJoin.{find_column}
use flex_ql_dl.Executor.HashJoin.Nested.{join-nested_rows}
use flex_ql_dl.Executor.HashJoin.Reference.{KeyColumn, nested_rows, total-length}
use flex_ql_dl.Executor.Database.{Env, Database, succeeded, get_table}
use flex_ql_dl.Executor.Filter.{unknown_column, row_strings, order_rows, finish_rows}
use flex_ql_dl.Executor.Select.{
  lookup_key, find_row, total_rows, scan_rows, answer_rows, select_all, select_rows, exec_select,
}
use flex_ql_dl.Executor.Select.Query.{keep, satisfies_all, AllTestable, filter_rows-keep}

-- The texts of the chosen rows, ordered by `sort` where that is asked for.
abbrev pub chosen :
    Env
    → List ColumnDef
    → List ColumnDef
    → SelectStmt
    → List (WhereClause × ℕ)
    → List (List Value)
    → List (List Text)
chosen env schema schema2 s clauses rows =
    let kept = keep (satisfies_all schema schema2 clauses) rows in
    map (row_strings schema schema2 s.columns)
      (if s.has_order then order_rows env schema schema2 s.order_by kept else kept)

finish_rows-chosen :
    (env : Env) (schema schema2 : List ColumnDef) (s : SelectStmt)
    (clauses : List (WhereClause × ℕ)) (rows : List (List Value))
    → s.where_clauses ≡ map (λ c. c.0) clauses
    → All (AllTestable schema schema2 clauses) rows
    → finish_rows env schema schema2 s false rows ≡ done (chosen env schema schema2 s clauses rows)
unfolding finish_rows
finish_rows-chosen env schema schema2 s clauses rows said h =
    let kept = filter_rows-keep schema schema2 clauses rows h in rw said (rw kept refl)

-- The steps of the statement, each by what it found.
module _ (env : Env) (s : SelectStmt) (a : ℕ) (db : Database) where
  pub exec_select-select_rows :
      get_table db s.table_name ≡ some a
      → (if s.has_join then none else unknown_column (db.heap a).schema s.columns) ≡ none
      → exec_select env s db ≡ select_rows env s a db
  unfolding exec_select
  exec_select-select_rows there known = rw (there, exec_select) (rw known refl)

  select_rows-select_all : lookup_key s ≡ none → select_rows env s a db ≡ select_all env s a db
  unfolding select_rows find_row
  select_rows-select_all no_key = rw (no_key, select_rows) refl

  select_all-scan :
      (r : List (List Value) × Heap)
      → s.has_join ≡ false
      → scan_rows env a db.heap ≡ done r
      → select_all env s a db ≡ answer_rows env s a [] false db r
  unfolding select_all
  select_all-scan r alone scanned = rw (alone, select_all) (rw scanned refl)

  select_all-join :
      (b : ℕ)
      → s.has_join ≡ true
      → get_table db s.join.table ≡ some b
      → select_all env s a db
        ≡ answer_rows env s a
            (db.heap b).schema
            false
            db
            (HashJoin.join env.junk a b s.join.on_left s.join.on_right db.heap)
  unfolding select_all
  select_all-join b joins there = rw (joins, select_all) (rw there refl)

  pub answer_rows-texts :
      (schema schema2 : List ColumnDef) (used : Bool) (rows : List (List Value)) (heap : Heap)
      (texts : List (List Text))
      → (db.heap a).schema ≡ schema
      → finish_rows env schema schema2 s used rows ≡ done texts
      → answer_rows env s a schema2 used db (rows, heap)
        ≡ done (succeeded texts, record db { heap = heap })
  unfolding answer_rows
  answer_rows-texts schema schema2 used rows heap texts same finished =
      rw (same, answer_rows) (rw finished refl)

lookup_key-join : (s : SelectStmt) → s.has_join ≡ true → lookup_key s ≡ none
unfolding lookup_key
lookup_key-join s joins = rw (joins, lookup_key) refl

module _ (env : Env) (Live : ℕ → Type 0) (schemas : ℕ → List ColumnDef)
    (tables : ℕ → List (List Value)) where
  abbrev Good : Heap → Type 0
  Good heap = HeapHolds env.junk Live schemas tables heap

  total_rows-length :
      (a : ℕ) (heap : Heap) (d : ColumnDef) (schema : List ColumnDef)
      → Good heap
      → Live a
      → schemas a ≡ d ∷ schema
      → total_rows (heap a) ≡ done (length (tables a))
  total_rows-length a heap d schema h live first =
      let s = h a live in
      let typed : AreRows env.junk (d ∷ schema) (tables a) =
        subst (λ l. AreRows env.junk l (tables a)) first s.typed in
      let held : Holds (d ∷ schema) (tables a) (heap a).columns =
        subst (λ l. Holds l (tables a) (heap a).columns) first s.holds in
      let (c, there, total) =
        total-length env.junk 0 (d ∷ schema) (tables a) (heap a).columns d typed held refl in
      rw (there, total_rows) (ap done total)

  scan_rows-tables :
      (a : ℕ) (heap : Heap) (d : ColumnDef) (schema : List ColumnDef)
      → Good heap
      → Live a
      → schemas a ≡ d ∷ schema
      → (heap' : Heap) × (scan_rows env a heap ≡ done (tables a, heap')) × Good heap'
  unfolding scan_rows
  scan_rows-tables a heap d schema h live first =
      let n = length (tables a) in
      let total = total_rows-length a heap d schema h live first in
      let (rows, kept) =
        materialize_from-drop env.junk Live schemas tables n a 0 heap h live (omega arith) in
      (
        (materialize_from env.junk a 0 n heap).1,
        rw total (ap (λ r. done (r, (materialize_from env.junk a 0 n heap).1)) rows),
        kept,
      )

  -- The rest of a SELECT with no join, when nothing was looked up.
  pub select_all-chosen :
      (s : SelectStmt) (clauses : List (WhereClause × ℕ)) (a : ℕ) (db : Database) (d : ColumnDef)
      (schema : List ColumnDef)
      → Good db.heap
      → Live a
      → schemas a ≡ d ∷ schema
      → s.has_join ≡ false
      → s.where_clauses ≡ map (λ c. c.0) clauses
      → All (AllTestable (schemas a) [] clauses) (tables a)
      → (heap' : Heap) × (select_all env s a db
          ≡ done (
            succeeded (chosen env (schemas a) [] s clauses (tables a)),
            record db { heap = heap' },
          ))
        × Good heap'
  select_all-chosen s clauses a db d schema h live first alone said testable =
      let (heap', scanned, kept) = scan_rows-tables a db.heap d schema h live first in
      let finished = finish_rows-chosen env (schemas a) [] s clauses (tables a) said testable in
      (
        heap',
        select_all-scan env s a db (tables a, heap') alone scanned
            ∙ answer_rows-texts env s a db (schemas a) [] false (tables a) heap' _
                (h a live).same_schema finished,
        kept,
      )

  -- A SELECT with no join that does not look an ID up, on a table that holds rows: if the table
  -- has the columns that are asked for, the rows have the columns of the clauses, and the texts of
  -- the clauses are numbers where they are compared with numbers, the callback gets the rows that
  -- satisfy every clause, and no others, ordered by `sort` where that is asked for, and the tables still hold
  -- their rows.
  pub exec_select-scan :
      (s : SelectStmt) (clauses : List (WhereClause × ℕ)) (a : ℕ) (db : Database) (d : ColumnDef)
      (schema : List ColumnDef)
      → Good db.heap
      → Live a
      → get_table db s.table_name ≡ some a
      → schemas a ≡ d ∷ schema
      → s.has_join ≡ false
      → unknown_column (schemas a) s.columns ≡ none
      → lookup_key s ≡ none
      → s.where_clauses ≡ map (λ c. c.0) clauses
      → All (AllTestable (schemas a) [] clauses) (tables a)
      → (heap' : Heap) × (exec_select env s db
          ≡ done (
            succeeded (chosen env (schemas a) [] s clauses (tables a)),
            record db { heap = heap' },
          ))
        × Good heap'
  exec_select-scan s clauses a db d schema h live there first alone known no_key said testable =
      let same = (h a live).same_schema in
      let (heap', scanned, kept) =
        select_all-chosen s clauses a db d schema h live first alone said testable in
      (
        heap',
        exec_select-select_rows env s a db there
              (rw alone (ap (λ l. unknown_column l s.columns) same ∙ known))
            ∙ select_rows-select_all env s a db no_key
            ∙ scanned,
        kept,
      )

  -- A SELECT that joins two tables which hold rows, or one with itself, on columns that both have
  -- and that hold numbers: if the joined rows have the columns of the clauses, and the texts of
  -- the clauses are numbers where they are compared with numbers, the callback gets the rows of
  -- the nested loop over the two tables that satisfy every clause, ordered by `sort` where that is asked for,
  -- and the tables still hold their rows.
  pub exec_select-join :
      (s : SelectStmt) (clauses : List (WhereClause × ℕ)) (a b i1 i2 : ℕ) (db : Database)
      → Good db.heap
      → Live a
      → Live b
      → get_table db s.table_name ≡ some a
      → get_table db s.join.table ≡ some b
      → s.has_join ≡ true
      → find_column s.join.on_left (schemas a) ≡ some i1
      → find_column s.join.on_right (schemas b) ≡ some i2
      → KeyColumn (schemas a) i1
      → KeyColumn (schemas b) i2
      → s.where_clauses ≡ map (λ c. c.0) clauses
      → All (AllTestable (schemas a) (schemas b) clauses) (nested_rows i1 i2 (tables a) (tables b))
      → (heap' : Heap) × (exec_select env s db
          ≡ done (
            succeeded (
                chosen env
                  (schemas a)
                  (schemas b)
                  s
                  clauses
                  (nested_rows i1 i2 (tables a) (tables b))),
            record db { heap = heap' },
          ))
        × Good heap'
  exec_select-join s clauses a b i1 i2 db h live1 live2 there there2 joins found1 found2 key1 key2
        said testable =
      let (rows, kept) =
        join-nested_rows env.junk Live schemas tables a i1 b i2 s.join.on_left s.join.on_right
          db.heap h live1 live2 found1 found2 key1 key2 in
      let (joined, heap') = HashJoin.join env.junk a b s.join.on_left s.join.on_right db.heap in
      let finished =
        ap (finish_rows env (schemas a) (schemas b) s false) rows
        ∙ finish_rows-chosen env (schemas a) (schemas b) s clauses
            (nested_rows i1 i2 (tables a) (tables b)) said testable in
      (
        heap',
        exec_select-select_rows env s a db there (rw joins refl)
            ∙ select_rows-select_all env s a db (lookup_key-join s joins)
            ∙ select_all-join env s a db b joins there2
            ∙ ap (λ l. answer_rows env s a l false db (joined, heap')) (h b live2).same_schema
            ∙ answer_rows-texts env s a db (schemas a) (schemas b) false joined heap' _
                (h a live1).same_schema finished,
        kept,
      )
