-- ===== src/Executor/Session.antt =====
-- CREATE, INSERT and SELECT after one another, src/executor/executor.cpp.
use mathlib.Core.Path.{subst}
use flex_ql_dl.Base.{
  ℕ, ◌≤◌, ◌≡◌, refl, sym, ap, ◌∙◌, false, List, [], ◌∷◌, map, none, some, length, update,
  update_self, All, Text, true, upper, same_text, same_text_self, done, arith,
}
use flex_ql_dl.Storage.Row.{Value}
use flex_ql_dl.Storage.Table.{Table, id_text, are_terminated, are_apart}
use flex_ql_dl.Storage.Table.Holds.{Stored, max_table_rows}
use flex_ql_dl.Parser.Ast.{Col, CreateStmt, InsertStmt, SelectStmt, WhereClause}
use flex_ql_dl.Executor.Database.{
  Env, Database, succeeded, column_def, add_table, get_table, exec_create,
}
use flex_ql_dl.Executor.Database.Create.{Opens, paths_of, exec_create-Stored}
use flex_ql_dl.Executor.Insert.{exec_insert}
use flex_ql_dl.Executor.Insert.Printed.{AllPrintable, print_rows, exec_insert-print_rows}
use flex_ql_dl.Executor.Filter.{unknown_column}
use flex_ql_dl.Executor.Select.{lookup_key, exec_select}
use flex_ql_dl.Executor.Select.Query.{AllTestable}
use flex_ql_dl.Executor.Select.Refines.{chosen, exec_select-scan}

get_table-add_table :
    (db : Database) (name : Text) (paths : List Text) (t : Table)
    → upper name ≡ name
    → get_table (add_table db name paths t) name ≡ some db.next
get_table-add_table db name paths t e =
    ap (add_table db name paths t).tables e ∙ rw (same_text_self name) refl

-- A table that is made by CREATE, when there is none of its name, which has capital letters only,
-- the files can be opened and are no other table's, and the names of the columns have 30 bytes at
-- most; then filled by INSERT with printed rows; then read by SELECT with no join: each of the three
-- returns 0, and the callback of SELECT gets of the rows that were inserted those that satisfy the
-- clauses, ordered by `sort` where that is asked for. The first column is not called ID, the columns
-- are of numbers and texts, and the rows fit; the table has the columns that are asked for, and the
-- clauses can be tested on the rows.
pub exec_select-exec_insert :
    (env : Env) (c : ℕ) (name : Text) (col : Col) (cols : List Col) (db : Database)
    (new : List (List Value)) (s : SelectStmt) (clauses : List (WhereClause × ℕ))
    → Opens env.disk
    → upper (c ∷ name) ≡ c ∷ name
    → db.tables (c ∷ name) ≡ none
    → are_terminated (map column_def (col ∷ cols)) ≡ true
    → are_apart env.disk
        (paths_of env (record { table_name = c ∷ name; columns = col ∷ cols }))
        db.files
      ≡ true
    → same_text (column_def col).name id_text ≡ false
    → AllPrintable env (map column_def (col ∷ cols)) new
    → length new ≤ max_table_rows
    → s.table_name ≡ c ∷ name
    → s.has_join ≡ false
    → unknown_column (map column_def (col ∷ cols)) s.columns ≡ none
    → lookup_key s ≡ none
    → s.where_clauses ≡ map (λ w. w.0) clauses
    → All (AllTestable (map column_def (col ∷ cols)) [] clauses) new
    → let create : CreateStmt = record { table_name = c ∷ name; columns = col ∷ cols } in
      let insert : InsertStmt = record { table_name = c ∷ name; raw_values = print_rows new } in
      let texts = chosen env (map column_def (col ∷ cols)) [] s clauses new in
      (db1 : Database) × (db2 : Database) × (db3 : Database) × (exec_create env create db
        ≡ done (succeeded [], db1))
      × (exec_insert env insert db1 ≡ done (succeeded [], db2))
      × (exec_select env s db2 ≡ done (succeeded texts, db3))
exec_select-exec_insert env c name col cols db new s clauses opens capital absent ended apart no_id
      printable room asks alone known no_key said testable =
    let schema = map column_def (col ∷ cols) in
    let a = db.next in
    let (t, created, stored, _) =
      exec_create-Stored env c name col cols db opens absent ended apart in
    let create : CreateStmt = record { table_name = c ∷ name; columns = col ∷ cols } in
    let db1 = add_table db (c ∷ name) (paths_of env create) t in
    let there = get_table-add_table db (c ∷ name) (paths_of env create) t capital in
    let stored1 : Stored env.junk schema [] (db1.heap a) =
      subst (Stored env.junk schema []) (sym (update_self db.heap a t)) stored in
    let (t', inserted, stored2) =
      exec_insert-print_rows env (column_def col) (map column_def cols) (c ∷ name) new [] a db1
        no_id there printable (omega (arith, room)) stored1 in
    let db2 : Database = record db1 { heap = update db1.heap a t' } in
    let held : Stored env.junk schema new (db2.heap a) =
      subst (Stored env.junk schema new) (sym (update_self db1.heap a t')) stored2 in
    let (heap', selected, _) =
      exec_select-scan env (λ b. b ≡ a) (λ _. schema) (λ _. new) s clauses a db2 (column_def col)
        (map column_def cols)
        (λ b live. subst (λ x. Stored env.junk schema new (db2.heap x)) (sym live) held) refl
        (ap (get_table db2) asks ∙ there) refl alone known no_key said testable in
    (db1, db2, record db2 { heap = heap' }, created, inserted, selected)
