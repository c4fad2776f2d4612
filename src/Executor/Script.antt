-- ===== src/Executor/Script.antt =====
-- CREATE, INSERT and SELECT as texts, one after another: src/parser/parser.cpp with
-- src/executor/executor.cpp behind it.

use flex_ql_dl.Base.{
  ℕ, ◌≤◌, ◌≡◌, refl, ap, ◌∙◌, true, false, List, [], ◌∷◌, map, none, length, All, Text, join_with,
  same_text, done, Outcome,
}
use flex_ql_dl.Storage.Row.{Value}
use flex_ql_dl.Storage.Table.{id_text, are_terminated, are_apart}
use flex_ql_dl.Storage.Table.Holds.{max_table_rows}
use flex_ql_dl.Parser.Ast.{Col, CreateStmt, InsertStmt, WhereClause}
use flex_ql_dl.Parser.Keywords.{if_text, values_text}
use flex_ql_dl.Parser.Words.{find_text}
use flex_ql_dl.Parser.Words.Plain.{IsName, IsName-upper, Ends, Ends-append}
use flex_ql_dl.Parser.Print.{Query, select_of, print_create, print_insert, print_query}
use flex_ql_dl.Parser.Parse.{is_end, is_some, parse}
use flex_ql_dl.Parser.Parse.Columns.{IsCol, parse-print_create}
use flex_ql_dl.Parser.Parse.Printed.{parse-print_insert}
use flex_ql_dl.Parser.Parse.RoundTrip.{IsQuery, parse-print_query}
use flex_ql_dl.Executor.Database.{Env, Database, Answer, succeeded, column_def}
use flex_ql_dl.Executor.Database.Create.{Opens, paths_of}
use flex_ql_dl.Executor.Insert.Printed.{AllPrintable, print_row, print_tuple, print_rows}
use flex_ql_dl.Executor.Filter.{unknown_column}
use flex_ql_dl.Executor.Select.{lookup_key, exec}
use flex_ql_dl.Executor.Select.Query.{AllTestable}
use flex_ql_dl.Executor.Select.Refines.{chosen}
use flex_ql_dl.Executor.Session.{exec_select-exec_insert}

-- The last tuple ends with a ')'.
print_rows-Ends :
    (row : List Value) (rows : List (List Value)) → Ends is_end (print_rows (row ∷ rows))
unfolding print_rows join_with
print_rows-Ends row [] = Ends-append is_end (b'(' ∷ print_row row) (b')' ∷ []) refl
print_rows-Ends row (next ∷ rows) =
    Ends-append is_end (print_tuple row) (b',' ∷ print_rows (next ∷ rows))
      (Ends-append is_end (b',' ∷ []) (print_rows (next ∷ rows)) (print_rows-Ends next rows))

-- A statement that is a text.
abbrev pub run : Env → Text → Database → Outcome (Answer × Database)
run env sql db = exec env (parse sql) db

-- The texts of a CREATE, of an INSERT of rows and of a SELECT with no join are read and executed
-- one after another: each returns 0, and the callback of the SELECT gets of the rows that were
-- inserted those that satisfy its clauses, ordered by `sort` where that is asked for. There was no
-- table of the name, the files can be opened, no two of the table's paths lead to one file and none
-- to that of another table, and the statements are ones that can be written, the name being neither
-- IF nor one in which VALUES stands. The names of the columns have 30 bytes at most, the first is
-- not ID, the columns are of numbers and texts, there is a row at least, and the rows fit; the table
-- has the columns that are asked for, and the clauses can be tested on the rows.
pub run-print_query :
    (env : Env) (c : ℕ) (name : Text) (col : Col) (cols : List Col) (db : Database)
    (row : List Value) (rows : List (List Value)) (q : Query) (clauses : List (WhereClause × ℕ))
    → Opens env.disk
    → IsName (c ∷ name)
    → same_text (c ∷ name) if_text ≡ false
    → find_text values_text (c ∷ name) ≡ none
    → All IsCol (col ∷ cols)
    → IsQuery q
    → db.tables (c ∷ name) ≡ none
    → are_terminated (map column_def (col ∷ cols)) ≡ true
    → are_apart env.disk
        (paths_of env (record { table_name = c ∷ name; columns = col ∷ cols }))
        db.files
      ≡ true
    → same_text (column_def col).name id_text ≡ false
    → AllPrintable env (map column_def (col ∷ cols)) (row ∷ rows)
    → length (row ∷ rows) ≤ max_table_rows
    → q.table ≡ c ∷ name
    → q.join ≡ none
    → unknown_column (map column_def (col ∷ cols)) q.columns ≡ none
    → lookup_key (select_of q) ≡ none
    → q.clauses ≡ map (λ w. w.0) clauses
    → All (AllTestable (map column_def (col ∷ cols)) [] clauses) (row ∷ rows)
    → let create : CreateStmt = record { table_name = c ∷ name; columns = col ∷ cols } in
      let insert : InsertStmt = record {
        table_name = c ∷ name;
        raw_values = print_rows (row ∷ rows);
      } in
      let texts = chosen env (map column_def (col ∷ cols)) [] (select_of q) clauses (row ∷ rows) in
      (db1 : Database) × (db2 : Database) × (db3 : Database) × (run env (print_create create) db
        ≡ done (succeeded [], db1))
      × (run env (print_insert insert) db1 ≡ done (succeeded [], db2))
      × (run env (print_query q) db2 ≡ done (succeeded texts, db3))
unfolding exec
run-print_query env c name col cols db row rows q clauses opens named no_if no_values are_cols
      is_query absent ended apart no_id printable room asks alone known no_key said testable =
    let new = row ∷ rows in
    let (db1, db2, db3, created, inserted, selected) =
      exec_select-exec_insert env c name col cols db new (select_of q) clauses opens
        (IsName-upper (c ∷ name) named) absent ended apart no_id printable room asks
        (ap is_some alone) known no_key said testable in
    (
      db1,
      db2,
      db3,
      ap (λ s. exec env s db) (parse-print_create (c ∷ name) col cols named no_if are_cols)
          ∙ created,
      ap (λ s. exec env s db1)
            (parse-print_insert (c ∷ name) (print_rows new) named no_values
              (print_rows-Ends row rows))
          ∙ inserted,
      ap (λ s. exec env s db2) (parse-print_query q is_query) ∙ selected,
    )
