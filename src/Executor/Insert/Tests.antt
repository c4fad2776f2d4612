-- ===== src/Executor/Insert/Tests.antt =====
-- CREATE, INSERT and DELETE at concrete inputs.
use flex_ql_dl.Base.{
  c_str, join_with, to_string, ◌≡◌, refl, [], ◌∷◌, ◌++◌, map, arith, update, Text, same_text,
  getlines, trim_left, trim_right, stoll, done, fault, ◌⊎◌,
}
use flex_ql_dl.Storage.Pager
use flex_ql_dl.Storage.Table.{Table}
use flex_ql_dl.Storage.Table.Holds.{Stored}
use flex_ql_dl.Index.IndexManager.{no_indexes}
use flex_ql_dl.Parser.Ast.{Col, InsertStmt}
use flex_ql_dl.Executor.Database.{
  Database, succeeded, column_def, add_table, exec_create, exec_delete,
}
use flex_ql_dl.Executor.Database.Create.{HasIndex, paths_of, exec_create-Stored, exec_delete-Stored}
use flex_ql_dl.Executor.Insert.{tuples, parse_values, exec_insert}
use flex_ql_dl.Executor.Insert.Printing.{print_value}
use flex_ql_dl.Executor.Insert.Printed.{print_rows, exec_insert-print_rows}
use flex_ql_dl.Executor.Select.{exec}
use flex_ql_dl.Executor.Parsed.{IsEndless, exec-parse_create}
use flex_ql_dl.Parser.Words.{
  words, strip_right, strip_left, before_first, behind_first, behind_last, before_last,
  strip_delimiters,
}
use flex_ql_dl.Parser.Parse.{parse, parse_words, parse_create, parse_cols}
use flex_ql_dl.Executor.Samples.{
  old_page, pager, index_pager, a_text, n_text, t_text, schema_of, rows, table, empty_table, env,
  database, row1-IsRow, row2-IsRow, empty_table-Stored, table-Stored,
}

program : Unit {0}
unfolding c_str same_text getlines trim_left trim_right stoll tuples parse_values Pager.new
program = tt

parse_program : Unit {0}
unfolding parse words strip_right strip_left before_first behind_first behind_last before_last
    parse_words parse_create parse_cols strip_delimiters
parse_program = tt

-- `INSERT INTO T VALUES (5, 'x'), ( 7 ,yz)`
abbrev insert : InsertStmt
insert = record {
  table_name = t_text;
  raw_values =
      b'(' ∷ b'5' ∷ b',' ∷ 32 ∷ 39 ∷ b'x' ∷ 39 ∷ b')' ∷ b',' ∷ 32 ∷ b'(' ∷ 32 ∷ b'7' ∷ 32 ∷ b','
      ∷ b'y' ∷ b'z' ∷ b')' ∷ [];
}

abbrev col : Col
col = record { name = a_text; type_str = b'I' ∷ b'N' ∷ b'T' ∷ [] }

abbrev other : Text
other = b'U' ∷ []

exec_create-Stored_example :
    (t : Table) × (exec_create env
        (record { table_name = other; columns = col ∷ [] })
        (database table)
      ≡ done (
        succeeded [],
        add_table
            (database table)
            other
            (paths_of env (record { table_name = other; columns = col ∷ [] }))
            t,
      ))
    × Stored 0 (map column_def (col ∷ [])) [] t
    × HasIndex (column_def col) t.index_manager
unfolding program
exec_create-Stored_example =
    exec_create-Stored env b'U' [] col [] (database table)
      ((λ path. ((λ _. old_page), pager, refl, refl)), (λ path. (index_pager, refl))) refl refl refl

exec_delete-Stored_example :
    (t : Table) × (exec_delete (record { table_name = t_text }) (database table)
      ≡ done (succeeded [], record (database table) { heap = update (database table).heap 0 t }))
    × Stored 0 (schema_of a_text) [] t
    × (t.index_manager ≡ ((database table).heap 0).index_manager)
unfolding program
exec_delete-Stored_example =
    exec_delete-Stored 0 (record { table_name = t_text }) (schema_of a_text) rows 0 (database table)
      refl table-Stored

-- `CREATE TABLE U (A INT, N VARCHAR(64));`
abbrev create_sql : Text
create_sql =
    b'C' ∷ b'R' ∷ b'E' ∷ b'A' ∷ b'T' ∷ b'E' ∷ 32 ∷ b'T' ∷ b'A' ∷ b'B' ∷ b'L' ∷ b'E' ∷ 32 ∷ b'U' ∷ 32
    ∷ b'(' ∷ b'A' ∷ 32 ∷ b'I' ∷ b'N' ∷ b'T' ∷ b',' ∷ 32 ∷ b'N' ∷ 32 ∷ b'V' ∷ b'A' ∷ b'R' ∷ b'C'
    ∷ b'H' ∷ b'A' ∷ b'R' ∷ b'(' ∷ b'6' ∷ b'4' ∷ b')' ∷ b')' ∷ b';' ∷ []

parsed : (parse create_sql).create_stmt ≡ record {
  table_name = other;
  columns =
      col
      ∷ record { name = n_text; type_str = b'V' ∷ b'A' ∷ b'R' ∷ b'C' ∷ b'H' ∷ b'A' ∷ b'R' ∷ [] }
      ∷ [];
}
unfolding program parse_program
parsed = refl

exec-parse_create_example :
    ((db' : Database) × (exec env (parse create_sql) (database table) ≡ done (succeeded [], db')))
    ⊎ (IsEndless (parse create_sql).create_stmt (database table)
        × (exec env (parse create_sql) (database table) ≡ fault))
unfolding program parse_program
exec-parse_create_example =
    exec-parse_create env create_sql (database table)
      ((λ path. ((λ _. old_page), pager, refl, refl)), (λ path. (index_pager, refl))) refl
      (λ absent. refl)

printed_rows :
    print_rows rows
    ≡ b'(' ∷ b'5' ∷ b',' ∷ 39 ∷ b'x' ∷ 39 ∷ b')' ∷ b',' ∷ b'(' ∷ b'7' ∷ b',' ∷ 39 ∷ b'y' ∷ b'z' ∷ 39
      ∷ b')' ∷ []
unfolding print_rows print_value join_with to_string
printed_rows = refl

exec_insert-print_rows_example :
    (t' : Table) × (exec_insert env
        (record { table_name = t_text; raw_values = print_rows rows })
        (database (empty_table a_text no_indexes))
      ≡ done (
        succeeded [],
        record (database (empty_table a_text no_indexes)) {
          heap = update (database (empty_table a_text no_indexes)).heap 0 t';
        },
      ))
    × Stored 0 (schema_of a_text) ([] ++ rows) t'
unfolding program
exec_insert-print_rows_example =
    exec_insert-print_rows env _ _ t_text rows [] 0 (database (empty_table a_text no_indexes)) refl
      refl
      (
        (row1-IsRow a_text, (tt, (((refl, tt), (refl, tt)), tt))),
        ((row2-IsRow a_text, (tt, (((refl, (refl, tt)), (refl, (refl, tt))), tt))), tt),
      )
      (omega arith) (empty_table-Stored a_text no_indexes)
