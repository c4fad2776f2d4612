-- ===== src/Executor/Insert/Printed.antt =====
-- INSERT with printed rows: what the tuples of a text stand for.
use mathlib.Core.Path.{subst}
use mathlib.Core.List.{append_assoc, append-nil}
use flex_ql_dl.Base.{
  ℕ, ◌+◌, ◌≤◌, ◌≡◌, refl, sym, ap, ◌∙◌, false, List, [], ◌∷◌, ◌++◌, map, none, some, All, length,
  update, same_text, Text, join_with, Without, done,
}
use flex_ql_dl.Base.Visible.{IsPart, getlines-join_with_parts, join_with-All-Without}
use flex_ql_dl.Storage.Row.{ColumnDef, Value}
use flex_ql_dl.Storage.Table.{Table, id_text}
use flex_ql_dl.Storage.Table.Holds.{IsRow, Stored, max_table_rows}
use flex_ql_dl.Parser.Ast.{InsertStmt}
use flex_ql_dl.Executor.Database.{Env, Database, succeeded, get_table}
use flex_ql_dl.Executor.Insert.Values.{StandFor, exec_insert-Stored}
use flex_ql_dl.Executor.Insert.{tuples, parse_values, exec_insert}
use flex_ql_dl.Executor.Insert.Printing.{
  print_value, IsPrintable, print_value-parts, parse_value-print_value,
}

-- The values of a row that can be printed.
abbrev pub ArePrintable : List ColumnDef → List Value → Type 0
ArePrintable (d ∷ schema) (v ∷ row) = IsPrintable d.type v × ArePrintable schema row
ArePrintable _ _ = Unit

abbrev pub print_row : List Value → Text
print_row row = join_with b',' (map print_value row)

-- `(5,'x'),(7,'y')`
abbrev pub print_tuple : List Value → Text
print_tuple row = b'(' ∷ print_row row ++ b')' ∷ []

unfoldable pub print_rows : List (List Value) → Text
unfolding join_with
print_rows rows = join_with b',' (map print_tuple rows)

print_row-parts :
    (junk : ℕ) (schema : List ColumnDef) (row : List Value)
    → IsRow junk schema row
    → ArePrintable schema row
    → All (IsPart b',') (map print_value row) × All (Without b')') (map print_value row)
print_row-parts junk [] [] h p = (tt, tt)
print_row-parts junk [] (v ∷ row) h p = absurd h
print_row-parts junk (d ∷ schema) [] h p = absurd h
print_row-parts junk (d ∷ schema) (v ∷ row) h p =
    let (part, plain) = print_value-parts d.type junk v h.0 p.0 in
    let (parts, plains) = print_row-parts junk schema row h.1 p.1 in
    ((part, parts), (plain, plains))

parse_values-print_row :
    (env : Env) (schema : List ColumnDef) (row : List Value)
    → IsRow env.junk schema row
    → ArePrintable schema row
    → parse_values env schema (map print_value row) ≡ done row
unfolding parse_values
parse_values-print_row env [] [] h p = refl
parse_values-print_row env [] (v ∷ row) h p = absurd h
parse_values-print_row env (d ∷ schema) [] h p = absurd h
parse_values-print_row env (d ∷ schema) (v ∷ row) h p =
    let first = parse_value-print_value env d.type v h.0 p.0 in
    let rest = parse_values-print_row env schema row h.1 p.1 in rw (first, rest) refl

tuples-inside :
    (read text l : Text)
    → Without b')' text
    → tuples (some read) (text ++ b')' ∷ l) ≡ (read ++ text) ∷ tuples none l
unfolding tuples
tuples-inside read [] l h = ap (λ r. r ∷ tuples none l) (sym (append-nil read))
tuples-inside read (c ∷ text) l h =
    rw (h.0, tuples)
      (tuples-inside (read ++ c ∷ []) text l h.1
        ∙ ap (λ r. r ∷ tuples none l) (append_assoc read (c ∷ []) text))

tuples-print_tuple :
    (row : List Value) (l : Text)
    → Without b')' (print_row row)
    → tuples none (print_tuple row ++ l) ≡ print_row row ∷ tuples none l
unfolding tuples
tuples-print_tuple row l h =
    ap (tuples (some [])) (append_assoc (print_row row) (b')' ∷ []) l)
    ∙ tuples-inside [] (print_row row) l h

-- The rows can be printed, and have a value for each column.
abbrev pub AllPrintable : Env → List ColumnDef → List (List Value) → Type 0
AllPrintable env schema rows = All (λ row. IsRow env.junk schema row × ArePrintable schema row) rows

print_row-Without :
    (env : Env) (schema : List ColumnDef) (row : List Value)
    → IsRow env.junk schema row
    → ArePrintable schema row
    → Without b')' (print_row row)
print_row-Without env schema row h p =
    join_with-All-Without b',' b')' (map print_value row) refl
      (print_row-parts env.junk schema row h p).1

tuples-print_rows :
    (env : Env) (schema : List ColumnDef) (rows : List (List Value))
    → AllPrintable env schema rows
    → tuples none (print_rows rows) ≡ map print_row rows
unfolding print_rows tuples
tuples-print_rows env schema [] h = refl
tuples-print_rows env schema (row ∷ []) h =
    ap (tuples none) (sym (append-nil (print_tuple row)))
    ∙ tuples-print_tuple row [] (print_row-Without env schema row h.0.0 h.0.1)
tuples-print_rows env schema (row ∷ next ∷ rows) h =
    tuples-print_tuple row (b',' ∷ print_rows (next ∷ rows))
      (print_row-Without env schema row h.0.0 h.0.1)
    ∙ ap (λ l. print_row row ∷ l) (tuples-print_rows env schema (next ∷ rows) h.1)

StandFor-print_row :
    (env : Env) (schema : List ColumnDef) (rows : List (List Value))
    → AllPrintable env schema rows
    → StandFor env schema (map print_row rows) rows
StandFor-print_row env schema [] h = tt
StandFor-print_row env schema (row ∷ rows) h =
    let parts = print_row-parts env.junk schema row h.0.0 h.0.1 in
    (
      ap (parse_values env schema) (getlines-join_with_parts b',' (map print_value row) parts.0)
          ∙ parse_values-print_row env schema row h.0.0 h.0.1,
      h.0.0,
      StandFor-print_row env schema rows h.1,
    )

-- INSERT with printed rows, in parentheses and with commas between them, on a table without an ID:
-- it returns 0, and exactly these rows come behind the rows of the table, in their order. The
-- columns are of numbers (any of 64 bits) and texts of up to 127 bytes, with no '\0', comma or
-- ')', and the column files have room.
pub exec_insert-print_rows :
    (env : Env) (d : ColumnDef) (schema : List ColumnDef) (name : Text)
    (new rows : List (List Value)) (a : ℕ) (db : Database)
    → same_text d.name id_text ≡ false
    → get_table db name ≡ some a
    → AllPrintable env (d ∷ schema) new
    → length rows + length new ≤ max_table_rows
    → Stored env.junk (d ∷ schema) rows (db.heap a)
    → let s : InsertStmt = record { table_name = name; raw_values = print_rows new } in
      (t' : Table) × (exec_insert env s db
        ≡ done (succeeded [], record db { heap = update db.heap a t' }))
      × Stored env.junk (d ∷ schema) (rows ++ new) t'
exec_insert-print_rows env d schema name new rows a db no_id there h room stored =
    let texts = tuples-print_rows env (d ∷ schema) new h in
    exec_insert-Stored env d schema no_id
      (record { table_name = name; raw_values = print_rows new }) new rows a db there
      (subst (λ l. StandFor env (d ∷ schema) l new) (sym texts)
        (StandFor-print_row env (d ∷ schema) new h))
      room stored
