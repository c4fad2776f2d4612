-- ===== src/Executor/Parsed.antt =====
-- Statements from their text: what the parser gives, as `Executor::exec` runs it.
use mathlib.Core.Path.{subst}
use flex_ql_dl.Base.{
  ◌≡◌, ◌⊎◌, refl, inl, inr, true, false, Bool-cases, List, [], ◌∷◌, map, none, Text, Option-cases,
  done, fault,
}
use flex_ql_dl.Storage.Table.{are_terminated, are_apart}
use flex_ql_dl.Parser.Ast.{create_type, Col, CreateStmt}
use flex_ql_dl.Parser.Parse.{parse}
use flex_ql_dl.Parser.Parse.Valid.{IsSome, HasParts, parse-IsValid}
use flex_ql_dl.Executor.Database.{Env, Database, succeeded, column_def, add_table, exec_create}
use flex_ql_dl.Executor.Database.Create.{Opens, paths_of, exec_create-Stored, exec_create_fault}
use flex_ql_dl.Executor.Select.{exec}

-- There is no such table yet, and a column's name has no end.
abbrev pub IsEndless : CreateStmt → Database → Type 0
IsEndless s db =
    (db.tables s.table_name ≡ none) × (are_terminated (map column_def s.columns) ≡ false)

create-ends :
    (env : Env) (name : Text) (cols : List Col) (db : Database)
    → let s : CreateStmt = record { table_name = name; columns = cols } in
      IsSome name
      → IsSome cols
      → Opens env.disk
      → (db.tables name ≡ none → are_apart env.disk (paths_of env s) db.files ≡ true)
      → ((db' : Database) × (exec_create env s db ≡ done (succeeded [], db')))
        ⊎ (IsEndless s db × (exec_create env s db ≡ fault))
unfolding exec_create
create-ends env [] cols db named columns opens apart = absurd named
create-ends env (c ∷ name) [] db named columns opens apart = absurd columns
create-ends env (c ∷ name) (col ∷ cols) db named columns opens apart =
    let s : CreateStmt = record { table_name = c ∷ name; columns = col ∷ cols } in
    elim (Option-cases (db.tables (c ∷ name))) [
      | inr (a, there) ↦ inl (db, rw (there, exec_create) refl)
      | inl absent ↦ elim (Bool-cases (are_terminated (map column_def (col ∷ cols)))) [
        | inl ended ↦
            let (t, created, _, _) =
              exec_create-Stored env c name col cols db opens absent ended (apart absent) in
            inl (add_table db (c ∷ name) (paths_of env s) t, created)
        | inr endless ↦ inr (
          (absent, endless),
          exec_create_fault env c name (col ∷ cols) db opens absent endless (apart absent),
        )
      ]
    ]

-- CREATE in a text that the parser takes, when the files can be opened, and no path of a new table
-- leads to the file of another: it returns 0 with no error, whether there was a table of the name or
-- not, and no column is used that is not there; but where there was none, and the name of a column
-- has 31 bytes or more, what it does is not defined.
pub exec-parse_create :
    (env : Env) (sql : Text) (db : Database)
    → Opens env.disk
    → (parse sql).type ≡ create_type
    → let s = (parse sql).create_stmt in
      (db.tables s.table_name ≡ none → are_apart env.disk (paths_of env s) db.files ≡ true)
      → ((db' : Database) × (exec env (parse sql) db ≡ done (succeeded [], db')))
        ⊎ (IsEndless s db × (exec env (parse sql) db ≡ fault))
unfolding exec
exec-parse_create env sql db opens type apart =
    let s = (parse sql).create_stmt in
    let valid : IsSome s.table_name × IsSome s.columns =
      subst (λ t. HasParts t (parse sql)) type (parse-IsValid sql) in
    rw (type, exec) (create-ends env s.table_name s.columns db valid.0 valid.1 opens apart)
