-- ===== src/Executor/Database/Create.antt =====
-- The tables that CREATE makes and DELETE empties (src/executor/executor.cpp, src/storage/table.cpp).
use flex_ql_dl.Base.{
  ℕ, Bool, ◌&&◌, ◌≡◌, ◌⊎◌, refl, inl, inr, true, false, List, [], ◌∷◌, ◌++◌, map, none, some,
  update, Text, same_text, same_text_self, Bool-cases, done, fault,
}
use flex_ql_dl.Storage.Pager
use flex_ql_dl.Storage.Pager.{Pager}
use flex_ql_dl.Storage.Row.{ColumnDef, Value, read_size}
use flex_ql_dl.Storage.Column
use flex_ql_dl.Storage.Column.{ColumnPage, ColumnStore}
use flex_ql_dl.Storage.Column.Lifecycle.{new-Represents}
use flex_ql_dl.Storage.Table
use flex_ql_dl.Storage.Table.{
  Table, Disk, file_path, bin_text, idx_text, id_text, pk_text, is_terminated, are_terminated,
  table_paths, are_apart, open_columns, has_id, open_index,
}
use flex_ql_dl.Storage.Table.Holds.{Holds, Stored, clear-Holds}
use flex_ql_dl.Index.Node.{BptNode}
use flex_ql_dl.Index.Tree
use flex_ql_dl.Index.Tree.{BpTree}
use flex_ql_dl.Index.IndexManager.{IndexManager, no_indexes, create_index, get_index}
use flex_ql_dl.Parser.Ast.{Col, CreateStmt, DeleteStmt}
use flex_ql_dl.Executor.Database.{
  Env, Database, succeeded, column_def, add_table, get_table, exec_create, exec_delete,
}

-- Every column file is opened, whatever it holds, and every index file.
abbrev pub Opens : Disk → Type 0
Opens disk =
    ((path : Text)
      → (contents : ℕ → ColumnPage) × (p : Pager ColumnPage) × (disk.column_file path ≡ some p)
        × (Pager.new true true true contents ≡ some p))
    × ((path : Text) → (p : Pager BptNode) × (disk.index_file path ≡ some p))

both_true : (a b : Bool) → (a && b) ≡ true → (a ≡ true) × (b ≡ true)
both_true true b h = (refl, h)
both_true false b h = absurd (cc)

open_columns-Holds :
    (disk : Disk) (dir name : Text) (schema : List ColumnDef)
    → Opens disk
    → are_terminated schema ≡ true
    → (columns : List ColumnStore) × (open_columns disk dir name schema ≡ done columns)
      × Holds schema [] columns
unfolding open_columns
open_columns-Holds disk dir name [] opens ended = ([], refl, tt)
open_columns-Holds disk dir name (d ∷ schema) opens ended =
    let (here, later) = both_true (is_terminated d) (are_terminated schema) ended in
    let (contents, p, there, opened) = opens.0 (file_path dir name (d.name ++ bin_text)) in
    let (columns, rest, held) = open_columns-Holds disk dir name schema opens later in
    (
      Column.new p ∷ columns,
      rw (here, there, open_columns) (rw rest refl),
      (new-Represents (read_size d.type) contents p opened, held),
    )

-- A name without an end is read.
open_columns_fault :
    (disk : Disk) (dir name : Text) (schema : List ColumnDef)
    → Opens disk
    → are_terminated schema ≡ false
    → open_columns disk dir name schema ≡ fault
unfolding open_columns
open_columns_fault disk dir name [] opens endless = absurd (cc)
open_columns_fault disk dir name (d ∷ schema) opens endless = elim (Bool-cases (is_terminated d)) [
  | inr here ↦ rw (here, open_columns) refl
  | inl here ↦
      let (_, p, there, _) = opens.0 (file_path dir name (d.name ++ bin_text)) in
      let rest = open_columns_fault disk dir name schema opens (rw here at endless) in
      rw (here, there, open_columns) (rw rest refl)
]

-- The index that a new table has: an empty one, if the first column is called ID.
abbrev pub HasIndex : ColumnDef → IndexManager → Type 0
HasIndex d indexes =
    ((same_text d.name id_text ≡ true)
      × ((p : Pager BptNode) × (get_index indexes pk_text ≡ some (Tree.new p))))
    ⊎ ((same_text d.name id_text ≡ false) × (get_index indexes pk_text ≡ none))

open_index-HasIndex :
    (disk : Disk) (dir name : Text) (d : ColumnDef)
    → Opens disk
    → (indexes : IndexManager) × (open_index disk dir name (same_text d.name id_text)
        ≡ done indexes)
      × HasIndex d indexes
unfolding open_index
open_index-HasIndex disk dir name d opens = elim (Bool-cases (same_text d.name id_text)) [
  | inl has ↦
      let (p, there) = opens.1 (file_path dir name (pk_text ++ idx_text)) in
      (
        create_index no_indexes pk_text (Tree.new p),
        rw (has, open_index) (rw there refl),
        inl (has, (p, rw (same_text_self pk_text) refl)),
      )
  | inr lacks ↦ (no_indexes, rw (lacks, open_index) refl, inr (lacks, refl))
]

new-Stored :
    (junk : ℕ) (disk : Disk) (dir name : Text) (d : ColumnDef) (schema : List ColumnDef)
    → Opens disk
    → are_terminated (d ∷ schema) ≡ true
    → (t : Table) × (Table.new disk dir name (d ∷ schema) ≡ done t)
      × Stored junk (d ∷ schema) [] t
      × HasIndex d t.index_manager
unfolding Table.new
new-Stored junk disk dir name d schema opens ended =
    let (columns, made, held) = open_columns-Holds disk dir name (d ∷ schema) opens ended in
    let (indexes, opened, index) = open_index-HasIndex disk dir name d opens in
    (
      record { schema = d ∷ schema; columns = columns; index_manager = indexes },
      rw (made, Table.new) (rw opened refl),
      record { same_schema = refl; typed = tt; holds = held },
      index,
    )

-- The files of a new table.
abbrev pub paths_of : Env → CreateStmt → List Text
paths_of env s = table_paths env.data_dir s.table_name (map column_def s.columns)

-- CREATE of a table that there is not yet, with a name and a column at least, the names of the
-- columns having 30 bytes at most, when its files can be opened, and no two of its paths lead to one
-- file and none to that of another table: it returns 0, and under the name is a table with the
-- columns and no rows, whatever the files held, and with an index if the first column is called ID.
pub exec_create-Stored :
    (env : Env) (c : ℕ) (name : Text) (col : Col) (cols : List Col) (db : Database)
    → Opens env.disk
    → db.tables (c ∷ name) ≡ none
    → are_terminated (map column_def (col ∷ cols)) ≡ true
    → are_apart env.disk
        (paths_of env (record { table_name = c ∷ name; columns = col ∷ cols }))
        db.files
      ≡ true
    → let s : CreateStmt = record { table_name = c ∷ name; columns = col ∷ cols } in
      (t : Table) × (exec_create env s db
        ≡ done (succeeded [], add_table db (c ∷ name) (paths_of env s) t))
      × Stored env.junk (map column_def (col ∷ cols)) [] t
      × HasIndex (column_def col) t.index_manager
unfolding exec_create
exec_create-Stored env c name col cols db opens absent ended apart =
    let (t, made, stored, index) =
      new-Stored env.junk env.disk env.data_dir (c ∷ name) (column_def col) (map column_def cols)
        opens ended in
    (t, rw (absent, exec_create) (rw apart (rw made refl)), stored, index)

-- CREATE of a table that there is not yet, with a column whose name has 31 bytes or more: what it
-- does is not defined.
pub exec_create_fault :
    (env : Env) (c : ℕ) (name : Text) (cols : List Col) (db : Database)
    → Opens env.disk
    → db.tables (c ∷ name) ≡ none
    → are_terminated (map column_def cols) ≡ false
    → are_apart env.disk (paths_of env (record { table_name = c ∷ name; columns = cols })) db.files
      ≡ true
    → exec_create env (record { table_name = c ∷ name; columns = cols }) db ≡ fault
unfolding exec_create Table.new
exec_create_fault env c name cols db opens absent endless apart =
    let lost =
      open_columns_fault env.disk env.data_dir (c ∷ name) (map column_def cols) opens endless in
    rw (absent, exec_create) (rw apart (rw (lost, Table.new) refl))

-- DELETE on a table that holds rows: it returns 0, and the table has the same columns and no rows,
-- but its indexes are as they were, with the entries of the rows that are gone.
pub exec_delete-Stored :
    (junk : ℕ) (s : DeleteStmt) (schema : List ColumnDef) (rows : List (List Value)) (a : ℕ)
    (db : Database)
    → get_table db s.table_name ≡ some a
    → Stored junk schema rows (db.heap a)
    → (t : Table) × (exec_delete s db
        ≡ done (succeeded [], record db { heap = update db.heap a t }))
      × Stored junk schema [] t
      × (t.index_manager ≡ (db.heap a).index_manager)
unfolding exec_delete Table.clear
exec_delete-Stored junk s schema rows a db there h = (
  Table.clear (db.heap a),
  rw (there, exec_delete) refl,
  record {
    same_schema = h.same_schema;
    typed = tt;
    holds = clear-Holds schema rows (db.heap a).columns h.holds;
  },
  refl,
)
