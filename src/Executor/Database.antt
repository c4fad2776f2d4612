-- ===== src/Executor/Database.antt =====
-- The state of `Executor` (include/executor/executor.h), and `get_table`, `exec_create`,
-- `exec_delete` of src/executor/executor.cpp. The map `tables_` gives an address of the heap. Each
-- statement is one step.
pub mod Create
use flex_ql_dl.Base.{
  ℕ, ◌+◌, ◌-◌, Bool, ◌&&◌, ◌||◌, List, [], ◌∷◌, ◌++◌, map, Option, none, some, leb, if◌then◌else◌,
  take, update, Text, c_str, upper, same_text, Outcome, done, unmodelled, ◌>>=◌,
}
use flex_ql_dl.Storage.Row.{decimal, float, varchar, ColumnDef, Value}
use flex_ql_dl.Storage.Table
use flex_ql_dl.Storage.Table.{Table, Disk, table_paths, are_apart}
use flex_ql_dl.Parser.Ast.{Col, CreateStmt, DeleteStmt}
use flex_ql_dl.Executor.Rows.{Heap}

-- What the executor stands on: the files, the bytes of a union that was never written, the fuel
-- of the walks in an index, `std::stof` with the four bytes of a float, where `none` is an
-- exception, and `std::sort`.
pub record Env : Type 0 where
  pub disk : Disk
  pub data_dir : Text
  pub junk : ℕ
  pub fuel : ℕ
  pub stof : Text → Option ℕ
  pub sort : (List Value → List Value → Bool) → List (List Value) → List (List Value)

pub record Database : Type 0 where
  pub tables : Text → Option ℕ
  pub heap : Heap
  pub next : ℕ
  -- The paths of the files that the tables map.
  pub files : List Text

-- What `exec` returns, the rows that the callback got, and the text of the error.
pub record Answer : Type 0 where
  pub code : ℕ
  pub rows : List (List Text)
  pub err : Text

abbrev pub succeeded : List (List Text) → Answer
succeeded rows = record { code = 0; rows = rows; err = [] }

abbrev pub failed : Text → Answer
failed err = record { code = 1; rows = []; err = err }

abbrev pub not_found_text : Text
not_found_text =
    b'T' ∷ b'a' ∷ b'b' ∷ b'l' ∷ b'e' ∷ 32 ∷ b'n' ∷ b'o' ∷ b't' ∷ 32 ∷ b'f' ∷ b'o' ∷ b'u' ∷ b'n'
    ∷ b'd' ∷ b':' ∷ 32 ∷ []

abbrev pub missing_name_text : Text
missing_name_text =
    b'M' ∷ b'i' ∷ b's' ∷ b's' ∷ b'i' ∷ b'n' ∷ b'g' ∷ 32 ∷ b't' ∷ b'a' ∷ b'b' ∷ b'l' ∷ b'e' ∷ 32
    ∷ b'n' ∷ b'a' ∷ b'm' ∷ b'e' ∷ []

abbrev pub not_found : Text → Text
not_found name = not_found_text ++ upper name

-- The address of the table; without it, the callers return 1 with the error `not_found name`.
abbrev pub get_table : Database → Text → Option ℕ
get_table db name = db.tables (upper name)

abbrev pub decimal_text : Text
decimal_text = b'D' ∷ b'E' ∷ b'C' ∷ b'I' ∷ b'M' ∷ b'A' ∷ b'L' ∷ []

abbrev pub int_text : Text
int_text = b'I' ∷ b'N' ∷ b'T' ∷ []

abbrev pub float_text : Text
float_text = b'F' ∷ b'L' ∷ b'O' ∷ b'A' ∷ b'T' ∷ []

-- What `strncpy` writes of the name, in front of a zero.
abbrev pub column_def : Col → ColumnDef
column_def col = record {
  name = take 31 (c_str col.name);
  type =
      if same_text col.type_str decimal_text || same_text col.type_str int_text
      then decimal
      else if same_text col.type_str float_text
      then float
      else varchar;
}

abbrev pub add_table : Database → Text → List Text → Table → Database
add_table db name paths t = record {
  tables = λ n. if same_text name n then some db.next else db.tables n;
  heap = update db.heap db.next t;
  next = db.next + 1;
  files = paths ++ db.files;
}

-- A table that is there already is left as it is. The model ends where two columns or indexes would
-- map one file.
unfoldable pub exec_create : Env → CreateStmt → Database → Outcome (Answer × Database)
unfolding Table.new
exec_create env s db =
    let create : Outcome (Answer × Database) = elim (db.tables s.table_name) [
      | some a ↦ done (succeeded [], db)
      | none ↦
          let schema = map column_def s.columns in
          let paths = table_paths env.data_dir s.table_name schema in
          let made = Table.new env.disk env.data_dir s.table_name schema >>= λ t.
          done (succeeded [], add_table db s.table_name paths t) in
          if are_apart env.disk paths db.files then made else unmodelled
    ] in
    elim s.table_name [ [] ↦ done (failed missing_name_text, db) | ◌∷◌ c name ↦ create ]

unfoldable pub exec_delete : DeleteStmt → Database → Outcome (Answer × Database)
unfolding Table.clear
exec_delete s db = elim (get_table db s.table_name) [
  | none ↦ done (failed (not_found s.table_name), db)
  | some a ↦ done (succeeded [], record db { heap = update db.heap a (Table.clear (db.heap a)) })
]
