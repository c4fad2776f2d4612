-- ===== src/Storage/Table.antt =====
-- A table (include/storage/table.h, src/storage/table.cpp): a column file for each column of the
-- schema, and the indexes. `columns` is as long as the schema, by the constructor; two columns in
-- one file are not modelled, see `are_apart`. `scan` and `fetch_row` do nothing.
pub mod Holds
pub mod Insert
use flex_ql_dl.Base.{
  ℕ, zero, suc, Bool, true, false, not, ◌&&◌, ◌||◌, ltb, length, List, [], ◌∷◌, ◌++◌, Option, none,
  some, if◌then◌else◌, get_elem?, Text, same_text, Outcome, done, aborted, fault, starved, ◌>>=◌,
  map, c_str,
}
use flex_ql_dl.Storage.Pager.{Pager}
use flex_ql_dl.Storage.Row.{ColumnDef, Value, stored_size, stored_bytes}
use flex_ql_dl.Storage.Column
use flex_ql_dl.Storage.Column.{ColumnPage, ColumnStore, insert_fixed}
use flex_ql_dl.Index.Node.{BptNode}
use flex_ql_dl.Index.Tree
use flex_ql_dl.Index.Tree.{BpTree}
use flex_ql_dl.Index.IndexManager.{IndexManager, no_indexes, create_index, get_index}

pub record Table : Type 0 where
  pub schema : List ColumnDef
  pub columns : List ColumnStore
  pub index_manager : IndexManager

-- What the pager opens for a path, where `none` is its `exit(1)`, and whether two paths lead to one
-- file.
pub record Disk : Type 0 where
  pub column_file : Text → Option (Pager ColumnPage)
  pub index_file : Text → Option (Pager BptNode)
  pub same_file : Text → Text → Bool

abbrev pub id_text : Text
id_text = b'I' ∷ b'D' ∷ []

abbrev pub pk_text : Text
pk_text = b'P' ∷ b'K' ∷ []

-- `data_dir + "/" + name_ + "_" + …`
abbrev pub file_path : Text → Text → Text → Text
file_path data_dir name end = data_dir ++ b'/' ∷ name ++ b'_' ∷ end

abbrev pub bin_text : Text
bin_text = b'.' ∷ b'b' ∷ b'i' ∷ b'n' ∷ []

abbrev pub idx_text : Text
idx_text = b'.' ∷ b'i' ∷ b'd' ∷ b'x' ∷ []

-- `strncpy` writes 31 bytes of a name into an array that is not set: a name of 30 bytes at most gets
-- its zero, a longer one has no end.
abbrev pub is_terminated : ColumnDef → Bool
is_terminated d = ltb (length d.name) 31

abbrev pub are_terminated : List ColumnDef → Bool
are_terminated [] = true
are_terminated (d ∷ schema) = is_terminated d && are_terminated schema

-- The loop of the constructor. To read a name that has no end is not defined.
unfoldable pub open_columns : Disk → Text → Text → List ColumnDef → Outcome (List ColumnStore)
unfolding Column.new
open_columns disk data_dir name [] = done []
open_columns disk data_dir name (d ∷ schema) =
    let opened : Outcome (List ColumnStore) =
      elim (disk.column_file (file_path data_dir name (d.name ++ bin_text))) [
        | none ↦ aborted
        | some pager ↦
            open_columns disk data_dir name schema >>= λ columns. done (Column.new pager ∷ columns)
      ] in
    if is_terminated d then opened else fault

-- `std::string(schema_.columns[0].name) == "ID"`
abbrev pub has_id : List ColumnDef → Outcome Bool
has_id [] = fault
has_id (d ∷ schema) = done (same_text d.name id_text)

unfoldable pub open_index : Disk → Text → Text → Bool → Outcome IndexManager
unfolding Tree.new
open_index disk data_dir name false = done no_indexes
open_index disk data_dir name true =
    elim (disk.index_file (file_path data_dir name (pk_text ++ idx_text))) [
      | none ↦ aborted
      | some pager ↦ done (create_index no_indexes pk_text (Tree.new pager))
    ]

-- The files that the constructor maps.
abbrev pub index_paths : Text → Text → List ColumnDef → List Text
index_paths data_dir name [] = []
index_paths data_dir name (d ∷ schema) =
    if same_text d.name id_text then file_path data_dir name (pk_text ++ idx_text) ∷ [] else []

abbrev pub table_paths : Text → Text → List ColumnDef → List Text
table_paths data_dir name schema =
    map (λ d. file_path data_dir name (d.name ++ bin_text)) schema
    ++ index_paths data_dir name schema

abbrev pub is_mapped : Disk → Text → List Text → Bool
is_mapped disk path [] = false
is_mapped disk path (p ∷ files) = disk.same_file path p || is_mapped disk path files

-- None of the paths leads to the file of another one, or to one that is mapped already. Columns in
-- one file would write into one another's pages, as `MAP_SHARED` says; the columns of the model have
-- pages of their own.
abbrev pub are_apart : Disk → List Text → List Text → Bool
are_apart disk [] files = true
are_apart disk (path ∷ paths) files =
    not (is_mapped disk path files) && are_apart disk paths (path ∷ files)

-- The constructor.
unfoldable pub new : Disk → Text → Text → List ColumnDef → Outcome Table
unfolding open_columns open_index
new disk data_dir name schema = open_columns disk data_dir name schema >>= λ columns.
    has_id schema >>= λ indexed. open_index disk data_dir name indexed >>= λ indexes.
    done (record { schema = schema; columns = columns; index_manager = indexes })

-- The loop of `insert_row`: no more values than columns are stored.
unfoldable pub insert_values : List ColumnStore → List Value → List ColumnStore
insert_values [] values = []
insert_values (c ∷ columns) [] = c ∷ columns
insert_values (c ∷ columns) (v ∷ values) =
    insert_fixed c (stored_bytes v) (stored_size v.type) ∷ insert_values columns values

-- The end of `insert_row` for a table with an ID: the row's number goes into the index.
unfoldable pub insert_key : ℕ → ℕ → List Value → Table → Outcome Table
unfolding Tree.insert
insert_key fuel rid [] t = fault
insert_key fuel rid (v ∷ values) t = elim (get_index t.index_manager pk_text) [
  | none ↦ fault
  | some tree ↦ elim (Tree.insert fuel tree v.bits rid) [
    | none ↦ starved
    | some tree' ↦ done (record t { index_manager = create_index t.index_manager pk_text tree' })
  ]
]

-- `columns_[0]->get_total_rows()`
abbrev pub next_rid : List ColumnStore → Outcome ℕ
next_rid [] = fault
next_rid (c ∷ columns) = done c.total_rows

unfoldable pub insert_row : ℕ → Table → List Value → Outcome Table
unfolding insert_values insert_key
insert_row fuel t values =
    let t' = record t { columns = insert_values t.columns values } in
    next_rid t.columns >>= λ rid.
    has_id t.schema >>= λ indexed. if indexed then insert_key fuel rid values t' else done t'

-- The indexes keep their entries.
unfoldable pub clear : Table → Table
unfolding Column.clear
clear t = record t { columns = map Column.clear t.columns }

unfoldable pub flush_all : Table → Table
unfolding Column.flush
flush_all t = record t { columns = map Column.flush t.columns }

abbrev pub get_column : Table → ℕ → Option ColumnStore
get_column t index = get_elem? t.columns index
