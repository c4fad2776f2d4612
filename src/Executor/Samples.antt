-- ===== src/Executor/Samples.antt =====
-- Tables of a column of numbers A (or ID) and a column of texts N, in whose columns rows were
-- inserted, for the tests of the statements.
use flex_ql_dl.Base.{ℕ, ◌≡◌, refl, List, [], ◌∷◌, none, some, arith, same_text, Text, if◌then◌else◌}
use flex_ql_dl.Storage.Pager
use flex_ql_dl.Storage.Pager.{Pager, page_addr}
use flex_ql_dl.Storage.Row.{decimal, varchar, ColumnDef, Value}
use flex_ql_dl.Storage.Column
use flex_ql_dl.Storage.Column.{ColumnPage, ColumnStore}
use flex_ql_dl.Storage.Column.Lifecycle.{new-Represents}
use flex_ql_dl.Storage.Table.{Table, insert_values}
use flex_ql_dl.Storage.Table.Holds.{IsRow, Holds, Stored, insert_values-Holds}
use flex_ql_dl.Index.Node.{leaf, blank, BptNode}
use flex_ql_dl.Index.IndexManager.{IndexManager, no_indexes}
use flex_ql_dl.Executor.Rows.{Heap}
use flex_ql_dl.Executor.Rows.Held.{HeapHolds}
use flex_ql_dl.Executor.Database.{Env, Database}

abbrev pub old_page : ColumnPage
old_page = record { num_items = 3; item_size = 4; body = λ _. 9 }

abbrev pub pager : Pager ColumnPage
pager = record { num_pages = 0; memory = λ _. old_page; syncs = [] }

abbrev pub index_pager : Pager BptNode
index_pager = record { num_pages = 0; memory = λ _. blank leaf; syncs = [] }

abbrev pub a_text : Text
a_text = b'A' ∷ []

abbrev pub n_text : Text
n_text = b'N' ∷ []

abbrev pub t_text : Text
t_text = b'T' ∷ []

abbrev pub number_of : ℕ → Value
number_of n = record { type = decimal; bits = n; str = [] }

abbrev pub text_of : Text → Value
text_of l = record { type = varchar; bits = 0; str = l }

abbrev pub schema_of : Text → List ColumnDef
schema_of name =
    record { name = name; type = decimal } ∷ record { name = n_text; type = varchar } ∷ []

abbrev pub row1 : List Value
row1 = number_of 5 ∷ text_of (b'x' ∷ []) ∷ []

abbrev pub row2 : List Value
row2 = number_of 7 ∷ text_of (b'y' ∷ b'z' ∷ []) ∷ []

abbrev pub rows : List (List Value)
rows = row1 ∷ row2 ∷ []

abbrev pub empty_columns : List ColumnStore
empty_columns = Column.new pager ∷ Column.new pager ∷ []

abbrev pub columns : List ColumnStore
columns = insert_values (insert_values empty_columns row1) row2

pub empty_columns-Holds : (name : Text) → Holds (schema_of name) [] empty_columns
unfolding Pager.new
empty_columns-Holds name = (
  new-Represents 8 (λ _. old_page) pager refl,
  (new-Represents 128 (λ _. old_page) pager refl, tt),
)

pub row1-IsRow : (name : Text) → IsRow 0 (schema_of name) row1
row1-IsRow name = ((refl, omega arith, refl), ((refl, refl, omega arith, (refl, tt)), tt))

pub row2-IsRow : (name : Text) → IsRow 0 (schema_of name) row2
row2-IsRow name = ((refl, omega arith, refl), ((refl, refl, omega arith, (refl, (refl, tt))), tt))

abbrev pub table : Table
table = record { schema = schema_of a_text; columns = columns; index_manager = no_indexes }

abbrev pub empty_table : Text → IndexManager → Table
empty_table name indexes = record {
  schema = schema_of name;
  columns = empty_columns;
  index_manager = indexes;
}

pub empty_table-Stored :
    (name : Text) (indexes : IndexManager) → Stored 0 (schema_of name) [] (empty_table name indexes)
empty_table-Stored name indexes = record {
  same_schema = refl;
  typed = tt;
  holds = empty_columns-Holds name;
}

pub table-Stored : Stored 0 (schema_of a_text) rows table
table-Stored = record {
  same_schema = refl;
  typed = (row1-IsRow a_text, (row2-IsRow a_text, tt));
  holds =
      insert_values-Holds 0 (schema_of a_text) (row1 ∷ []) (insert_values empty_columns row1) row2
        (row2-IsRow a_text) (omega arith)
        (insert_values-Holds 0 (schema_of a_text) [] empty_columns row1 (row1-IsRow a_text)
          (omega arith) (empty_columns-Holds a_text));
}

abbrev pub heap : Heap
heap = λ _. table

abbrev pub Live : ℕ → Type 0
Live a = a ≡ 0

pub heap-HeapHolds : HeapHolds 0 Live (λ _. schema_of a_text) (λ _. rows) heap
heap-HeapHolds a live = table-Stored

abbrev pub env : Env
env = record {
  disk = record {
    column_file = λ _. some pager;
    index_file = λ _. some index_pager;
    same_file = same_text;
  };
  data_dir = [];
  junk = 0;
  fuel = 2;
  stof = λ _. none;
  sort = λ before rows. rows;
}

abbrev pub database : Table → Database
database t = record {
  tables = λ n. if same_text n t_text then some 0 else none;
  heap = λ _. t;
  next = 1;
  files = [];
}
