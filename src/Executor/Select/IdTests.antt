-- ===== src/Executor/Select/IdTests.antt =====
-- Statements on a table with an ID at concrete inputs.
use flex_ql_dl.Base.{◌≡◌, refl, true, false, [], ◌∷◌, ◌++◌, arith, same_text, c_str, done, stoll}
use flex_ql_dl.Storage.Pager
use flex_ql_dl.Storage.Pager.{Pager, page_addr}
use flex_ql_dl.Cache.Lru
use flex_ql_dl.Cache.Lru.Invariant.{new-IsValid}
use flex_ql_dl.Cache.Manager
use flex_ql_dl.Storage.Table.{Table, insert_row, id_text, pk_text}
use flex_ql_dl.Storage.Table.Holds.{Stored}
use flex_ql_dl.Index.Node.{leaf, blank, BptNode, find_value}
use flex_ql_dl.Index.Tree
use flex_ql_dl.Index.Tree.{BpTree, search}
use flex_ql_dl.Index.Tree.Walk.{route}
use flex_ql_dl.Index.IndexManager.{IndexManager, no_indexes, create_index}
use flex_ql_dl.Parser.Ast.{SelectStmt, WhereClause}
use flex_ql_dl.Executor.Rows.Indexed.{Indexed, insert_row-Indexed}
use flex_ql_dl.Executor.Filter.{unknown_column}
use flex_ql_dl.Executor.Select.{lookup_key}
use flex_ql_dl.Executor.Samples.{
  n_text, t_text, number_of, text_of, schema_of, row1, row1-IsRow, empty_table, empty_table-Stored,
}

program : Unit {0}
unfolding Pager.new c_str same_text stoll insert_row lookup_key unknown_column Tree.search
    Manager.get_page Lru.new Lru.get Lru.put Lru.find Lru.erase Lru.back Lru.pop_back Pager.get_page
    page_addr find_value route
program = tt

-- A table with an index of one page, on a column ID.
abbrev pages : Pager BptNode
pages = record { num_pages = 1; memory = λ _. blank leaf; syncs = [] }

abbrev tree : BpTree
tree = record { file = Lru.new 2 pages; root_pid = 0 }

abbrev indexes : IndexManager
indexes = create_index no_indexes pk_text tree

abbrev id_table : Table
id_table = empty_table id_text indexes

id_table-Indexed : Indexed 2 [] id_table
unfolding program
id_table-Indexed = record {
  tree = tree;
  there = refl;
  valid = new-IsValid 2 pages (omega arith);
  answers = λ key. refl;
}

insert_row-Indexed_example :
    (t' : Table) × (insert_row 2 id_table row1 ≡ done t')
    × Stored 0 (schema_of id_text) ([] ++ row1 ∷ []) t'
    × Indexed 2 ([] ++ row1 ∷ []) t'
unfolding program id_table-Indexed
insert_row-Indexed_example =
    insert_row-Indexed 0 2 0 _ _ [] (number_of 5) (text_of (b'x' ∷ []) ∷ []) id_table
      (row1-IsRow id_text) (omega arith) (empty_table-Stored id_text indexes) refl id_table-Indexed
      refl (λ e. absurd (omega (arith, e))) (omega arith)

-- `ID = 5`
abbrev by_five : WhereClause
by_five = record { column_name = id_text; op = b'=' ∷ []; value_str = b'5' ∷ [] }

-- `SELECT N FROM T WHERE ID = 5`
abbrev by_id : SelectStmt
by_id = record {
  columns = n_text ∷ [];
  table_name = t_text;
  where_clauses = by_five ∷ [];
  join = record { table = []; on_left = []; on_right = [] };
  order_by = record { column = []; ascending = true };
  has_join = false;
  has_order = false;
}
