-- ===== src/Executor/Select.antt =====
-- `Executor::exec_select` and `Executor::exec` (src/executor/executor.cpp). The rows are
-- found by the index, a scan or a join; Executor/Filter is about what is done with them.
pub mod Query
pub mod Refines
pub mod Lookup
pub mod ById
pub mod Ids
mod Tests
mod IdTests
use flex_ql_dl.Base.{
  ℕ, zero, suc, ◌+◌, ◌-◌, ◌*◌, ◌/◌, ◌^◌, ◌⊎◌, inl, inr, Bool, true, false, not, ◌&&◌, ◌||◌, List,
  [], ◌∷◌, ◌++◌, map, Option, none, some, leb, ltb, ◌==◌, if◌then◌else◌, get_elem?, length, update,
  Text, c_str, same_text, Outcome, done, aborted, fault, starved, ◌>>=◌, stoll, to_string,
}
use mathlib.Core.Option
use flex_ql_dl.Storage.Row.{ColumnDef, Value, is_varchar, signed_lt, text_lt}
use flex_ql_dl.Storage.Table.{Table, id_text, pk_text}
use flex_ql_dl.Index.Tree
use flex_ql_dl.Index.Tree.{BpTree, search}
use flex_ql_dl.Index.IndexManager.{create_index, get_index}
use flex_ql_dl.Parser.Ast.{
  WhereClause, OrderBy, SelectStmt, Statement, none_type, create_type, insert_type, select_type,
  delete_type,
}
use flex_ql_dl.Executor.Rows.{Heap, materialize_row, materialize_from}
use flex_ql_dl.Executor.HashJoin
use flex_ql_dl.Executor.HashJoin.{find_column}
use flex_ql_dl.Executor.Database.{
  Env, Database, Answer, succeeded, failed, not_found, get_table, exec_create, exec_delete,
}
use flex_ql_dl.Executor.Insert.{exec_insert}
use flex_ql_dl.Executor.Filter.{
  star_text, unknown_column_text, unknown_column, column_index, number_test, value_matches,
  clause_matches, row_matches, filter_rows, value_before, row_before, order_rows, null_text,
  value_string, cell_string, row_strings, finish_rows,
}

-- `s.where.size() == 1 && … == "ID" && … == "="`: the text of the key.
abbrev pub id_clause : List WhereClause → Option Text
id_clause [] = none
id_clause (w ∷ []) =
    if same_text w.column_name id_text && same_text w.op (b'=' ∷ []) then some w.value_str else none
id_clause (w ∷ x ∷ clauses) = none

-- The key of the lookup; an exception of `stoll` is caught.
unfoldable pub lookup_key : SelectStmt → Option ℕ
unfolding stoll same_text
lookup_key s =
    let key : Option ℕ = elim (id_clause s.where_clauses) [
      | none ↦ none
      | some text ↦ stoll text
    ] in
    if s.has_join then none else key

-- `get_index("PK")->search(id, rid)`: the row's number, if the key is found.
unfoldable pub search_index : Env → ℕ → ℕ → Heap → Outcome (Option ℕ × Heap)
unfolding search
search_index env a key heap =
    let t = heap a in
    elim (get_index t.index_manager pk_text) [
      | none ↦ fault
      | some tree ↦ elim (search env.fuel tree key) [
        | none ↦ starved
        | some (rid, f) ↦ done (
          rid,
          update heap a (record t {
            index_manager = create_index t.index_manager pk_text (record tree { file = f });
          }),
        )
      ]
    ]

-- The lookup: a row, if the statement asks for an ID that the index has.
unfoldable pub find_row : Env → ℕ → Option ℕ → Heap → Outcome (Option (List Value) × Heap)
unfolding search_index materialize_row
find_row env a none heap = done (none, heap)
find_row env a (some key) heap = search_index env a key heap >>= λ (found, heap'). elim found [
  | none ↦ done (none, heap')
  | some rid ↦ let (row, heap'') = materialize_row env.junk a rid heap' in done (some row, heap'')
]

-- `t->get_column(0)->get_total_rows()`
abbrev pub total_rows : Table → Outcome ℕ
total_rows t = elim (get_elem? t.columns 0) [ none ↦ fault | some c ↦ done c.total_rows ]

-- The full scan.
unfoldable pub scan_rows : Env → ℕ → Heap → Outcome (List (List Value) × Heap)
unfolding materialize_from
scan_rows env a heap =
    total_rows (heap a) >>= λ total. done (materialize_from env.junk a 0 total heap)

-- The end of a statement on the table at `a`.
unfoldable pub answer_rows :
    Env
    → SelectStmt
    → ℕ
    → List ColumnDef
    → Bool
    → Database
    → List (List Value) × Heap
    → Outcome (Answer × Database)
unfolding finish_rows
answer_rows env s a schema2 used_index db (rows, heap) =
    finish_rows env (db.heap a).schema schema2 s used_index rows >>= λ texts.
    done (succeeded texts, record db { heap = heap })

-- The rows are found by a join or by a scan.
unfoldable pub select_all : Env → SelectStmt → ℕ → Database → Outcome (Answer × Database)
unfolding answer_rows scan_rows HashJoin.join
select_all env s a db =
    let joined : Outcome (Answer × Database) = elim (get_table db s.join.table) [
      | none ↦ done (failed (not_found s.join.table), db)
      | some b ↦
          answer_rows env s a (db.heap b).schema false db
            (HashJoin.join env.junk a b s.join.on_left s.join.on_right db.heap)
    ] in
    if s.has_join then joined else (scan_rows env a db.heap >>= answer_rows env s a [] false db)

-- Past the check of the columns: the lookup, then the rest.
unfoldable pub select_rows : Env → SelectStmt → ℕ → Database → Outcome (Answer × Database)
unfolding find_row select_all lookup_key
select_rows env s a db = find_row env a (lookup_key s) db.heap >>= λ (found, heap'). elim found [
  | none ↦ select_all env s a (record db { heap = heap' })
  | some row ↦ answer_rows env s a [] true db (row ∷ [], heap')
]

unfoldable pub exec_select : Env → SelectStmt → Database → Outcome (Answer × Database)
unfolding unknown_column select_rows
exec_select env s db = elim (get_table db s.table_name) [
  | none ↦ done (failed (not_found s.table_name), db)
  | some a ↦ elim (if s.has_join then none else unknown_column (db.heap a).schema s.columns) [
    | some name ↦ done (failed (unknown_column_text ++ name), db)
    | none ↦ select_rows env s a db
  ]
]

unfoldable pub exec : Env → Statement → Database → Outcome (Answer × Database)
unfolding exec_create exec_insert exec_select exec_delete
exec env s db = elim s.type [
  | create_type ↦ exec_create env s.create_stmt db
  | insert_type ↦ exec_insert env s.insert_stmt db
  | select_type ↦ exec_select env s.select_stmt db
  | delete_type ↦ exec_delete s.delete_stmt db
  | none_type ↦ done (record { code = 1; rows = []; err = [] }, db)
]
