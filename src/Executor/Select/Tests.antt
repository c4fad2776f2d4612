-- ===== src/Executor/Select/Tests.antt =====
-- The statements at concrete inputs.
use flex_ql_dl.Base.{
  none, ℕ, ◌≡◌, refl, inl, inr, true, false, List, [], ◌∷◌, map, arith, same_text, Text, c_str,
  done, All, join_with, strip_prefix, stoll, to_string,
}
use flex_ql_dl.Storage.Pager
use flex_ql_dl.Storage.Pager.{Pager, page_addr}
use flex_ql_dl.Cache.Lru
use flex_ql_dl.Cache.Manager
use flex_ql_dl.Storage.Row.{ColumnDef, Value}
use flex_ql_dl.Storage.Table.{insert_row}
use flex_ql_dl.Index.Node.{find_value}
use flex_ql_dl.Index.Tree
use flex_ql_dl.Index.Tree.{BpTree, search}
use flex_ql_dl.Index.Tree.Walk.{route}
use flex_ql_dl.Parser.Ast.{SelectStmt, WhereClause}
use flex_ql_dl.Executor.Rows.{Heap}
use flex_ql_dl.Executor.Rows.Held.{HeapHolds}
use flex_ql_dl.Executor.HashJoin
use flex_ql_dl.Executor.HashJoin.Reference.{nested_rows}
use flex_ql_dl.Executor.HashJoin.Nested.{join-nested_rows}
use flex_ql_dl.Executor.Database.{succeeded}
use flex_ql_dl.Parser.Ast.{Col}
use flex_ql_dl.Executor.Database.{Database, column_def}
use flex_ql_dl.Executor.Insert.Printed.{print_rows}
use flex_ql_dl.Executor.Script.{run, run-print_query}
use flex_ql_dl.Parser.Words.{find_text}
use flex_ql_dl.Parser.Print.{Query, select_of, print_create, print_insert, print_query}
use flex_ql_dl.Parser.Parse.RoundTrip.{IsQuery}
use flex_ql_dl.Executor.Filter.{row_strings, unknown_column, column_index}
use flex_ql_dl.Executor.Select.{exec_select, lookup_key}
use flex_ql_dl.Executor.Select.Query.{Testable, Testable-intro}
use flex_ql_dl.Executor.Select.Refines.{chosen, exec_select-scan, exec_select-join}
use flex_ql_dl.Executor.Samples.{
  row2-IsRow, index_pager, old_page, pager, a_text, n_text, t_text, number_of, text_of, schema_of,
  row1, row2, rows, row1-IsRow, table, heap, Live, heap-HeapHolds, env, database,
}

program : Unit {0}
unfolding Pager.new c_str same_text stoll insert_row HashJoin.find_column lookup_key unknown_column
    column_index Tree.search Manager.get_page Lru.new Lru.get Lru.put Lru.find Lru.erase Lru.back
    Lru.pop_back Pager.get_page page_addr find_value route
program = tt

-- The table joined with itself.
join-nested_rows_example :
    ((HashJoin.join 0 0 0 a_text a_text heap).0 ≡ nested_rows 0 0 rows rows)
    × HeapHolds 0 Live
        (λ _. schema_of a_text)
        (λ _. rows)
        (HashJoin.join 0 0 0 a_text a_text heap).1
unfolding program
join-nested_rows_example =
    join-nested_rows 0 Live (λ _. schema_of a_text) (λ _. rows) 0 0 0 0 a_text a_text heap
      heap-HeapHolds refl refl refl refl (_, refl, refl) (_, refl, refl)

-- `SELECT <columns> FROM T WHERE <clauses>`
abbrev select : List Text → List WhereClause → SelectStmt
select names clauses = record {
  columns = names;
  table_name = t_text;
  where_clauses = clauses;
  join = record { table = t_text; on_left = a_text; on_right = a_text };
  order_by = record { column = []; ascending = true };
  has_join = false;
  has_order = false;
}

-- `A > 5 AND N = 'yz'`, where the second text is no number.
abbrev number_clause : WhereClause
number_clause = record { column_name = a_text; op = b'>' ∷ []; value_str = b'5' ∷ [] }

abbrev text_clause : WhereClause
text_clause = record { column_name = n_text; op = b'=' ∷ []; value_str = b'y' ∷ b'z' ∷ [] }

abbrev clauses : List (WhereClause × ℕ)
clauses = (number_clause, 5) ∷ (text_clause, 0) ∷ []

abbrev query : SelectStmt
query = select (n_text ∷ []) (map (λ c. c.0) clauses)

chosen_rows : chosen env (schema_of a_text) [] query clauses rows ≡ ((b'y' ∷ b'z' ∷ []) ∷ []) ∷ []
unfolding program row_strings c_str to_string
chosen_rows = refl

database-Good : HeapHolds 0 Live (λ _. schema_of a_text) (λ _. rows) (database table).heap
database-Good = heap-HeapHolds

-- Each clause can be tested on a row that starts as the rows of the table do.
testable :
    (schema2 : List ColumnDef) (n : ℕ) (l : Text) (rest : List Value)
    → All (Testable (schema_of a_text) schema2 (number_of n ∷ text_of l ∷ rest)) clauses
unfolding program
testable schema2 n l rest =
    let row = number_of n ∷ text_of l ∷ rest in
    (
      Testable-intro (schema_of a_text) schema2 row number_clause 5 0 (number_of n) refl refl
          (inl refl),
      (
        Testable-intro (schema_of a_text) schema2 row text_clause 0 1 (text_of l) refl refl
            (inr (refl, refl)),
        tt,
      ),
    )

exec_select-scan_example :
    (heap' : Heap) × (exec_select env query (database table)
      ≡ done (
        succeeded (chosen env (schema_of a_text) [] query clauses rows),
        record (database table) { heap = heap' },
      ))
    × HeapHolds 0 Live (λ _. schema_of a_text) (λ _. rows) heap'
unfolding program
exec_select-scan_example =
    exec_select-scan env Live (λ _. schema_of a_text) (λ _. rows) query clauses 0 (database table) _
      _ database-Good refl refl refl refl refl refl refl
      (testable [] 5 (b'x' ∷ []) [], (testable [] 7 (b'y' ∷ b'z' ∷ []) [], tt))

-- `SELECT A, N FROM T INNER JOIN T ON A = A WHERE A > 5 AND N = 'yz'`
abbrev join_query : SelectStmt
join_query = record query { columns = a_text ∷ n_text ∷ []; has_join = true }

exec_select-join_example :
    (heap' : Heap) × (exec_select env join_query (database table)
      ≡ done (
        succeeded (
            chosen env
              (schema_of a_text)
              (schema_of a_text)
              join_query
              clauses
              (nested_rows 0 0 rows rows)),
        record (database table) { heap = heap' },
      ))
    × HeapHolds 0 Live (λ _. schema_of a_text) (λ _. rows) heap'
unfolding program nested_rows
exec_select-join_example =
    exec_select-join env Live (λ _. schema_of a_text) (λ _. rows) join_query clauses 0 0 0 0
      (database table) database-Good refl refl refl refl refl refl refl (_, refl, refl)
      (_, refl, refl) refl
      (
        testable (schema_of a_text) 5 (b'x' ∷ []) row1,
        (testable (schema_of a_text) 7 (b'y' ∷ b'z' ∷ []) row2, tt),
      )

abbrev cols : List Col
cols =
    record { name = a_text; type_str = b'I' ∷ b'N' ∷ b'T' ∷ [] }
    ∷ record { name = n_text; type_str = b'T' ∷ b'E' ∷ b'X' ∷ b'T' ∷ [] }
    ∷ []

abbrev nothing : Database
nothing = record { tables = λ _. none; heap = heap; next = 3; files = [] }

-- `SELECT N FROM T WHERE A > 5 AND N = 'yz'`
abbrev written : Query
written = record {
  columns = n_text ∷ [];
  table = t_text;
  clauses = map (λ c. c.0) clauses;
  join = none;
  order = none;
}

written-IsQuery : IsQuery written
unfolding program join_with
written-IsQuery = record {
  columns_there = tt;
  columns_named = ((refl, tt), tt);
  no_from = refl;
  table_named = (refl, tt);
  are_clauses = (
    (
      (refl, tt),
      refl,
      (refl, refl, refl),
      ((refl, tt), (refl, refl, refl)),
      ((refl, tt), (refl, refl, refl), refl),
    ),
    (
      (
        (refl, tt),
        refl,
        (refl, refl, refl),
        ((refl, tt), (refl, refl, refl)),
        ((refl, (refl, tt)), (refl, refl, refl), refl),
      ),
      tt,
    ),
  );
  is_join = tt;
  is_order = tt;
}

run-print_query_example :
    (db1 : Database) × (db2 : Database) × (db3 : Database) × (run env
        (print_create (record { table_name = t_text; columns = cols }))
        nothing
      ≡ done (succeeded [], db1))
    × (run env (print_insert (record { table_name = t_text; raw_values = print_rows rows })) db1
        ≡ done (succeeded [], db2))
    × (run env (print_query written) db2
        ≡ done
            (succeeded (chosen env (map column_def cols) [] (select_of written) clauses rows), db3))
unfolding program find_text strip_prefix
run-print_query_example =
    run-print_query env b'T' [] _ _ nothing _ _ written clauses
      ((λ path. ((λ _. old_page), pager, refl, refl)), (λ path. (index_pager, refl))) (refl, tt)
      refl refl
      (
        ((refl, tt), (refl, (refl, (refl, tt)))),
        (((refl, tt), (refl, (refl, (refl, (refl, tt))))), tt),
      )
      written-IsQuery refl refl refl refl
      (
        (row1-IsRow a_text, (tt, (((refl, tt), (refl, tt)), tt))),
        ((row2-IsRow a_text, (tt, (((refl, (refl, tt)), (refl, (refl, tt))), tt))), tt),
      )
      (omega arith) refl refl refl refl refl
      (testable [] 5 (b'x' ∷ []) [], (testable [] 7 (b'y' ∷ b'z' ∷ []) [], tt))
