-- ===== src/Executor/Filter.antt =====
-- What `Executor::exec_select` does with rows (src/executor/executor.cpp): the check of the columns,
-- the filter, the order, and the texts for the callback. `t2` is the second table of a join; its
-- schema is the list `schema2`, which is empty without a join.
use mathlib.Core.Option
use flex_ql_dl.Base.{
  ℕ, ◌+◌, Bool, true, false, not, List, [], ◌∷◌, map, Option, none, some, ◌==◌, if◌then◌else◌,
  get_elem?, length, Text, c_str, same_text, Outcome, done, aborted, fault, ◌>>=◌, stoll, to_string,
}
use flex_ql_dl.Storage.Row.{ColumnDef, Value, is_varchar, signed_lt, text_lt}
use flex_ql_dl.Parser.Ast.{WhereClause, OrderBy, SelectStmt}
use flex_ql_dl.Executor.HashJoin.{find_column}
use flex_ql_dl.Executor.Database.{Env}

abbrev pub star_text : Text
star_text = b'*' ∷ []

abbrev pub unknown_column_text : Text
unknown_column_text =
    b'U' ∷ b'n' ∷ b'k' ∷ b'n' ∷ b'o' ∷ b'w' ∷ b'n' ∷ 32 ∷ b'c' ∷ b'o' ∷ b'l' ∷ b'u' ∷ b'm' ∷ b'n'
    ∷ b':' ∷ 32 ∷ []

-- The first requested column that the schema does not have, but for "*".
unfoldable pub unknown_column : List ColumnDef → List Text → Option Text
unfolding find_column same_text
unknown_column schema [] = none
unknown_column schema (name ∷ names) =
    let rest = unknown_column schema names in
    elim (find_column name schema) [
      | some i ↦ rest
      | none ↦ if same_text name star_text then rest else some name
    ]

-- The index of a column in a row of the tables `t` and `t2`.
unfoldable pub column_index : List ColumnDef → List ColumnDef → Text → Option ℕ
unfolding find_column
column_index schema schema2 name = elim (find_column name schema) [
  | some i ↦ some i
  | none ↦ Option.map (λ i. length schema + i) (find_column name schema2)
]

-- A number of the row against the number of a clause; `stoll` is not caught here.
abbrev pub number_test : (ℕ → ℕ → Bool) → ℕ → Option ℕ → Outcome Bool
number_test test n none = aborted
number_test test n (some k) = done (test n k)

-- The test of a clause on a value: with another operator, every value passes.
unfoldable pub value_matches : WhereClause → Value → Outcome Bool
unfolding stoll same_text
value_matches w v =
    let number = stoll w.value_str in
    if same_text w.op (b'=' ∷ [])
    then if is_varchar v.type
      then done (same_text v.str w.value_str)
      else number_test (λ n k. n == k) v.bits number
    else if same_text w.op (b'>' ∷ [])
    then number_test (λ n k. signed_lt 64 k n) v.bits number
    else if same_text w.op (b'>' ∷ b'=' ∷ [])
    then number_test (λ n k. not (signed_lt 64 n k)) v.bits number
    else done true

-- A clause on a column that there is not is left out.
unfoldable pub clause_matches :
    List ColumnDef → List ColumnDef → WhereClause → List Value → Outcome Bool
unfolding column_index value_matches
clause_matches schema schema2 w row = elim (column_index schema schema2 w.column_name) [
  | none ↦ done true
  | some i ↦ elim (get_elem? row i) [ none ↦ fault | some v ↦ value_matches w v ]
]

-- The loop over the clauses: it stops at the first that does not match.
unfoldable pub row_matches :
    List ColumnDef → List ColumnDef → List WhereClause → List Value → Outcome Bool
unfolding clause_matches
row_matches schema schema2 [] row = done true
row_matches schema schema2 (w ∷ clauses) row =
    let rest = row_matches schema schema2 clauses row in
    clause_matches schema schema2 w row >>= λ m. if m then rest else done false

-- The filter over the results.
unfoldable pub filter_rows :
    List ColumnDef
    → List ColumnDef
    → List WhereClause
    → List (List Value)
    → Outcome (List (List Value))
unfolding row_matches
filter_rows schema schema2 clauses [] = done []
filter_rows schema schema2 clauses (row ∷ rows) = row_matches schema schema2 clauses row >>= λ m.
    filter_rows schema schema2 clauses rows >>= λ rest. done (if m then row ∷ rest else rest)

-- The comparison of two rows that `sort` gets. A row has every column.
abbrev pub value_before : Option Value → Option Value → Bool
value_before (some a) (some b) =
    if is_varchar a.type then text_lt a.str b.str else signed_lt 64 a.bits b.bits
value_before _ _ = false

abbrev pub row_before : ℕ → Bool → List Value → List Value → Bool
row_before i ascending a b =
    let lt = value_before (get_elem? a i) (get_elem? b i) in if ascending then lt else not lt

unfoldable pub order_rows :
    Env → List ColumnDef → List ColumnDef → OrderBy → List (List Value) → List (List Value)
unfolding column_index
order_rows env schema schema2 order rows = elim (column_index schema schema2 order.column) [
  | none ↦ rows
  | some i ↦ env.sort (row_before i order.ascending) rows
]

-- `strings` of a row, and the C string of it in `argv`.
abbrev pub null_text : Text
null_text = b'N' ∷ b'U' ∷ b'L' ∷ b'L' ∷ []

abbrev pub value_string : Value → Text
value_string v = if is_varchar v.type then v.str else to_string v.bits

abbrev pub cell_string : Option ℕ → List Value → Text
cell_string none row = null_text
cell_string (some i) row = elim (get_elem? row i) [ none ↦ null_text | some v ↦ value_string v ]

unfoldable pub row_strings : List ColumnDef → List ColumnDef → List Text → List Value → List Text
unfolding column_index c_str
row_strings schema schema2 names row =
    map (λ name. c_str (cell_string (column_index schema schema2 name) row)) names

-- What is done with the rows that were found: filter, order, callback.
unfoldable pub finish_rows :
    Env
    → List ColumnDef
    → List ColumnDef
    → SelectStmt
    → Bool
    → List (List Value)
    → Outcome (List (List Text))
unfolding filter_rows order_rows row_strings
finish_rows env schema schema2 s used_index rows =
    (if used_index then done rows else filter_rows schema schema2 s.where_clauses rows) >>= λ kept.
    done (
      map (row_strings schema schema2 s.columns)
        (if s.has_order then order_rows env schema schema2 s.order_by kept else kept))
