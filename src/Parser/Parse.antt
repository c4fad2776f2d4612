-- ===== src/Parser/Parse.antt =====
-- `Parser::parse` (src/parser/parser.cpp). The statement that is not of the type has empty parts.
pub mod Columns
pub mod Clauses
pub mod Ends
pub mod Joined
pub mod Printed
pub mod RoundTrip
pub mod Selected
pub mod Sources
pub mod Valid
use flex_ql_dl.Base.{
  ℕ, zero, suc, ◌+◌, Bool, true, false, not, ◌&&◌, ◌||◌, List, [], ◌∷◌, ◌++◌, map, Option, none,
  some, ◌==◌, if◌then◌else◌, Text, is_space, trim_left, same_text, getlines, upper,
}
use flex_ql_dl.Parser.Ast.{
  StatementType, none_type, create_type, insert_type, select_type, delete_type, Col, CreateStmt,
  InsertStmt, WhereClause, OrderBy, Join, SelectStmt, DeleteStmt, Statement,
}
use flex_ql_dl.Parser.Words.{
  words, reads, before_first, behind_first, before_last, find_text, strip_right, strip_delimiters,
  all_or, from_first,
}
use flex_ql_dl.Parser.Keywords.{
  create_text, insert_text, delete_text, select_text, if_text, values_text, and_text, desc_text,
  spaced, from_text, join_text, on_text, where_text, order_text,
}

abbrev pub empty_statement : Statement
empty_statement = record {
  type = none_type;
  create_stmt = record { table_name = []; columns = [] };
  insert_stmt = record { table_name = []; raw_values = [] };
  select_stmt = record {
    columns = [];
    table_name = [];
    where_clauses = [];
    join = record { table = []; on_left = []; on_right = [] };
    order_by = record { column = []; ascending = true };
    has_join = false;
    has_order = false;
  };
  delete_stmt = record { table_name = [] };
}

-- The semicolons and the white space at the end are removed.
abbrev pub is_end : ℕ → Bool
is_end c = c == b';' || is_space c

-- The columns of CREATE, of the parts between commas; a part with no two words is left out.
abbrev pub add_col : List Text → List Col → List Col
add_col (name ∷ type ∷ l) cols =
    record { name = strip_delimiters name; type_str = strip_delimiters type } ∷ cols
add_col _ cols = cols

unfoldable pub parse_cols : List Text → List Col
unfolding words
parse_cols [] = []
parse_cols (part ∷ parts) = add_col (words part) (parse_cols parts)

-- The text from the first '(' to the last ')': with no ')' behind it, to the end.
abbrev pub column_text : Text → Option Text
column_text sql = elim (before_last (λ c. c == b')') sql) [
  | none ↦ none
  | some before ↦ elim (behind_first (λ c. c == b'(') sql) [
    | none ↦ none
    | some inside ↦ some (all_or inside (before_last (λ c. c == b')') inside))
  ]
]

-- `iss >> word` twice, and three times more behind IF.
abbrev pub created_name : List Text → Text
created_name l =
    let (word, rest) = reads 2 create_text l in
    if same_text (upper word) if_text then (reads 3 word rest).0 else word

unfoldable pub parse_create : Text → List Text → CreateStmt
unfolding parse_cols getlines
parse_create sql l = record {
  table_name = strip_delimiters (created_name l);
  columns = elim (column_text sql) [ none ↦ [] | some cols ↦ parse_cols (getlines b',' cols) ];
}

unfoldable pub parse_insert : Text → List Text → InsertStmt
parse_insert sql l = record {
  table_name = strip_delimiters (reads 2 insert_text l).0;
  raw_values = elim (find_text values_text sql) [ none ↦ [] | some (before, behind) ↦ behind ];
}

unfoldable pub parse_delete : List Text → DeleteStmt
parse_delete l = record { table_name = strip_delimiters (reads 2 delete_text l).0 }

-- The clauses of WHERE: three words each, and the word behind them is dropped, unless the first
-- word is AND.
unfoldable pub parse_clauses : List Text → List WhereClause
unfolding same_text
parse_clauses (col ∷ op ∷ val ∷ []) =
    if same_text (strip_delimiters col) and_text
    then []
    else record { column_name = strip_delimiters col; op = op; value_str = val } ∷ []
parse_clauses (col ∷ op ∷ val ∷ next ∷ l) =
    let here = parse_clauses (next ∷ l) in
    let behind = parse_clauses l in
    if same_text (strip_delimiters col) and_text
    then here
    else record { column_name = strip_delimiters col; op = op; value_str = val } ∷ behind
parse_clauses _ = []

abbrev pub cut_before : Text → Text → Text
cut_before pattern l = elim (find_text pattern l) [ none ↦ l | some (before, behind) ↦ before ]

-- The condition of a join ends at WHERE, or if there is none at ORDER BY.
abbrev pub on_condition : Text → Text
on_condition l = elim (find_text where_text l) [
  | some (before, behind) ↦ before
  | none ↦ cut_before order_text l
]

unfoldable pub parse_join : Text → Join
unfolding find_text
parse_join l = elim (find_text on_text l) [
  | none ↦ record { table = []; on_left = []; on_right = [] }
  | some (table, cond) ↦ elim (find_text (b'=' ∷ []) (on_condition cond)) [
    | none ↦ record { table = strip_delimiters table; on_left = []; on_right = [] }
    | some (left, right) ↦ record {
      table = strip_delimiters table;
      on_left = strip_delimiters left;
      on_right = strip_delimiters right;
    }
  ]
]

unfoldable pub parse_order : List Text → OrderBy
unfolding same_text
parse_order [] = record { column = []; ascending = true }
parse_order (col ∷ []) = record { column = strip_delimiters col; ascending = true }
parse_order (col ∷ dir ∷ l) = record {
  column = strip_delimiters col;
  ascending = not (same_text (strip_delimiters dir) desc_text);
}

abbrev pub first_word : List Text → Text
first_word [] = []
first_word (w ∷ l) = strip_delimiters w

abbrev pub is_some : {A : Type 0} → Option A → Bool
is_some none = false
is_some (some a) = true

-- The statement behind SELECT, with the columns before FROM and the rest behind it.
unfoldable pub parse_from : Text → Text → SelectStmt
unfolding words parse_join parse_clauses parse_order getlines
parse_from cols rest =
    let joined = find_text join_text rest in
    let ordered = find_text order_text rest in
    record {
      columns = map strip_delimiters (getlines b',' cols);
      table_name = first_word (words rest);
      where_clauses = elim (find_text where_text rest) [
        | none ↦ []
        | some (before, behind) ↦ parse_clauses (words (cut_before order_text behind))
      ];
      join = elim joined [
        | none ↦ record { table = []; on_left = []; on_right = [] }
        | some (before, behind) ↦ parse_join behind
      ];
      order_by = elim ordered [
        | none ↦ record { column = []; ascending = true }
        | some (before, behind) ↦ parse_order (words behind)
      ];
      has_join = is_some joined;
      has_order = is_some ordered;
    }

-- What `getline` gives behind the first word.
abbrev pub select_line : Text → Text
select_line sql = before_first (λ c. c == 10) (from_first (λ c. is_space c) (trim_left sql))

unfoldable pub parse_select : Text → SelectStmt
unfolding find_text parse_from before_first from_first trim_left
parse_select sql = elim (find_text from_text (select_line sql)) [
  | none ↦ empty_statement.select_stmt
  | some (cols, rest) ↦ parse_from cols rest
]

-- The statement by its first word, before it is checked.
unfoldable pub parse_words : Text → Text → List Text → Statement
unfolding parse_create parse_insert parse_delete parse_select same_text
parse_words sql word l =
    if same_text word create_text
    then record empty_statement { type = create_type; create_stmt = parse_create sql l }
    else if same_text word insert_text
    then record empty_statement { type = insert_type; insert_stmt = parse_insert sql l }
    else if same_text word delete_text
    then record empty_statement { type = delete_type; delete_stmt = parse_delete l }
    else if same_text word select_text
    then record empty_statement { type = select_type; select_stmt = parse_select sql }
    else empty_statement

abbrev pub is_empty {ℓ} : {A : Type ℓ} → List A → Bool
is_empty [] = true
is_empty (x ∷ l) = false

-- The check at the end.
abbrev pub is_valid : Statement → Bool
is_valid s = elim s.type [
  | create_type ↦ not (is_empty s.create_stmt.table_name || is_empty s.create_stmt.columns)
  | insert_type ↦ not (is_empty s.insert_stmt.table_name || is_empty s.insert_stmt.raw_values)
  | select_type ↦ not (is_empty s.select_stmt.table_name || is_empty s.select_stmt.columns)
  | delete_type ↦ not (is_empty s.delete_stmt.table_name)
  | none_type ↦ false
]

abbrev pub checked : Statement → Statement
checked s = if is_valid s then s else record s { type = none_type }

abbrev pub parse_clean : Text → List Text → Statement
parse_clean sql [] = empty_statement
parse_clean sql (word ∷ l) = checked (parse_words sql (upper word) l)

unfoldable pub parse : Text → Statement
unfolding words parse_words strip_right
parse sql = let clean = strip_right is_end sql in parse_clean clean (words clean)
