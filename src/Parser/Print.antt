-- ===== src/Parser/Print.antt =====
-- Statements as the texts that a user writes, for src/parser/parser.cpp to read.
use flex_ql_dl.Base.{
  Bool, true, false, List, Option, none, some, [], ◌∷◌, ◌++◌, map, Text, join_with,
}
use flex_ql_dl.Parser.Ast.{
  Col, CreateStmt, InsertStmt, DeleteStmt, WhereClause, OrderBy, Join, SelectStmt,
}
use flex_ql_dl.Parser.Keywords.{
  create_text, insert_text, delete_text, select_text, values_text, and_text, desc_text, from_text,
}
use flex_ql_dl.Parser.Words.{spread}
use flex_ql_dl.Parser.Parse.{is_some, empty_statement}

abbrev pub table_text : Text
table_text = b'T' ∷ b'A' ∷ b'B' ∷ b'L' ∷ b'E' ∷ []

abbrev pub into_text : Text
into_text = b'I' ∷ b'N' ∷ b'T' ∷ b'O' ∷ []

abbrev pub from_word : Text
from_word = b'F' ∷ b'R' ∷ b'O' ∷ b'M' ∷ []

-- `A INT`
abbrev pub print_col : Col → Text
print_col c = c.name ++ 32 ∷ c.type_str

-- `CREATE TABLE T (A INT,B VARCHAR)`
unfoldable pub create_body : CreateStmt → Text
unfolding join_with
create_body s =
    create_text
    ++ 32 ∷ table_text
    ++ 32 ∷ s.table_name
    ++ 32 ∷ b'(' ∷ (join_with b',' (map print_col s.columns) ++ b')' ∷ [])

-- `INSERT INTO T VALUES`, and the text of the values as it is.
unfoldable pub insert_body : InsertStmt → Text
insert_body s =
    insert_text ++ 32 ∷ into_text ++ 32 ∷ s.table_name ++ 32 ∷ (values_text ++ s.raw_values)

-- `DELETE FROM T`
unfoldable pub delete_body : DeleteStmt → Text
delete_body s = delete_text ++ 32 ∷ from_word ++ 32 ∷ s.table_name

-- A statement ends with a semicolon.
abbrev pub closed : Text → Text
closed body = body ++ b';' ∷ []

abbrev pub print_create : CreateStmt → Text
print_create s = closed (create_body s)

abbrev pub print_insert : InsertStmt → Text
print_insert s = closed (insert_body s)

abbrev pub print_delete : DeleteStmt → Text
print_delete s = closed (delete_body s)

-- What a SELECT asks for: the parts that can be left out are options.
pub record Query : Type 0 where
  pub columns : List Text
  pub table : Text
  pub clauses : List WhereClause
  pub join : Option Join
  pub order : Option OrderBy

abbrev pub select_of : Query → SelectStmt
select_of q = record {
  columns = q.columns;
  table_name = q.table;
  where_clauses = q.clauses;
  join = elim q.join [ none ↦ empty_statement.select_stmt.join | some j ↦ j ];
  order_by = elim q.order [ none ↦ empty_statement.select_stmt.order_by | some o ↦ o ];
  has_join = is_some q.join;
  has_order = is_some q.order;
}

abbrev pub inner_word : Text
inner_word = b'I' ∷ b'N' ∷ b'N' ∷ b'E' ∷ b'R' ∷ []

abbrev pub join_word : Text
join_word = b'J' ∷ b'O' ∷ b'I' ∷ b'N' ∷ []

abbrev pub on_word : Text
on_word = b'O' ∷ b'N' ∷ []

abbrev pub where_word : Text
where_word = b'W' ∷ b'H' ∷ b'E' ∷ b'R' ∷ b'E' ∷ []

abbrev pub order_word : Text
order_word = b'O' ∷ b'R' ∷ b'D' ∷ b'E' ∷ b'R' ∷ []

abbrev pub by_word : Text
by_word = b'B' ∷ b'Y' ∷ []

abbrev pub asc_text : Text
asc_text = b'A' ∷ b'S' ∷ b'C' ∷ []

-- `INNER JOIN U ON A=B`
abbrev pub join_words : Option Join → List Text
join_words none = []
join_words (some j) =
    inner_word ∷ join_word ∷ j.table ∷ on_word ∷ (j.on_left ++ b'=' ∷ j.on_right) ∷ []

abbrev pub linked : List Text → List Text
linked [] = []
linked (w ∷ ws) = and_text ∷ w ∷ ws

-- `A = 1 AND B < 2`
abbrev pub clause_words : List WhereClause → List Text
clause_words [] = []
clause_words (c ∷ l) = c.column_name ∷ c.op ∷ c.value_str ∷ linked (clause_words l)

abbrev pub where_words : List WhereClause → List Text
where_words [] = []
where_words (c ∷ l) = where_word ∷ clause_words (c ∷ l)

abbrev pub direction : Bool → Text
direction true = asc_text
direction false = desc_text

-- `ORDER BY A DESC`
abbrev pub order_words : Option OrderBy → List Text
order_words none = []
order_words (some o) = order_word ∷ by_word ∷ o.column ∷ direction o.ascending ∷ []

-- The text behind FROM.
abbrev pub source_text : Query → Text
source_text q =
    q.table
    ++ (spread (join_words q.join)
        ++ (spread (where_words q.clauses) ++ spread (order_words q.order)))

-- `SELECT A,B FROM T WHERE A = 1`
unfoldable pub select_body : Query → Text
unfolding join_with spread
select_body q = select_text ++ 32 ∷ (join_with b',' q.columns ++ (from_text ++ source_text q))

abbrev pub print_query : Query → Text
print_query q = closed (select_body q)
