-- ===== src/Parser/Sql.antt =====
-- Every statement as it is written, read by `Parser::parse` (src/parser/parser.cpp).
use flex_ql_dl.Base.{◌≡◌, false, [], ◌∷◌, List, none, All, Text, same_text}
use flex_ql_dl.Parser.Ast.{Col, CreateStmt, InsertStmt, DeleteStmt, Statement}
use flex_ql_dl.Parser.Keywords.{if_text, values_text}
use flex_ql_dl.Parser.Words.{find_text}
use flex_ql_dl.Parser.Words.Plain.{IsName, Ends}
use flex_ql_dl.Parser.Print.{
  Query, select_of, print_create, print_insert, print_delete, print_query,
}
use flex_ql_dl.Parser.Parse.{is_end, parse}
use flex_ql_dl.Parser.Parse.Valid.{IsSome}
use flex_ql_dl.Parser.Parse.Columns.{IsCol, parse-print_create}
use flex_ql_dl.Parser.Parse.Printed.{
  with_create, with_insert, with_delete, parse-print_insert, parse-print_delete,
}
use flex_ql_dl.Parser.Parse.RoundTrip.{IsQuery, with_select, parse-print_query}

pub data Sql : Type 0 where
  create : CreateStmt → Sql
  insert : InsertStmt → Sql
  select : Query → Sql
  delete : DeleteStmt → Sql

abbrev pub print_sql : Sql → Text
print_sql (create s) = print_create s
print_sql (insert s) = print_insert s
print_sql (select q) = print_query q
print_sql (delete s) = print_delete s

abbrev pub statement_of : Sql → Statement
statement_of (create s) = with_create s
statement_of (insert s) = with_insert s
statement_of (select q) = with_select (select_of q)
statement_of (delete s) = with_delete s

-- What can be written: names are of capital letters, digits and signs that are no delimiters.
abbrev pub IsWritten : Sql → Type 0
IsWritten (create s) =
    IsName s.table_name
    × (same_text s.table_name if_text ≡ false)
    × IsSome s.columns
    × All IsCol s.columns
IsWritten (insert s) =
    IsName s.table_name × (find_text values_text s.table_name ≡ none) × Ends is_end s.raw_values
IsWritten (select q) = IsQuery q
IsWritten (delete s) = IsName s.table_name

create_written : (s : CreateStmt) → IsWritten (create s) → parse (print_create s) ≡ with_create s
create_written s (named, other, there, are_cols) = columns s.columns there are_cols
  where
    columns :
        (l : List Col)
        → IsSome l
        → All IsCol l
        → let t : CreateStmt = record { table_name = s.table_name; columns = l } in
          parse (print_create t) ≡ with_create t
    columns [] k h = absurd k
    columns (c ∷ l) k h = parse-print_create s.table_name c l named other h

-- The parser gives each statement back from its text, all of its parts included: CREATE with a
-- column at least, whose table is not called IF; INSERT into a table in whose name VALUES does not
-- stand, with values that do not end with a semicolon or white space; DELETE; and SELECT with a
-- join, clauses and an order or without them. There the operators and the values are words, no word
-- behind FROM is INNER, WHERE or ORDER, no clause is of a column AND, no value ends with a
-- semicolon, and FROM is not the one column.
pub parse-print_sql : (s : Sql) → IsWritten s → parse (print_sql s) ≡ statement_of s
parse-print_sql (create s) h = create_written s h
parse-print_sql (insert s) h = parse-print_insert s.table_name s.raw_values h.0 h.1 h.2
parse-print_sql (select q) h = parse-print_query q h
parse-print_sql (delete s) h = parse-print_delete s.table_name h
