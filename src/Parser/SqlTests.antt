-- ===== src/Parser/SqlTests.antt =====
-- Statements as they are written, at concrete inputs.
use flex_ql_dl.Base.{◌≡◌, refl, false, [], ◌∷◌, some, Text, same_text, join_with, strip_prefix}
use flex_ql_dl.Parser.Words.{find_text}
use flex_ql_dl.Parser.Print.{Query}
use flex_ql_dl.Parser.Parse.{parse}
use flex_ql_dl.Parser.Parse.RoundTrip.{IsQuery}
use flex_ql_dl.Parser.Sql.{select, print_sql, statement_of, parse-print_sql}

program : Unit {0}
unfolding same_text join_with find_text strip_prefix
program = tt

abbrev t_text : Text
t_text = b'T' ∷ []

abbrev u_text : Text
u_text = b'U' ∷ []

abbrev a_text : Text
a_text = b'A' ∷ []

abbrev b_text : Text
b_text = b'B' ∷ []

-- `SELECT A,B FROM T INNER JOIN U ON A=B WHERE A > 3 AND B = x ORDER BY A DESC;`
abbrev query : Query
query = record {
  columns = a_text ∷ b_text ∷ [];
  table = t_text;
  clauses =
      record { column_name = a_text; op = b'>' ∷ []; value_str = b'3' ∷ [] }
      ∷ record { column_name = b_text; op = b'=' ∷ []; value_str = b'x' ∷ [] }
      ∷ [];
  join = some (record { table = u_text; on_left = a_text; on_right = b_text });
  order = some (record { column = a_text; ascending = false });
}

query-IsQuery : IsQuery query
unfolding program
query-IsQuery = record {
  columns_there = tt;
  columns_named = ((refl, tt), ((refl, tt), tt));
  no_from = refl;
  table_named = (refl, tt);
  are_clauses = (
    (
      (refl, tt),
      refl,
      (refl, refl, refl),
      ((refl, tt), (refl, refl, refl)),
      ((refl, tt), (refl, refl, refl), refl),
    ),
    (
      (
        (refl, tt),
        refl,
        (refl, refl, refl),
        ((refl, tt), (refl, refl, refl)),
        ((refl, tt), (refl, refl, refl), refl),
      ),
      tt,
    ),
  );
  is_join = ((refl, tt), (refl, refl, refl), (refl, tt), (refl, tt));
  is_order = ((refl, tt), (refl, refl, refl));
}

parse-print_sql_example : parse (print_sql (select query)) ≡ statement_of (select query)
unfolding program
parse-print_sql_example = parse-print_sql (select query) query-IsQuery
