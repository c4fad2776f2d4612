-- ===== src/Parser/Parse/RoundTrip.antt =====
-- SELECT as it is written, read by `Parser::parse` (src/parser/parser.cpp).
use mathlib.Core.List.{append-nil}
use flex_ql_dl.Base.{
  ◌≡◌, refl, ap, ◌∙◌, Bool, true, false, List, [], ◌∷◌, ◌++◌, map, Option, none, some, All,
  All-append, All-map, ◌==◌, Text, same_text, Without, getlines, join_with, into_first, trim_left,
}
use flex_ql_dl.Base.Visible.{IsPart, getlines-join_with_parts, join_with-All-Without}
use flex_ql_dl.Parser.Ast.{select_type, WhereClause, OrderBy, Join, SelectStmt, Statement}
use flex_ql_dl.Parser.Keywords.{select_text, from_text}
use flex_ql_dl.Parser.Words.{
  words, ends_word, spread, strip_delimiters, find_text, from_first, before_first,
}
use flex_ql_dl.Parser.Words.Plain.{
  IsName, IsName-IsWord, IsName-Lacks, words-append, strip_delimiters-IsName,
  strip_delimiters_space, before_first-Lacks, Ends-append,
}
use flex_ql_dl.Parser.Words.Find.{shifted, find_text_other, find_text-append}
use flex_ql_dl.Parser.Print.{
  Query, select_of, from_word, join_words, source_text, select_body, print_query,
}
use flex_ql_dl.Parser.Parse.{
  parse, parse_words, parse_clean, parse_select, parse_from, select_line, first_word,
  empty_statement, checked, is_end,
}
use flex_ql_dl.Parser.Parse.Printed.{parse-closed}
use flex_ql_dl.Parser.Parse.Valid.{IsSome}
use flex_ql_dl.Parser.Parse.Clauses.{IsClause, IsJoin, IsOrder}
use flex_ql_dl.Parser.Parse.Joined.{tail_text}
use flex_ql_dl.Parser.Parse.Ends.{columns-line, source-line, source-Ends}
use flex_ql_dl.Parser.Parse.Sources.{source, join_source, clauses_source, order_source}

-- A query whose parts can be written: the names are names, and no word behind FROM is INNER, WHERE
-- or ORDER.
pub record IsQuery (q : Query) : Type 0 where
  pub columns_there : IsSome q.columns
  pub columns_named : All IsName q.columns
  pub no_from : same_text from_word (join_with b',' q.columns) ≡ false
  pub table_named : IsName q.table
  pub are_clauses : All IsClause q.clauses
  pub is_join : IsJoin q.join
  pub is_order : IsOrder q.order

abbrev pub with_select : SelectStmt → Statement
with_select s = record empty_statement { type = select_type; select_stmt = s }

SelectStmt_ext :
    (s : SelectStmt) (columns : List Text) (table : Text) (clauses : List WhereClause) (join : Join)
    (order : OrderBy) (has_join has_order : Bool)
    → columns ≡ s.columns
    → table ≡ s.table_name
    → clauses ≡ s.where_clauses
    → join ≡ s.join
    → order ≡ s.order_by
    → has_join ≡ s.has_join
    → has_order ≡ s.has_order
    → record {
      columns = columns;
      table_name = table;
      where_clauses = clauses;
      join = join;
      order_by = order;
      has_join = has_join;
      has_order = has_order;
    }
      ≡ s
SelectStmt_ext s columns table clauses join order has_join has_order a b c d e f g =
    rw (a, b, c, d, e, f, g) refl

strip_delimiters-All : (l : List Text) → All IsName l → map strip_delimiters l ≡ l
strip_delimiters-All [] h = refl
strip_delimiters-All (w ∷ l) h =
    rw (strip_delimiters-IsName w h.0) (ap (λ r. w ∷ r) (strip_delimiters-All l h.1))

IsName-IsPart : (l : Text) → IsName l → IsPart b',' l
IsName-IsPart [] h = absurd h
IsName-IsPart (c ∷ l) h = IsName-Lacks b',' (c ∷ l) refl h

getlines_space : (l : Text) → getlines b',' (32 ∷ l) ≡ into_first 32 (getlines b',' l)
unfolding getlines
getlines_space l = refl

-- The columns are read from the text between SELECT and FROM.
columns_read :
    (l : List Text)
    → IsSome l
    → All IsName l
    → map strip_delimiters (getlines b',' (32 ∷ join_with b',' l)) ≡ l
columns_read [] some_there h = absurd some_there
columns_read (w ∷ l) some_there h =
    ap (map strip_delimiters) (
      getlines_space (join_with b',' (w ∷ l))
      ∙ ap (into_first 32) (
          getlines-join_with_parts b',' (w ∷ l)
            (All-map IsName (IsPart b',') (w ∷ l) IsName-IsPart h)))
    ∙ rw (strip_delimiters_space w h.0) (ap (λ r. w ∷ r) (strip_delimiters-All l h.1))

first_word-source :
    (t : Text) (j : Option Join) (l : List WhereClause) (o : Option OrderBy)
    → IsName t
    → first_word (words (source t j l o)) ≡ t
unfolding spread
first_word-source t j l o named =
    ap first_word
      (words-append t (spread (join_words j) ++ tail_text l o) (IsName-IsWord t named) (ends j l o))
    ∙ strip_delimiters-IsName t named
  where
    ends :
        (j : Option Join) (l : List WhereClause) (o : Option OrderBy)
        → ends_word (spread (join_words j) ++ tail_text l o) ≡ true
    ends none [] none = refl
    ends none [] (some o) = refl
    ends none (c ∷ l) o = refl
    ends (some j) l o = refl

parse_from-source :
    (q : Query)
    → IsQuery q
    → parse_from (32 ∷ join_with b',' q.columns) (source_text q) ≡ select_of q
unfolding parse_from
parse_from-source q h =
    let (has_join, join) =
      join_source q.table q.clauses q.order h.table_named h.are_clauses h.is_order q.join
        h.is_join in
    let (has_order, order) =
      order_source q.table q.join q.clauses h.table_named h.is_join h.are_clauses q.order
        h.is_order in
    SelectStmt_ext (select_of q) _ _ _ _ _ _ _
      (columns_read q.columns h.columns_there h.columns_named)
      (first_word-source q.table q.join q.clauses q.order h.table_named)
      (clauses_source q.table q.join q.order h.table_named h.is_join h.is_order q.clauses
        h.are_clauses)
      join order has_join has_order

columns-Without : (l : List Text) → All IsName l → Without 32 (join_with b',' l)
columns-Without l h =
    join_with-All-Without b',' 32 l refl
      (All-map IsName (Without 32) l (λ w k. IsName-Lacks 32 w refl k) h)

-- The line behind SELECT.
line_text : Query → Text
line_text q = 32 ∷ (join_with b',' q.columns ++ (from_text ++ source_text q))

select_line-body :
    (l : Text) → select_line (select_text ++ 32 ∷ l) ≡ before_first (λ c. c == 10) (32 ∷ l)
unfolding trim_left from_first
select_line-body l = refl

select_line-select_body : (q : Query) → IsQuery q → select_line (select_body q) ≡ line_text q
unfolding select_body line_text
select_line-select_body q h =
    select_line-body (join_with b',' q.columns ++ (from_text ++ source_text q))
    ∙ before_first-Lacks (λ c. c == 10) (line_text q)
        (
          refl,
          All-append (λ d. (d == 10) ≡ false) (join_with b',' q.columns) _
              (columns-line q.columns h.columns_named)
              (All-append (λ d. (d == 10) ≡ false) from_text (source_text q)
                (refl, (refl, (refl, (refl, (refl, (refl, tt))))))
                (source-line q.table q.join q.clauses q.order h.table_named h.is_join h.are_clauses
                  h.is_order)),
        )

find_from :
    (q : Query)
    → IsQuery q
    → find_text from_text (line_text q) ≡ some (32 ∷ join_with b',' q.columns, source_text q)
unfolding line_text
find_from q h =
    let cols = join_with b',' q.columns in
    find_text_other from_word [] cols (from_text ++ source_text q)
      (refl, (refl, (refl, (refl, tt)))) (columns-Without q.columns h.columns_named) refl h.no_from
    ∙ ap (shifted (32 ∷ cols)) (find_text-append 32 (from_word ++ 32 ∷ []) (source_text q))
    ∙ ap (λ l. some (l, source_text q)) (append-nil (32 ∷ cols))

parse_select-select_body : (q : Query) → IsQuery q → parse_select (select_body q) ≡ select_of q
unfolding parse_select
parse_select-select_body q h =
    ap
      (λ l. elim (find_text from_text l) [
        | none ↦ empty_statement.select_stmt
        | some (cols, rest) ↦ parse_from cols rest
      ])
      (select_line-select_body q h)
    ∙ ap
        (λ f. elim f [
          | none ↦ empty_statement.select_stmt
          | some (cols, rest) ↦ parse_from cols rest
        ])
        (find_from q h)
    ∙ parse_from-source q h

checked-select :
    (q : Query) → IsQuery q → checked (with_select (select_of q)) ≡ with_select (select_of q)
checked-select q h = valid q.columns q.table h.columns_there h.table_named
  where
    valid :
        (columns : List Text) (table : Text)
        → IsSome columns
        → IsName table
        → let s = with_select (record (select_of q) { columns = columns; table_name = table }) in
          checked s ≡ s
    valid [] table there named = absurd there
    valid (c ∷ columns) [] there named = absurd named
    valid (c ∷ columns) (d ∷ table) there named = refl

-- The first word of the text is SELECT.
words-select : (l : Text) → words (select_text ++ 32 ∷ l) ≡ select_text ∷ words l
unfolding words
words-select l = refl

-- SELECT is read as written, with a join, clauses and an order or without them: the columns, the
-- tables, the columns of the join, of the clauses and of the order are names; the operators and the
-- values are words; no word behind FROM is INNER, WHERE or ORDER, no clause is of a column AND, no
-- value ends with a semicolon, and FROM is not the one column.
pub parse-print_query : (q : Query) → IsQuery q → parse (print_query q) ≡ with_select (select_of q)
unfolding parse_words select_body
parse-print_query q h =
    let cols = join_with b',' q.columns in
    parse-closed (select_body q) (
      Ends-append is_end (select_text ++ 32 ∷ []) (cols ++ (from_text ++ source_text q)) (
        Ends-append is_end cols (from_text ++ source_text q) (
          Ends-append is_end from_text (source_text q)
            (source-Ends q.table q.join q.clauses q.order h.table_named h.is_join h.are_clauses))))
    ∙ ap (parse_clean (select_body q)) (words-select (cols ++ (from_text ++ source_text q)))
    ∙ ap (λ s. checked (with_select s)) (parse_select-select_body q h)
    ∙ checked-select q h
