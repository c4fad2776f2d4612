-- ===== src/Parser/Parse/Columns.antt =====
-- CREATE as it is written, read by `Parser::parse` (src/parser/parser.cpp).
use flex_ql_dl.Base.{
  ℕ, ◌≡◌, refl, ap, ◌∙◌, false, List, [], ◌∷◌, ◌++◌, map, none, some, All, All-append, ◌==◌, Text,
  same_text, getlines, join_with, Without,
}
use flex_ql_dl.Base.Visible.{IsPart, getlines-join_with_parts}
use flex_ql_dl.Parser.Ast.{Col, CreateStmt}
use flex_ql_dl.Parser.Keywords.{create_text, if_text}
use flex_ql_dl.Parser.Words.{words, behind_first, before_last, strip_delimiters}
use flex_ql_dl.Parser.Words.Plain.{
  IsName, IsName-Lacks, IsName-IsWord, IsName-upper, words_one, strip_delimiters-IsName,
  Ends-append, before_last-append, before_last_behind, behind_first-Lacks,
}
use flex_ql_dl.Parser.Print.{table_text, print_col, create_body, print_create}
use flex_ql_dl.Parser.Parse.{
  is_end, parse_cols, add_col, column_text, parse_create, parse_words, parse_clean, parse,
  created_name, checked,
}
use flex_ql_dl.Parser.Parse.Printed.{
  parse-closed, with_create, checked-create, words-create, words-name,
}

-- A column with a name and a type that can be written.
abbrev pub IsCol : Col → Type 0
IsCol c = IsName c.name × IsName c.type_str

words-print_col : (c : Col) → IsCol c → words (print_col c) ≡ c.name ∷ c.type_str ∷ []
words-print_col c h =
    words-name c.name c.type_str h.0
    ∙ ap (λ l. c.name ∷ l) (words_one c.type_str (IsName-IsWord c.type_str h.1))

parse_cols-print_col : (cols : List Col) → All IsCol cols → parse_cols (map print_col cols) ≡ cols
unfolding parse_cols
parse_cols-print_col [] h = refl
parse_cols-print_col (c ∷ cols) h =
    let name = strip_delimiters-IsName c.name h.0.0 in
    let type = strip_delimiters-IsName c.type_str h.0.1 in
    ap (λ l. add_col l (parse_cols (map print_col cols))) (words-print_col c h.0)
    ∙ rw (name, type) (ap (λ l. c ∷ l) (parse_cols-print_col cols h.1))

print_col-IsPart : (c : Col) → IsCol c → IsPart b',' (print_col c)
print_col-IsPart c h = part c.name h.0 (
    All-append (λ d. (d == b',') ≡ false) c.name (32 ∷ c.type_str)
      (IsName-Lacks b',' c.name refl h.0) (refl, IsName-Lacks b',' c.type_str refl h.1))
  where
    part :
        (l : Text)
        → IsName l
        → Without b',' (l ++ 32 ∷ c.type_str)
        → IsPart b',' (l ++ 32 ∷ c.type_str)
    part [] k w = absurd k
    part (d ∷ l) k w = w

parts : (cols : List Col) → All IsCol cols → All (IsPart b',') (map print_col cols)
parts [] h = tt
parts (c ∷ cols) h = (print_col-IsPart c h.0, parts cols h.1)

column_text_between :
    (sql before inside cols : Text)
    → before_last (λ c. c == b')') sql ≡ some before
    → behind_first (λ c. c == b'(') sql ≡ some inside
    → before_last (λ c. c == b')') inside ≡ some cols
    → column_text sql ≡ some cols
column_text_between sql before inside cols a b c = rw (a, column_text) (rw (b, c) refl)

create_head : Text → Text
create_head l = create_text ++ 32 ∷ table_text ++ 32 ∷ l

behind_head :
    (l : Text) → behind_first (λ c. c == b'(') (create_head l) ≡ behind_first (λ c. c == b'(') l
unfolding behind_first create_head
behind_head l = refl

behind_paren : (l : Text) → behind_first (λ c. c == b'(') (32 ∷ b'(' ∷ l) ≡ some l
unfolding behind_first
behind_paren l = refl

-- The columns of a statement are the text between its parentheses.
column_text-create :
    (name cols : Text)
    → IsName name
    → column_text (create_head (name ++ 32 ∷ b'(' ∷ (cols ++ b')' ∷ []))) ≡ some cols
unfolding create_head
column_text-create name cols h =
    let close = λ (c : ℕ). c == b')' in
    let open_ = λ (c : ℕ). c == b'(' in
    let inside = cols ++ b')' ∷ [] in
    let last = before_last-append close cols b')' refl in
    let rest = name ++ 32 ∷ b'(' ∷ inside in
    column_text_between (create_head rest) _ inside cols
      (before_last_behind close (create_head []) rest _ (
        before_last_behind close name (32 ∷ b'(' ∷ inside) _
          (before_last_behind close (32 ∷ b'(' ∷ []) inside cols last)))
      (behind_head rest
        ∙ behind_first-Lacks open_ name (32 ∷ b'(' ∷ inside) (IsName-Lacks b'(' name refl h)
        ∙ behind_paren inside)
      last

created_name-IsName :
    (name : Text) (l : List Text)
    → IsName name
    → same_text name if_text ≡ false
    → created_name (table_text ∷ name ∷ l) ≡ name
created_name-IsName name l h other = let e = IsName-upper name h in rw (e, other) refl

-- CREATE is read as written, with a column at least: when the names of the table, of the columns
-- and of the types can be written, and the table is not called IF.
pub parse-print_create :
    (name : Text) (col : Col) (cols : List Col)
    → IsName name
    → same_text name if_text ≡ false
    → All IsCol (col ∷ cols)
    → let s : CreateStmt = record { table_name = name; columns = col ∷ cols } in
      parse (print_create s) ≡ with_create s
unfolding create_body parse_words parse_create create_head
parse-print_create name col cols h other are_cols =
    let text = join_with b',' (map print_col (col ∷ cols)) in
    let rest = name ++ 32 ∷ b'(' ∷ (text ++ b')' ∷ []) in
    let body = create_head rest in
    parse-closed body (
      Ends-append is_end (create_head []) rest (
        Ends-append is_end name (32 ∷ b'(' ∷ (text ++ b')' ∷ []))
          (Ends-append is_end (32 ∷ b'(' ∷ text) (b')' ∷ []) refl)))
    ∙ ap (parse_clean body) (
        words-create rest
        ∙ ap (λ l. create_text ∷ table_text ∷ l) (words-name name (b'(' ∷ (text ++ b')' ∷ [])) h))
    ∙ ap
        (λ n. checked (
          with_create
            (record { table_name = strip_delimiters n; columns = (parse_create body []).columns })))
        (created_name-IsName name (words (b'(' ∷ (text ++ b')' ∷ []))) h other)
    ∙ ap
        (λ n.
          checked
            (with_create (record { table_name = n; columns = (parse_create body []).columns })))
        (strip_delimiters-IsName name h)
    ∙ ap
        (λ o. checked (
          with_create (record {
            table_name = name;
            columns = elim o [ none ↦ [] | some l ↦ parse_cols (getlines b',' l) ];
          })))
        (column_text-create name text h)
    ∙ ap (λ l. checked (with_create (record { table_name = name; columns = parse_cols l })))
        (getlines-join_with_parts b',' (map print_col (col ∷ cols)) (parts (col ∷ cols) are_cols))
    ∙ ap (λ l. checked (with_create (record { table_name = name; columns = l })))
        (parse_cols-print_col (col ∷ cols) are_cols)
    ∙ checked-create name col cols h
