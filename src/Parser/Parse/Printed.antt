-- ===== src/Parser/Parse/Printed.antt =====
-- CREATE, INSERT and DELETE as they are written, read by `Parser::parse` (src/parser/parser.cpp).
use flex_ql_dl.Base.{
  ℕ, ◌≡◌, refl, ap, ◌∙◌, true, false, List, [], ◌∷◌, ◌++◌, none, some, arith, Text, strip_prefix,
}
use flex_ql_dl.Parser.Ast.{
  create_type, insert_type, delete_type, Statement, Col, CreateStmt, InsertStmt, DeleteStmt,
}
use flex_ql_dl.Parser.Keywords.{values_text, create_text, insert_text, delete_text}
use flex_ql_dl.Parser.Words.{words, find_text, later}
use flex_ql_dl.Parser.Words.Plain.{
  is_plain, IsName, IsName-All, IsName-IsWord, words-append, words_one, strip_delimiters-IsName,
  strip_right_end, Ends, strip_right-Ends, Ends-append, Lacks-Ends,
}
use flex_ql_dl.Parser.Words.Find.{find_text-later, find_text-append, find_text-none, shifted}
use flex_ql_dl.Parser.Print.{
  table_text, into_text, from_word, insert_body, delete_body, closed, print_insert, print_delete,
}
use flex_ql_dl.Parser.Parse.{
  is_end, parse_insert, parse_delete, parse_words, parse_clean, parse, empty_statement, checked,
}

plain_end : (c : ℕ) → is_plain c ≡ true → is_end c ≡ false
plain_end c h = ground (arith, h)

pub IsName-Ends : (l : Text) → IsName l → Ends is_end l
IsName-Ends [] h = absurd h
IsName-Ends (c ∷ l) h = Lacks-Ends is_end c l (IsName-All is_end (c ∷ l) plain_end h)

-- The semicolon goes, and nothing else.
pub parse-closed :
    (body : Text) → Ends is_end body → parse (closed body) ≡ parse_clean body (words body)
unfolding parse
parse-closed body h =
    ap (λ c. parse_clean c (words c))
      (strip_right_end is_end body b';' refl ∙ strip_right-Ends is_end body h)

pub words-name : (name l : Text) → IsName name → words (name ++ 32 ∷ l) ≡ name ∷ words l
unfolding words
words-name name l h = words-append name (32 ∷ l) (IsName-IsWord name h) refl

abbrev pub with_delete : DeleteStmt → Statement
with_delete s = record empty_statement { type = delete_type; delete_stmt = s }

abbrev pub with_insert : InsertStmt → Statement
with_insert s = record empty_statement { type = insert_type; insert_stmt = s }

abbrev pub with_create : CreateStmt → Statement
with_create s = record empty_statement { type = create_type; create_stmt = s }

checked-delete :
    (name : Text)
    → IsName name
    → checked (with_delete (record { table_name = name }))
      ≡ with_delete (record { table_name = name })
checked-delete [] h = absurd h
checked-delete (c ∷ name) h = refl

checked-insert :
    (name raw : Text)
    → IsName name
    → Ends is_end raw
    → let s = with_insert (record { table_name = name; raw_values = raw }) in checked s ≡ s
checked-insert [] raw h e = absurd h
checked-insert (c ∷ name) [] h e = absurd e
checked-insert (c ∷ name) (d ∷ raw) h e = refl

pub checked-create :
    (name : Text) (col : Col) (cols : List Col)
    → IsName name
    → let s = with_create (record { table_name = name; columns = col ∷ cols }) in checked s ≡ s
checked-create [] col cols h = absurd h
checked-create (c ∷ name) col cols h = refl

words-delete :
    (l : Text) → words (delete_text ++ 32 ∷ from_word ++ 32 ∷ l) ≡ delete_text ∷ from_word ∷ words l
unfolding words
words-delete l = refl

words-insert :
    (l : Text) → words (insert_text ++ 32 ∷ into_text ++ 32 ∷ l) ≡ insert_text ∷ into_text ∷ words l
unfolding words
words-insert l = refl

pub words-create :
    (l : Text)
    → words (create_text ++ 32 ∷ table_text ++ 32 ∷ l) ≡ create_text ∷ table_text ∷ words l
unfolding words
words-create l = refl

-- DELETE with a name is read as written.
pub parse-print_delete :
    (name : Text)
    → IsName name
    → parse (print_delete (record { table_name = name }))
      ≡ with_delete (record { table_name = name })
unfolding delete_body parse_words parse_delete
parse-print_delete name h =
    let body = delete_body (record { table_name = name }) in
    parse-closed body
      (Ends-append is_end (delete_text ++ 32 ∷ from_word ++ 32 ∷ []) name (IsName-Ends name h))
    ∙ ap (parse_clean body) (
        words-delete name
        ∙ ap (λ l. delete_text ∷ from_word ∷ l) (words_one name (IsName-IsWord name h)))
    ∙ ap (λ n. checked (with_delete (record { table_name = n }))) (strip_delimiters-IsName name h)
    ∙ checked-delete name h

not_at_space : (l : Text) → strip_prefix values_text (32 ∷ l) ≡ none
unfolding strip_prefix
not_at_space l = refl

find_values :
    (name raw : Text)
    → find_text values_text name ≡ none
    → find_text values_text (name ++ 32 ∷ (values_text ++ raw)) ≡ some (name ++ 32 ∷ [], raw)
find_values name raw h =
    find_text-none values_text name (values_text ++ raw)
      (refl, (refl, (refl, (refl, (refl, (refl, tt)))))) h
    ∙ ap (shifted name) (
        find_text-later values_text 32 (values_text ++ raw) (not_at_space (values_text ++ raw))
        ∙ ap (later 32) (find_text-append b'V' (b'A' ∷ b'L' ∷ b'U' ∷ b'E' ∷ b'S' ∷ []) raw))

values_behind :
    (l before behind : Text)
    → find_text values_text l ≡ some (before, behind)
    → (elim (find_text values_text (insert_text ++ 32 ∷ into_text ++ 32 ∷ l)) [
      | none ↦ []
      | some (a, b) ↦ b
    ])
      ≡ behind
unfolding find_text strip_prefix
values_behind l before behind h = rw h refl

-- INSERT with the name of a table in which VALUES does not stand is read as written: the values
-- are the text behind VALUES, up to the semicolon, if no semicolon or white space ends it.
pub parse-print_insert :
    (name raw : Text)
    → IsName name
    → find_text values_text name ≡ none
    → Ends is_end raw
    → let s : InsertStmt = record { table_name = name; raw_values = raw } in
      parse (print_insert s) ≡ with_insert s
unfolding insert_body parse_words parse_insert
parse-print_insert name raw h no_values ends =
    let body = insert_body (record { table_name = name; raw_values = raw }) in
    let rest = name ++ 32 ∷ (values_text ++ raw) in
    parse-closed body (
      Ends-append is_end (insert_text ++ 32 ∷ into_text ++ 32 ∷ []) rest (
        Ends-append is_end name (32 ∷ (values_text ++ raw))
          (Ends-append is_end (32 ∷ values_text) raw ends)))
    ∙ ap (parse_clean body) (
        words-insert rest
        ∙ ap (λ l. insert_text ∷ into_text ∷ l) (words-name name (values_text ++ raw) h))
    ∙ ap
        (λ n.
          checked (
            with_insert
              (record { table_name = n; raw_values = (parse_insert body []).raw_values })))
        (strip_delimiters-IsName name h)
    ∙ ap (λ r. checked (with_insert (record { table_name = name; raw_values = r })))
        (values_behind rest (name ++ 32 ∷ []) raw (find_values name raw no_values))
    ∙ checked-insert name raw h ends
