-- ===== src/Parser/Parse/Joined.antt =====
-- The join and the order of a SELECT as they are written, read by `Parser::parse`
-- (src/parser/parser.cpp).
use mathlib.Core.List.{append_assoc, append-nil}
use flex_ql_dl.Base.{
  ◌≡◌, refl, ap, ◌∙◌, Bool, true, false, not, List, [], ◌∷◌, ◌++◌, Option, none, some, All, Text,
  same_text, Without,
}
use flex_ql_dl.Parser.Ast.{WhereClause, OrderBy, Join}
use flex_ql_dl.Parser.Keywords.{desc_text, on_text, order_text}
use flex_ql_dl.Parser.Words.{words, spread, strip_delimiters, find_text}
use flex_ql_dl.Parser.Words.Plain.{
  IsName, IsName-IsWord, IsName-Lacks, words-append, strip_delimiters-IsName,
}
use flex_ql_dl.Parser.Words.Find.{shifted, find_text_byte, find_text-Without, find_text-append}
use flex_ql_dl.Parser.Print.{on_word, where_words, order_words, direction}
use flex_ql_dl.Parser.Parse.{parse_join, parse_order, on_condition, cut_before}
use flex_ql_dl.Parser.Parse.Clauses.{
  IsClause, IsJoin, IsOrder, IsWord-Without, words-spread, equation-IsWord,
}
use flex_ql_dl.Parser.Parse.Selected.{find_where_none, find_where_some, cut_before_order}

-- The text of the clauses and of the order, behind that of the join.
abbrev pub tail_text : List WhereClause → Option OrderBy → Text
tail_text l o = spread (where_words l) ++ spread (order_words o)

-- The condition of a join is the word behind ON.
on_condition_word :
    (e : Text) (l : List WhereClause) (o : Option OrderBy)
    → Without 32 e
    → All IsClause l
    → IsOrder o
    → on_condition (e ++ tail_text l o) ≡ e
unfolding spread
on_condition_word e [] o h hl ho =
    ap
      (λ f. elim f [
        | some (before, behind) ↦ before
        | none ↦ cut_before order_text (e ++ spread (order_words o))
      ])
      (find_where_none e [] o h ho tt)
    ∙ cut_before_order e [] o h ho tt
    ∙ append-nil e
on_condition_word e (c ∷ l) o h hl ho =
    ap
      (λ f. elim f [
        | some (before, behind) ↦ before
        | none ↦ cut_before order_text (e ++ tail_text (c ∷ l) o)
      ])
      (find_where_some e [] o h ho tt c l)
    ∙ append-nil (e ++ [])
    ∙ append-nil e

-- A join is read from the text behind INNER JOIN.
pub parse_join-printed :
    (j : Join) (l : List WhereClause) (o : Option OrderBy)
    → IsJoin (some j)
    → All IsClause l
    → IsOrder o
    → parse_join
        ((j.table ++ spread (on_word ∷ (j.on_left ++ b'=' ∷ j.on_right) ∷ [])) ++ tail_text l o)
      ≡ j
unfolding spread parse_join
parse_join-printed j l o h hl ho =
    let e = j.on_left ++ b'=' ∷ j.on_right in
    let rest = e ++ tail_text l o in
    let text : (j.table ++ spread (on_word ∷ e ∷ [])) ++ tail_text l o
        ≡ j.table ++ (on_text ++ rest) =
      append_assoc j.table (spread (on_word ∷ e ∷ [])) (tail_text l o)
      ∙ ap (λ r. j.table ++ (on_text ++ r)) (append_assoc e [] (tail_text l o)) in
    let spaceless = IsWord-Without j.table (IsName-IsWord j.table h.0) in
    let found : find_text on_text (j.table ++ (on_text ++ rest)) ≡ some (j.table ++ [], rest) =
      find_text-Without (on_word ++ 32 ∷ []) j.table (on_text ++ rest) spaceless
      ∙ ap (shifted j.table) (find_text-append 32 (on_word ++ 32 ∷ []) rest) in
    let cond =
      on_condition_word e l o (IsWord-Without e (equation-IsWord j.on_left j.on_right h.2 h.3)) hl
        ho in
    let equal = find_text_byte b'=' j.on_left j.on_right (IsName-Lacks b'=' j.on_left refl h.2) in
    let table = ap strip_delimiters (append-nil j.table) ∙ strip_delimiters-IsName j.table h.0 in
    let left = strip_delimiters-IsName j.on_left h.2 in
    let right = strip_delimiters-IsName j.on_right h.3 in
    ap parse_join text ∙ rw (found, parse_join) (rw (cond, equal) (rw (table, left, right) refl))

-- The order is read from the text behind ORDER BY.
pub parse_order-printed :
    (o : OrderBy)
    → IsName o.column
    → parse_order (words (o.column ++ spread (direction o.ascending ∷ []))) ≡ o
unfolding spread parse_order
parse_order-printed o h =
    let name = strip_delimiters-IsName o.column h in
    ap parse_order (
      words-append o.column (spread (direction o.ascending ∷ [])) (IsName-IsWord o.column h) refl
      ∙ ap (λ l. o.column ∷ l) (one o.ascending))
    ∙ rw name (ap (λ b. record { column = o.column; ascending = b }) (up o.ascending))
  where
    one : (b : Bool) → words (spread (direction b ∷ [])) ≡ direction b ∷ []
    one true = words-spread (direction true ∷ []) ((refl, (refl, (refl, tt))), tt)
    one false = words-spread (direction false ∷ []) ((refl, (refl, (refl, (refl, tt)))), tt)

    up : (b : Bool) → not (same_text (strip_delimiters (direction b)) desc_text) ≡ b
    up true =
        ap (λ t. not (same_text t desc_text))
          (strip_delimiters-IsName (direction true) (refl, (refl, (refl, tt))))
    up false =
        ap (λ t. not (same_text t desc_text))
          (strip_delimiters-IsName (direction false) (refl, (refl, (refl, (refl, tt)))))
