-- ===== src/Parser/Parse/Sources.antt =====
-- What is found in the text behind FROM of a SELECT as it is written, for `Parser::parse` (src/parser/parser.cpp).

use flex_ql_dl.Base.{◌≡◌, ap, ◌∙◌, List, [], ◌∷◌, ◌++◌, Option, none, some, All, Text, Without}
use flex_ql_dl.Parser.Ast.{WhereClause, OrderBy, Join}
use flex_ql_dl.Parser.Keywords.{join_text, where_text, order_text}
use flex_ql_dl.Parser.Words.{words, spread, find_text}
use flex_ql_dl.Parser.Words.Plain.{IsName, IsName-IsWord}
use flex_ql_dl.Parser.Words.Find.{
  shifted, EndsWord-spread, find_text_behind, find_text-Without, find_text-spread, find_text_absent,
  find_text-append,
}
use flex_ql_dl.Parser.Print.{
  inner_word, join_word, by_word, order_word, on_word, join_words, where_words, order_words,
  direction,
}
use flex_ql_dl.Parser.Parse.{
  parse_join, parse_order, parse_clauses, cut_before, empty_statement, is_some,
}
use flex_ql_dl.Parser.Parse.Clauses.{IsClause, IsJoin, IsOrder, IsWord-Without}
use flex_ql_dl.Parser.Parse.Selected.{
  no_space_inner, no_space_order, inner_where, inner_order, order_where, order_join, where_join,
  ends_where, find_where_none, find_where_some, clauses_read,
}
use flex_ql_dl.Parser.Parse.Joined.{tail_text, parse_join-printed, parse_order-printed}

-- What is read behind INNER JOIN, WHERE and ORDER BY.
abbrev pub join_read : Option (Text × Text) → Join
join_read none = empty_statement.select_stmt.join
join_read (some (before, behind)) = parse_join behind

abbrev pub clauses_of : Option (Text × Text) → List WhereClause
clauses_of none = []
clauses_of (some (before, behind)) = parse_clauses (words (cut_before order_text behind))

abbrev pub order_read : Option (Text × Text) → OrderBy
order_read none = empty_statement.select_stmt.order_by
order_read (some (before, behind)) = parse_order (words behind)

-- The text behind FROM, of its parts.
abbrev pub source : Text → Option Join → List WhereClause → Option OrderBy → Text
source t j l o = t ++ (spread (join_words j) ++ tail_text l o)

module _ (t : Text) (l : List WhereClause) (o : Option OrderBy) (named : IsName t)
    (hl : All IsClause l) (ho : IsOrder o) where
  visible : Without 32 t
  visible = IsWord-Without t (IsName-IsWord t named)

  joined_none : find_text join_text (source t none l o) ≡ none
  unfolding spread
  joined_none =
      let q = join_word ++ 32 ∷ [] in
      find_text_behind inner_word q t (where_words l) (spread (order_words o)) no_space_inner
        visible (inner_where l hl) (EndsWord-spread (order_words o))
      ∙ ap (shifted (t ++ spread (where_words l)))
          (find_text_absent inner_word q (order_words o) no_space_inner (inner_order o ho))

  joined_some :
      (j : Join)
      → find_text join_text (source t (some j) l o)
        ≡ some (
          t ++ [],
          (j.table ++ spread (on_word ∷ (j.on_left ++ b'=' ∷ j.on_right) ∷ [])) ++ tail_text l o,
        )
  unfolding spread
  joined_some j =
      let q = join_word ++ 32 ∷ [] in
      find_text-Without (inner_word ++ 32 ∷ q) t (spread (join_words (some j)) ++ tail_text l o)
        visible
      ∙ ap (shifted t) (find_text-append 32 (inner_word ++ 32 ∷ q) _)

  -- The join is there, and is read, if one was written.
  pub join_source :
      (j : Option Join)
      → IsJoin j
      → (is_some (find_text join_text (source t j l o)) ≡ is_some j)
        × (join_read (find_text join_text (source t j l o))
            ≡ (elim j [ none ↦ empty_statement.select_stmt.join | some k ↦ k ]))
  join_source none h = (ap is_some joined_none, ap join_read joined_none)
  join_source (some j) h =
      (ap is_some (joined_some j), ap join_read (joined_some j) ∙ parse_join-printed j l o h hl ho)

module _ (t : Text) (j : Option Join) (o : Option OrderBy) (named : IsName t) (hj : IsJoin j)
    (ho : IsOrder o) where
  pub clauses_source :
      (l : List WhereClause)
      → All IsClause l
      → clauses_of (find_text where_text (source t j l o)) ≡ l
  clauses_source [] h =
      ap clauses_of
        (find_where_none t (join_words j) o (visible t [] o named tt ho) ho (where_join j hj))
  clauses_source (c ∷ l) h =
      ap clauses_of
        (find_where_some t (join_words j) o (visible t [] o named tt ho) ho (where_join j hj) c l)
      ∙ clauses_read c l o h ho

module _ (t : Text) (j : Option Join) (l : List WhereClause) (named : IsName t) (hj : IsJoin j)
    (hl : All IsClause l) where
  ordered :
      (o : Option OrderBy)
      → find_text order_text (source t j l o)
        ≡ shifted
            (t ++ spread (join_words j))
            (shifted (spread (where_words l)) (find_text order_text (spread (order_words o))))
  ordered o =
      let q = by_word ++ 32 ∷ [] in
      find_text_behind order_word q t (join_words j) (tail_text l o) no_space_order
        (visible t [] none named tt tt) (order_join j hj) (ends_where l o)
      ∙ ap (shifted (t ++ spread (join_words j))) (
          find_text-spread order_word q (where_words l) (spread (order_words o)) no_space_order
            (order_where l hl) (EndsWord-spread (order_words o)))

  -- The order is there, and is read, if one was written.
  pub order_source :
      (o : Option OrderBy)
      → IsOrder o
      → (is_some (find_text order_text (source t j l o)) ≡ is_some o)
        × (order_read (find_text order_text (source t j l o))
            ≡ (elim o [ none ↦ empty_statement.select_stmt.order_by | some k ↦ k ]))
  unfolding spread
  order_source none h =
      let absent =
        ordered none
        ∙ ap (λ f. shifted (t ++ spread (join_words j)) (shifted (spread (where_words l)) f))
            (find_text_absent order_word (by_word ++ 32 ∷ []) [] no_space_order tt) in
      (ap is_some absent, ap order_read absent)
  order_source (some o) h =
      let found =
        ordered (some o)
        ∙ ap (λ f. shifted (t ++ spread (join_words j)) (shifted (spread (where_words l)) f))
            (find_text-append 32 (order_word ++ 32 ∷ by_word ++ 32 ∷ [])
              (o.column ++ spread (direction o.ascending ∷ []))) in
      (ap is_some found, ap order_read found ∙ parse_order-printed o h.0)
