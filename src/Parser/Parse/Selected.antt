-- ===== src/Parser/Parse/Selected.antt =====
-- The text behind FROM as it is written, read by `Parser::parse` (src/parser/parser.cpp).
use mathlib.Core.List.{append_assoc, append-nil}
use flex_ql_dl.Base.{
  ◌≡◌, refl, ap, ◌∙◌, Bool, true, false, List, [], ◌∷◌, ◌++◌, Option, none, some, All, Text,
  same_text, Without,
}
use flex_ql_dl.Parser.Ast.{WhereClause, OrderBy, Join}
use flex_ql_dl.Parser.Keywords.{where_text, order_text}
use flex_ql_dl.Parser.Words.{words, spread, find_text}
use flex_ql_dl.Parser.Words.Plain.{IsName-IsWord}
use flex_ql_dl.Parser.Words.Find.{
  Other, EndsWord, shifted, spread-EndsWord, EndsWord-spread, find_text_behind, find_text_absent,
  find_text-append,
}
use flex_ql_dl.Parser.Print.{
  inner_word, by_word, where_word, order_word, join_words, clause_words, where_words, order_words,
  direction, linked,
}
use flex_ql_dl.Parser.Parse.{parse_clauses, cut_before}
use flex_ql_dl.Parser.Parse.Clauses.{
  IsClause, IsJoin, IsOrder, IsWord-Without, words-spread, where_words-IsWord,
  parse_clauses-clause_words, clause_words-Other, where_words-Other, order_words-Other,
  join_words-Other,
}

pub no_space_inner : Without 32 inner_word
no_space_inner = (refl, (refl, (refl, (refl, (refl, tt)))))

no_space_where : Without 32 where_word
no_space_where = (refl, (refl, (refl, (refl, (refl, tt)))))

pub no_space_order : Without 32 order_word
no_space_order = (refl, (refl, (refl, (refl, (refl, tt)))))

way_inner : (up : Bool) → same_text inner_word (direction up) ≡ false
unfolding same_text
way_inner true = refl
way_inner false = refl

way_where : (up : Bool) → same_text where_word (direction up) ≡ false
unfolding same_text
way_where true = refl
way_where false = refl

-- Which of the words that the parser looks for stand in which parts.
pub inner_where : (l : List WhereClause) → All IsClause l → Other inner_word (where_words l)
unfolding same_text
inner_where = where_words-Other inner_word (λ w h. h.0) refl refl

pub inner_order : (o : Option OrderBy) → IsOrder o → Other inner_word (order_words o)
unfolding same_text
inner_order = order_words-Other inner_word (λ w h. h.0) refl refl refl way_inner

where_order : (o : Option OrderBy) → IsOrder o → Other where_word (order_words o)
unfolding same_text
where_order = order_words-Other where_word (λ w h. h.1) refl refl refl way_where

pub where_join : (j : Option Join) → IsJoin j → Other where_word (join_words j)
unfolding same_text
where_join =
    join_words-Other where_word (λ w h. h.1) refl refl refl refl
      (refl, (refl, (refl, (refl, (refl, tt)))))

pub order_join : (j : Option Join) → IsJoin j → Other order_word (join_words j)
unfolding same_text
order_join =
    join_words-Other order_word (λ w h. h.2) refl refl refl refl
      (refl, (refl, (refl, (refl, (refl, tt)))))

pub order_where : (l : List WhereClause) → All IsClause l → Other order_word (where_words l)
unfolding same_text
order_where = where_words-Other order_word (λ w h. h.2) refl refl

order_clauses : (l : List WhereClause) → All IsClause l → Other order_word (clause_words l)
unfolding same_text
order_clauses = clause_words-Other order_word (λ w h. h.2) refl

-- The text of the clauses and of the order ends the word before it.
pub ends_where :
    (l : List WhereClause) (o : Option OrderBy)
    → EndsWord (spread (where_words l) ++ spread (order_words o))
ends_where l o =
    spread-EndsWord (where_words l) (spread (order_words o)) (EndsWord-spread (order_words o))

-- The clauses are found behind words of which none is WHERE, and none without clauses.
module _ (w : Text) (ws : List Text) (o : Option OrderBy) (visible : Without 32 w)
    (is_order : IsOrder o) where
  pub find_where_none :
      Other where_word ws
      → find_text where_text (w ++ (spread ws ++ (spread [] ++ spread (order_words o)))) ≡ none
  unfolding spread
  find_where_none other =
      find_text_behind where_word [] w ws (spread (order_words o)) no_space_where visible other
        (EndsWord-spread (order_words o))
      ∙ ap (shifted (w ++ spread ws))
          (find_text_absent where_word [] (order_words o) no_space_where (where_order o is_order))

  pub find_where_some :
      Other where_word ws
      → (c : WhereClause) (l : List WhereClause)
      → find_text where_text
          (w ++ (spread ws ++ (spread (where_words (c ∷ l)) ++ spread (order_words o))))
        ≡ some (
          (w ++ spread ws) ++ [],
          (c.column_name ++ spread (c.op ∷ c.value_str ∷ linked (clause_words l)))
              ++ spread (order_words o),
        )
  unfolding spread
  find_where_some other c l =
      find_text_behind where_word [] w ws _ no_space_where visible other (ends_where (c ∷ l) o)
      ∙ ap (shifted (w ++ spread ws)) (find_text-append 32 (where_word ++ 32 ∷ []) _)

  -- The text up to ORDER BY.
  pub cut_before_order :
      Other order_word ws
      → cut_before order_text (w ++ (spread ws ++ spread (order_words o))) ≡ w ++ spread ws
  unfolding spread
  cut_before_order other = cut o
    where
      cut :
          (o : Option OrderBy)
          → cut_before order_text (w ++ (spread ws ++ spread (order_words o))) ≡ w ++ spread ws
      cut none =
          let q = by_word ++ 32 ∷ [] in
          let absent =
            find_text_behind order_word q w ws [] no_space_order visible other tt
            ∙ ap (shifted (w ++ spread ws)) (find_text_absent order_word q [] no_space_order tt) in
          ap (λ f. elim f [ none ↦ w ++ (spread ws ++ []) | some (before, behind) ↦ before ]) absent
          ∙ ap (λ l. w ++ l) (append-nil (spread ws))
      cut (some o) =
          let q = by_word ++ 32 ∷ [] in
          let l = o.column ++ spread (direction o.ascending ∷ []) in
          let found =
            find_text_behind order_word q w ws (spread (order_words (some o))) no_space_order
              visible other refl
            ∙ ap (shifted (w ++ spread ws)) (find_text-append 32 (order_word ++ 32 ∷ q) l) in
          ap
            (λ f. elim f [
              | none ↦ w ++ (spread ws ++ spread (order_words (some o)))
              | some (before, behind) ↦ before
            ])
            found
          ∙ append-nil (w ++ spread ws)

-- The clauses are read from the text behind WHERE.
pub clauses_read :
    (c : WhereClause) (l : List WhereClause) (o : Option OrderBy)
    → All IsClause (c ∷ l)
    → IsOrder o
    → parse_clauses (
        words (
          cut_before order_text (
            (c.column_name ++ spread (c.op ∷ c.value_str ∷ linked (clause_words l)))
            ++ spread (order_words o))))
      ≡ c ∷ l
unfolding spread words
clauses_read c l o h ho =
    let rest = c.op ∷ c.value_str ∷ linked (clause_words l) in
    let name = IsWord-Without c.column_name (IsName-IsWord c.column_name h.0.0) in
    ap (λ t. parse_clauses (words (cut_before order_text t)))
      (append_assoc c.column_name (spread rest) (spread (order_words o)))
    ∙ ap (λ t. parse_clauses (words t))
        (cut_before_order c.column_name rest o name ho (order_clauses (c ∷ l) h).1)
    ∙ ap parse_clauses (words-spread (clause_words (c ∷ l)) (where_words-IsWord (c ∷ l) h).1)
    ∙ parse_clauses-clause_words (c ∷ l) h
