-- ===== src/Parser/Parse/Ends.antt =====
-- The text of a SELECT stands on one line, and its end is kept (src/parser/parser.cpp).
use mathlib.Core.Path.{subst}
use mathlib.Core.List.{append-nil}
use flex_ql_dl.Base.{
  ℕ, ◌≡◌, refl, sym, Bool, true, false, List, [], ◌∷◌, ◌++◌, Option, none, some, arith, All,
  All-append, All-map, ◌==◌, Text, is_space, Without, join_with,
}
use flex_ql_dl.Base.Visible.{join_with-All-Without}
use flex_ql_dl.Parser.Ast.{WhereClause, OrderBy, Join}
use flex_ql_dl.Parser.Words.{spread}
use flex_ql_dl.Parser.Words.Plain.{IsName, IsName-IsWord, IsName-Lacks, IsWord, Ends, Ends-append}
use flex_ql_dl.Parser.Print.{join_words, clause_words, where_words, order_words, direction}
use flex_ql_dl.Parser.Parse.{is_end}
use flex_ql_dl.Parser.Parse.Printed.{IsName-Ends}
use flex_ql_dl.Parser.Parse.Clauses.{IsClause, IsJoin, IsOrder, where_words-IsWord, equation-IsWord}
use flex_ql_dl.Parser.Parse.Joined.{tail_text}

IsWord-line : (w : Text) → IsWord w → Without 10 w
IsWord-line [] h = absurd h
IsWord-line (c ∷ w) h =
    All-map (λ d. is_space d ≡ false) (λ d. (d == 10) ≡ false) (c ∷ w) (λ d e. apart d e) h
  where
    apart : (d : ℕ) → is_space d ≡ false → (d == 10) ≡ false
    apart d e = ground (arith, e)

spread-line : (ws : List Text) → All IsWord ws → Without 10 (spread ws)
unfolding spread
spread-line [] h = tt
spread-line (w ∷ ws) h = (
  refl,
  All-append (λ d. (d == 10) ≡ false) w (spread ws) (IsWord-line w h.0) (spread-line ws h.1),
)

direction-IsWord : (up : Bool) → IsWord (direction up)
direction-IsWord true = (refl, (refl, (refl, tt)))
direction-IsWord false = (refl, (refl, (refl, (refl, tt))))

join_words-IsWord : (j : Option Join) → IsJoin j → All IsWord (join_words j)
join_words-IsWord none h = tt
join_words-IsWord (some j) h = (
  (refl, (refl, (refl, (refl, (refl, tt))))),
  (
    (refl, (refl, (refl, (refl, tt)))),
    (
      IsName-IsWord j.table h.0,
      ((refl, (refl, tt)), (equation-IsWord j.on_left j.on_right h.2 h.3, tt)),
    ),
  ),
)

order_words-IsWord : (o : Option OrderBy) → IsOrder o → All IsWord (order_words o)
order_words-IsWord none h = tt
order_words-IsWord (some o) h = (
  (refl, (refl, (refl, (refl, (refl, tt))))),
  ((refl, (refl, tt)), (IsName-IsWord o.column h.0, (direction-IsWord o.ascending, tt))),
)

pub columns-line : (cols : List Text) → All IsName cols → Without 10 (join_with b',' cols)
columns-line cols h =
    join_with-All-Without b',' 10 cols refl
      (All-map IsName (Without 10) cols (λ l k. IsName-Lacks 10 l refl k) h)

-- The last word ends in a byte that the parser does not take away.
abbrev EndsLast : List Text → Type 0
EndsLast [] = ⊥
EndsLast (w ∷ []) = Ends is_end w
EndsLast (w ∷ v ∷ ws) = EndsLast (v ∷ ws)

EndsLast-spread : (ws : List Text) → EndsLast ws → Ends is_end (spread ws)
unfolding spread
EndsLast-spread [] h = absurd h
EndsLast-spread (w ∷ []) h =
    subst (Ends is_end) (sym (append-nil (32 ∷ w))) (Ends-append is_end (32 ∷ []) w h)
EndsLast-spread (w ∷ v ∷ ws) h =
    Ends-append is_end (32 ∷ w) (spread (v ∷ ws)) (EndsLast-spread (v ∷ ws) h)

clause_words-EndsLast :
    (c : WhereClause) (l : List WhereClause)
    → All IsClause (c ∷ l)
    → EndsLast (clause_words (c ∷ l))
clause_words-EndsLast c [] h = h.0.4.2
clause_words-EndsLast c (d ∷ l) h = clause_words-EndsLast d l h.1

direction-Ends : (up : Bool) → Ends is_end (direction up)
direction-Ends true = refl
direction-Ends false = refl

module _ (t : Text) (j : Option Join) (l : List WhereClause) (o : Option OrderBy) (named : IsName t)
    (hj : IsJoin j) (hl : All IsClause l) (ho : IsOrder o) where
  -- There is no line break in the text behind FROM.
  pub source-line : Without 10 (t ++ (spread (join_words j) ++ tail_text l o))
  source-line =
      All-append (λ d. (d == 10) ≡ false) t _ (IsName-Lacks 10 t refl named)
        (All-append (λ d. (d == 10) ≡ false) (spread (join_words j)) _
          (spread-line (join_words j) (join_words-IsWord j hj))
          (All-append (λ d. (d == 10) ≡ false) (spread (where_words l)) _
            (spread-line (where_words l) (where_words-IsWord l hl))
            (spread-line (order_words o) (order_words-IsWord o ho))))

-- The text behind FROM ends with a name, a value or a direction.
pub source-Ends :
    (t : Text) (j : Option Join) (l : List WhereClause) (o : Option OrderBy)
    → IsName t
    → IsJoin j
    → All IsClause l
    → Ends is_end (t ++ (spread (join_words j) ++ tail_text l o))
unfolding spread
source-Ends t none [] none named hj hl =
    subst (Ends is_end) (sym (append-nil t)) (IsName-Ends t named)
source-Ends t (some j) [] none named hj hl =
    let e = j.on_left ++ b'=' ∷ j.on_right in
    Ends-append is_end t (spread (join_words (some j)) ++ []) (
      subst (Ends is_end) (sym (append-nil (spread (join_words (some j))))) (
        EndsLast-spread (join_words (some j)) (
          Ends-append is_end j.on_left (b'=' ∷ j.on_right)
            (Ends-append is_end (b'=' ∷ []) j.on_right (IsName-Ends j.on_right hj.3)))))
source-Ends t j (c ∷ l) none named hj hl =
    Ends-append is_end t (spread (join_words j) ++ tail_text (c ∷ l) none) (
      Ends-append is_end (spread (join_words j)) (tail_text (c ∷ l) none) (
        subst (Ends is_end) (sym (append-nil (spread (where_words (c ∷ l)))))
          (EndsLast-spread (where_words (c ∷ l)) (clause_words-EndsLast c l hl))))
source-Ends t j l (some o) named hj hl =
    Ends-append is_end t (spread (join_words j) ++ tail_text l (some o)) (
      Ends-append is_end (spread (join_words j)) (tail_text l (some o)) (
        Ends-append is_end (spread (where_words l)) (spread (order_words (some o)))
          (EndsLast-spread (order_words (some o)) (direction-Ends o.ascending))))
