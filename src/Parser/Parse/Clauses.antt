-- ===== src/Parser/Parse/Clauses.antt =====
-- The clauses of WHERE as they are written, and the words of a SELECT that are no names of its parts
-- (src/parser/parser.cpp).
use flex_ql_dl.Base.{
  ℕ, ◌≡◌, refl, ap, ◌∙◌, Bool, true, false, List, [], ◌∷◌, ◌++◌, Option, none, some, arith, All,
  All-append, All-map, ◌==◌, Text, is_space, same_text, Without,
}
use flex_ql_dl.Parser.Ast.{WhereClause, OrderBy, Join}
use flex_ql_dl.Parser.Keywords.{and_text}
use flex_ql_dl.Parser.Words.{words, ends_word, spread}
use flex_ql_dl.Parser.Words.Plain.{
  Lacks, IsName, IsName-IsWord, IsWord, words-append, strip_delimiters-IsName, Ends,
}
use flex_ql_dl.Parser.Words.Find.{Other}
use flex_ql_dl.Parser.Print.{
  inner_word, where_word, order_word, on_word, join_words, clause_words, where_words, order_words,
  direction,
}
use flex_ql_dl.Parser.Parse.{is_end, parse_clauses}

-- A word that is none of those that the parser looks for in the text behind FROM.
abbrev pub IsFree : Text → Type 0
IsFree w =
    (same_text inner_word w ≡ false)
    × (same_text where_word w ≡ false)
    × (same_text order_word w ≡ false)

-- A clause whose column is a name, and whose other words have no white space: the value does not
-- end with a semicolon.
abbrev pub IsClause : WhereClause → Type 0
IsClause c =
    IsName c.column_name
    × (same_text c.column_name and_text ≡ false)
    × IsFree c.column_name
    × (IsWord c.op × IsFree c.op)
    × (IsWord c.value_str × IsFree c.value_str × Ends is_end c.value_str)

abbrev pub IsJoin : Option Join → Type 0
IsJoin none = Unit
IsJoin (some j) = IsName j.table × IsFree j.table × IsName j.on_left × IsName j.on_right

abbrev pub IsOrder : Option OrderBy → Type 0
IsOrder none = Unit
IsOrder (some o) = IsName o.column × IsFree o.column

pub IsWord-Without : (w : Text) → IsWord w → Without 32 w
IsWord-Without [] h = absurd h
IsWord-Without (c ∷ w) h =
    All-map (λ d. is_space d ≡ false) (λ d. (d == 32) ≡ false) (c ∷ w) (λ d e. apart d e) h
  where
    apart : (d : ℕ) → is_space d ≡ false → (d == 32) ≡ false
    apart d e = ground (arith, e)

pub words-spread : (ws : List Text) → All IsWord ws → words (spread ws) ≡ ws
unfolding words spread
words-spread [] h = refl
words-spread (w ∷ ws) h =
    words-append w (spread ws) h.0 (ends ws) ∙ ap (λ l. w ∷ l) (words-spread ws h.1)
  where
    ends : (l : List Text) → ends_word (spread l) ≡ true
    ends [] = refl
    ends (v ∷ l) = refl

-- The equation of a join is one word, and is no name.
pub equation-IsWord : (l r : Text) → IsName l → IsName r → IsWord (l ++ b'=' ∷ r)
equation-IsWord l r h k = whole l (IsName-IsWord l h) (IsName-IsWord r k)
  where
    rest : (r : Text) → IsWord r → Lacks (λ d. is_space d) r
    rest [] e = tt
    rest (c ∷ r) e = e

    whole : (l : Text) → IsWord l → IsWord r → IsWord (l ++ b'=' ∷ r)
    whole [] e f = absurd e
    whole (c ∷ l) e f =
        (e.0, All-append (λ d. is_space d ≡ false) l (b'=' ∷ r) e.1 (refl, rest r f))

pub same_text-Without : (d : ℕ) (k l r : Text) → Without d k → same_text k (l ++ d ∷ r) ≡ false
unfolding same_text
same_text-Without d [] [] r h = refl
same_text-Without d [] (c ∷ l) r h = refl
same_text-Without d (b ∷ k) [] r h = rw h.0 refl
same_text-Without d (b ∷ k) (c ∷ l) r h =
    let ih = same_text-Without d k l r h.1 in ground (arith, ih)

clause_words-IsWord : (l : List WhereClause) → All IsClause l → All IsWord (clause_words l)
clause_words-IsWord [] h = tt
clause_words-IsWord (c ∷ []) h = (IsName-IsWord c.column_name h.0.0, (h.0.3.0, (h.0.4.0, tt)))
clause_words-IsWord (c ∷ d ∷ l) h = (
  IsName-IsWord c.column_name h.0.0,
  (h.0.3.0, (h.0.4.0, ((refl, (refl, (refl, tt))), clause_words-IsWord (d ∷ l) h.1))),
)

pub where_words-IsWord : (l : List WhereClause) → All IsClause l → All IsWord (where_words l)
where_words-IsWord [] h = tt
where_words-IsWord (c ∷ l) h =
    ((refl, (refl, (refl, (refl, (refl, tt))))), clause_words-IsWord (c ∷ l) h)

-- What is printed of the clauses is read as the clauses.
pub parse_clauses-clause_words :
    (l : List WhereClause) → All IsClause l → parse_clauses (clause_words l) ≡ l
unfolding parse_clauses
parse_clauses-clause_words [] h = refl
parse_clauses-clause_words (c ∷ []) h =
    let name = strip_delimiters-IsName c.column_name h.0.0 in rw name (rw h.0.1 refl)
parse_clauses-clause_words (c ∷ d ∷ l) h =
    let name = strip_delimiters-IsName c.column_name h.0.0 in
    rw name (rw h.0.1 (ap (λ r. c ∷ r) (parse_clauses-clause_words (d ∷ l) h.1)))

-- Where a word does not stand: it is none of the keywords that are printed, and not a free word.
module _ (k : Text) (free : (w : Text) → IsFree w → same_text k w ≡ false)
    (and_other : same_text k and_text ≡ false) where
  pub clause_words-Other : (l : List WhereClause) → All IsClause l → Other k (clause_words l)
  clause_words-Other [] h = tt
  clause_words-Other (c ∷ []) h = (
    (IsWord-Without c.column_name (IsName-IsWord c.column_name h.0.0), free c.column_name h.0.2),
    (
      (IsWord-Without c.op h.0.3.0, free c.op h.0.3.1),
      ((IsWord-Without c.value_str h.0.4.0, free c.value_str h.0.4.1), tt),
    ),
  )
  clause_words-Other (c ∷ d ∷ l) h = (
    (IsWord-Without c.column_name (IsName-IsWord c.column_name h.0.0), free c.column_name h.0.2),
    (
      (IsWord-Without c.op h.0.3.0, free c.op h.0.3.1),
      (
        (IsWord-Without c.value_str h.0.4.0, free c.value_str h.0.4.1),
        (((refl, (refl, (refl, tt))), and_other), clause_words-Other (d ∷ l) h.1),
      ),
    ),
  )

  pub where_words-Other :
      same_text k where_word ≡ false
      → (l : List WhereClause) → All IsClause l
      → Other k (where_words l)
  where_words-Other other [] h = tt
  where_words-Other other (c ∷ l) h =
      (((refl, (refl, (refl, (refl, (refl, tt))))), other), clause_words-Other (c ∷ l) h)

  pub order_words-Other :
      same_text k order_word ≡ false
      → same_text k (b'B' ∷ b'Y' ∷ []) ≡ false
      → ((up : Bool) → same_text k (direction up) ≡ false)
      → (o : Option OrderBy) → IsOrder o
      → Other k (order_words o)
  order_words-Other order by way none h = tt
  order_words-Other order by way (some o) h = (
    ((refl, (refl, (refl, (refl, (refl, tt))))), order),
    (
      ((refl, (refl, tt)), by),
      (
        (IsWord-Without o.column (IsName-IsWord o.column h.0), free o.column h.1),
        ((spaceless o.ascending, way o.ascending), tt),
      ),
    ),
  )
    where
      spaceless : (up : Bool) → Without 32 (direction up)
      spaceless true = (refl, (refl, (refl, tt)))
      spaceless false = (refl, (refl, (refl, (refl, tt))))

  pub join_words-Other :
      same_text k inner_word ≡ false
      → same_text k (b'J' ∷ b'O' ∷ b'I' ∷ b'N' ∷ []) ≡ false
      → same_text k on_word ≡ false
      → Without b'=' k
      → (j : Option Join) → IsJoin j
      → Other k (join_words j)
  join_words-Other inner join on equal none h = tt
  join_words-Other inner join on equal (some j) h = (
    ((refl, (refl, (refl, (refl, (refl, tt))))), inner),
    (
      ((refl, (refl, (refl, (refl, tt)))), join),
      (
        (IsWord-Without j.table (IsName-IsWord j.table h.0), free j.table h.1),
        (
          ((refl, (refl, tt)), on),
          (
            (
              IsWord-Without (j.on_left ++ b'=' ∷ j.on_right)
                  (equation-IsWord j.on_left j.on_right h.2 h.3),
              same_text-Without b'=' k j.on_left j.on_right equal,
            ),
            tt,
          ),
        ),
      ),
    ),
  )
