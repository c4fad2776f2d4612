-- ===== src/Parser/Parse/Valid.antt =====
-- Which statements the parser gives.
use flex_ql_dl.Base.{
  ◌≡◌, refl, inl, inr, Bool, true, false, not, ◌||◌, List, [], ◌∷◌, Text, upper, Bool-cases,
}
use flex_ql_dl.Parser.Ast.{
  StatementType, none_type, create_type, insert_type, select_type, delete_type, Statement,
}
use flex_ql_dl.Parser.Words.{words, strip_right}
use flex_ql_dl.Parser.Parse.{is_end, is_empty, is_valid, checked, parse_words, parse_clean, parse}

-- The list has an entry at least.
abbrev pub IsSome {ℓ} : {A : Type ℓ} → List A → Type 0
IsSome [] = ⊥
IsSome (x ∷ l) = Unit

-- What the executor relies on: the parts that the statement needs are there.
abbrev pub HasParts : StatementType → Statement → Type 0
HasParts create_type s = IsSome s.create_stmt.table_name × IsSome s.create_stmt.columns
HasParts insert_type s = IsSome s.insert_stmt.table_name × IsSome s.insert_stmt.raw_values
HasParts select_type s = IsSome s.select_stmt.table_name × IsSome s.select_stmt.columns
HasParts delete_type s = IsSome s.delete_stmt.table_name
HasParts none_type s = Unit

abbrev pub IsValid : Statement → Type 0
IsValid s = HasParts s.type s

is_empty-IsSome {ℓ} : {A : Type ℓ} (l : List A) → is_empty l ≡ false → IsSome l
is_empty-IsSome [] h = cc
is_empty-IsSome (x ∷ l) h = tt

neither : (a b : Bool) → not (a || b) ≡ true → (a ≡ false) × (b ≡ false)
neither true b h = cc
neither false true h = cc
neither false false h = (refl, refl)

negated : (a : Bool) → not a ≡ true → a ≡ false
negated true h = cc
negated false h = refl

both-IsSome {ℓ κ} :
    {A : Type ℓ} {B : Type κ} (l : List A) (m : List B)
    → not (is_empty l || is_empty m) ≡ true
    → IsSome l × IsSome m
both-IsSome l m h =
    let (a, b) = neither (is_empty l) (is_empty m) h in (is_empty-IsSome l a, is_empty-IsSome m b)

is_valid-IsValid : (t : StatementType) (s : Statement) → s.type ≡ t → is_valid s ≡ true → IsValid s
is_valid-IsValid create_type s e h =
    rw e (both-IsSome s.create_stmt.table_name s.create_stmt.columns (rw e at h))
is_valid-IsValid insert_type s e h =
    rw e (both-IsSome s.insert_stmt.table_name s.insert_stmt.raw_values (rw e at h))
is_valid-IsValid select_type s e h =
    rw e (both-IsSome s.select_stmt.table_name s.select_stmt.columns (rw e at h))
is_valid-IsValid delete_type s e h =
    rw e (is_empty-IsSome s.delete_stmt.table_name (negated _ (rw e at h)))
is_valid-IsValid none_type s e h = rw e tt

checked-IsValid : (s : Statement) → IsValid (checked s)
checked-IsValid s = elim (Bool-cases (is_valid s)) [
  | inl valid ↦ rw valid (is_valid-IsValid s.type s refl valid)
  | inr invalid ↦ rw invalid tt
]

parse_clean-IsValid : (sql : Text) (l : List Text) → IsValid (parse_clean sql l)
parse_clean-IsValid sql [] = tt
parse_clean-IsValid sql (word ∷ l) = checked-IsValid (parse_words sql (upper word) l)

-- Of every text, the parser gives a statement of no type, or one that has the name of a table and
-- what else its type needs: CREATE a column, INSERT a text of values, and SELECT a column.
pub parse-IsValid : (sql : Text) → IsValid (parse sql)
unfolding parse
parse-IsValid sql = let clean = strip_right is_end sql in parse_clean-IsValid clean (words clean)
