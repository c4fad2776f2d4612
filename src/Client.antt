-- ===== src/Client.antt =====
-- The client library: `flexql_exec` of src/client/flexql.cpp. A callback is called for the rows in
-- `rows`, and a caller's `errmsg` is given the text in `errmsg`; `recv` gives the chunks until it
-- fails, and whether `send` fails is an argument.
pub mod Answers
pub mod EndToEnd
pub mod Sql
pub mod Shell
mod Tests
use flex_ql_dl.Base.{
  ℕ, ◌⊎◌, inl, inr, Bool, true, false, List, [], ◌∷◌, ◌++◌, Option, none, some, if◌then◌else◌, ◌==◌,
  ◌-◌, ◌^◌, Text, same_text, strip_prefix, trim_left, trim_right, getlines,
}
use flex_ql_dl.Server.Stream.{drain, receive}
use flex_ql_dl.Server.Connection.{tab, newline, semicolon, row_mark, error_mark, end_text}

pub record Progress : Type 0 where
  pub error_seen : Bool
  pub errmsg : Option Text
  pub rows : List (List Text)

abbrev pub start : Progress
start = record { error_seen = false; errmsg = none; rows = [] }

abbrev pub flexql_ok : ℕ
flexql_ok = 0

-- The -1 of include/flexql.h, which flexql.cpp includes, as the 32 bits of an `int`.
abbrev pub flexql_error : ℕ
flexql_error = 2 ^ 32 - 1

-- A line that starts with "ERROR:", and one that starts with "ROW ".
abbrev pub take_error : Text → Progress → Progress
take_error msg p = record p { errmsg = some (trim_left msg); error_seen = true }

abbrev pub take_row : Text → Progress → Progress
take_row row_data p =
    if p.error_seen then p else record p { rows = p.rows ++ getlines tab row_data ∷ [] }

-- The body of the loop behind the trimming: on, or the return.
unfoldable pub take_line : Progress → Text → Progress ⊎ Progress
unfolding same_text strip_prefix getlines
take_line p line =
    if same_text line end_text
    then inr p
    else inl (elim (strip_prefix error_mark line) [
      | some msg ↦ take_error msg p
      | none ↦ elim (strip_prefix row_mark line) [ some row_data ↦ take_row row_data p | none ↦ p ]
    ])

unfoldable pub read_line : Progress → Text → Progress ⊎ Progress
unfolding take_line trim_left trim_right
read_line p line = take_line p (trim_left (trim_right line))

abbrev pub return_code : Progress → ℕ
return_code p = if p.error_seen then flexql_error else flexql_ok

abbrev pub last_is : ℕ → Text → Bool
last_is c [] = false
last_is c (d ∷ []) = d == c
last_is c (d ∷ e ∷ l) = last_is c (e ∷ l)

-- The text that is sent.
unfoldable pub request : Text → Text
request q = if last_is semicolon q then q else q ++ semicolon ∷ []

-- The code that is returned, the progress, and the accumulator that is left for the next call.
abbrev pub finish : (Progress × Text) ⊎ (Progress × Text) → ℕ × Progress × Text
finish (inl (p, acc)) = (flexql_error, p, acc)
finish (inr (p, acc)) = (return_code p, p, acc)

-- The loop, which looks at the accumulator before it receives.
unfoldable pub read_answer : Text → List Text → (Progress × Text) ⊎ (Progress × Text)
unfolding read_line
read_answer acc chunks = elim (drain newline read_line start [] acc) [
  | inl (p, acc') ↦ receive newline read_line p acc' chunks
  | inr r ↦ inr r
]

unfoldable pub flexql_exec : Text → Text → Bool → List Text → ℕ × Progress × Text
unfolding read_answer
flexql_exec acc [] sent chunks = (flexql_ok, start, acc)
flexql_exec acc (c ∷ sql) sent chunks =
    if sent then finish (read_answer acc chunks) else (flexql_error, start, acc)
