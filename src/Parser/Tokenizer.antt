-- ===== src/Parser/Tokenizer.antt =====
-- `Tokenizer` (include/parser/token.h, include/parser/tokenizer.h, src/parser/tokenizer.cpp). The
-- input is a list of bytes below 128 (`isspace` and the others are not defined on negative values
-- of `char`), and the state is what is left of it, from `pos` on: nothing reads the input in front
-- of `pos`. A read at the end is the terminating '\0', as `std::string` has it.
pub mod Span
pub mod Total
pub mod RoundTrip
use mathlib.Core.Option
use flex_ql_dl.Base.{
  ℕ, zero, suc, Bool, true, false, not, ◌&&◌, ◌||◌, List, [], ◌∷◌, Option, none, some, leb, ◌==◌,
  if◌then◌else◌, is_space,
}

pub data Token : Type 0 where
  keyword identifier number string symbol : List ℕ → Token
  end_of_input : Token

-- <cctype>, in the "C" locale.
abbrev pub is_digit : ℕ → Bool
is_digit c = leb 48 c && leb c 57

abbrev pub is_alpha : ℕ → Bool
is_alpha c = (leb 65 c && leb c 90) || (leb 97 c && leb c 122)

abbrev pub quote : ℕ
quote = 39

-- The loop tests of `parse_identifier` and `parse_string`, and the test for a symbol.
abbrev pub is_word : ℕ → Bool
is_word c = is_alpha c || is_digit c || c == 95

abbrev pub is_quoted : ℕ → Bool
is_quoted c = not (c == quote) && not (c == 0)

abbrev pub is_symbol : ℕ → Bool
is_symbol c = c == 44 || c == 40 || c == 41 || c == 61 || c == 42

abbrev pub peek : List ℕ → ℕ
peek [] = 0
peek (c ∷ l) = c

-- `advance`, for the state that it leaves.
abbrev pub advance : List ℕ → List ℕ
advance [] = []
advance (c ∷ l) = l

-- `while (isspace(peek())) advance();`
unfoldable pub skip_whitespace : List ℕ → List ℕ
skip_whitespace [] = []
skip_whitespace (c ∷ l) = let rest = skip_whitespace l in if is_space c then rest else c ∷ l

-- `while (test(peek())) val += advance();` for a test that fails on '\0'.
unfoldable pub span : (ℕ → Bool) → List ℕ → List ℕ × List ℕ
span test [] = ([], [])
span test (c ∷ l) = let (val, rest) = span test l in if test c then (c ∷ val, rest) else ([], c ∷ l)

unfoldable pub parse_identifier : List ℕ → Token × List ℕ
unfolding span
parse_identifier l = let (val, rest) = span is_word l in (identifier val, rest)

unfoldable pub parse_number : List ℕ → Token × List ℕ
unfolding span
parse_number l = let (val, rest) = span is_digit l in (number val, rest)

unfoldable pub parse_string : List ℕ → Token × List ℕ
unfolding span
parse_string l = let (val, rest) = span is_quoted (advance l) in (string val, advance rest)

abbrev pub emit : Token × List ℕ → Option Token × List ℕ
emit (t, rest) = (some t, rest)

-- The branches of `tokenize`, at the first character that is no space.
unfoldable pub next_token : List ℕ → Option Token × List ℕ
unfolding parse_identifier parse_number parse_string
next_token l =
    let c = peek l in
    if is_alpha c
    then emit (parse_identifier l)
    else if is_digit c
    then emit (parse_number l)
    else if c == quote
    then emit (parse_string l)
    else if is_symbol c
    then (some (symbol (c ∷ [])), advance l)
    else (none, advance l)

abbrev pub push : Option Token → List Token → List Token
push none l = l
push (some t) l = t ∷ l

-- `while (pos < input.size())`, and the token behind the loop; `none` when the fuel runs out.
unfoldable pub tokenize_from : ℕ → List ℕ → Option (List Token)
unfolding skip_whitespace next_token
tokenize_from fuel [] = some (end_of_input ∷ [])
tokenize_from zero (c ∷ l) = none
tokenize_from (suc fuel) (c ∷ l) =
    let (t, rest) = next_token (skip_whitespace (c ∷ l)) in
    Option.map (push t) (tokenize_from fuel rest)
