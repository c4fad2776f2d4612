-- ===== src/Parser/Words.antt =====
-- The parts of a text that `Parser::parse` (src/parser/parser.cpp) takes: words, as
-- `std::istringstream` reads them, and what stands before and behind a text.
pub mod Plain
pub mod Find
use flex_ql_dl.Base.{
  ℕ, zero, suc, Bool, true, ◌||◌, List, [], ◌∷◌, ◌++◌, Option, none, some, ◌==◌, if◌then◌else◌,
  Text, is_space, into_first, strip_prefix, upper,
}

-- `stream >> word`, as long as there is a word. The white space behind a word ends it.
abbrev pub ends_word : Text → Bool
ends_word [] = true
ends_word (c ∷ l) = is_space c

unfoldable pub words : Text → List Text
words [] = []
words (c ∷ l) =
    let rest = words l in
    if is_space c then rest else if ends_word l then (c ∷ []) ∷ rest else into_first c rest

-- `n` reads into a word that holds `word`: without a word to read, it stays.
abbrev pub reads : ℕ → Text → List Text → Text × List Text
reads zero word l = (word, l)
reads (suc n) word [] = (word, [])
reads (suc n) word (w ∷ l) = reads n w l

-- The text before the first byte of a kind; all of it, if there is none.
unfoldable pub before_first : (ℕ → Bool) → Text → Text
before_first p [] = []
before_first p (c ∷ l) = let rest = before_first p l in if p c then [] else c ∷ rest

-- The text from the first byte of a kind on.
unfoldable pub from_first : (ℕ → Bool) → Text → Text
from_first p [] = []
from_first p (c ∷ l) = let rest = from_first p l in if p c then c ∷ l else rest

-- The text behind the first byte of a kind, and behind the last.
unfoldable pub behind_first : (ℕ → Bool) → Text → Option Text
behind_first p [] = none
behind_first p (c ∷ l) = let rest = behind_first p l in if p c then some l else rest

abbrev pub or_behind : Bool → Text → Option Text → Option Text
or_behind here l (some r) = some r
or_behind here l none = if here then some l else none

unfoldable pub behind_last : (ℕ → Bool) → Text → Option Text
behind_last p [] = none
behind_last p (c ∷ l) = or_behind (p c) l (behind_last p l)

abbrev pub and_before : ℕ → Bool → Option Text → Option Text
and_before c here (some r) = some (c ∷ r)
and_before c here none = if here then some [] else none

-- The text before the last byte of a kind, if there is one.
unfoldable pub before_last : (ℕ → Bool) → Text → Option Text
before_last p [] = none
before_last p (c ∷ l) = and_before c (p c) (before_last p l)

abbrev pub later : ℕ → Option (Text × Text) → Option (Text × Text)
later c none = none
later c (some (before, behind)) = some (c ∷ before, behind)

-- `find(pattern)`: the text before the first place of the pattern, and behind it.
unfoldable pub find_text : Text → Text → Option (Text × Text)
unfolding strip_prefix
find_text pattern [] = none
find_text pattern (c ∷ l) =
    let rest = find_text pattern l in
    elim (strip_prefix pattern (c ∷ l)) [ some behind ↦ some ([], behind) | none ↦ later c rest ]

-- Without the bytes of a kind at the start, and at the end.
unfoldable pub strip_left : (ℕ → Bool) → Text → Text
strip_left p [] = []
strip_left p (c ∷ l) = let rest = strip_left p l in if p c then rest else c ∷ l

abbrev pub unless_stripped : (ℕ → Bool) → ℕ → Text → Text
unless_stripped p c [] = if p c then [] else c ∷ []
unless_stripped p c (d ∷ l) = c ∷ d ∷ l

unfoldable pub strip_right : (ℕ → Bool) → Text → Text
strip_right p [] = []
strip_right p (c ∷ l) = unless_stripped p c (strip_right p l)

-- " \t\n\r"
abbrev pub is_blank : ℕ → Bool
is_blank c = c == 32 || c == 9 || c == 10 || c == 13

-- "(,; "
abbrev pub is_delimiter : ℕ → Bool
is_delimiter c = c == b'(' || c == b',' || c == b';' || c == 32

abbrev pub all_or : Text → Option Text → Text
all_or l none = l
all_or l (some r) = r

unfoldable pub strip_delimiters : Text → Text
unfolding strip_left strip_right behind_last before_first
strip_delimiters s =
    let trimmed = strip_right is_blank (strip_left is_blank s) in
    upper (before_first is_delimiter (all_or trimmed (behind_last (λ c. c == b'.') trimmed)))

-- Each word with a space before it.
unfoldable pub spread : List Text → Text
spread [] = []
spread (w ∷ ws) = 32 ∷ w ++ spread ws
