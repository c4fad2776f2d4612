-- ===== src/Parser/Keywords.antt =====
-- The words that `Parser::parse` looks for (src/parser/parser.cpp).
use flex_ql_dl.Base.{[], ◌∷◌, ◌++◌, Text}

abbrev pub create_text : Text
create_text = b'C' ∷ b'R' ∷ b'E' ∷ b'A' ∷ b'T' ∷ b'E' ∷ []

abbrev pub insert_text : Text
insert_text = b'I' ∷ b'N' ∷ b'S' ∷ b'E' ∷ b'R' ∷ b'T' ∷ []

abbrev pub delete_text : Text
delete_text = b'D' ∷ b'E' ∷ b'L' ∷ b'E' ∷ b'T' ∷ b'E' ∷ []

abbrev pub select_text : Text
select_text = b'S' ∷ b'E' ∷ b'L' ∷ b'E' ∷ b'C' ∷ b'T' ∷ []

abbrev pub if_text : Text
if_text = b'I' ∷ b'F' ∷ []

abbrev pub values_text : Text
values_text = b'V' ∷ b'A' ∷ b'L' ∷ b'U' ∷ b'E' ∷ b'S' ∷ []

abbrev pub and_text : Text
and_text = b'A' ∷ b'N' ∷ b'D' ∷ []

abbrev pub desc_text : Text
desc_text = b'D' ∷ b'E' ∷ b'S' ∷ b'C' ∷ []

-- A word with a space before and behind.
abbrev pub spaced : Text → Text
spaced w = 32 ∷ w ++ 32 ∷ []

abbrev pub from_text : Text
from_text = spaced (b'F' ∷ b'R' ∷ b'O' ∷ b'M' ∷ [])

abbrev pub join_text : Text
join_text = spaced (b'I' ∷ b'N' ∷ b'N' ∷ b'E' ∷ b'R' ∷ 32 ∷ b'J' ∷ b'O' ∷ b'I' ∷ b'N' ∷ [])

abbrev pub on_text : Text
on_text = spaced (b'O' ∷ b'N' ∷ [])

abbrev pub where_text : Text
where_text = spaced (b'W' ∷ b'H' ∷ b'E' ∷ b'R' ∷ b'E' ∷ [])

abbrev pub order_text : Text
order_text = spaced (b'O' ∷ b'R' ∷ b'D' ∷ b'E' ∷ b'R' ∷ 32 ∷ b'B' ∷ b'Y' ∷ [])
