-- ===== src/Storage/PageOps/Tests.antt =====
-- The inserts into a concrete page.
use flex_ql_dl.Base.{
  ℕ, ◌≡◌, refl, false, [], ◌∷◌, List, ◌==◌, if◌then◌else◌, read_bytes, write_bytes,
}
use flex_ql_dl.Storage.PageOps.{Bytes, insert_variable}

-- Ten bytes are in use.
abbrev page : Bytes
page i = if i == 2 then 10 else 0

abbrev item : List ℕ
item = 7 ∷ 8 ∷ []

variable_item : read_bytes (insert_variable page item 2).1 10 4 ≡ 2 ∷ 0 ∷ 7 ∷ 8 ∷ []
unfolding insert_variable write_bytes read_bytes
variable_item = refl

too_long : (insert_variable page item 4085).0 ≡ false
unfolding insert_variable
too_long = refl
