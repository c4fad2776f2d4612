-- ===== src/Server/Stream.antt =====
-- The loops of src/server/server.cpp and src/client/flexql.cpp that take parts off a stream of
-- bytes: `while ((p = acc.find(sep)) != npos) { part = acc.substr(0, p); acc.erase(0, p + 1); … }`
-- for each chunk that `recv` gives.
pub mod Chunks
use flex_ql_dl.Base.{
  ℕ, ◌≡◌, ◌⊎◌, inl, inr, Bool, true, false, List, [], ◌∷◌, ◌++◌, ◌==◌, if◌then◌else◌, Text, c_str,
}

-- `step` takes a part: the loop goes on from a new state, or the function returns.
module _ {S R : Type 0} (separator : ℕ) (step : S → Text → S ⊎ R) where
  -- The walk of the loop over an accumulator, behind the bytes `part` in which there is no
  -- separator: the state with what stays in the accumulator, or what is returned with the rest.
  unfoldable pub drain : S → Text → Text → (S × Text) ⊎ (R × Text)
  drain s part [] = inl (s, part)
  drain s part (c ∷ l) = elim (c == separator) [
    | false ↦ drain s (part ++ c ∷ []) l
    | true ↦ elim (step s part) [ inl s' ↦ drain s' [] l | inr r ↦ inr (r, l) ]
  ]

  -- One chunk after the other is appended, up to its first '\0', and the loop runs.
  unfoldable pub receive : S → Text → List Text → (S × Text) ⊎ (R × Text)
  unfolding drain
  receive s acc [] = inl (s, acc)
  receive s acc (chunk ∷ chunks) = elim (drain s [] (acc ++ c_str chunk)) [
    | inl (s', acc') ↦ receive s' acc' chunks
    | inr r ↦ inr r
  ]
