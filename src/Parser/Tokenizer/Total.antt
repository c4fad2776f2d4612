-- ===== src/Parser/Tokenizer/Total.antt =====
-- The loop of `tokenize` ends, and what its tokens look like.
use mathlib.Core.Path.{subst}
use mathlib.Core.Option
use flex_ql_dl.Base.{
  ℕ, zero, suc, ◌≤◌, ◌≡◌, refl, sym, ap, ◌⊎◌, inl, inr, List, [], ◌∷◌, ◌++◌, Option, none, some,
  arith, length, All,
}
use flex_ql_dl.Parser.Tokenizer.{
  Token, end_of_input, skip_whitespace, next_token, push, tokenize_from,
}
use flex_ql_dl.Parser.Tokenizer.Span.{
  IsFormed, IfFormed, length-skip_whitespace, next_token-IsFormed,
}

-- The tokens, and the one behind them.
abbrev pub ended : List Token → List Token
ended ts = ts ++ end_of_input ∷ []

record Reads (o : Option (List Token)) : Type 0 where
  tokens : List Token
  read : o ≡ some (ended tokens)
  formed : All IsFormed tokens

Reads-push :
    (t : Option Token) (o : Option (List Token))
    → IfFormed t
    → Reads o
    → Reads (Option.map (push t) o)
Reads-push none o h r = record {
  tokens = r.tokens;
  read = ap (Option.map (push none)) r.read;
  formed = r.formed;
}
Reads-push (some t) o h r = record {
  tokens = t ∷ r.tokens;
  read = ap (Option.map (push (some t))) r.read;
  formed = (h, r.formed);
}

List-cases : (l : List ℕ) → (l ≡ []) ⊎ ((c : ℕ) × (m : List ℕ) × (l ≡ c ∷ m))
List-cases [] = inl refl
List-cases (c ∷ l) = inr (c, l, refl)

abbrev Shrinks : ℕ → Option Token × List ℕ → Type 0
Shrinks n r = IfFormed r.0 × (length r.1 ≤ n)

next_token-Shrinks :
    (c : ℕ) (l : List ℕ) → Shrinks (length l) (next_token (skip_whitespace (c ∷ l)))
unfolding next_token
next_token-Shrinks c l =
    let short = length-skip_whitespace (c ∷ l) in
    elim (List-cases (skip_whitespace (c ∷ l))) [
      | inl e ↦ rw e (tt, omega arith)
      | inr (d, m, e) ↦
          let (formed, less) = next_token-IsFormed d m in
          let bound : suc (length m) ≤ suc (length l) = rw e at short in
          subst (λ s. Shrinks (length l) (next_token s)) (sym e)
            (formed, omega (arith, less, bound))
    ]

tokenize_from-Reads : (fuel : ℕ) (l : List ℕ) → length l ≤ fuel → Reads (tokenize_from fuel l)
unfolding tokenize_from
tokenize_from-Reads fuel [] h = record { tokens = []; read = refl; formed = tt }
tokenize_from-Reads zero (c ∷ l) h = absurd (omega (arith, h))
tokenize_from-Reads (suc fuel) (c ∷ l) h =
    let (formed, less) = next_token-Shrinks c l in
    let (t, rest) = next_token (skip_whitespace (c ∷ l)) in
    Reads-push t (tokenize_from fuel rest) formed
      (tokenize_from-Reads fuel rest (omega (arith, less, h)))

-- With a pass of the loop for each character, tokenize ends; its tokens are identifiers, numbers,
-- strings and symbols of the form that SQL text spells, and one END behind them.
pub tokenize_from-IsFormed :
    (fuel : ℕ) (l : List ℕ)
    → length l ≤ fuel
    → (ts : List Token) × (tokenize_from fuel l ≡ some (ended ts)) × All IsFormed ts
tokenize_from-IsFormed fuel l h =
    let r = tokenize_from-Reads fuel l h in (r.tokens, r.read, r.formed)
