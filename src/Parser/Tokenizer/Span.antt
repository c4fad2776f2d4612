-- ===== src/Parser/Tokenizer/Span.antt =====
-- What the loops over characters take, and which tokens are ones that SQL text can spell.
use mathlib.Core.Path.{subst}
use flex_ql_dl.Base.{
  is_space, ℕ, ◌≤◌, ◌≡◌, refl, sym, ap, ◌∙◌, inl, inr, Bool, true, false, List, [], ◌∷◌, ◌++◌,
  Option, none, some, arith, length, All, if◌then◌else◌, Bool-cases, ◌==◌, ==_iff,
}
use flex_ql_dl.Parser.Tokenizer.{
  Token, keyword, identifier, number, string, symbol, end_of_input, is_alpha, is_digit, is_word,
  is_quoted, is_symbol, quote, advance, skip_whitespace, span, parse_identifier, parse_number,
  parse_string, next_token,
}

abbrev pub Fits : (ℕ → Bool) → List ℕ → Type 0
Fits test l = All (λ c. test c ≡ true) l

-- A token of the form that the tokenizer reads: what its value may be.
abbrev pub IsFormed : Token → Type 0
IsFormed (keyword v) = ⊥
IsFormed (identifier []) = ⊥
IsFormed (identifier (c ∷ v)) = (is_alpha c ≡ true) × Fits is_word v
IsFormed (number []) = ⊥
IsFormed (number (c ∷ v)) = (is_digit c ≡ true) × Fits is_digit v
IsFormed (string v) = Fits is_quoted v
IsFormed (symbol []) = ⊥
IsFormed (symbol (c ∷ [])) = is_symbol c ≡ true
IsFormed (symbol (c ∷ d ∷ v)) = ⊥
IsFormed end_of_input = ⊥

pub length-advance : (l : List ℕ) → length (advance l) ≤ length l
length-advance [] = omega arith
length-advance (c ∷ l) = omega arith

pub length-skip_whitespace : (l : List ℕ) → length (skip_whitespace l) ≤ length l
unfolding skip_whitespace
length-skip_whitespace [] = omega arith
length-skip_whitespace (c ∷ l) =
    let ih = length-skip_whitespace l in
    elim (Bool-cases (is_space c)) [ inl s ↦ rw s (omega (arith, ih)) | inr s ↦ rw s (omega arith) ]

module _ (test : ℕ → Bool) where
  pub length-span : (l : List ℕ) → length (span test l).1 ≤ length l
  unfolding span
  length-span [] = omega arith
  length-span (c ∷ l) =
      let ih = length-span l in
      elim (Bool-cases (test c)) [ inl s ↦ rw s (omega (arith, ih)) | inr s ↦ rw s (omega arith) ]

  pub span-Fits : (l : List ℕ) → Fits test (span test l).0
  unfolding span
  span-Fits [] = tt
  span-Fits (c ∷ l) =
      let ih = span-Fits l in elim (Bool-cases (test c)) [ inl s ↦ rw s (s, ih) | inr s ↦ rw s tt ]

  pub span_step :
      (c : ℕ) (l : List ℕ)
      → test c ≡ true
      → span test (c ∷ l) ≡ (c ∷ (span test l).0, (span test l).1)
  unfolding span
  span_step c l s = rw s refl

  -- The loop stops behind what fits.
  pub span-append :
      (v : List ℕ) (d : ℕ) (l : List ℕ)
      → Fits test v
      → test d ≡ false
      → span test (v ++ d ∷ l) ≡ (v, d ∷ l)
  unfolding span
  span-append [] d l fits stop = rw stop refl
  span-append (c ∷ v) d l fits stop = rw (fits.0, span-append v d l fits.1 stop) refl

-- The passes of the loop, by the first character.
module _ (c : ℕ) (l : List ℕ) where
  pub next_token_word :
      is_alpha c ≡ true
      → next_token (c ∷ l) ≡ (some (identifier (c ∷ (span is_word l).0)), (span is_word l).1)
  unfolding next_token parse_identifier
  next_token_word alpha =
      let word : is_word c ≡ true = rw alpha refl in
      let first : next_token (c ∷ l)
          ≡ (some (identifier (span is_word (c ∷ l)).0), (span is_word (c ∷ l)).1) =
        rw alpha refl in
      first ∙ ap (λ r. (some (identifier r.0), r.1)) (span_step is_word c l word)

  pub next_token_number :
      is_alpha c ≡ false
      → is_digit c ≡ true
      → next_token (c ∷ l) ≡ (some (number (c ∷ (span is_digit l).0)), (span is_digit l).1)
  unfolding next_token parse_number
  next_token_number no_alpha digit =
      let first : next_token (c ∷ l)
          ≡ (some (number (span is_digit (c ∷ l)).0), (span is_digit (c ∷ l)).1) =
        rw (no_alpha, digit) refl in
      first ∙ ap (λ r. (some (number r.0), r.1)) (span_step is_digit c l digit)

  pub next_token_string :
      c ≡ quote
      → next_token (c ∷ l) ≡ (some (string (span is_quoted l).0), advance (span is_quoted l).1)
  unfolding next_token parse_string
  next_token_string e = rw e refl

  pub next_token_symbol :
      is_alpha c ≡ false
      → is_digit c ≡ false
      → (c == quote) ≡ false
      → next_token (c ∷ l) ≡ ((if is_symbol c then some (symbol (c ∷ [])) else none), l)
  unfolding next_token
  next_token_symbol no_alpha no_digit no_quote = elim (Bool-cases (is_symbol c)) [
    | inl s ↦ rw (no_alpha, no_digit, no_quote, s) refl
    | inr s ↦ rw (no_alpha, no_digit, no_quote, s) refl
  ]

abbrev pub IfFormed : Option Token → Type 0
IfFormed none = Unit
IfFormed (some t) = IsFormed t

abbrev Passed : List ℕ → Option Token × List ℕ → Type 0
Passed l r = IfFormed r.0 × (length r.1 ≤ length l)

-- A pass of the loop takes a character at least, and its token is well formed.
pub next_token-IsFormed : (c : ℕ) (l : List ℕ) → Passed l (next_token (c ∷ l))
next_token-IsFormed c l = elim (Bool-cases (is_alpha c)) [
  | inl alpha ↦
      subst (Passed l) (sym (next_token_word c l alpha))
        ((alpha, span-Fits is_word l), length-span is_word l)
  | inr no_alpha ↦ elim (Bool-cases (is_digit c)) [
    | inl digit ↦
        subst (Passed l) (sym (next_token_number c l no_alpha digit))
          ((digit, span-Fits is_digit l), length-span is_digit l)
    | inr no_digit ↦ elim (Bool-cases (c == quote)) [
      | inl quoted ↦
          let left = length-advance (span is_quoted l).1 in
          let short = length-span is_quoted l in
          subst (Passed l) (sym (next_token_string c l ((==_iff c quote).0 quoted)))
            (span-Fits is_quoted l, omega (arith, left, short))
      | inr no_quote ↦
          subst (Passed l) (sym (next_token_symbol c l no_alpha no_digit no_quote))
            (elim (Bool-cases (is_symbol c)) [
              | inl s ↦ rw s (s, omega arith)
              | inr s ↦ rw s (tt, omega arith)
            ])
    ]
  ]
]
