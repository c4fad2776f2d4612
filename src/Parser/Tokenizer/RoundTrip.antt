-- ===== src/Parser/Tokenizer/RoundTrip.antt =====
-- Tokens that are spelt out are read back.

use mathlib.Core.Option
use mathlib.Core.List.{append_assoc}
use flex_ql_dl.Base.{
  is_space, ℕ, zero, suc, ◌≤◌, ◌≡◌, refl, sym, ap, ◌∙◌, true, false, List, [], ◌∷◌, ◌++◌, some,
  arith, length, All, length-append, ◌==◌,
}
use flex_ql_dl.Parser.Tokenizer.{
  Token, keyword, identifier, number, string, symbol, end_of_input, is_alpha, is_digit, is_word,
  is_quoted, is_symbol, quote, skip_whitespace, next_token, push, tokenize_from, advance,
}
use flex_ql_dl.Parser.Tokenizer.Span.{
  IsFormed, span-append, next_token_word, next_token_number, next_token_string, next_token_symbol,
}
use flex_ql_dl.Parser.Tokenizer.Total.{ended}

-- The text of a token, and of tokens with a space behind each.
abbrev pub print_token : Token → List ℕ
print_token (keyword v) = v
print_token (identifier v) = v
print_token (number v) = v
print_token (string v) = quote ∷ v ++ quote ∷ []
print_token (symbol v) = v
print_token end_of_input = []

unfoldable pub print : List Token → List ℕ
print [] = []
print (t ∷ ts) = print_token t ++ 32 ∷ print ts

digit-is_alpha : (c : ℕ) → is_digit c ≡ true → is_alpha c ≡ false
digit-is_alpha c h = ground arith

symbol-is_alpha :
    (c : ℕ)
    → is_symbol c ≡ true
    → (is_alpha c ≡ false) × (is_digit c ≡ false) × ((c == quote) ≡ false)
symbol-is_alpha c h = (ground arith, ground arith, ground arith)

alpha-is_space : (c : ℕ) → is_alpha c ≡ true → is_space c ≡ false
alpha-is_space c h = ground arith

digit-is_space : (c : ℕ) → is_digit c ≡ true → is_space c ≡ false
digit-is_space c h = ground arith

symbol-is_space : (c : ℕ) → is_symbol c ≡ true → is_space c ≡ false
symbol-is_space c h = ground arith

-- One pass reads a token that a space follows, and stops at the space.
print_token-next :
    (t : Token) (l : List ℕ) → IsFormed t → next_token (print_token t ++ 32 ∷ l) ≡ (some t, 32 ∷ l)
print_token-next (keyword v) l h = absurd h
print_token-next (identifier []) l h = absurd h
print_token-next (identifier (c ∷ v)) l h =
    next_token_word c (v ++ 32 ∷ l) h.0
    ∙ ap (λ r. (some (identifier (c ∷ r.0)), r.1)) (span-append is_word v 32 l h.1 refl)
print_token-next (number []) l h = absurd h
print_token-next (number (c ∷ v)) l h =
    next_token_number c (v ++ 32 ∷ l) (digit-is_alpha c h.0) h.0
    ∙ ap (λ r. (some (number (c ∷ r.0)), r.1)) (span-append is_digit v 32 l h.1 refl)
print_token-next (string v) l h =
    let closed : (v ++ quote ∷ []) ++ 32 ∷ l ≡ v ++ quote ∷ 32 ∷ l =
      append_assoc v (quote ∷ []) (32 ∷ l) in
    ap (λ m. next_token (quote ∷ m)) closed
    ∙ next_token_string quote (v ++ quote ∷ 32 ∷ l) refl
    ∙ ap (λ r. (some (string r.0), advance r.1)) (span-append is_quoted v quote (32 ∷ l) h refl)
print_token-next (symbol []) l h = absurd h
print_token-next (symbol (c ∷ [])) l h =
    let (no_alpha, no_digit, no_quote) = symbol-is_alpha c h in
    next_token_symbol c (32 ∷ l) no_alpha no_digit no_quote ∙ rw h refl
print_token-next (symbol (c ∷ d ∷ v)) l h = absurd h
print_token-next end_of_input l h = absurd h

print_token-is_space :
    (t : Token)
    → IsFormed t
    → (c : ℕ) × (m : List ℕ) × (print_token t ≡ c ∷ m) × (is_space c ≡ false)
print_token-is_space (keyword v) h = absurd h
print_token-is_space (identifier []) h = absurd h
print_token-is_space (identifier (c ∷ v)) h = (c, v, refl, alpha-is_space c h.0)
print_token-is_space (number []) h = absurd h
print_token-is_space (number (c ∷ v)) h = (c, v, refl, digit-is_space c h.0)
print_token-is_space (string v) h = (quote, v ++ quote ∷ [], refl, refl)
print_token-is_space (symbol []) h = absurd h
print_token-is_space (symbol (c ∷ [])) h = (c, [], refl, symbol-is_space c h)
print_token-is_space (symbol (c ∷ d ∷ v)) h = absurd h
print_token-is_space end_of_input h = absurd h

-- A pass from a text that, but for spaces, starts with a token.
tokenize_from-token :
    (fuel c : ℕ) (l m : List ℕ) (t : Token)
    → IsFormed t
    → skip_whitespace (c ∷ l) ≡ print_token t ++ 32 ∷ m
    → tokenize_from (suc fuel) (c ∷ l) ≡ Option.map (push (some t)) (tokenize_from fuel (32 ∷ m))
unfolding tokenize_from
tokenize_from-token fuel c l m t h e =
    ap (λ s. Option.map (push (next_token s).0) (tokenize_from fuel (next_token s).1)) e
    ∙ ap (λ r. Option.map (push r.0) (tokenize_from fuel r.1)) (print_token-next t m h)

skip_whitespace-print :
    (t : Token) (m : List ℕ)
    → IsFormed t
    → (skip_whitespace (print_token t ++ m) ≡ print_token t ++ m)
      × (suc (length m) ≤ length (print_token t ++ m))
unfolding skip_whitespace
skip_whitespace-print t m h =
    let (c, v, e, s) = print_token-is_space t h in
    let grown = length-append v m in rw (e, s) (refl, omega (arith, grown))

Read-again :
    (fuel : ℕ) (ts : List Token)
    → All IsFormed ts
    → length (print ts) ≤ fuel
    → tokenize_from (suc fuel) (32 ∷ print ts) ≡ some (ended ts)
unfolding print tokenize_from
Read-again fuel [] h short = refl
Read-again zero (t ∷ ts) h short =
    let (_, long) = skip_whitespace-print t (32 ∷ print ts) h.0 in
    absurd (omega (arith, short, long))
Read-again (suc fuel) (t ∷ ts) h short =
    let (skipped, long) = skip_whitespace-print t (32 ∷ print ts) h.0 in
    let rest = Read-again fuel ts h.1 (omega (arith, short, long)) in
    tokenize_from-token (suc fuel) 32 (print (t ∷ ts)) (print ts) t h.0 skipped
    ∙ ap (Option.map (push (some t))) rest

-- Identifiers, numbers, strings and symbols that are spelt out with a space behind each are read
-- back as the same tokens with the END behind them, with a pass for each character as fuel.
pub tokenize_from-print :
    (fuel : ℕ) (ts : List Token)
    → All IsFormed ts
    → length (print ts) ≤ fuel
    → tokenize_from fuel (print ts) ≡ some (ended ts)
unfolding print tokenize_from
tokenize_from-print fuel [] h short = refl
tokenize_from-print zero (t ∷ ts) h short =
    let (_, long) = skip_whitespace-print t (32 ∷ print ts) h.0 in
    absurd (omega (arith, short, long))
tokenize_from-print (suc zero) (t ∷ ts) h short =
    let (_, long) = skip_whitespace-print t (32 ∷ print ts) h.0 in
    absurd (omega (arith, short, long))
tokenize_from-print (suc (suc fuel)) (t ∷ ts) h short =
    let (c, v, e, s) = print_token-is_space t h.0 in
    let m = 32 ∷ print ts in
    let (skipped, long) = skip_whitespace-print t m h.0 in
    let rest = Read-again fuel ts h.1 (omega (arith, short, long)) in
    let first = ap (λ w. w ++ m) e in
    let skipped' : skip_whitespace (c ∷ v ++ m) ≡ print_token t ++ m =
      ap skip_whitespace (sym first) ∙ skipped in
    ap (tokenize_from (suc (suc fuel))) first
    ∙ tokenize_from-token (suc fuel) c (v ++ m) (print ts) t h.0 skipped'
    ∙ ap (Option.map (push (some t))) rest
