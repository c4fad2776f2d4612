-- ===== src/Parser/Tests.antt =====
-- Runs of the tokenizer on texts, and the theorems at concrete inputs.
use flex_ql_dl.Parser.Words.{
  words, strip_right, strip_left, before_first, from_first, behind_last, find_text,
  strip_delimiters,
}
use flex_ql_dl.Parser.Parse.{parse, parse_words, parse_select, parse_from}
use flex_ql_dl.Parser.Parse.Valid.{IsValid, parse-IsValid}
use flex_ql_dl.Base.{
  ℕ, ◌≡◌, refl, List, [], ◌∷◌, some, none, arith, All, Text, same_text, trim_left, getlines,
  strip_prefix,
}
use flex_ql_dl.Parser.Tokenizer.{Token, identifier, number, string, symbol, tokenize_from}
use flex_ql_dl.Parser.Tokenizer.Span.{IsFormed}
use flex_ql_dl.Parser.Tokenizer.Total.{ended, tokenize_from-IsFormed}
use flex_ql_dl.Parser.Tokenizer.RoundTrip.{print, tokenize_from-print}

program : Unit {0}
unfolding tokenize_from print
program = tt

-- `id=7 'a b`: the string is not closed.
abbrev text : List ℕ
text = 105 ∷ 100 ∷ 61 ∷ 55 ∷ 32 ∷ 39 ∷ 97 ∷ 32 ∷ 98 ∷ []

abbrev tokens : List Token
tokens =
    identifier (105 ∷ 100 ∷ [])
    ∷ symbol (61 ∷ [])
    ∷ number (55 ∷ [])
    ∷ string (97 ∷ 32 ∷ 98 ∷ [])
    ∷ []

reads : tokenize_from 9 text ≡ some (ended tokens)
unfolding program
reads = refl

-- A pass for each of the four tokens is needed.
runs_out : tokenize_from 3 text ≡ none
unfolding program
runs_out = refl

tokens-IsFormed : All IsFormed tokens
tokens-IsFormed = ((refl, (refl, tt)), (refl, ((refl, tt), ((refl, (refl, (refl, tt))), tt))))

tokenize_from-IsFormed_example :
    (ts : List Token) × (tokenize_from 9 text ≡ some (ended ts)) × All IsFormed ts
tokenize_from-IsFormed_example = tokenize_from-IsFormed 9 text (omega arith)

tokenize_from-print_example : tokenize_from 40 (print tokens) ≡ some (ended tokens)
unfolding print
tokenize_from-print_example = tokenize_from-print 40 tokens tokens-IsFormed (omega arith)

-- `SELECT A FROM T`
abbrev select_sql : Text
select_sql =
    b'S' ∷ b'E' ∷ b'L' ∷ b'E' ∷ b'C' ∷ b'T' ∷ 32 ∷ b'A' ∷ 32 ∷ b'F' ∷ b'R' ∷ b'O' ∷ b'M' ∷ 32 ∷ b'T'
    ∷ []

parse-IsValid_example : IsValid (parse select_sql)
parse-IsValid_example = parse-IsValid select_sql

selected : (parse select_sql).select_stmt.columns ≡ (b'A' ∷ []) ∷ []
unfolding parse words strip_right strip_left before_first from_first behind_last find_text
    parse_words parse_select parse_from strip_delimiters same_text trim_left getlines strip_prefix
selected = refl
