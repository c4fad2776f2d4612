-- ===== src/Executor/Insert/Printing.antt =====
-- Printed values, and that `Executor::exec_insert` reads them back.

use flex_ql_dl.Base.{
  ℕ, zero, suc, ◌+◌, ◌-◌, ◌/◌, ◌%◌, ◌^◌, ◌<◌, ◌≡◌, ◌≢◌, refl, sym, ap, ◌∙◌, inl, inr, false, [],
  ◌∷◌, ◌++◌, some, arith, All, All-append, ltb, ◌==◌, if◌then◌else◌, Bool-cases, Text, is_space,
  trim_left, trim_right, Without, stoll, to_string, digits, stoll-to_string, done,
}
use flex_ql_dl.Base.Visible.{trim_right-EndsVisible, append-EndsVisible, cons-EndsVisible, IsPart}
use flex_ql_dl.Storage.Row.{
  ColumnType, int, float, decimal, char, varchar, datetime, Value, is_varchar,
}
use flex_ql_dl.Storage.Row.Cells.{IsCell, Value_ext}
use flex_ql_dl.Executor.Database.{Env}
use flex_ql_dl.Executor.Insert.{quote, drop_quote, unquote, number_value, parse_value}

-- A number, or a text in quotes.
unfoldable pub print_value : Value → Text
unfolding to_string
print_value v = if is_varchar v.type then quote ∷ v.str ++ quote ∷ [] else to_string v.bits

-- A number, or a text with no comma and no ')'.
abbrev pub IsPrintable : ColumnType → Value → Type 0
IsPrintable decimal v = Unit
IsPrintable varchar v = Without b',' v.str × Without b')' v.str
IsPrintable _ v = ⊥

cons-ne-nil : {c : ℕ} {l : Text} → c ∷ l ≢ []
cons-ne-nil e = cc

drop_quote-append : (l : Text) → drop_quote (l ++ quote ∷ []) ≡ some l
drop_quote-append [] = refl
drop_quote-append (c ∷ []) = refl
drop_quote-append (c ∷ d ∷ l) = let ih = drop_quote-append (d ∷ l) in rw ih refl

-- A property of the bytes of numbers.
digits-All :
    (P : ℕ → Type 0) (k n : ℕ) (l : Text)
    → ((d : ℕ) → d < 10 → P (48 + d))
    → All P l
    → All P (digits k n l)
unfolding digits
digits-All P zero n l digit h = h
digits-All P (suc k) n l digit h =
    let last = digit (n % 10) (omega arith) in
    elim (Bool-cases (ltb n 10)) [
      | inl small ↦ rw small (last, h)
      | inr large ↦ rw large (digits-All P k (n / 10) ((48 + n % 10) ∷ l) digit (last, h))
    ]

to_string-All :
    (P : ℕ → Type 0) (n : ℕ) → ((d : ℕ) → d < 10 → P (48 + d)) → P b'-' → All P (to_string n)
unfolding to_string
to_string-All P n digit minus = elim (Bool-cases (ltb n (2 ^ 63))) [
  | inl small ↦ rw small (digits-All P 19 n [] digit tt)
  | inr large ↦ rw large (minus, digits-All P 19 (2 ^ 64 - n) [] digit tt)
]

-- Bytes of which none is white space.
trimmed : (l : Text) → All (λ c. is_space c ≡ false) l → trim_right (trim_left l) ≡ l
unfolding trim_left trim_right
trimmed [] h = refl
trimmed (c ∷ l) h = rw h.0 (kept (c ∷ l) h)
  where
    kept : (l : Text) → All (λ c. is_space c ≡ false) l → trim_right l ≡ l
    kept [] h = refl
    kept (c ∷ []) h = rw h.0 refl
    kept (c ∷ d ∷ l) h = let ih = kept (d ∷ l) h.1 in rw ih refl

digits-IsSome : (k n : ℕ) (l : Text) → digits (suc k) n l ≢ []
unfolding digits
digits-IsSome zero n l e = elim (Bool-cases (ltb n 10)) [
  | inl small ↦ cons-ne-nil (rw small at e)
  | inr large ↦ cons-ne-nil (rw large at e)
]
digits-IsSome (suc k) n l e = elim (Bool-cases (ltb n 10)) [
  | inl small ↦ cons-ne-nil (rw small at e)
  | inr large ↦ digits-IsSome k (n / 10) ((48 + n % 10) ∷ l) (rw large at e)
]

to_string-starts : (n : ℕ) → to_string n ≢ []
unfolding to_string
to_string-starts n e = elim (Bool-cases (ltb n (2 ^ 63))) [
  | inl small ↦ digits-IsSome 18 n [] (rw small at e)
  | inr large ↦ cons-ne-nil (rw large at e)
]

to_string-IsPart : (n : ℕ) → IsPart b',' (to_string n)
to_string-IsPart n =
    part (to_string n) (to_string-All (λ d. (d == b',') ≡ false) n (λ d small. ground arith) refl)
      (to_string-starts n)
  where
    part : (l : Text) → Without b',' l → l ≢ [] → IsPart b',' l
    part [] h ne = ne refl
    part (c ∷ l) h ne = h

pub print_value-parts :
    (type : ColumnType) (junk : ℕ) (v : Value)
    → IsCell junk type v
    → IsPrintable type v
    → IsPart b',' (print_value v) × Without b')' (print_value v)
unfolding print_value
print_value-parts int junk v h p = absurd p
print_value-parts float junk v h p = absurd p
print_value-parts char junk v h p = absurd p
print_value-parts datetime junk v h p = absurd p
print_value-parts varchar junk v h p = rw h.0 (
  (refl, All-append (λ d. (d == b',') ≡ false) v.str (quote ∷ []) p.0 (refl, tt)),
  (refl, All-append (λ d. (d == b')') ≡ false) v.str (quote ∷ []) p.1 (refl, tt)),
)
print_value-parts decimal junk v h p = rw h.0 (
  to_string-IsPart v.bits,
  to_string-All (λ d. (d == b')') ≡ false) v.bits (λ d small. ground arith) refl,
)

abbrev quoted : Text → Text
quoted l = quote ∷ l ++ quote ∷ []

print_value-typed :
    (type : ColumnType) (v : Value)
    → v.type ≡ type
    → print_value v ≡ (if is_varchar type then quoted v.str else to_string v.bits)
unfolding print_value
print_value-typed type v e = ap (λ t. if is_varchar t then quoted v.str else to_string v.bits) e

unquote-quoted : (l : Text) → unquote (trim_right (trim_left (quoted l))) ≡ l
unfolding trim_left
unquote-quoted l =
    let visible =
      cons-EndsVisible quote (l ++ quote ∷ []) (append-EndsVisible l (quote ∷ []) refl) in
    ap unquote (trim_right-EndsVisible (quoted l) visible) ∙ rw (drop_quote-append l, unquote) refl

-- What the loop makes of a printed value.
pub parse_value-print_value :
    (env : Env) (type : ColumnType) (v : Value)
    → IsCell env.junk type v
    → IsPrintable type v
    → parse_value env type (trim_right (trim_left (print_value v))) ≡ done v
unfolding print_value parse_value
parse_value-print_value env int v h p = absurd p
parse_value-print_value env float v h p = absurd p
parse_value-print_value env char v h p = absurd p
parse_value-print_value env datetime v h p = absurd p
parse_value-print_value env varchar v h p =
    ap (λ l. done (record { type = varchar; bits = env.junk; str = l }))
      (ap (λ l. unquote (trim_right (trim_left l))) (print_value-typed varchar v h.0)
        ∙ unquote-quoted v.str)
    ∙ ap done (Value_ext v varchar env.junk v.str (sym h.0) (sym h.1) refl)
parse_value-print_value env decimal v h p =
    let visible = to_string-All (λ c. is_space c ≡ false) v.bits (λ d small. ground arith) refl in
    let text =
      ap (λ l. trim_right (trim_left l)) (print_value-typed decimal v h.0)
      ∙ trimmed (to_string v.bits) visible in
    ap (λ l. number_value decimal (stoll l)) text
    ∙ ap (number_value decimal) (stoll-to_string v.bits h.1)
    ∙ ap done (Value_ext v decimal v.bits [] (sym h.0) refl (sym h.2))
