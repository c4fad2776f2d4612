-- ===== src/Storage/Row/Order.antt =====
-- The comparisons of values, src/storage/row.cpp.
use flex_ql_dl.Base.{
  ℕ, ◌%◌, ◌^◌, ◌<◌, ◌≡◌, ◌≢◌, refl, Bool, true, false, not, ◌&&◌, [], ◌∷◌, arith, ◌==◌, Text,
  same_text,
}
use flex_ql_dl.Storage.Row.{
  ColumnType, int, float, decimal, char, varchar, datetime, Value, signed_lt, text_lt, value_eq,
  value_lt, value_gt,
}

-- One of three tests holds, and no other.
abbrev pub exactly_one : Bool → Bool → Bool → Bool
exactly_one true b c = not b && not c
exactly_one false true c = not c
exactly_one false false c = c

text_lt-exactly_one : (a b : Text) → exactly_one (text_lt a b) (same_text a b) (text_lt b a) ≡ true
unfolding text_lt same_text
text_lt-exactly_one [] [] = refl
text_lt-exactly_one [] (y ∷ b) = refl
text_lt-exactly_one (x ∷ a) [] = refl
text_lt-exactly_one (x ∷ a) (y ∷ b) = let ih = text_lt-exactly_one a b in ground (arith, ih)

signed_lt-exactly_one :
    (a b : ℕ)
    → a < 2 ^ 32
    → b < 2 ^ 32
    → exactly_one (signed_lt 32 a b) (a == b) (signed_lt 32 b a) ≡ true
signed_lt-exactly_one a b h k = ground arith

long_lt-exactly_one :
    (a b : ℕ)
    → a < 2 ^ 64
    → b < 2 ^ 64
    → exactly_one (signed_lt 64 a b) (a == b) (signed_lt 64 b a) ≡ true
long_lt-exactly_one a b h k = ground arith

module _ (float_eq float_lt : ℕ → ℕ → Bool) where
  -- Of two values of one type other than FLOAT, one is less, or they are equal, or the other is
  -- less, and only one of these: the numbers are compared as signed ones, of 32 bits for INT and
  -- of 64 else, and the texts by their bytes.
  pub value_lt-exactly_one :
      (t : ColumnType) (v o : Value)
      → v.type ≡ t
      → o.type ≡ t
      → t ≢ float
      → v.bits < 2 ^ 64
      → o.bits < 2 ^ 64
      → exactly_one
          (value_lt float_eq float_lt v o)
          (value_eq float_eq float_lt v o)
          (value_gt float_eq float_lt v o)
        ≡ true
  unfolding value_lt value_eq value_gt
  value_lt-exactly_one int v o vt ot h b c =
      rw (vt, ot)
        (signed_lt-exactly_one (v.bits % 2 ^ 32) (o.bits % 2 ^ 32) (omega arith) (omega arith))
  value_lt-exactly_one float v o vt ot h b c = absurd (h refl)
  value_lt-exactly_one decimal v o vt ot h b c = rw (vt, ot) (long_lt-exactly_one v.bits o.bits b c)
  value_lt-exactly_one char v o vt ot h b c = rw (vt, ot) (text_lt-exactly_one v.str o.str)
  value_lt-exactly_one varchar v o vt ot h b c = rw (vt, ot) (text_lt-exactly_one v.str o.str)
  value_lt-exactly_one datetime v o vt ot h b c =
      rw (vt, ot) (long_lt-exactly_one v.bits o.bits b c)
