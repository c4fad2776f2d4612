-- ===== src/Storage/Row/Values.antt =====
-- What else row.h and row.cpp (include/storage, src/storage) have on values and rows: the
-- constructors, the texts, the times and the expiry. What the C library does with floats and times
-- is a parameter: `to_string` of a float, the clock, `sscanf` of six numbers with `mktime`, and
-- `localtime` with `strftime`.
use flex_ql_dl.Base.{
  ℕ, ◌+◌, ◌-◌, ◌*◌, ◌/◌, ◌%◌, ◌^◌, Bool, false, not, ◌&&◌, List, [], Option, none, some, ltb, ◌==◌,
  if◌then◌else◌, get_elem?, Text, to_string,
}
use flex_ql_dl.Storage.Row.{
  ColumnType, int, float, decimal, char, varchar, datetime, Value, i32, signed_lt,
}
use flex_ql_dl.Storage.Row.Layout.{Schema}

-- Four bytes written into the union, whose others stay; `junk` is what was there.
abbrev pub with_low : ℕ → ℕ → ℕ
with_low junk n = junk / 2 ^ 32 * 2 ^ 32 + n % 2 ^ 32

abbrev pub from_int : ℕ → ℕ → Value
from_int junk v = record { type = int; bits = with_low junk v; str = [] }

abbrev pub from_float : ℕ → ℕ → Value
from_float junk v = record { type = float; bits = with_low junk v; str = [] }

abbrev pub from_decimal : ℕ → Value
from_decimal v = record { type = decimal; bits = v; str = [] }

abbrev pub from_string : ℕ → Text → ColumnType → Value
from_string junk s t = record { type = t; bits = junk; str = s }

abbrev pub from_datetime : ℕ → Value
from_datetime ts = record { type = datetime; bits = ts; str = [] }

-- An `int32_t` as 64 bits.
abbrev pub extended : ℕ → ℕ
extended n = if ltb n (2 ^ 31) then n else n + (2 ^ 64 - 2 ^ 32)

module _ (float_text : ℕ → Text) (format_datetime : ℕ → Text) where
  -- `Value::to_string`
  unfoldable pub value_to_string : Value → Text
  unfolding to_string
  value_to_string v = elim v.type [
    | int ↦ to_string (extended (i32 v))
    | float ↦ float_text (i32 v)
    | decimal ↦ to_string v.bits
    | datetime ↦ format_datetime v.bits
    | char ↦ v.str
    | varchar ↦ v.str
  ]

-- The fields of a `tm`, as 32 bits each.
pub record Moment : Type 0 where
  pub year : ℕ
  pub mon : ℕ
  pub mday : ℕ
  pub hour : ℕ
  pub min : ℕ
  pub sec : ℕ

-- A number of 32 bits less another.
abbrev pub less : ℕ → ℕ → ℕ
less n k = (n + (2 ^ 32 - k)) % 2 ^ 32

-- `sscanf` gives the six numbers, or fewer.
unfoldable pub parse_datetime : (Text → Option Moment) → (Moment → ℕ) → Text → ℕ
parse_datetime sscanf mktime s = elim (sscanf s) [
  | none ↦ 0
  | some t ↦ mktime (record t { year = less t.year 1900; mon = less t.mon 1 })
]

abbrev pub format_datetime : (ℕ → Moment) → (Moment → Text) → ℕ → Text
format_datetime localtime strftime ts = strftime (localtime ts)

-- `Row::is_expired`, at a time.
unfoldable pub is_expired : ℕ → Schema → List Value → Bool
is_expired now schema values = elim (get_elem? values schema.expiry_col_idx) [
  | none ↦ false
  | some v ↦ not (v.bits == 0) && signed_lt 64 v.bits now
]

-- `Row::serialize` and `Row::deserialize` do nothing.
abbrev pub serialize : Schema → List Value → List ℕ → ℕ × List ℕ
serialize schema values buf = (0, buf)

abbrev pub deserialize : Schema → List ℕ → List Value → Bool × List Value
deserialize schema buf values = (false, values)
