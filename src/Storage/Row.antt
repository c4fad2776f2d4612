-- ===== src/Storage/Row.antt =====
-- Column types, column definitions and values (include/storage/row.h, src/storage/row.cpp). The
-- union of a value is its eight bytes as a number below 2 ^ 64, low byte first; `str` is a list of
-- bytes. The operations on floats, and the printing of a time, which the C library does, are
-- parameters.
pub mod Layout
pub mod Values
pub mod Order
pub mod Cells
use flex_ql_dl.Base.{
  ℕ, zero, suc, ◌+◌, ◌-◌, ◌*◌, ◌/◌, ◌%◌, ◌^◌, Bool, true, false, List, [], ◌∷◌, ◌++◌, Option, none,
  some, ltb, ◌==◌, if◌then◌else◌, take, Text, c_str, same_text,
}

pub data ColumnType : Type 0 where
  int float decimal char varchar datetime : ColumnType

-- The name is the C string of the array.
pub record ColumnDef : Type 0 where
  pub name : Text
  pub type : ColumnType

pub record Value : Type 0 where
  pub type : ColumnType
  pub bits : ℕ
  pub str : Text

abbrev pub is_varchar : ColumnType → Bool
is_varchar varchar = true
is_varchar _ = false

abbrev pub same_type : ColumnType → ColumnType → Bool
same_type int int = true
same_type float float = true
same_type decimal decimal = true
same_type char char = true
same_type varchar varchar = true
same_type datetime datetime = true
same_type _ _ = false

-- A signed number of `w` bits is as far from the least one.
abbrev pub from_least : ℕ → ℕ → ℕ
from_least w n = (n + 2 ^ (w - 1)) % 2 ^ w

-- `<` on signed numbers of `w` bits.
abbrev pub signed_lt : ℕ → ℕ → ℕ → Bool
signed_lt w a b = ltb (from_least w a) (from_least w b)

-- `std::string::operator<`
unfoldable pub text_lt : Text → Text → Bool
text_lt a [] = false
text_lt [] (y ∷ b) = true
text_lt (x ∷ a) (y ∷ b) =
    let rest = text_lt a b in if ltb x y then true else if ltb y x then false else rest

-- The four bytes of an `int32_t` in the union.
abbrev pub i32 : Value → ℕ
i32 v = v.bits % 2 ^ 32

-- Equality and order of floats, by their four bytes.
module _ (float_eq float_lt : ℕ → ℕ → Bool) where
  -- The cases of `operator==`, for values of one type.
  abbrev pub same_content : ColumnType → Value → Value → Bool
  same_content int v o = i32 v == i32 o
  same_content float v o = float_eq (i32 v) (i32 o)
  same_content decimal v o = v.bits == o.bits
  same_content datetime v o = v.bits == o.bits
  same_content char v o = same_text v.str o.str
  same_content varchar v o = same_text v.str o.str

  unfoldable pub value_eq : Value → Value → Bool
  value_eq v o = if same_type v.type o.type then same_content v.type v o else false

  -- The cases of `operator<`, by the type of the left value.
  abbrev pub less_content : ColumnType → Value → Value → Bool
  less_content int v o = signed_lt 32 (i32 v) (i32 o)
  less_content float v o = float_lt (i32 v) (i32 o)
  less_content decimal v o = signed_lt 64 v.bits o.bits
  less_content datetime v o = signed_lt 64 v.bits o.bits
  less_content char v o = text_lt v.str o.str
  less_content varchar v o = text_lt v.str o.str

  unfoldable pub value_lt : Value → Value → Bool
  value_lt v o = less_content v.type v o

  unfoldable pub value_gt : Value → Value → Bool
  unfolding value_lt
  value_gt v o = value_lt o v

-- The low `n` bytes of a number, as they lie in memory.
unfoldable pub le_bytes : ℕ → ℕ → List ℕ
le_bytes zero n = []
le_bytes (suc k) n = n % 256 ∷ le_bytes k (n / 256)

-- `memcpy` of bytes into a number that is 0.
unfoldable pub le_number : List ℕ → ℕ
le_number [] = 0
le_number (b ∷ l) = b + 256 * le_number l

-- The bytes behind which a buffer of `n` bytes is 0.
unfoldable pub padded : ℕ → List ℕ → List ℕ
padded zero l = []
padded (suc n) [] = 0 ∷ padded n []
padded (suc n) (b ∷ l) = b ∷ padded n l

-- `sz` of `insert_row`: how many bytes of a value are stored.
abbrev pub stored_size : ColumnType → ℕ
stored_size varchar = 128
stored_size int = 4
stored_size float = 4
stored_size _ = 8

-- The bytes of `buf` that `insert_row` stores.
unfoldable pub stored_bytes : Value → List ℕ
unfolding padded le_bytes c_str
stored_bytes v =
    if is_varchar v.type
    then padded 128 (take 127 (c_str v.str))
    else le_bytes (stored_size v.type) v.bits

-- `fsz` of `materialize_row`: how many bytes are read back.
abbrev pub read_size : ColumnType → ℕ
read_size varchar = 128
read_size _ = 8

-- The value of a cell, by what `read_at` gave; `junk` is a union that was never written.
unfoldable pub read_value : ℕ → ColumnType → Option (List ℕ) → Value
unfolding le_number c_str
read_value junk type none = record { type = type; bits = junk; str = [] }
read_value junk type (some buf) =
    if is_varchar type
    then record { type = type; bits = junk; str = c_str (buf ++ 0 ∷ []) }
    else record { type = type; bits = le_number (take 8 buf); str = [] }
