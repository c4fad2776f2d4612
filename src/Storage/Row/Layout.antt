-- ===== src/Storage/Row/Layout.antt =====
-- `Schema` (include/storage/row.h) and `Schema::finalize` (src/storage/row.cpp): where the columns of a
-- row lie. A column of the schema has the parts that the layout needs beside its name and type.
use flex_ql_dl.Base.{
  ℕ, zero, suc, ◌+◌, ◌%◌, ◌^◌, ◌<◌, ◌≡◌, refl, ap, ◌∙◌, Bool, List, [], ◌∷◌, some, arith, length,
  get_elem?, take, ltb,
}
use flex_ql_dl.Storage.Row.{ColumnType, int, float, decimal, char, varchar, datetime, ColumnDef}

pub record SizedColumn : Type 0 where
  pub def : ColumnDef
  pub is_primary : Bool
  -- `n` of CHAR(n) and VARCHAR(n)
  pub size : ℕ

pub record Schema : Type 0 where
  pub columns : List SizedColumn
  pub expiry_col_idx : ℕ
  pub primary_col_idx : ℕ
  pub fixed_row_size : ℕ
  pub col_offsets : List ℕ

-- A schema before `finalize`.
abbrev pub new_schema : List SizedColumn → Schema
new_schema columns = record {
  columns = columns;
  expiry_col_idx = 65535;
  primary_col_idx = 0;
  fixed_row_size = 0;
  col_offsets = [];
}

abbrev pub column_count : Schema → ℕ
column_count s = length s.columns

abbrev pub is_fixed : Schema → Bool
is_fixed s = ltb 0 s.fixed_row_size

-- What a case of the switch adds to the offset.
abbrev pub width_of : ColumnType → ℕ → ℕ
width_of int n = 4
width_of float n = 4
width_of decimal n = 8
width_of char n = n
width_of varchar n = 2 + n
width_of datetime n = 8

abbrev pub width : SizedColumn → ℕ
width c = width_of c.def.type c.size

-- The loop: the offsets, and the size of the row. An offset is cut to 16 bits, and the size to 32.
unfoldable pub layout_from : ℕ → List SizedColumn → List ℕ × ℕ
layout_from off [] = ([], off)
layout_from off (c ∷ columns) =
    let (offsets, size) = layout_from ((off + width c) % 2 ^ 32) columns in
    (off % 2 ^ 16 ∷ offsets, size)

unfoldable pub finalize : Schema → Schema
unfolding layout_from
finalize s =
    let (offsets, size) = layout_from 0 s.columns in
    record s { col_offsets = offsets; fixed_row_size = size }

-- The widths of columns together.
abbrev pub total_width : List SizedColumn → ℕ
total_width [] = 0
total_width (c ∷ columns) = width c + total_width columns

layout_from-total_width :
    (off : ℕ) (columns : List SizedColumn)
    → off + total_width columns < 2 ^ 16
    → ((layout_from off columns).1 ≡ off + total_width columns)
      × ((i : ℕ)
          → i < length columns
          → get_elem? (layout_from off columns).0 i ≡ some (off + total_width (take i columns)))
unfolding layout_from
layout_from-total_width off [] h = (omega arith, λ i k. absurd (omega (arith, k)))
layout_from-total_width off (c ∷ columns) h =
    let next : (off + width c) % 2 ^ 32 ≡ off + width c = omega (arith, h) in
    let (size, offsets) = layout_from-total_width (off + width c) columns (omega (arith, h)) in
    (ap (λ o. (layout_from o columns).1) next ∙ size ∙ omega arith, λ i k. at i k next offsets)
  where
    at :
        (i : ℕ)
        → i < length (c ∷ columns)
        → (off + width c) % 2 ^ 32 ≡ off + width c
        → ((i : ℕ)
            → i < length columns
            → get_elem? (layout_from (off + width c) columns).0 i
              ≡ some (off + width c + total_width (take i columns)))
        → get_elem? (layout_from off (c ∷ columns)).0 i
          ≡ some (off + total_width (take i (c ∷ columns)))
    at zero k next ih = ap some (omega (arith, h))
    at (suc i) k next ih =
        ap (λ o. get_elem? (layout_from o columns).0 i) next
        ∙ ih i (omega (arith, k))
        ∙ ap some (omega arith)

-- When the columns of a schema take less than 65536 bytes together, `finalize` puts each behind the
-- ones before it, with no gap and no overlap, and the row is as long as all of them; the columns
-- stay as they are.
pub finalize-total_width :
    (s : Schema)
    → total_width s.columns < 2 ^ 16
    → ((finalize s).columns ≡ s.columns)
      × ((finalize s).fixed_row_size ≡ total_width s.columns)
      × ((i : ℕ)
          → i < column_count s
          → get_elem? (finalize s).col_offsets i ≡ some (total_width (take i s.columns)))
unfolding finalize
finalize-total_width s h =
    let (size, offsets) = layout_from-total_width 0 s.columns (omega (arith, h)) in
    (refl, size ∙ omega arith, λ i k. offsets i k ∙ ap some (omega arith))
