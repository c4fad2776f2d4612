-- ===== src/Storage/Row/Cells.antt =====
-- What is read back of a stored value.
use flex_ql_dl.Base.{
  ℕ, zero, suc, ◌^◌, ◌<◌, ◌≤◌, ◌≡◌, refl, sym, ap, ◌∙◌, List, [], ◌∷◌, ◌++◌, some, arith, length,
  take, take_of_length-le, if◌then◌else◌, c_str, c_str-Without, Without,
}
use flex_ql_dl.Storage.Row.{
  ColumnType, int, float, decimal, char, varchar, datetime, Value, le_bytes, le_number, padded,
  is_varchar, stored_size, stored_bytes, read_size, read_value,
}

length-padded : (n : ℕ) (l : List ℕ) → length (padded n l) ≡ n
unfolding padded
length-padded zero l = refl
length-padded (suc n) [] = ap suc (length-padded n [])
length-padded (suc n) (b ∷ l) = ap suc (length-padded n l)

pub le_number-le_bytes : (n : ℕ) → n < 2 ^ 64 → le_number (le_bytes 8 n) ≡ n
unfolding le_number le_bytes
le_number-le_bytes n h = omega (arith, h)

pub c_str-end : (l : List ℕ) → Without 0 l → c_str (l ++ 0 ∷ []) ≡ l
unfolding c_str
c_str-end [] h = refl
c_str-end (b ∷ l) h = let ih = c_str-end l h.1 in rw (h.0, c_str) (rw ih refl)

c_str-padded : (n : ℕ) (l : List ℕ) → Without 0 l → length l ≤ n → c_str (padded n l ++ 0 ∷ []) ≡ l
unfolding c_str padded
c_str-padded zero [] h k = refl
c_str-padded zero (b ∷ l) h k = absurd (omega (arith, k))
c_str-padded (suc n) [] h k = refl
c_str-padded (suc n) (b ∷ l) h k =
    let ih = c_str-padded n l h.1 (omega (arith, k)) in rw (h.0, c_str) (rw ih refl)

-- The value is one that a column of the type gives back: of a text, the union was never written;
-- INT and FLOAT are stored with four bytes and read with eight.
abbrev pub IsCell : ℕ → ColumnType → Value → Type 0
IsCell junk int v = ⊥
IsCell junk float v = ⊥
IsCell junk varchar v =
    (v.type ≡ varchar) × (v.bits ≡ junk) × (length v.str ≤ 127) × Without 0 v.str
IsCell junk type v = (v.type ≡ type) × (v.bits < 2 ^ 64) × (v.str ≡ [])

pub Value_ext :
    (v : Value) (t : ColumnType) (n : ℕ) (s : List ℕ)
    → t ≡ v.type
    → n ≡ v.bits
    → s ≡ v.str
    → record { type = t; bits = n; str = s } ≡ v
Value_ext v t n s a b c = rw (a, b, c) refl

pub length-stored_bytes :
    (junk : ℕ) (t : ColumnType) (v : Value)
    → IsCell junk t v
    → length (stored_bytes v) ≡ read_size t
unfolding stored_bytes le_bytes
length-stored_bytes junk int v h = absurd h
length-stored_bytes junk float v h = absurd h
length-stored_bytes junk decimal v h = rw h.0 refl
length-stored_bytes junk char v h = rw h.0 refl
length-stored_bytes junk varchar v h = rw h.0 (length-padded 128 (take 127 (c_str v.str)))
length-stored_bytes junk datetime v h = rw h.0 refl

-- The bytes stored, by the type.
abbrev typed_bytes : ColumnType → Value → List ℕ
typed_bytes t v =
    if is_varchar t then padded 128 (take 127 (c_str v.str)) else le_bytes (stored_size t) v.bits

stored_bytes-typed : (t : ColumnType) (v : Value) → v.type ≡ t → stored_bytes v ≡ typed_bytes t v
unfolding stored_bytes
stored_bytes-typed t v h = ap (λ u. typed_bytes u v) h

number_read :
    (junk : ℕ) (v : Value) → v.bits < 2 ^ 64 → le_number (take 8 (le_bytes 8 v.bits)) ≡ v.bits
unfolding le_bytes
number_read junk v h = le_number-le_bytes v.bits h

-- What `insert_row` stores of a value, `materialize_row` reads back.
pub read_value-stored_bytes :
    (junk : ℕ) (t : ColumnType) (v : Value)
    → IsCell junk t v
    → read_value junk t (some (stored_bytes v)) ≡ v
unfolding read_value le_bytes
read_value-stored_bytes junk int v h = absurd h
read_value-stored_bytes junk float v h = absurd h
read_value-stored_bytes junk decimal v h =
    ap (λ l. read_value junk decimal (some l)) (stored_bytes-typed decimal v h.0)
    ∙ Value_ext v decimal _ [] (sym h.0) (number_read junk v h.1) (sym h.2)
read_value-stored_bytes junk char v h =
    ap (λ l. read_value junk char (some l)) (stored_bytes-typed char v h.0)
    ∙ Value_ext v char _ [] (sym h.0) (number_read junk v h.1) (sym h.2)
read_value-stored_bytes junk varchar v h =
    let whole = ap (take 127) (c_str-Without v.str h.3) ∙ take_of_length-le 127 v.str h.2 in
    ap (λ l. read_value junk varchar (some l)) (stored_bytes-typed varchar v h.0)
    ∙ Value_ext v varchar junk _ (sym h.0) (sym h.1) (
        ap (λ l. c_str (padded 128 l ++ 0 ∷ [])) whole
        ∙ c_str-padded 128 v.str h.3 (omega (arith, h.2)))
read_value-stored_bytes junk datetime v h =
    ap (λ l. read_value junk datetime (some l)) (stored_bytes-typed datetime v h.0)
    ∙ Value_ext v datetime _ [] (sym h.0) (number_read junk v h.1) (sym h.2)
