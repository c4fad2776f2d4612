-- ===== src/Storage/PageOps.antt =====
-- The inserts into a page (include/storage/page.h, src/storage/column_ops.cpp). The header lies over
-- the first four bytes of the page: the number of the items, and the offset of the free space.
mod Tests
use flex_ql_dl.Base.{
  ℕ, ◌+◌, ◌*◌, ◌/◌, ◌%◌, ◌<◌, ◌≤◌, ◌≡◌, refl, sym, ap, ◌∙◌, ◌⊎◌, inl, inr, Bool, true, false, List,
  [], ◌∷◌, arith, ltb, length, if◌then◌else◌, le→ltb, write_bytes, read_bytes, write_bytes_outside,
  read_bytes-write_bytes, read_bytes-write_bytes_apart,
}
use flex_ql_dl.Storage.Pager.{page_size}

abbrev pub Bytes : Type 0
Bytes = ℕ → ℕ

abbrev pub u16_at : Bytes → ℕ → ℕ
u16_at m at = m at + 256 * m (at + 1)

abbrev pub u16_list : ℕ → List ℕ
u16_list v = v % 256 ∷ v / 256 % 256 ∷ []

abbrev pub num_items : Bytes → ℕ
num_items m = u16_at m 0

abbrev pub free_space_offset : Bytes → ℕ
free_space_offset m = u16_at m 2

-- `hdr->free_space_offset += size; hdr->num_items++;`
unfoldable pub advance_header : ℕ → Bytes → Bytes
advance_header size m =
    let m' = write_bytes m 2 (u16_list ((free_space_offset m + size) % 65536)) in
    write_bytes m' 0 (u16_list ((num_items m' + 1) % 65536))

unfoldable pub insert_fixed : Bytes → List ℕ → ℕ → Bool × Bytes
unfolding advance_header
insert_fixed m item size =
    if ltb page_size (free_space_offset m + size)
    then (false, m)
    else (true, advance_header size (write_bytes m (free_space_offset m) item))

unfoldable pub insert_variable : Bytes → List ℕ → ℕ → Bool × Bytes
unfolding advance_header
insert_variable m item size =
    let at = free_space_offset m in
    if ltb page_size (at + 2 + size) then (false, m) else (
      true,
      advance_header (2 + size) (write_bytes (write_bytes m at (u16_list size)) (at + 2) item),
    )

u16_at-write_bytes :
    (m : Bytes) (at v : ℕ) → v < 65536 → u16_at (write_bytes m at (u16_list v)) at ≡ v
unfolding write_bytes
u16_at-write_bytes m at v h = ground arith

u16_at-write_bytes_apart :
    (m : Bytes) (at b : ℕ) (l : List ℕ)
    → (b + 2 ≤ at) ⊎ (at + length l ≤ b)
    → u16_at (write_bytes m at l) b ≡ u16_at m b
u16_at-write_bytes_apart m at b l h =
    let first = write_bytes_outside l m at b in
    let second = write_bytes_outside l m at (b + 1) in ground (arith, first, second)

-- What `advance_header` does: the two fields, and no byte behind them.
record Advanced (size : ℕ) (m m' : Bytes) : Type 0 where
  pub offset : free_space_offset m' ≡ free_space_offset m + size
  pub items : num_items m' ≡ (num_items m + 1) % 65536
  pub rest : (at n : ℕ) → 4 ≤ at → read_bytes m' at n ≡ read_bytes m at n

advance_header-Advanced :
    (size : ℕ) (m : Bytes)
    → free_space_offset m + size ≤ page_size
    → Advanced size m (advance_header size m)
unfolding advance_header
advance_header-Advanced size m h =
    let v = (free_space_offset m + size) % 65536 in
    let m' = write_bytes m 2 (u16_list v) in
    let w = (num_items m' + 1) % 65536 in
    record {
      offset =
          u16_at-write_bytes_apart m' 0 2 (u16_list w) (inr (omega arith))
          ∙ u16_at-write_bytes m 2 v (omega arith)
          ∙ omega (arith, h);
      items =
          u16_at-write_bytes m' 0 w (omega arith)
          ∙ ap (λ k. (k + 1) % 65536)
              (u16_at-write_bytes_apart m 2 0 (u16_list v) (inl (omega arith)));
      rest = λ at n low.
          read_bytes-write_bytes_apart n (u16_list w) m' 0 at (inr (omega (arith, low)))
          ∙ read_bytes-write_bytes_apart n (u16_list v) m 2 at (inr (omega (arith, low)));
    }

-- An item that fits between the free offset, which is behind the header, and the end of the page
-- is written there and can be read there; bytes between the header and the offset stay; the header
-- counts the item, modulo 2^16, and moves on by its size.
pub insert_fixed_lem :
    (m : Bytes) (item : List ℕ) (from n : ℕ)
    → 4 ≤ from
    → from + n ≤ free_space_offset m
    → 4 ≤ free_space_offset m
    → free_space_offset m + length item ≤ page_size
    → let r = insert_fixed m item (length item) in
      (r.0 ≡ true)
      × (read_bytes r.1 (free_space_offset m) (length item) ≡ item)
      × (read_bytes r.1 from n ≡ read_bytes m from n)
      × (free_space_offset r.1 ≡ free_space_offset m + length item)
      × (num_items r.1 ≡ (num_items m + 1) % 65536)
unfolding insert_fixed
insert_fixed_lem m item from n behind before low fits =
    let at = free_space_offset m in
    let size = length item in
    let m' = write_bytes m at item in
    let room : ltb page_size (at + size) ≡ false = le→ltb page_size (at + size) fits in
    let offset : free_space_offset m' ≡ at =
      u16_at-write_bytes_apart m at 2 item (inl (omega (arith, low))) in
    let items : num_items m' ≡ num_items m =
      u16_at-write_bytes_apart m at 0 item (inl (omega (arith, low))) in
    let a = advance_header-Advanced size m' (omega (arith, offset, fits)) in
    rw room (
      refl,
      a.rest at size low ∙ read_bytes-write_bytes item m at,
      a.rest from n behind ∙ read_bytes-write_bytes_apart n item m at from (inl before),
      a.offset ∙ ap (λ k. k + size) offset,
      a.items ∙ ap (λ k. (k + 1) % 65536) items,
    )
