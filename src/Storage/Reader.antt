-- ===== src/Storage/Reader.antt =====
-- `ColumnReader` (include/storage/column_reader.h, src/storage/column_reader.cpp), over the file
-- of a column. A read gives the file back, since it moves the cache.
pub mod Scan
pub mod Rows
use flex_ql_dl.Base.{
  ℕ, zero, suc, ◌+◌, ◌-◌, ◌*◌, ◌/◌, ◌%◌, ◌^◌, Bool, true, false, ◌&&◌, List, [], ◌∷◌, Option, none,
  some, leb, ltb, ◌==◌, if◌then◌else◌, read_bytes,
}
use flex_ql_dl.Storage.Pager.{u32_mod, u64_mod}
use flex_ql_dl.Storage.Column.{ColumnPage, ColumnFile, body_size, slot_size, sum_items, crash}
use flex_ql_dl.Cache.Manager

unfoldable pub get_total_rows : ColumnFile → ℕ × ColumnFile
unfolding sum_items
get_total_rows f = if f.pager.num_pages == 0 then (0, f) else sum_items f.pager.num_pages 0 f 0

-- The two bytes at an offset, as a `uint16_t`.
abbrev pub read_u16 : (ℕ → ℕ) → ℕ → ℕ
read_u16 m at = m at + 256 * m (at + 1)

-- The bytes of the slot `i`: all of a fixed one, or the measured ones of a variable one.
unfoldable pub read_slot : ℕ → ℕ → ℕ → ColumnPage → List ℕ
read_slot fixed_size slot i h =
    let at = i * slot in
    let len = read_u16 h.body at in
    if ltb 0 fixed_size
    then read_bytes h.body at fixed_size
    else read_bytes h.body (at + 2) (if ltb 126 len then 126 else len)

-- The linear scan: `n` pages from `pi` on, the first of whose rows is `current`.
unfoldable pub scan : ℕ → ℕ → ℕ → ℕ → ℕ → ℕ → ColumnFile → Option (List ℕ) × ColumnFile
scan zero pi current rid fixed_size slot f = (none, f)
scan (suc n) pi current rid fixed_size slot f =
    let (page, f') = Manager.get_page f pi in
    elim page [
      | none ↦ (none, crash f')
      | some a ↦
          let h = f'.pager.memory a in
          let next = (current + h.num_items) % u64_mod in
          let rest = scan n (pi + 1) next rid fixed_size slot f' in
          if ltb rid next
          then (some (read_slot fixed_size slot ((rid - current) % u32_mod) h), f')
          else rest
    ]

abbrev pub slot_of : ℕ → ℕ
slot_of fixed_size = if ltb 0 fixed_size then fixed_size else slot_size

-- The page `p` was read for the row `rid`: its slot, or the scan if the page does not have the row.
unfoldable pub read_guessed :
    ℕ → ℕ → ℕ → ℕ → ℕ → Option ℕ → ColumnFile → Option (List ℕ) × ColumnFile
unfolding scan
read_guessed np p rid fixed_size slot none f = (none, crash f)
read_guessed np p rid fixed_size slot (some a) f =
    let h = f.pager.memory a in
    let start = (p * (body_size / slot)) % u64_mod in
    if leb start rid && ltb rid ((start + h.num_items) % u64_mod)
    then (some (read_slot fixed_size slot ((rid - start) % u32_mod) h), f)
    else scan np 0 0 rid fixed_size slot f

-- `read_at`, for the size of the slots: the page of the row is computed first, and the scan is the
-- way out where there is no such page, or it does not have the row.
unfoldable pub read_slots : ℕ → ℕ → ℕ → ColumnFile → Option (List ℕ) × ColumnFile
unfolding scan read_guessed
read_slots slot rid fixed_size f =
    let np = f.pager.num_pages in
    let p = (rid / (body_size / slot)) % u32_mod in
    let (page, f') = Manager.get_page f p in
    if np == 0
    then (none, f)
    else if ltb p np
    then read_guessed np p rid fixed_size slot page f'
    else scan np 0 0 rid fixed_size slot f

-- `false` is `none`; what is read is the vector `out`.
unfoldable pub read_at : ℕ → ℕ → ColumnFile → Option (List ℕ) × ColumnFile
unfolding read_slots
read_at rid fixed_size f = read_slots (slot_of fixed_size) rid fixed_size f
