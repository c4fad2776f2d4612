-- ===== src/Storage/Reader/Scan.antt =====
-- The linear scan of a column for a row.
use flex_ql_dl.Base.{
  ℕ, zero, suc, ◌+◌, ◌-◌, ◌*◌, ◌%◌, ◌<◌, ◌≤◌, ◌≡◌, refl, sym, ◌∙◌, ap, inl, inr, List, arith,
  length, get_elem?, get_elem?_past, read_bytes, ltb, Bool-cases, ltb→lt, ltb→le, lt→ltb,
}
use Prim.Native.Nat.{min}
use flex_ql_dl.Storage.Pager.{Pager, max_pages, u32_mod, u64_mod}
use flex_ql_dl.Cache.Lru.Invariant.{SamePages-refl}
use flex_ql_dl.Cache.Lru.Preserve.{Keeps}
use flex_ql_dl.Cache.Manager
use flex_ql_dl.Cache.Manager.Transparent.{Keeps-trans}
use flex_ql_dl.Storage.Column.{ColumnPage, ColumnFile, body_size}
use flex_ql_dl.Storage.Column.Write.{times_le}
use flex_ql_dl.Storage.Column.Represents.{
  per_page, page_of, Layout, Fits, Holds, per_page_bounds, page_read, Keeps-Holds,
}
use flex_ql_dl.Storage.Reader.{read_slot, scan}

-- The slot of a fixed size.
pub read_slot_fixed :
    (size j : ℕ) (h : ColumnPage)
    → 0 < size
    → read_slot size size j h ≡ read_bytes h.body (j * size) size
unfolding read_slot
read_slot_fixed size j h positive = rw (lt→ltb 0 size positive)

module _ (size : ℕ) (rows : List (List ℕ)) (fits : Fits size) where
  -- The pages in front of one that is handed out are full.
  pub full_before :
      (p : Pager ColumnPage) (pid : ℕ)
      → Layout size rows p
      → pid < p.num_pages
      → pid * per_page size ≤ length rows
  full_before p pid l h =
      let under = times_le (pid + 1) p.num_pages (per_page size) (omega (arith, h)) in
      omega (arith, under, l.tight)

  -- The number of rows keeps the sums of the reader below 2^64.
  pub few_rows : (p : Pager ColumnPage) → Layout size rows p → length rows ≤ max_pages * body_size
  few_rows p l =
      let small = (per_page_bounds size fits).1 in
      let pages = times_le p.num_pages max_pages (per_page size) l.mapped in
      omega (arith, l.enough, pages, small)

  pub scan-get_elem? :
      (rid n pid current : ℕ) (f : ColumnFile)
      → Holds size rows f
      → pid + n ≡ f.pager.num_pages
      → current ≡ min (length rows) (pid * per_page size)
      → current ≤ rid
      → ((scan n pid current rid size size f).0 ≡ get_elem? rows rid)
        × Keeps f (scan n pid current rid size size f).1
  unfolding scan
  scan-get_elem? rid zero pid current f h pages at past =
      let l = h.layout in
      let all : pid * per_page size ≡ f.pager.num_pages * per_page size =
        ap (λ k. k * per_page size) (omega (arith, pages)) in
      (
        sym (get_elem?_past rows rid (omega (arith, at, all, l.enough, past))),
        record { valid = h.valid; pages = SamePages-refl f.pager; cap = refl },
      )
  scan-get_elem? rid (suc n) pid current f h pages at past =
      let inside : pid < f.pager.num_pages = omega (arith, pages) in
      let (got, kept) = page_read f pid h.valid inside in
      let g = (Manager.get_page f pid).1 in
      let held = Keeps-Holds size rows kept h in
      let inside' : pid < g.pager.num_pages = omega (arith, inside, kept.pages.count) in
      let page = page_of g.pager pid in
      let items = held.layout.items pid inside' in
      let full = full_before g.pager pid held.layout inside' in
      let few = few_rows g.pager held.layout in
      let small = (per_page_bounds size fits).1 in
      let next = (current + page.num_items) % u64_mod in
      let next_lem : next ≡ current + page.num_items = omega (arith, items, few, at) in
      elim (Bool-cases (ltb rid next)) [
        | inl found ↦
            let here = ltb→lt rid next found in
            let j = (rid - current) % u32_mod in
            let index : j ≡ rid - current = omega (arith, here, next_lem, items, small) in
            let row : pid * per_page size + j ≡ rid = omega (arith, index, at, full, past) in
            rw (got, scan, found, read_slot_fixed size j page fits.0)
              (
                held.layout.slots pid j inside' (omega (arith, index, here, next_lem, items, past))
                      (omega (arith, row, here, next_lem, items, at, full, past))
                    ∙ ap (get_elem? rows) row,
                kept,
              )
        | inr beyond ↦
            let (answer, kept') =
              scan-get_elem? rid n (pid + 1) next g held (omega (arith, pages, kept.pages.count))
                (omega (arith, next_lem, items, at, full)) (ltb→le rid next beyond) in
            rw (got, scan, beyond) (answer, Keeps-trans kept kept')
      ]
