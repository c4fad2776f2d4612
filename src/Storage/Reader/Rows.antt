-- ===== src/Storage/Reader/Rows.antt =====
-- What the reader answers on a column that holds a list of rows.
use flex_ql_dl.Base.{
  ℕ, zero, suc, ◌+◌, ◌-◌, ◌*◌, ◌/◌, ◌%◌, ◌<◌, ◌≤◌, ◌≡◌, refl, sym, ◌∙◌, ap, inl, inr, List, some,
  arith, length, get_elem?, get_elem?_past, ltb, ◌==◌, Bool-cases, ltb→lt, lt→ltb, le→leb,
}
use Prim.Native.Nat.{min}
use native.Mathlib.Nat.{div-mul-le_self, mod-le}
use flex_ql_dl.Storage.Pager.{page_addr, u32_mod, u64_mod}
use flex_ql_dl.Cache.Lru.Invariant
use flex_ql_dl.Cache.Lru.Invariant.{SamePages-refl}
use flex_ql_dl.Cache.Lru.Preserve.{Keeps}
use flex_ql_dl.Cache.Manager
use flex_ql_dl.Cache.Manager.Transparent.{Keeps-trans}
use flex_ql_dl.Storage.Column.{ColumnFile, sum_items}
use flex_ql_dl.Storage.Column.Write.{times_le}
use flex_ql_dl.Storage.Column.Represents.{
  per_page, page_of, Fits, Holds, per_page_bounds, page_read, Keeps-Holds,
}
use flex_ql_dl.Storage.Reader.{slot_of, read_guessed, read_slots, read_at, get_total_rows}
use flex_ql_dl.Storage.Reader.Scan.{read_slot_fixed, full_before, few_rows, scan-get_elem?}

Keeps-refl : (f : ColumnFile) → Invariant.IsValid f → Keeps f f
Keeps-refl f v = record { valid = v; pages = SamePages-refl f.pager; cap = refl }

slot_of_fixed : (size : ℕ) → 0 < size → slot_of size ≡ size
slot_of_fixed size h = rw (lt→ltb 0 size h)

-- The page that the reader guesses for a row begins no later than the row.
guess_le : (rid per : ℕ) → ((rid / per) % u32_mod) * per ≤ rid
guess_le rid per =
    let under = times_le ((rid / per) % u32_mod) (rid / per) per (mod-le (rid / per) u32_mod) in
    omega (arith, under, div-mul-le_self rid per)

module _ (size : ℕ) (rows : List (List ℕ)) (fits : Fits size) where
  -- On any page that starts no later than the row the answer is the same.
  read_guessed-get_elem? :
      (np rid p : ℕ) (f : ColumnFile)
      → np ≡ f.pager.num_pages
      → Holds size rows f
      → p < np
      → p * per_page size ≤ rid
      → ((read_guessed np p rid size size (some (page_addr p)) f).0 ≡ get_elem? rows rid)
        × Keeps f (read_guessed np p rid size size (some (page_addr p)) f).1
  unfolding read_guessed
  read_guessed-get_elem? np rid p f pages h below begins =
      let inside : p < f.pager.num_pages = omega (arith, below, pages) in
      let l = h.layout in
      let items = l.items p inside in
      let full = full_before size rows fits f.pager p l inside in
      let few = few_rows size rows fits f.pager l in
      let small = (per_page_bounds size fits).1 in
      let page = page_of f.pager p in
      let start = (p * per_page size) % u64_mod in
      let start_lem : start ≡ p * per_page size = omega (arith, full, few) in
      let stop = (start + page.num_items) % u64_mod in
      let stop_lem : stop ≡ p * per_page size + page.num_items =
        omega (arith, start_lem, items, full, few) in
      let after = le→leb start rid (omega (arith, start_lem, begins)) in
      elim (Bool-cases (ltb rid stop)) [
        | inl found ↦
            let here = ltb→lt rid stop found in
            let j = (rid - start) % u32_mod in
            let index : j ≡ rid - p * per_page size =
              omega (arith, here, start_lem, stop_lem, items, small, begins) in
            let row : p * per_page size + j ≡ rid = omega (arith, index, begins) in
            rw (after, found, read_slot_fixed size j page fits.0)
              (
                l.slots p j inside (omega (arith, index, here, stop_lem, items, begins))
                      (omega (arith, row, here, stop_lem, items, full))
                    ∙ ap (get_elem? rows) row,
                Keeps-refl f h.valid,
              )
        | inr beyond ↦
            rw (after, beyond)
              (scan-get_elem? size rows fits rid np 0 0 f h (omega (arith, pages)) (omega arith)
                (omega arith))
      ]

  -- `read_at` answers with the row of the index, and with `false` past the last row, by the page
  -- that it guesses or by the scan. It keeps the pages and the invariant of the cache.
  pub read_at-get_elem? :
      (rid : ℕ) (f : ColumnFile)
      → Holds size rows f
      → ((read_at rid size f).0 ≡ get_elem? rows rid) × Keeps f (read_at rid size f).1
  unfolding read_at read_slots
  read_at-get_elem? rid f h = rw (slot_of_fixed size fits.0) (elim (Bool-cases (np == 0)) [
    | inl empty ↦
        let n0 : np ≡ 0 = ground (arith, empty) in
        rw empty (
          sym (get_elem?_past rows rid (omega (arith, rw n0 at h.layout.enough))),
          Keeps-refl f h.valid,
        )
    | inr some_page ↦ elim (Bool-cases (ltb p np)) [
      | inl inside ↦
          let there = ltb→lt p np inside in
          let (got, kept) = page_read f p h.valid there in
          let g = (Manager.get_page f p).1 in
          let (answer, kept') =
            read_guessed-get_elem? np rid p g (sym kept.pages.count) (Keeps-Holds size rows kept h)
              there (guess_le rid (per_page size)) in
          rw (some_page, inside, got) (answer, Keeps-trans kept kept')
      | inr outside ↦
          rw (some_page, outside)
            (scan-get_elem? size rows fits rid np 0 0 f h (omega arith) (omega arith) (omega arith))
    ]
  ])
    where
      np : ℕ
      np = f.pager.num_pages

      p : ℕ
      p = (rid / per_page size) % u32_mod

  -- The loop of `get_total_rows`, from any page on.
  sum_items-length :
      (n pid total : ℕ) (f : ColumnFile)
      → Holds size rows f
      → pid + n ≡ f.pager.num_pages
      → total ≡ min (length rows) (pid * per_page size)
      → ((sum_items n pid f total).0 ≡ length rows) × Keeps f (sum_items n pid f total).1
  unfolding sum_items
  sum_items-length zero pid total f h pages at =
      let all : pid * per_page size ≡ f.pager.num_pages * per_page size =
        ap (λ k. k * per_page size) (omega (arith, pages)) in
      (omega (arith, at, all, h.layout.enough), Keeps-refl f h.valid)
  sum_items-length (suc n) pid total f h pages at =
      let (got, kept) = page_read f pid h.valid (omega (arith, pages)) in
      let g = (Manager.get_page f pid).1 in
      let held = Keeps-Holds size rows kept h in
      let inside : pid < g.pager.num_pages = omega (arith, pages, kept.pages.count) in
      let items = held.layout.items pid inside in
      let full = full_before size rows fits g.pager pid held.layout inside in
      let few = few_rows size rows fits g.pager held.layout in
      let next = (total + (page_of g.pager pid).num_items) % u64_mod in
      let (answer, kept') =
        sum_items-length n (pid + 1) next g held (omega (arith, pages, kept.pages.count))
          (omega (arith, items, few, at, full)) in
      rw (got, sum_items) (answer, Keeps-trans kept kept')

  -- `get_total_rows` counts the rows by the headers of the pages.
  pub get_total_rows-length :
      (f : ColumnFile)
      → Holds size rows f
      → ((get_total_rows f).0 ≡ length rows) × Keeps f (get_total_rows f).1
  unfolding get_total_rows
  get_total_rows-length f h = elim (Bool-cases (f.pager.num_pages == 0)) [
    | inl empty ↦
        let n0 : f.pager.num_pages ≡ 0 = ground (arith, empty) in
        rw empty (omega (arith, rw n0 at h.layout.enough), Keeps-refl f h.valid)
    | inr some_page ↦
        rw some_page (sum_items-length f.pager.num_pages 0 0 f h (omega arith) (omega arith))
  ]
