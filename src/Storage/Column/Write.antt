-- ===== src/Storage/Column/Write.antt =====
-- The layout of the rows under the write of one item into the last page.
use flex_ql_dl.Base.{
  ℕ, ◌+◌, ◌-◌, ◌*◌, ◌<◌, ◌≤◌, ◌≡◌, ◌≢◌, sym, ◌∙◌, ap, inl, List, [], ◌∷◌, ◌++◌, some, arith, length,
  length-append, get_elem?, get_elem?-append_left, get_elem?-append_last, read_bytes, write_bytes,
  read_bytes-write_bytes, read_bytes-write_bytes_apart, update,
}
use native.Mathlib.Decide.{ℕ_discrete, dec_lt}
use flex_ql_dl.Storage.Pager.{Pager, page_addr}
use flex_ql_dl.Storage.Column.{ColumnPage}
use flex_ql_dl.Storage.Column.Represents.{
  per_page, page_of, Layout, Fits, page_of_written, page_of_other,
}

pub times_le : (a b per : ℕ) → a ≤ b → a * per ≤ b * per
times_le a b per h = grind arith

-- The write of one item behind those of the last page, and what it makes of the layout.
module _ (size : ℕ) (rows : List (List ℕ)) (item : List ℕ) (p q : Pager ColumnPage) (last : ℕ)
    (x : ColumnPage) (fits : Fits size) (l : Layout size rows p) (e : last + 1 ≡ p.num_pages)
    (room : length rows < p.num_pages * per_page size) (width : length item ≡ size)
    (count : q.num_pages ≡ p.num_pages) (content : q.memory ≡ update p.memory (page_addr last) x)
    (more : x.num_items ≡ (page_of p last).num_items + 1)
    (filled : x.body
      ≡ write_bytes (page_of p last).body ((page_of p last).num_items * size) item) where
  per : ℕ
  per = per_page size

  times : (last + 1) * per_page size ≡ p.num_pages * per_page size
  times = ap (λ k. k * per_page size) e

  -- The items of the last page are the rows behind those of the full pages.
  last_count :
      ((page_of p last).num_items ≡ length rows - last * per_page size)
      × (last * per_page size ≤ length rows)
      × (length rows < last * per_page size + per_page size)
  last_count =
      let items = l.items last (omega (arith, e)) in
      (
        omega (arith, items, times, room, l.tight),
        omega (arith, times, l.tight),
        omega (arith, times, room),
      )

  other_page : (pid : ℕ) → pid < q.num_pages → pid ≢ last → page_of q pid ≡ page_of p pid
  other_page pid h ne =
      page_of_other p q last x content (omega (arith, e, l.mapped)) pid
        (omega (arith, h, count, l.mapped)) ne

  written : page_of q last ≡ x
  written = page_of_written p q last x content (omega (arith, e, l.mapped))

  before : (pid : ℕ) → pid < q.num_pages → pid ≢ last → (pid + 1) * per_page size ≤ length rows
  before pid h ne =
      let under = times_le (pid + 1) last (per_page size) (omega (arith, h, count, e, ne)) in
      omega (arith, under, last_count.1)

  slot_in_last :
      (page_of q last).body
      ≡ write_bytes (page_of p last).body ((page_of p last).num_items * size) item
  slot_in_last = ap (λ (y : ColumnPage). y.body) written ∙ filled

  old_slot :
      (pid j : ℕ)
      → pid < q.num_pages
      → j < per_page size
      → pid * per_page size + j < length rows
      → some (read_bytes (page_of q pid).body (j * size) size)
        ≡ get_elem? rows (pid * per_page size + j)
  old_slot pid j h k old = elim (ℕ_discrete pid last) [
    | yes same ↦
        let n = (page_of p last).num_items in
        let earlier : j < n = omega (arith, last_count.0, old, ap (λ m. m * per_page size) same) in
        let apart =
          read_bytes-write_bytes_apart size item (page_of p last).body (n * size) (j * size)
            (inl (omega (arith, times_le (j + 1) n size (omega (arith, earlier))))) in
        rw (same, slot_in_last, apart) (l.slots last j (omega (arith, e)) k (rw same at old))
    | no ne ↦
        ap (λ (y : ColumnPage). some (read_bytes y.body (j * size) size)) (other_page pid h ne)
        ∙ l.slots pid j (omega (arith, h, count)) k old
  ]

  new_slot :
      some (read_bytes (page_of q last).body ((page_of p last).num_items * size) size) ≡ some item
  new_slot =
      let n = (page_of p last).num_items in
      rw slot_in_last
        (ap some (rw width at (read_bytes-write_bytes item (page_of p last).body (n * size))))

  last_of_end :
      (pid j : ℕ)
      → pid < q.num_pages
      → j < per_page size
      → pid * per_page size + j ≡ length rows
      → pid ≡ last
  last_of_end pid j h k at_end = elim (ℕ_discrete pid last) [
    | yes same ↦ same
    | no ne ↦ absurd (omega (arith, before pid h ne, k, at_end))
  ]

  pub Layout-append : Layout size (rows ++ item ∷ []) q
  Layout-append = record {
    enough = rw (count, length-append) (omega (arith, room));
    tight = rw (count, length-append) (omega (arith, l.tight));
    mapped = rw count l.mapped;
    items = λ pid h. elim (ℕ_discrete pid last) [
      | yes same ↦
          rw (same, length-append)
            (ap (λ (y : ColumnPage). y.num_items) written
              ∙ more
              ∙ omega (arith, last_count.0, last_count.1, last_count.2))
      | no ne ↦ rw length-append (
          ap (λ (y : ColumnPage). y.num_items) (other_page pid h ne)
          ∙ l.items pid (omega (arith, h, count))
          ∙ omega (arith, before pid h ne))
    ];
    slots = λ pid j h k inside. elim (dec_lt (pid * per_page size + j) (length rows)) [
      | yes old ↦ old_slot pid j h k old ∙ sym (get_elem?-append_left rows (item ∷ []) _ old)
      | no past ↦
          let at_end : pid * per_page size + j ≡ length rows =
            omega (arith, inside, past, length-append rows (item ∷ [])) in
          let same = last_of_end pid j h k at_end in
          let index : j ≡ (page_of p last).num_items =
            omega (arith, last_count.0, at_end, ap (λ m. m * per_page size) same) in
          rw (same, index)
            (new_slot
              ∙ sym (get_elem?-append_last rows item _ (omega (arith, last_count.0, last_count.1))))
    ];
  }
