-- ===== src/Storage/Column/Append.antt =====
-- A row that is inserted is added behind the rows of the column.
use flex_ql_dl.Base.{
  ℕ, ◌+◌, ◌-◌, ◌*◌, ◌%◌, ◌<◌, ◌≡◌, refl, ◌∙◌, ap, List, [], ◌∷◌, ◌++◌, some, arith, length,
  length-append, All-append, write_bytes, update, update_self,
}
use mathlib.Core.Path.{fun_ext, ap₂}
use flex_ql_dl.Storage.Pager.{page_addr, max_pages, u32_mod}
use flex_ql_dl.Cache.Manager.Transparent.{mark_dirty-Keeps}
use flex_ql_dl.Cache.Manager.Sharing.{poke-IsValid}
use flex_ql_dl.Storage.Column.{
  ColumnPage, ColumnStore, full_fixed, open_page, write_item, write_at, append, insert_fixed, poke,
}
use flex_ql_dl.Storage.Column.Open.{max_rows, open_page-Ready}
use flex_ql_dl.Storage.Column.Write.{times_le, Layout-append}
use flex_ql_dl.Storage.Column.Represents.{
  per_page, Layout-SamePages, Fits, LastPage, ActiveIs-frame, Represents, per_page_bounds,
}

update_twice {ℓ} :
    {A : Type ℓ} (m : ℕ → A) (a : ℕ) (v w x : A) → w ≡ x → update (update m a v) a w ≡ update m a x
update_twice m a v w x h = fun_ext λ b. ground arith

append-write_item :
    (fill : ℕ → (ℕ → ℕ) → ℕ → ℕ) (c : ColumnStore) (a h : ℕ)
    → c.active_page ≡ some a
    → c.active_header ≡ some h
    → append fill c ≡ write_item fill a h c
unfolding append
append-write_item fill c a h opened header = ap₂ (write_at fill c) opened header

module _ (size : ℕ) (rows : List (List ℕ)) (item : List ℕ) (c : ColumnStore) (fits : Fits size)
    (width : length item ≡ size) where
  abbrev fill : ℕ → (ℕ → ℕ) → ℕ → ℕ
  fill n body = write_bytes body (n * size) item

  -- The write into the last page, which has room.
  write_item-Represents :
      (last : ℕ)
      → Represents size rows c
      → last + 1 ≡ c.file.pager.num_pages
      → length rows < c.file.pager.num_pages * per_page size
      → c.active_page ≡ some (page_addr last)
      → Represents size (rows ++ item ∷ []) (write_item fill (page_addr last) (page_addr last) c)
  unfolding write_item
  write_item-Represents last r e room opened =
      let a = page_addr last in
      let f = c.file in
      let page = f.pager.memory a in
      let filled : ColumnPage = record page { body = fill page.num_items page.body } in
      let x : ColumnPage = record filled { num_items = (filled.num_items + 1) % u32_mod } in
      let g = poke f a filled in
      let header = g.pager.memory a in
      let y : ColumnPage = record header { num_items = (header.num_items + 1) % u32_mod } in
      let h = poke g a y in
      let valid = poke-IsValid g a y (poke-IsValid f a filled r.holds.valid) in
      let kept = mark_dirty-Keeps h c.active_page_idx valid in
      let l = r.holds.layout in
      let few = times_le c.file.pager.num_pages max_pages (per_page size) l.mapped in
      let small = (per_page_bounds size fits).1 in
      let items = l.items last (omega (arith, e)) in
      let same : y ≡ x =
        ap (λ (z : ColumnPage). record z { num_items = (z.num_items + 1) % u32_mod })
          (update_self f.pager.memory a filled) in
      let layout =
        Layout-append size rows item f.pager h.pager last x fits l e room width refl
          (update_twice f.pager.memory a filled y x same) (omega (arith, items, small)) refl in
      record {
        holds = record {
          valid = kept.valid;
          layout = Layout-SamePages size _ h.pager _ kept.pages layout;
        };
        widths = All-append (λ z. length z ≡ size) rows (item ∷ []) r.widths (width, tt);
        total = omega (arith, r.total, room, few, small, length-append rows (item ∷ []));
        active =
            ActiveIs-frame f.pager.num_pages _ c.active_page c _ kept.pages.count refl refl
              r.active;
      }

-- `insert_fixed` of an item of the size adds it behind the rows that the column holds, as long
-- as the file of 1 GB has room for it.
pub insert_fixed-Represents :
    (size : ℕ) (rows : List (List ℕ)) (item : List ℕ) (c : ColumnStore)
    → Fits size
    → length item ≡ size
    → length rows < max_rows size
    → Represents size rows c
    → Represents size (rows ++ item ∷ []) (insert_fixed c item size)
unfolding insert_fixed
insert_fixed-Represents size rows item c fits width small r =
    let d = open_page (full_fixed size) size c in
    let ready = open_page-Ready size rows c fits r small in
    let (some_page, at, header, _) : LastPage d.file.pager.num_pages ready.address d =
      rw ready.opened at ready.represents.active in
    rw
      (
        append-write_item (fill size rows item d fits width) d ready.address ready.address
            ready.opened header,
        at,
      )
      (write_item-Represents size rows item d fits width (d.file.pager.num_pages - 1)
        ready.represents (omega (arith, some_page)) ready.room (ready.opened ∙ ap some at))
