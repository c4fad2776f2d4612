-- ===== src/Executor/Rows/Held.antt =====
-- What `materialize_row` reads of a table that holds rows.
use mathlib.Core.Option
use flex_ql_dl.Base.{
  ℕ, zero, suc, ◌+◌, ◌<◌, ◌≤◌, ◌≡◌, refl, sym, ap, ◌∙◌, List, [], ◌∷◌, map, some, arith, length,
  get_elem?, drop, update, Bool-cases, ==_iff, ◌==◌, inl, inr,
}
use mathlib.Core.Path.{ap₂, subst}
use mathlib.Core.Option.{some_inj}
use flex_ql_dl.Storage.Row.{ColumnDef, Value, stored_bytes, read_size, read_value}
use flex_ql_dl.Storage.Row.Cells.{read_value-stored_bytes}
use flex_ql_dl.Storage.Column.{ColumnStore}
use flex_ql_dl.Storage.History.{Keeps-Represents}
use flex_ql_dl.Storage.Reader.{read_at}
use flex_ql_dl.Storage.Reader.Rows.{read_at-get_elem?}
use flex_ql_dl.Storage.Table.Holds.{
  firsts, rests, IsRow, Holds, AreRows, read_size-Fits, firsts-AreRows, get_elem?-firsts, Stored,
}
use flex_ql_dl.Storage.Table.{Table}
use flex_ql_dl.Executor.Rows.{Heap, read_row, materialize_row, materialize_from}

pub get_elem?-map :
    (l : List Value) (i : ℕ) (v : Value)
    → get_elem? l i ≡ some v
    → get_elem? (map stored_bytes l) i ≡ some (stored_bytes v)
get_elem?-map [] i v h = cc
get_elem?-map (w ∷ l) zero v h = ap (Option.map stored_bytes) h
get_elem?-map (w ∷ l) (suc i) v h = get_elem?-map l i v h

-- A row that the table holds is read back, and the table still holds its rows.
pub read_row-get_elem? :
    (junk : ℕ) (schema : List ColumnDef) (rows : List (List Value)) (columns : List ColumnStore)
    (rid : ℕ) (row : List Value)
    → AreRows junk schema rows
    → IsRow junk schema row
    → get_elem? rows rid ≡ some row
    → Holds schema rows columns
    → ((read_row junk rid schema columns).0 ≡ row)
      × Holds schema rows (read_row junk rid schema columns).1
unfolding read_row
read_row-get_elem? junk [] rows [] rid [] all ok at h = (refl, tt)
read_row-get_elem? junk [] rows [] rid (v ∷ row) all ok at h = absurd ok
read_row-get_elem? junk [] rows (c ∷ columns) rid row all ok at h = absurd h
read_row-get_elem? junk (d ∷ schema) rows [] rid row all ok at h = absurd h
read_row-get_elem? junk (d ∷ schema) rows (c ∷ columns) rid [] all ok at h = absurd ok
read_row-get_elem? junk (d ∷ schema) rows (c ∷ columns) rid (v ∷ row) all ok at h =
    let size = read_size d.type in
    let held = map stored_bytes (firsts rows) in
    let (first, rest, cell) = get_elem?-firsts junk d schema rows rid v row all at in
    let (_, _, others) = firsts-AreRows junk d schema rows all in
    let (answer, kept) = read_at-get_elem? size held (read_size-Fits d.type) rid c.file h.0.holds in
    let (values, left) =
      read_row-get_elem? junk schema (rests rows) columns rid row others ok.1 rest h.1 in
    let out : (read_at rid size c.file).0 ≡ some (stored_bytes v) =
      answer ∙ get_elem?-map (firsts rows) rid v first in
    (
      ap₂ ◌∷◌ (ap (read_value junk d.type) out ∙ read_value-stored_bytes junk d.type v cell) values,
      (Keeps-Represents size held c _ h.0 kept, left),
    )

pub All-get_elem? :
    (junk : ℕ) (schema : List ColumnDef) (rows : List (List Value)) (rid : ℕ) (row : List Value)
    → AreRows junk schema rows
    → get_elem? rows rid ≡ some row
    → IsRow junk schema row
All-get_elem? junk schema [] rid row h at = cc
All-get_elem? junk schema (r ∷ rows) zero row h at = subst (IsRow junk schema) (some_inj.0 at) h.0
All-get_elem? junk schema (r ∷ rows) (suc rid) row h at =
    All-get_elem? junk schema rows rid row h.1 at

drop-suc {ℓ} :
    {A : Type ℓ} (l : List A) (i : ℕ)
    → i < length l
    → (x : A) × (get_elem? l i ≡ some x) × (drop i l ≡ x ∷ drop (suc i) l)
drop-suc [] i h = absurd (omega (arith, h))
drop-suc (x ∷ l) zero h = (x, refl, refl)
drop-suc (x ∷ l) (suc i) h = drop-suc l i (omega (arith, h))

-- The rows from one on.
pub drop-next {ℓ} :
    {A : Type ℓ} (l : List A) (i : ℕ)
    → i < length l
    → (x : A) × (get_elem? l i ≡ some x) × (drop i l ≡ x ∷ drop (i + 1) l)
drop-next l i h =
    let (x, at, next) = drop-suc l i h in
    let step : suc i ≡ i + 1 = omega arith in (x, at, next ∙ ap (λ j. x ∷ drop j l) step)

pub drop_past {ℓ} : {A : Type ℓ} (l : List A) (i : ℕ) → length l ≤ i → drop i l ≡ []
drop_past [] zero h = refl
drop_past [] (suc i) h = refl
drop_past (x ∷ l) zero h = absurd (omega (arith, h))
drop_past (x ∷ l) (suc i) h = drop_past l i (omega (arith, h))

-- The tables of a heap at some addresses hold rows.
module _ (junk : ℕ) (Live : ℕ → Type 0) (schemas : ℕ → List ColumnDef)
    (tables : ℕ → List (List Value)) where
  abbrev pub HeapHolds : Heap → Type 0
  HeapHolds heap = (a : ℕ) → Live a → Stored junk (schemas a) (tables a) (heap a)

  -- A table of the heap may be replaced by one that holds the same rows.
  pub update-HeapHolds :
      (heap : Heap) (a : ℕ) (t : Table)
      → HeapHolds heap
      → Stored junk (schemas a) (tables a) t
      → HeapHolds (update heap a t)
  update-HeapHolds heap a t h s b live = elim (Bool-cases (a == b)) [
    | inl same ↦ rw same (subst (λ c. Stored junk (schemas c) (tables c) t) ((==_iff a b).0 same) s)
    | inr other ↦ rw other (h b live)
  ]

  pub materialize_row-get_elem? :
      (table rid : ℕ) (heap : Heap) (row : List Value)
      → HeapHolds heap
      → Live table
      → get_elem? (tables table) rid ≡ some row
      → ((materialize_row junk table rid heap).0 ≡ row)
        × HeapHolds (materialize_row junk table rid heap).1
  unfolding materialize_row
  materialize_row-get_elem? table rid heap row h live at =
      let s = h table live in
      let t = heap table in
      let typed = All-get_elem? junk (schemas table) (tables table) rid row s.typed at in
      let (answer, left) =
        read_row-get_elem? junk (schemas table) (tables table) t.columns rid row s.typed typed at
          s.holds in
      (
        ap (λ d. (read_row junk rid d t.columns).0) s.same_schema ∙ answer,
        update-HeapHolds heap table _ h (record {
          same_schema = s.same_schema;
          typed = s.typed;
          holds =
              subst (λ d. Holds (schemas table) (tables table) (read_row junk rid d t.columns).1)
                (sym s.same_schema) left;
        }),
      )

  -- The full scan of `exec_select` reads the rows of the table, in order.
  pub materialize_from-drop :
      (n table rid : ℕ) (heap : Heap)
      → HeapHolds heap
      → Live table
      → rid + n ≡ length (tables table)
      → ((materialize_from junk table rid n heap).0 ≡ drop rid (tables table))
        × HeapHolds (materialize_from junk table rid n heap).1
  unfolding materialize_from
  materialize_from-drop zero table rid heap h live all =
      (sym (drop_past (tables table) rid (omega (arith, all))), h)
  materialize_from-drop (suc n) table rid heap h live all =
      let (row, at, next) = drop-next (tables table) rid (omega (arith, all)) in
      let (first, kept) = materialize_row-get_elem? table rid heap row h live at in
      let (others, left) =
        materialize_from-drop n table (rid + 1) (materialize_row junk table rid heap).1 kept live
          (omega (arith, all)) in
      (ap₂ ◌∷◌ first others ∙ sym next, left)
