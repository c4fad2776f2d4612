-- ===== src/Storage/History.antt =====
-- A column file against its specification, a list of rows, over every sequence of calls of
-- src/storage/column_store.cpp and src/storage/column_reader.cpp with one item size.
use flex_ql_dl.Base.{ℕ, ◌<◌, ◌≡◌, refl, ap, List, [], ◌∷◌, ◌++◌, Option, length, get_elem?}
use mathlib.Core.Path.{ap₂}
use flex_ql_dl.Cache.Lru.Preserve.{Keeps}
use flex_ql_dl.Storage.Column
use flex_ql_dl.Storage.Column.{ColumnFile, ColumnStore}
use flex_ql_dl.Storage.Column.Represents.{Fits, Represents, ActiveIs-frame, Keeps-Holds}
use flex_ql_dl.Storage.Column.Open.{max_rows}
use flex_ql_dl.Storage.Column.Append.{insert_fixed-Represents}
use flex_ql_dl.Storage.Column.Lifecycle.{clear-Represents, flush-Represents}
use flex_ql_dl.Storage.Reader
use flex_ql_dl.Storage.Reader.Rows.{read_at-get_elem?, get_total_rows-length}

pub data Call : Type 0 where
  insert : List ℕ → Call
  read : ℕ → Call
  count flush clear : Call

pub data Answer : Type 0 where
  done : Answer
  row : Option (List ℕ) → Answer
  rows : ℕ → Answer

-- A call on the column. The reader shares the file of the column.
unfoldable pub call : ℕ → ColumnStore → Call → Answer × ColumnStore
call size c (insert item) = (done, Column.insert_fixed c item size)
call size c (read rid) =
    let (out, f) = Reader.read_at rid size c.file in (row out, record c { file = f })
call size c count =
    let (total, f) = Reader.get_total_rows c.file in (rows total, record c { file = f })
call size c flush = (done, Column.flush c)
call size c clear = (done, Column.clear c)

-- The same call on a list of rows.
unfoldable pub call_spec : List (List ℕ) → Call → Answer × List (List ℕ)
call_spec l (insert item) = (done, l ++ item ∷ [])
call_spec l (read rid) = (row (get_elem? l rid), l)
call_spec l count = (rows (length l), l)
call_spec l flush = (done, l)
call_spec l clear = (done, [])

unfoldable pub run : ℕ → ColumnStore → List Call → List Answer × ColumnStore
run size c [] = ([], c)
run size c (k ∷ ks) =
    let (a, c') = call size c k in let (as', c'') = run size c' ks in (a ∷ as', c'')

unfoldable pub run_spec : List (List ℕ) → List Call → List Answer × List (List ℕ)
run_spec l [] = ([], l)
run_spec l (k ∷ ks) =
    let (a, l') = call_spec l k in let (as', l'') = run_spec l' ks in (a ∷ as', l'')

-- An inserted item has the size of the column, and finds room in the file of 1 GB.
abbrev pub Allowed : ℕ → List (List ℕ) → Call → Type 0
Allowed size l (insert item) = (length item ≡ size) × (length l < max_rows size)
Allowed size l _ = Unit

abbrev pub AllAllowed : ℕ → List (List ℕ) → List Call → Type 0
unfolding call_spec
AllAllowed size l [] = Unit
AllAllowed size l (k ∷ ks) = Allowed size l k × AllAllowed size (call_spec l k).1 ks

pub Keeps-Represents :
    (size : ℕ) (l : List (List ℕ)) (c : ColumnStore) (f : ColumnFile)
    → Represents size l c
    → Keeps c.file f
    → Represents size l (record c { file = f })
Keeps-Represents size l c f r kept = record {
  holds = Keeps-Holds size l kept r.holds;
  widths = r.widths;
  total = r.total;
  active =
      ActiveIs-frame c.file.pager.num_pages f.pager.num_pages c.active_page c
        (record c { file = f }) kept.pages.count refl refl r.active;
}

module _ (size : ℕ) (fits : Fits size) where
  call-refines :
      (l : List (List ℕ)) (c : ColumnStore) (k : Call)
      → Allowed size l k
      → Represents size l c
      → ((call size c k).0 ≡ (call_spec l k).0)
        × Represents size (call_spec l k).1 (call size c k).1
  unfolding call call_spec
  call-refines l c (insert item) h r = (refl, insert_fixed-Represents size l item c fits h.0 h.1 r)
  call-refines l c (read rid) h r =
      let (answer, kept) = read_at-get_elem? size l fits rid c.file r.holds in
      (ap row answer, Keeps-Represents size l c _ r kept)
  call-refines l c count h r =
      let (answer, kept) = get_total_rows-length size l fits c.file r.holds in
      (ap rows answer, Keeps-Represents size l c _ r kept)
  call-refines l c flush h r = (refl, flush-Represents size l c r)
  call-refines l c clear h r = (refl, clear-Represents size l c r)

  -- A column gives the answers of the list of its rows, in every sequence of inserts, reads,
  -- counts, flushes and clears whose items have the size of the column and find room in the
  -- file; it holds the list at the end.
  pub run-refines :
      (ks : List Call) (l : List (List ℕ)) (c : ColumnStore)
      → AllAllowed size l ks
      → Represents size l c
      → ((run size c ks).0 ≡ (run_spec l ks).0)
        × Represents size (run_spec l ks).1 (run size c ks).1
  unfolding run run_spec call_spec
  run-refines [] l c h r = (refl, r)
  run-refines (k ∷ ks) l c h r =
      let (answer, r') = call-refines l c k h.0 r in
      let (answers, r'') = run-refines ks (call_spec l k).1 (call size c k).1 h.1 r' in
      (ap₂ ◌∷◌ answer answers, r'')
