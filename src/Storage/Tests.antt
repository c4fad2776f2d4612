-- ===== src/Storage/Tests.antt =====
-- Runs of the storage modules on concrete files, and the theorems at concrete inputs.

use flex_ql_dl.Base.{
  ℕ, ◌+◌, ◌%◌, ◌≤◌, ◌≡◌, ◌⊎◌, refl, List, [], ◌∷◌, ◌++◌, none, some, arith, get_elem?, read_bytes,
  write_bytes,
}
use flex_ql_dl.Storage.Pager
use flex_ql_dl.Storage.Pager.{Pager, page_addr, page_size, max_file_size}
use flex_ql_dl.Storage.Pager.Bounds.{page_addr_apart}
use flex_ql_dl.Cache.Lru
use flex_ql_dl.Cache.Lru.Preserve.{Keeps}
use flex_ql_dl.Cache.Manager
use flex_ql_dl.Storage.Column
use flex_ql_dl.Storage.Column.{ColumnPage, ColumnStore}
use flex_ql_dl.Storage.Column.Represents.{Represents}
use flex_ql_dl.Storage.Column.Append.{insert_fixed-Represents}
use flex_ql_dl.Storage.Column.Lifecycle.{new-Represents}
use flex_ql_dl.Storage.Reader
use flex_ql_dl.Storage.Reader.Rows.{read_at-get_elem?}
use flex_ql_dl.Storage.History.{
  Call, Answer, insert, read, count, flush, clear, run, run_spec, call, call_spec, run-refines,
}

program : Unit {0}
unfolding Column.new Column.open_page Column.append Column.insert_fixed Column.insert_variable
    Column.flush Column.clear Reader.read_slot Reader.read_at Reader.get_total_rows Manager.get_page
    Manager.mark_dirty Manager.flush Manager.clear Lru.get Lru.put Lru.flush_all Lru.clear Pager.new
    Pager.get_page Pager.allocate_page Pager.clear Pager.flush page_addr read_bytes write_bytes call
    run run_spec Manager.new
program = tt

-- A file that was written before: each page claims three items.
abbrev old_page : ColumnPage
old_page = record { num_items = 3; item_size = 4; body = λ i. i % 256 }

abbrev old_pager : Pager ColumnPage
old_pager = record { num_pages = 0; memory = λ _. old_page; syncs = [] }

abbrev column : ColumnStore
column = Column.new old_pager

abbrev item : ℕ → List ℕ
item n = n ∷ 0 ∷ 0 ∷ 0 ∷ []

abbrev calls : List Call
calls = insert (item 7) ∷ insert (item 8) ∷ read 1 ∷ flush ∷ read 2 ∷ count ∷ clear ∷ read 0 ∷ []

calls_answers :
    (run 4 column calls).0
    ≡ Answer.done
      ∷ Answer.done
      ∷ Answer.row (some (item 8))
      ∷ Answer.done
      ∷ Answer.row none
      ∷ Answer.rows 2
      ∷ Answer.done
      ∷ Answer.row none
      ∷ []
unfolding program
calls_answers = refl

-- Three items of 2000 bytes fill a page and a half.
abbrev wide : List Call
wide = insert [] ∷ insert [] ∷ insert [] ∷ count ∷ []

wide_pages : (run 2000 column wide).1.file.pager.num_pages ≡ 2
unfolding program
wide_pages = refl

column-Represents : Represents 4 [] column
unfolding Pager.new
column-Represents = new-Represents 4 (λ _. old_page) old_pager refl

abbrev one_row : ColumnStore
one_row = Column.insert_fixed column (item 7) 4

one_row-Represents : Represents 4 ([] ++ item 7 ∷ []) one_row
one_row-Represents =
    insert_fixed-Represents 4 [] (item 7) column (omega arith) (omega arith) (omega arith)
      column-Represents

run-refines_example :
    ((run 4 column calls).0 ≡ (run_spec [] calls).0)
    × Represents 4 (run_spec [] calls).1 (run 4 column calls).1
unfolding call_spec
run-refines_example = run-refines 4 (omega arith) calls [] column (omega arith) column-Represents

read_at-get_elem?_example :
    ((Reader.read_at 0 4 one_row.file).0 ≡ get_elem? (item 7 ∷ []) 0)
    × Keeps one_row.file (Reader.read_at 0 4 one_row.file).1
read_at-get_elem?_example =
    read_at-get_elem? 4 (item 7 ∷ []) (omega arith) 0 one_row.file one_row-Represents.holds

insert_fixed-Represents_example :
    Represents 4 (([] ++ item 7 ∷ []) ++ item 8 ∷ []) (Column.insert_fixed one_row (item 8) 4)
insert_fixed-Represents_example =
    insert_fixed-Represents 4 ([] ++ item 7 ∷ []) (item 8) one_row (omega arith) (omega arith)
      (omega arith) one_row-Represents

new-Represents_example : Represents 4 [] (Column.new old_pager)
unfolding Pager.new
new-Represents_example = new-Represents 4 (λ _. old_page) old_pager refl

page_addr_apart_example :
    (page_addr 3 + page_size ≤ max_file_size)
    × ((page_addr 3 + page_size ≤ page_addr 5) ⊎ (page_addr 5 + page_size ≤ page_addr 3))
page_addr_apart_example = page_addr_apart 3 5 (omega arith) (omega arith) (omega arith)
