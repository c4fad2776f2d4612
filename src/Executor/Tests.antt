-- ===== src/Executor/Tests.antt =====
-- Runs of the scans and joins, and the theorems at concrete inputs.
use flex_ql_dl.Base.{◌≡◌, refl, [], ◌∷◌, arith}
use flex_ql_dl.Cache.Lru
use flex_ql_dl.Storage.Column.{ColumnFile, ColumnPage}
use flex_ql_dl.Executor.Scan.{merge, parallel_scan, scan_all, nested_loop_join}
use flex_ql_dl.Executor.Scan.Parallel.{parallel_scan-scan_all}

three_threads : merge 5 3 0 3 ≡ 0 ∷ 1 ∷ 2 ∷ 3 ∷ 4 ∷ []
unfolding merge
three_threads = refl

more_threads_than_rows : merge 2 3 0 3 ≡ 0 ∷ 1 ∷ []
unfolding merge
more_threads_than_rows = refl

joined : nested_loop_join (1 ∷ 2 ∷ []) (2 ∷ 3 ∷ 2 ∷ []) ≡ (2, 2) ∷ (2, 2) ∷ []
unfolding nested_loop_join
joined = refl

-- A file of one page with five rows.
abbrev page : ColumnPage
page = record { num_items = 5; item_size = 8; body = λ _. 0 }

abbrev file : ColumnFile
file = Lru.new 2 (record { num_pages = 1; memory = λ _. page; syncs = [] })

parallel_scan-scan_all_example : parallel_scan file 3 ≡ scan_all file
parallel_scan-scan_all_example = parallel_scan-scan_all file 3 (omega arith)
