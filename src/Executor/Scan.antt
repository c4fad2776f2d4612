-- ===== src/Executor/Scan.antt =====
-- The scans and the nested loop join: include/execution/real_scan.h, parallel_scan.h, scan.h and
-- join.h, src/executor/real_scan.cpp, parallel_scan.cpp, scan.cpp and join.cpp. The threads of the
-- parallel scan write to vectors of their own, which are put together in order when all have
-- ended, so the order in which they run does not matter. No thread at all divides by zero.
pub mod Parallel
pub mod Joined
use flex_ql_dl.Base.{
  ℕ, zero, suc, ◌+◌, ◌-◌, ◌*◌, ◌/◌, Bool, List, [], ◌∷◌, ◌++◌, ◌==◌, if◌then◌else◌,
}
use flex_ql_dl.Storage.Column.{ColumnFile}
use flex_ql_dl.Storage.Reader.{get_total_rows}

-- `for (i = start; …; i++) rows.push_back(i)`, `n` times.
unfoldable pub indices : ℕ → ℕ → List ℕ
indices start zero = []
indices start (suc n) = start ∷ indices (start + 1) n

unfoldable pub scan_all : ColumnFile → List ℕ × ColumnFile
unfolding indices
scan_all reader = let (total, f) = get_total_rows reader in (indices 0 total, f)

-- The placeholder scan of a table, whatever it holds.
unfoldable pub full_scan : List ℕ
unfolding indices
full_scan = indices 0 1000000

-- What the thread `t` of `threads` pushes.
unfoldable pub part : ℕ → ℕ → ℕ → List ℕ
unfolding indices
part total threads t =
    let chunk = total / threads in
    let start = t * chunk in
    let end = if t == threads - 1 then total else start + chunk in indices start (end - start)

-- The parts of `n` threads from `t` on, put together.
unfoldable pub merge : ℕ → ℕ → ℕ → ℕ → List ℕ
unfolding part
merge total threads t zero = []
merge total threads t (suc n) = part total threads t ++ merge total threads (t + 1) n

unfoldable pub parallel_scan : ColumnFile → ℕ → List ℕ × ColumnFile
unfolding merge
parallel_scan reader num_threads =
    let (total, f) = get_total_rows reader in (merge total num_threads 0 num_threads, f)

-- The inner loop, for one row of the left side.
unfoldable pub join_row : ℕ → List ℕ → List (ℕ × ℕ)
join_row l [] = []
join_row l (r ∷ right) = let rest = join_row l right in if l == r then (l, r) ∷ rest else rest

unfoldable pub nested_loop_join : List ℕ → List ℕ → List (ℕ × ℕ)
unfolding join_row
nested_loop_join [] right = []
nested_loop_join (l ∷ left) right = join_row l right ++ nested_loop_join left right
