-- ===== src/Executor/Scan/Parallel.antt =====
-- The parallel scan against the sequential one.
use flex_ql_dl.Base.{
  ℕ, zero, suc, ◌+◌, ◌-◌, ◌*◌, ◌/◌, ◌<◌, ◌≤◌, ◌≡◌, refl, ap, ◌∙◌, true, false, ◌∷◌, ◌++◌, arith,
  ◌==◌,
}
use mathlib.Core.List.{append-nil}
use native.Mathlib.Nat.{mul-div-le}
use flex_ql_dl.Storage.Column.Write.{times_le}
use flex_ql_dl.Storage.Column.{ColumnFile}
use flex_ql_dl.Storage.Reader.{get_total_rows}
use flex_ql_dl.Executor.Scan.{indices, scan_all, part, merge, parallel_scan}

indices-append :
    (m n start next : ℕ)
    → next ≡ start + m
    → indices start m ++ indices next n ≡ indices start (m + n)
unfolding indices
indices-append zero n start next e =
    let same : next ≡ start = omega (arith, e) in
    let none : 0 + n ≡ n = omega arith in rw (same, none) refl
indices-append (suc m) n start next e =
    let ih = indices-append m n (start + 1) next (omega (arith, e)) in
    let more : suc m + n ≡ suc (m + n) = omega arith in rw more (ap (λ l. start ∷ l) ih)

-- The parts from the thread `t` on are what is left from its start on.
merge-indices :
    (n t total threads : ℕ)
    → t + n ≡ threads
    → 0 < n
    → merge total threads t n ≡ indices (t * (total / threads)) (total - t * (total / threads))
unfolding merge part
merge-indices zero t total threads e h = absurd (omega (arith, h))
merge-indices (suc zero) t total threads e h =
    let last : (t == threads - 1) ≡ true = ground (arith, e) in
    rw last (append-nil (indices (t * (total / threads)) (total - t * (total / threads))))
merge-indices (suc (suc n)) t total threads e h =
    let chunk = total / threads in
    let ih = merge-indices (suc n) (t + 1) total threads (omega (arith, e)) (omega arith) in
    let early : (t == threads - 1) ≡ false = ground (arith, e) in
    let step : (t + 1) * chunk ≡ t * chunk + chunk = grind arith in
    let whole : threads * chunk ≤ total = mul-div-le total threads in
    let within = times_le (t + 1) threads chunk (omega (arith, e)) in
    let size : t * chunk + chunk - t * chunk ≡ chunk = omega arith in
    let left : chunk + (total - (t + 1) * chunk) ≡ total - t * chunk =
      omega (arith, step, whole, within) in
    rw (early, size)
      (ap (λ l. indices (t * chunk) chunk ++ l) ih
        ∙ indices-append chunk (total - (t + 1) * chunk) (t * chunk) ((t + 1) * chunk) step
        ∙ ap (indices (t * chunk)) left)

-- With a thread at least, the parallel scan gives what the sequential scan gives.
pub parallel_scan-scan_all :
    (f : ColumnFile) (threads : ℕ) → 0 < threads → parallel_scan f threads ≡ scan_all f
unfolding parallel_scan scan_all
parallel_scan-scan_all f threads h =
    let (total, f') = get_total_rows f in
    let start : 0 * (total / threads) ≡ 0 = omega arith in
    let all : merge total threads 0 threads ≡ indices 0 total =
      merge-indices threads 0 total threads (omega arith) h
      ∙ rw start (ap (indices 0) (omega arith)) in
    ap (λ l. (l, f')) all
