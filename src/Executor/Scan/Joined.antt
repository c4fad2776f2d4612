-- ===== src/Executor/Scan/Joined.antt =====
-- The pairs of the nested loop join.
use flex_ql_dl.Base.{
  ℕ, suc, ◌+◌, ◌*◌, ◌≡◌, refl, sym, inl, inr, List, [], ◌∷◌, ◌++◌, arith, ◌==◌, if◌then◌else◌,
  Bool-cases, count,
}
use flex_ql_dl.Executor.Scan.{join_row, nested_loop_join}

-- How often a pair is in a list.
unfoldable pub count_pair : ℕ → ℕ → List (ℕ × ℕ) → ℕ
count_pair x y [] = 0
count_pair x y ((a, b) ∷ l) =
    let rest = count_pair x y l in if a == x then (if b == y then suc rest else rest) else rest

count_pair-append :
    (x y : ℕ) (l m : List (ℕ × ℕ)) → count_pair x y (l ++ m) ≡ count_pair x y l + count_pair x y m
unfolding count_pair
count_pair-append x y [] m = omega arith
count_pair-append x y ((a, b) ∷ l) m = let ih = count_pair-append x y l m in ground (arith, ih)

count_pair-join_row :
    (x y a : ℕ) (right : List ℕ)
    → count_pair x y (join_row a right)
      ≡ (if a == x then (if x == y then count x right else 0) else 0)
unfolding count_pair join_row
count_pair-join_row x y a [] = ground arith
count_pair-join_row x y a (b ∷ right) =
    let ih = count_pair-join_row x y a right in ground (arith, ih)

-- A pair of a number with itself is in the join as often as the number is in the left side for
-- each time that it is in the right side; other pairs are not.
pub count_pair-nested_loop_join :
    (x y : ℕ) (left right : List ℕ)
    → count_pair x y (nested_loop_join left right)
      ≡ (if x == y then count x left * count x right else 0)
unfolding nested_loop_join count_pair
count_pair-nested_loop_join x y [] right =
    let none : 0 * count x right ≡ 0 = omega arith in ground (arith, none)
count_pair-nested_loop_join x y (a ∷ left) right =
    let ih = count_pair-nested_loop_join x y left right in
    let head = count_pair-append x y (join_row a right) (nested_loop_join left right) in
    let row = count_pair-join_row x y a right in
    let more : suc (count x left) * count x right ≡ count x right + count x left * count x right =
      grind arith in
    rw (head, row, ih)
      (elim (Bool-cases (x == y)) [
        | inl same ↦ elim (Bool-cases (a == x)) [
          | inl e ↦ rw (same, e) (sym more)
          | inr e ↦ rw (same, e) (omega arith)
        ]
        | inr other ↦ elim (Bool-cases (a == x)) [
          | inl e ↦ rw (other, e) refl
          | inr e ↦ rw (other, e) refl
        ]
      ])
