-- ===== src/Executor/HashJoin/Build.antt =====
-- The keys that the hash join reads of tables that hold rows, and its build phase.
use mathlib.Core.Path.{subst}
use mathlib.Core.List.{append_assoc, append-nil}
use flex_ql_dl.Base.{
  ℕ, zero, suc, ◌+◌, ◌≡◌, refl, sym, ap, ◌∙◌, inl, inr, List, [], ◌∷◌, ◌++◌, Option, some, arith,
  length, get_elem?, drop, Bool-cases, ==_iff, ◌==◌, if◌then◌else◌,
}
use flex_ql_dl.Storage.Row.{ColumnDef, Value}
use flex_ql_dl.Executor.HashJoin.Reference.{KeyColumn, key_of, read_key-key_of}
use flex_ql_dl.Executor.Rows.{Heap}
use flex_ql_dl.Executor.Rows.Held.{HeapHolds, update-HeapHolds, drop-next, drop_past, All-get_elem?}
use flex_ql_dl.Executor.HashJoin.{table_key, HashTable, bucket, add_rid, build}

-- The numbers of the rows with a key, from the row `rid` on.
abbrev pub rids_of : ℕ → ℕ → ℕ → List (List Value) → List ℕ
rids_of val i rid [] = []
rids_of val i rid (row ∷ rows) =
    let rest = rids_of val i (rid + 1) rows in if key_of i row == val then rid ∷ rest else rest

add_rid-bucket :
    (val k rid : ℕ) (hash_table : HashTable)
    → bucket (add_rid (some k) rid hash_table val)
      ≡ (if k == val then bucket (hash_table val) ++ rid ∷ [] else bucket (hash_table val))
add_rid-bucket val k rid hash_table = elim (Bool-cases (k == val)) [
  | inl same ↦
      let e : k ≡ val = (==_iff k val).0 same in
      rw same (ap (λ j. bucket (hash_table j) ++ rid ∷ []) e)
  | inr other ↦ rw other refl
]

bucket-next :
    (val k i rid : ℕ) (hash_table : HashTable) (row : List Value) (rows : List (List Value))
    → key_of i row ≡ k
    → bucket (add_rid (some k) rid hash_table val) ++ rids_of val i (rid + 1) rows
      ≡ bucket (hash_table val) ++ rids_of val i rid (row ∷ rows)
bucket-next val k i rid hash_table row rows e = elim (Bool-cases (k == val)) [
  | inl same ↦
      rw (add_rid-bucket val k rid hash_table, e, same) (append_assoc (bucket (hash_table val)) _ _)
  | inr other ↦ rw (add_rid-bucket val k rid hash_table, e, other) refl
]

-- The heap, as for the scan.
module _ (junk : ℕ) (Live : ℕ → Type 0) (schemas : ℕ → List ColumnDef)
    (tables : ℕ → List (List Value)) where
  abbrev pub Good : Heap → Type 0
  Good heap = HeapHolds junk Live schemas tables heap

  pub table_key-key_of :
      (table rid i : ℕ) (heap : Heap) (row : List Value)
      → Good heap
      → Live table
      → KeyColumn (schemas table) i
      → get_elem? (tables table) rid ≡ some row
      → ((table_key table rid i heap).0 ≡ some (key_of i row)) × Good (table_key table rid i heap).1
  unfolding table_key
  table_key-key_of table rid i heap row h live (d, at, number) here =
      let s = h table live in
      let typed = All-get_elem? junk (schemas table) (tables table) rid row s.typed here in
      let (key, left) =
        read_key-key_of junk (schemas table) (tables table) (heap table).columns rid i d row s.typed
          typed at number here s.holds in
      (
        key,
        update-HeapHolds junk Live schemas tables heap table _ h
            (record { same_schema = s.same_schema; typed = s.typed; holds = left }),
      )

  -- The build phase adds the numbers of the rows with a key to its list.
  pub build-rids_of :
      (n table i rid : ℕ) (hash_table : HashTable) (heap : Heap)
      → Good heap
      → Live table
      → KeyColumn (schemas table) i
      → rid + n ≡ length (tables table)
      → ((val : ℕ)
          → bucket ((build table i rid n hash_table heap).0 val)
            ≡ bucket (hash_table val) ++ rids_of val i rid (drop rid (tables table)))
        × Good (build table i rid n hash_table heap).1
  unfolding build
  build-rids_of zero table i rid hash_table heap h live key all =
      let none_left = drop_past (tables table) rid (omega (arith, all)) in
      (λ val. rw none_left (sym (append-nil _)), h)
  build-rids_of (suc n) table i rid hash_table heap h live key all =
      let (row, at, next) = drop-next (tables table) rid (omega (arith, all)) in
      let (read, kept) = table_key-key_of table rid i heap row h live key at in
      let heap' = (table_key table rid i heap).1 in
      let (rest, left) =
        build-rids_of n table i (rid + 1) (add_rid (some (key_of i row)) rid hash_table) heap' kept
          live key (omega (arith, all)) in
      let added : Option ℕ → HashTable × Heap =
        λ k. build table i (rid + 1) n (add_rid k rid hash_table) heap' in
      rw next (
        subst
          (λ k.
            ((val : ℕ)
              → bucket ((added k).0 val)
                ≡ bucket (hash_table val)
                  ++ rids_of val i rid (row ∷ drop (rid + 1) (tables table)))
            × Good (added k).1)
          (sym read)
          (
            λ val.
                rest val
                ∙ bucket-next val (key_of i row) i rid hash_table row
                    (drop (rid + 1) (tables table)) refl,
            left,
          ))
