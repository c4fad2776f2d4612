-- ===== src/Executor/Select/Ids.antt =====
-- The rows with an ID, as `find_id` and as the filter of a SELECT have them.
use mathlib.Core.Path.{subst, ap₂}
use mathlib.Core.Option
use mathlib.Core.Option.{some_inj, some-ne-none}
use flex_ql_dl.Base.{
  ℕ, suc, ◌+◌, ◌≤◌, ◌≡◌, refl, sym, ap, ◌∙◌, inl, inr, Bool, true, false, ◌&&◌, List, [], ◌∷◌,
  Option, none, some, length, get_elem?, same_text, ◌==◌, if◌then◌else◌, Bool-cases, Option-cases,
  arith, stoll, All,
}
use flex_ql_dl.Storage.Row.{ColumnDef, Value, decimal}
use flex_ql_dl.Storage.Row.Cells.{IsCell}
use flex_ql_dl.Storage.Table.{id_text}
use flex_ql_dl.Storage.Table.Holds.{IsRow, AreRows}
use flex_ql_dl.Parser.Ast.{SelectStmt, WhereClause}
use flex_ql_dl.Executor.Rows.Indexed.{has_id, find_id}
use flex_ql_dl.Executor.HashJoin.{find_column}
use flex_ql_dl.Executor.Filter.{column_index}
use flex_ql_dl.Executor.Select.{lookup_key}
use flex_ql_dl.Executor.Select.Query.{keep, satisfies_all, holds_of, AllTestable, Testable-intro}

map_suc-none : (o : Option ℕ) → Option.map suc o ≡ none → o ≡ none
map_suc-none none h = refl
map_suc-none (some n) h = cc

pub keep-none :
    (key : ℕ) (rows : List (List Value)) → find_id key rows ≡ none → keep (has_id key) rows ≡ []
keep-none key [] h = refl
keep-none key (row ∷ rows) h = elim (Bool-cases (has_id key row)) [
  | inl here ↦ absurd (some-ne-none 0 (rw here at h))
  | inr other ↦ rw other (keep-none key rows (map_suc-none (find_id key rows) (rw other at h)))
]

empty : (l : List (List Value)) → suc (length l) ≤ 1 → l ≡ []
empty [] h = refl
empty (x ∷ l) h = absurd (omega (arith, h))

-- Of rows of which at most one has an ID, that one is found.
pub keep_found :
    (key rid : ℕ) (rows : List (List Value))
    → length (keep (has_id key) rows) ≤ 1
    → find_id key rows ≡ some rid
    → (row : List Value) × (get_elem? rows rid ≡ some row) × (keep (has_id key) rows ≡ row ∷ [])
keep_found key rid [] one h = absurd (some-ne-none rid (sym h))
keep_found key rid (row ∷ rows) one h = elim (Bool-cases (has_id key row)) [
  | inl here ↦
      let first : 0 ≡ rid = some_inj.0 (rw here at h) in
      let alone : keep (has_id key) rows ≡ [] = empty (keep (has_id key) rows) (rw here at one) in
      (
        row,
        subst (λ r. get_elem? (row ∷ rows) r ≡ some row) first refl,
        rw here (ap (λ l. row ∷ l) alone),
      )
  | inr other ↦ elim (Option-cases (find_id key rows)) [
    | inl absent ↦ absurd (some-ne-none rid (sym (rw (other, absent) at h)))
    | inr (j, found) ↦
        let next : suc j ≡ rid = some_inj.0 (rw (other, found) at h) in
        let (x, there, kept) = keep_found key j rows (rw other at one) found in
        (x, subst (λ r. get_elem? (row ∷ rows) r ≡ some x) next there, rw other kept)
  ]
]

and_true : (b : Bool) → b && true ≡ b
and_true true = refl
and_true false = refl

module _ (d : ColumnDef) (schema : List ColumnDef) (w : WhereClause) (key junk : ℕ)
    (named : same_text d.name id_text ≡ true) (number : d.type ≡ decimal)
    (column : w.column_name ≡ id_text) (equal : w.op ≡ b'=' ∷ []) where
  first_column : find_column id_text (d ∷ schema) ≡ some 0
  unfolding find_column
  first_column = ap (λ b. if b then some 0 else Option.map suc (find_column id_text schema)) named

  id_column : column_index (d ∷ schema) [] w.column_name ≡ some 0
  unfolding column_index
  id_column =
      ap (column_index (d ∷ schema) []) column
      ∙ ap
          (λ o. elim o [
            | some i ↦ some i
            | none ↦ Option.map (λ i. length (d ∷ schema) + i) (find_column id_text [])
          ])
          first_column

  cell_type : (v : Value) → IsCell junk d.type v → v.type ≡ decimal
  cell_type v h = (subst (λ t. IsCell junk t v) number h).0

  holds_of-id : (v : Value) → v.type ≡ decimal → holds_of w key v ≡ (v.bits == key)
  unfolding same_text
  holds_of-id v typed = rw (equal, typed) refl

  satisfies-has_id :
      (row : List Value)
      → IsRow junk (d ∷ schema) row
      → satisfies_all (d ∷ schema) [] ((w, key) ∷ []) row ≡ has_id key row
  satisfies-has_id [] h = absurd h
  satisfies-has_id (v ∷ row) h =
      ap
        (λ o.
          elim o [
            | none ↦ true
            | some i ↦ elim (get_elem? (v ∷ row) i) [ none ↦ true | some u ↦ holds_of w key u ]
          ]
          && true)
        id_column
      ∙ and_true (holds_of w key v)
      ∙ holds_of-id v (cell_type v h.0)

  pub keep_satisfies :
      (rows : List (List Value))
      → AreRows junk (d ∷ schema) rows
      → keep (satisfies_all (d ∷ schema) [] ((w, key) ∷ [])) rows ≡ keep (has_id key) rows
  keep_satisfies [] h = refl
  keep_satisfies (row ∷ rows) h =
      let here = satisfies-has_id row h.0 in
      let rest = keep_satisfies rows h.1 in ap₂ (λ b l. if b then row ∷ l else l) here rest

  -- The clause can be tested on the rows.
  pub testable :
      (rows : List (List Value))
      → AreRows junk (d ∷ schema) rows
      → stoll w.value_str ≡ some key
      → All (AllTestable (d ∷ schema) [] ((w, key) ∷ [])) rows
  testable [] h read = tt
  testable ([] ∷ rows) h read = absurd h.0
  testable ((v ∷ row) ∷ rows) h read = (
    (Testable-intro (d ∷ schema) [] (v ∷ row) w key 0 v id_column refl (inl read), tt),
    testable rows h.1 read,
  )

  pub lookup_key-id :
      (s : SelectStmt)
      → s.has_join ≡ false
      → s.where_clauses ≡ w ∷ []
      → stoll w.value_str ≡ some key
      → lookup_key s ≡ some key
  unfolding lookup_key same_text
  lookup_key-id s alone said read = rw alone (rw said (rw (column, equal) read))
