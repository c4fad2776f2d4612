-- ===== src/Executor/Select/Query.antt =====
-- The rows that a SELECT chooses, as a filter of a list of rows.
use mathlib.Core.Path.{subst}
use mathlib.Core.Option.{some_inj}
use flex_ql_dl.Base.{
  sym, ◌∙◌, ℕ, ◌≡◌, refl, ◌⊎◌, inl, inr, Bool, true, not, ◌&&◌, List, [], ◌∷◌, map, none, some,
  ◌==◌, if◌then◌else◌, get_elem?, All, same_text, Bool-cases, Option-cases, done, stoll,
}
use flex_ql_dl.Storage.Row.{ColumnDef, Value, is_varchar, signed_lt}
use flex_ql_dl.Parser.Ast.{WhereClause}
use flex_ql_dl.Executor.Filter.{
  column_index, value_matches, clause_matches, row_matches, filter_rows,
}

abbrev pub keep {ℓ} : {A : Type ℓ} → (A → Bool) → List A → List A
keep p [] = []
keep p (x ∷ l) = let rest = keep p l in if p x then x ∷ rest else rest

-- What a clause says of the value of its column, for a number `k` that its text stands for: equal
-- texts or numbers, and the order of signed numbers. Of another operator, nothing.
abbrev pub holds_of : WhereClause → ℕ → Value → Bool
holds_of w k v =
    if same_text w.op (b'=' ∷ [])
    then if is_varchar v.type then same_text v.str w.value_str else v.bits == k
    else if same_text w.op (b'>' ∷ [])
    then signed_lt 64 k v.bits
    else if same_text w.op (b'>' ∷ b'=' ∷ [])
    then not (signed_lt 64 v.bits k)
    else true

-- A clause on a row: without its column, nothing.
abbrev pub satisfies : List ColumnDef → List ColumnDef → WhereClause × ℕ → List Value → Bool
satisfies schema schema2 (w, k) row = elim (column_index schema schema2 w.column_name) [
  | none ↦ true
  | some i ↦ elim (get_elem? row i) [ none ↦ true | some v ↦ holds_of w k v ]
]

abbrev pub satisfies_all :
    List ColumnDef → List ColumnDef → List (WhereClause × ℕ) → List Value → Bool
satisfies_all schema schema2 [] row = true
satisfies_all schema schema2 (c ∷ clauses) row =
    satisfies schema schema2 c row && satisfies_all schema schema2 clauses row

-- The text of a clause is the number, unless texts are tested for equality.
abbrev pub Reads : WhereClause → ℕ → Value → Type 0
Reads w k v =
    (stoll w.value_str ≡ some k)
    ⊎ ((same_text w.op (b'=' ∷ []) ≡ true) × (is_varchar v.type ≡ true))

-- The row has the column of the clause, with a value that the clause can be tested on.
abbrev pub Testable : List ColumnDef → List ColumnDef → List Value → WhereClause × ℕ → Type 0
Testable schema schema2 row (w, k) =
    (i : ℕ)
    → column_index schema schema2 w.column_name ≡ some i
    → (v : Value) × (get_elem? row i ≡ some v) × Reads w k v

abbrev pub AllTestable :
    List ColumnDef → List ColumnDef → List (WhereClause × ℕ) → List Value → Type 0
AllTestable schema schema2 clauses row = All (Testable schema schema2 row) clauses

pub Testable-intro :
    (schema schema2 : List ColumnDef) (row : List Value) (w : WhereClause) (k i : ℕ) (v : Value)
    → column_index schema schema2 w.column_name ≡ some i
    → get_elem? row i ≡ some v
    → Reads w k v
    → Testable schema schema2 row (w, k)
Testable-intro schema schema2 row w k i v at there reads j e =
    (v, subst (λ m. get_elem? row m ≡ some v) (some_inj.0 (sym at ∙ e)) there, reads)

value_matches-holds_of :
    (w : WhereClause) (k : ℕ) (v : Value) → Reads w k v → value_matches w v ≡ done (holds_of w k v)
unfolding value_matches
value_matches-holds_of w k v (inr (e, t)) = rw (e, t) refl
value_matches-holds_of w k v (inl h) = rw h (elim (Bool-cases (same_text w.op (b'=' ∷ []))) [
  | inl e ↦ elim (Bool-cases (is_varchar v.type)) [
    | inl t ↦ rw (e, t) refl
    | inr t ↦ rw (e, t) refl
  ]
  | inr e ↦ elim (Bool-cases (same_text w.op (b'>' ∷ []))) [
    | inl g ↦ rw (e, g) refl
    | inr g ↦ elim (Bool-cases (same_text w.op (b'>' ∷ b'=' ∷ []))) [
      | inl f ↦ rw (e, g, f) refl
      | inr f ↦ rw (e, g, f) refl
    ]
  ]
])

module _ (schema schema2 : List ColumnDef) where
  clause_matches-satisfies :
      (w : WhereClause) (k : ℕ) (row : List Value)
      → Testable schema schema2 row (w, k)
      → clause_matches schema schema2 w row ≡ done (satisfies schema schema2 (w, k) row)
  unfolding clause_matches
  clause_matches-satisfies w k row h =
      elim (Option-cases (column_index schema schema2 w.column_name)) [
        | inl absent ↦ rw (absent, clause_matches, satisfies) refl
        | inr (i, at) ↦
            let (v, there, reads) = h i at in
            rw (at, clause_matches, satisfies) (rw there (value_matches-holds_of w k v reads))
      ]

  row_matches-satisfies_all :
      (clauses : List (WhereClause × ℕ)) (row : List Value)
      → AllTestable schema schema2 clauses row
      → row_matches schema schema2 (map (λ c. c.0) clauses) row
        ≡ done (satisfies_all schema schema2 clauses row)
  unfolding row_matches
  row_matches-satisfies_all [] row h = refl
  row_matches-satisfies_all ((w, k) ∷ clauses) row h =
      let first = clause_matches-satisfies w k row h.0 in
      let rest = row_matches-satisfies_all clauses row h.1 in
      elim (Bool-cases (satisfies schema schema2 (w, k) row)) [
        | inl kept ↦ rw (first, kept) rest
        | inr dropped ↦ rw (first, dropped) refl
      ]

  -- The filter keeps the rows that satisfy every clause, in their order, as long as the rows
  -- have the columns, and the text of a clause that is compared with a number is a number.
  pub filter_rows-keep :
      (clauses : List (WhereClause × ℕ)) (rows : List (List Value))
      → All (AllTestable schema schema2 clauses) rows
      → filter_rows schema schema2 (map (λ c. c.0) clauses) rows
        ≡ done (keep (satisfies_all schema schema2 clauses) rows)
  unfolding filter_rows
  filter_rows-keep clauses [] h = refl
  filter_rows-keep clauses (row ∷ rows) h =
      let first = row_matches-satisfies_all clauses row h.0 in
      let rest = filter_rows-keep clauses rows h.1 in
      elim (Bool-cases (satisfies_all schema schema2 clauses row)) [
        | inl kept ↦ rw (first, rest, kept) refl
        | inr dropped ↦ rw (first, rest, dropped) refl
      ]
