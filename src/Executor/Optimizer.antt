-- ===== src/Executor/Optimizer.antt =====
-- The choice of a plan: include/parser/query.h, include/optimizer/optimizer.h,
-- src/optimizer/optimizer.cpp. Texts are lists of characters.
use flex_ql_dl.Base.{
  Text, same_text, ◌≡◌, refl, Bool, true, false, not, ◌&&◌, inl, inr, Bool-cases, List, [], ◌∷◌,
  if◌then◌else◌,
}

pub data QueryType : Type 0 where
  create insert select : QueryType

pub record Condition : Type 0 where
  pub column : Text
  pub value : Text

pub record JoinClause : Type 0 where
  pub table : Text
  pub left_col : Text
  pub right_col : Text

pub record Query : Type 0 where
  pub type : QueryType
  pub table : Text
  pub columns : List (Text × Text)
  pub values : List Text
  pub select_columns : List Text
  pub where_clause : Condition
  pub has_where : Bool
  pub join : JoinClause
  pub has_join : Bool

pub data PlanType : Type 0 where
  full_scan index_scan hash_join : PlanType

pub record ExecutionPlan : Type 0 where
  pub type : PlanType
  pub index_name : Text
  pub use_where : Bool
  pub use_join : Bool

abbrev pub id_column : Text
id_column = 105 ∷ 100 ∷ []

unfoldable pub optimize : Query → ExecutionPlan
unfolding same_text
optimize query =
    let plan : PlanType → Text → ExecutionPlan = λ type index_name. record {
      type = type;
      index_name = index_name;
      use_where = query.has_where;
      use_join = query.has_join;
    } in
    if query.has_join
    then plan hash_join []
    else if query.has_where
    then (if same_text query.where_clause.column id_column
        then plan index_scan id_column
        else plan full_scan [])
    else plan full_scan []

abbrev pub is_index_scan : PlanType → Bool
is_index_scan index_scan = true
is_index_scan full_scan = false
is_index_scan hash_join = false

abbrev pub is_hash_join : PlanType → Bool
is_hash_join hash_join = true
is_hash_join full_scan = false
is_hash_join index_scan = false

-- A query is planned as a hash join if it has one, as a scan of the index if it has no join and a
-- condition on the column "id", and as a full scan else; the plan says whether to filter and join.
pub optimize-type :
    (q : Query)
    → let plan = optimize q in
      (is_hash_join plan.type ≡ q.has_join)
      × (is_index_scan plan.type
          ≡ (not q.has_join && (q.has_where && same_text q.where_clause.column id_column)))
      × (plan.use_where ≡ q.has_where)
      × (plan.use_join ≡ q.has_join)
unfolding optimize
optimize-type q = elim (Bool-cases q.has_join) [
  | inl j ↦ rw j (refl, refl, refl, refl)
  | inr j ↦ elim (Bool-cases q.has_where) [
    | inr w ↦ rw (j, w) (refl, refl, refl, refl)
    | inl w ↦ elim (Bool-cases (same_text q.where_clause.column id_column)) [
      | inl s ↦ rw (j, w, s) (refl, refl, refl, refl)
      | inr s ↦ rw (j, w, s) (refl, refl, refl, refl)
    ]
  ]
]
