-- ===== src/Index/Tree/Leaf.antt =====
-- `insert` into a leaf that has room, in a tree of any height.
use mathlib.Core.Path.{subst}
use mathlib.Core.Option
use mathlib.Core.Option.{some_inj, none-ne-some}
use flex_ql_dl.Base.{
  ℕ, zero, suc, ◌<◌, ◌≡◌, ◌≢◌, refl, sym, ap, ◌∙◌, inl, inr, Option, none, some, false, leb, ◌==◌,
  if◌then◌else◌, Bool-cases, update, update_self, ==_iff, ==_self, leb→lt,
}
use flex_ql_dl.Storage.Pager.{page_addr, no_page}
use flex_ql_dl.Index.Node.{NodeType, leaf, internal, BptNode, bpt_order, child_of, insert_entry}
use flex_ql_dl.Index.Node.Entries.{or_else, or_else-none, lookup}
use flex_ql_dl.Index.Node.Insert.{lookup-insert_entry}
use flex_ql_dl.Index.Tree.Walk.{
  answer, answer_out, answer_leaf, answer_internal, route, route_out, route_leaf, route_internal,
  type-cases,
}

abbrev IsLeaf : NodeType → Type 0
IsLeaf leaf = Unit
IsLeaf internal = ⊥

leaf≢internal : leaf ≢ internal
leaf≢internal e = subst IsLeaf e tt

unchanged : (o : Option (Option ℕ)) → o ≡ Option.map (λ x. or_else x none) o
unchanged none = refl
unchanged (some x) = ap some (sym (or_else-none x))

-- A route that arrives ends at a leaf that is handed out, and its entries give the answer.
pub route-answer :
    (fuel curr q n pid : ℕ) (m : ℕ → BptNode)
    → route fuel curr q n m ≡ some pid
    → pid ≢ no_page
    → (pid < n)
      × ((m (page_addr pid)).type ≡ leaf)
      × (answer fuel curr q n m ≡ some (lookup q (m (page_addr pid))))
unfolding route
route-answer zero curr q n pid m h ne = absurd (none-ne-some pid h)
route-answer (suc fuel) curr q n pid m h ne = elim (Bool-cases (leb n curr)) [
  | inl out ↦ absurd (ne (some_inj.0 (sym h ∙ route_out fuel curr q n m out)))
  | inr inside ↦ elim (type-cases (m (page_addr curr)).type) [
    | inl here ↦
        let e : curr ≡ pid = some_inj.0 (sym (route_leaf fuel curr q n m inside here) ∙ h) in
        subst
          (λ p.
            (p < n)
            × ((m (page_addr p)).type ≡ leaf)
            × (answer (suc fuel) curr q n m ≡ some (lookup q (m (page_addr p)))))
          e (leb→lt n curr inside, here, answer_leaf fuel curr q n m inside here)
    | inr there ↦
        let (low, at, ans) =
          route-answer fuel (child_of q (m (page_addr curr))) q n pid m
            (sym (route_internal fuel curr q n m inside there) ∙ h) ne in
        (low, at, answer_internal fuel curr q n m inside there ∙ ans)
  ]
]

module _ (key val n a : ℕ) (m : ℕ → BptNode) where
  abbrev pub inserted : ℕ → BptNode
  inserted = update m a (insert_entry key val (m a))

  inserted_type : (b : ℕ) → (inserted b).type ≡ (m b).type
  unfolding insert_entry
  inserted_type b = elim (Bool-cases (a == b)) [
    | inl same ↦ rw same (ap (λ c. (m c).type) ((==_iff a b).0 same))
    | inr apart ↦ rw apart refl
  ]

  inserted_other : (b : ℕ) → (a == b) ≡ false → inserted b ≡ m b
  inserted_other b apart = rw apart refl

  inserted_self : (b : ℕ) → a ≡ b → inserted b ≡ insert_entry key val (m b)
  inserted_self b e =
      subst (λ c. inserted c ≡ insert_entry key val (m c)) e
        (update_self m a (insert_entry key val (m a)))

  leaf_apart : (b : ℕ) → (m a).type ≡ leaf → (m b).type ≡ internal → (a == b) ≡ false
  leaf_apart b at there = elim (Bool-cases (a == b)) [
    | inl same ↦
        absurd (leaf≢internal (sym at ∙ ap (λ c. (m c).type) ((==_iff a b).0 same) ∙ there))
    | inr apart ↦ apart
  ]

  lookup_other :
      (b q : ℕ)
      → (m a).type ≡ leaf
      → (m a).num_keys < bpt_order
      → (key == q) ≡ false
      → lookup q (inserted b) ≡ lookup q (m b)
  lookup_other b q at room ne = elim (Bool-cases (a == b)) [
    | inl same ↦
        let e = (==_iff a b).0 same in
        ap (lookup q) (inserted_self b e)
        ∙ lookup-insert_entry key val q (m b) (subst (λ c. (m c).num_keys < bpt_order) e room)
        ∙ rw ne (or_else-none (lookup q (m b)))
    | inr apart ↦ ap (lookup q) (inserted_other b apart)
  ]

  -- The other keys.
  answer_other :
      (fuel curr q : ℕ)
      → (m a).type ≡ leaf
      → (m a).num_keys < bpt_order
      → (key == q) ≡ false
      → answer fuel curr q n inserted ≡ answer fuel curr q n m
  unfolding answer
  answer_other zero curr q at room ne = refl
  answer_other (suc fuel) curr q at room ne =
      let p = page_addr curr in
      let kind = inserted_type p in
      elim (Bool-cases (leb n curr)) [
        | inl out ↦ answer_out fuel curr q n inserted out ∙ sym (answer_out fuel curr q n m out)
        | inr inside ↦ elim (type-cases (m p).type) [
          | inl here ↦
              answer_leaf fuel curr q n inserted inside (kind ∙ here)
              ∙ ap some (lookup_other p q at room ne)
              ∙ sym (answer_leaf fuel curr q n m inside here)
          | inr there ↦
              let apart : (a == p) ≡ false = leaf_apart p at there in
              let ih = answer_other fuel (child_of q (m p)) q at room ne in
              answer_internal fuel curr q n inserted inside (kind ∙ there)
              ∙ ap (λ c. answer fuel (child_of q c) q n inserted) (inserted_other p apart)
              ∙ ih
              ∙ sym (answer_internal fuel curr q n m inside there)
        ]
      ]

  -- The key itself, behind an older entry for it.
  answer_key :
      (fuel curr pid : ℕ)
      → route fuel curr key n m ≡ some pid
      → pid ≢ no_page
      → a ≡ page_addr pid
      → (m a).type ≡ leaf
      → (m a).num_keys < bpt_order
      → answer fuel curr key n inserted ≡ some (or_else (lookup key (m a)) (some val))
  unfolding route
  answer_key zero curr pid h ne e at room = absurd (none-ne-some pid h)
  answer_key (suc fuel) curr pid h ne e at room =
      let p = page_addr curr in
      let kind = inserted_type p in
      elim (Bool-cases (leb n curr)) [
        | inl out ↦ absurd (ne (some_inj.0 (sym h ∙ route_out fuel curr key n m out)))
        | inr inside ↦ elim (type-cases (m p).type) [
          | inl here ↦
              let arrived : curr ≡ pid =
                some_inj.0 (sym (route_leaf fuel curr key n m inside here) ∙ h) in
              let same : a ≡ p = e ∙ ap page_addr (sym arrived) in
              let found : lookup key (insert_entry key val (m a))
                  ≡ or_else (lookup key (m a)) (some val) =
                lookup-insert_entry key val key (m a) room ∙ rw (==_self key) refl in
              answer_leaf fuel curr key n inserted inside (kind ∙ here)
              ∙ ap (λ c. some (lookup key c)) (inserted_self p same)
              ∙ ap (λ b. some (lookup key (insert_entry key val (m b)))) (sym same)
              ∙ ap some found
          | inr there ↦
              let ih =
                answer_key fuel (child_of key (m p)) pid
                  (sym (route_internal fuel curr key n m inside there) ∙ h) ne e at room in
              answer_internal fuel curr key n inserted inside (kind ∙ there)
              ∙ ap (λ c. answer fuel (child_of key c) key n inserted)
                  (inserted_other p (leaf_apart p at there))
              ∙ ih
        ]
      ]

  -- What the tree answers when a leaf on the way of a key has taken it in.
  pub answer-inserted :
      (fuel curr pid q : ℕ)
      → route fuel curr key n m ≡ some pid
      → pid ≢ no_page
      → a ≡ page_addr pid
      → (m a).num_keys < bpt_order
      → answer fuel curr q n inserted
        ≡ Option.map (λ x. or_else x (if key == q then some val else none)) (answer fuel curr q n m)
  answer-inserted fuel curr pid q h ne e room =
      let (_, at, old) = route-answer fuel curr key n pid m h ne in
      let at' : (m a).type ≡ leaf = ap (λ b. (m b).type) e ∙ at in
      elim (Bool-cases (key == q)) [
        | inl same ↦
            let name = (==_iff key q).0 same in
            rw (same, ← name)
              (answer_key fuel curr pid h ne e at' room
                ∙ ap (λ b. some (or_else (lookup key (m b)) (some val))) e
                ∙ rw old refl)
        | inr other ↦
            rw other (answer_other fuel curr q at' room other ∙ unchanged (answer fuel curr q n m))
      ]
