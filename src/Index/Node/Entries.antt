-- ===== src/Index/Node/Entries.antt =====
-- The search through the arrays of a leaf, in parts.
use flex_ql_dl.Base.{
  ℕ, zero, suc, ◌+◌, ◌<◌, ◌≤◌, ◌≡◌, refl, ap, ◌∙◌, Option, none, some, arith, ◌==◌, if◌then◌else◌,
}
use flex_ql_dl.Index.Node.{BptNode, find_value}

abbrev pub or_else : Option ℕ → Option ℕ → Option ℕ
or_else none y = y
or_else (some v) y = some v

pub or_else-none : (x : Option ℕ) → or_else x none ≡ x
or_else-none none = refl
or_else-none (some v) = refl

-- What a leaf answers for a key.
abbrev pub lookup : ℕ → BptNode → Option ℕ
lookup q node = find_value node.num_keys 0 q node

pub find_value_step :
    (n i q : ℕ) (node : BptNode)
    → find_value (suc n) i q node
      ≡ (if node.keys i == q then some (node.values i) else find_value n (i + 1) q node)
unfolding find_value
find_value_step n i q node = refl

pub find_value-split :
    (m n t i s q : ℕ) (node : BptNode)
    → t ≡ m + n
    → s ≡ i + m
    → find_value t i q node ≡ or_else (find_value m i q node) (find_value n s q node)
unfolding find_value
find_value-split zero n t i s q node e e' =
    let same : t ≡ n = omega (arith, e) in
    let start : s ≡ i = omega (arith, e') in rw (same, start) refl
find_value-split (suc m) n zero i s q node e e' = absurd (omega (arith, e))
find_value-split (suc m) n (suc t) i s q node e e' =
    let ih = find_value-split m n t (i + 1) s q node (omega (arith, e)) (omega (arith, e')) in
    ground (arith, ih)

-- A leaf that holds the entries of another, moved up by `d`, answers alike.
pub find_value-moved :
    (n i j d q : ℕ) (node moved : BptNode)
    → j ≡ i + d
    → ((k : ℕ) → i ≤ k → k < i + n → moved.keys (k + d) ≡ node.keys k)
    → ((k : ℕ) → i ≤ k → k < i + n → moved.values (k + d) ≡ node.values k)
    → find_value n j q moved ≡ find_value n i q node
unfolding find_value
find_value-moved zero i j d q node moved e hk hv = refl
find_value-moved (suc n) i j d q node moved e hk hv =
    let ih =
      find_value-moved n (i + 1) (j + 1) d q node moved (omega (arith, e))
        (λ k h h'. hk k (omega (arith, h)) (omega (arith, h')))
        (λ k h h'. hv k (omega (arith, h)) (omega (arith, h'))) in
    let key : moved.keys j ≡ node.keys i = ap moved.keys e ∙ hk i (omega arith) (omega arith) in
    let value : moved.values j ≡ node.values i =
      ap moved.values e ∙ hv i (omega arith) (omega arith) in
    rw (key, value, ih) refl

-- Greater keys do not answer.
pub find_value-none :
    (n i q : ℕ) (node : BptNode)
    → ((k : ℕ) → i ≤ k → k < i + n → q < node.keys k)
    → find_value n i q node ≡ none
unfolding find_value
find_value-none zero i q node h = refl
find_value-none (suc n) i q node h =
    let first = h i (omega arith) (omega arith) in
    let rest =
      find_value-none n (i + 1) q node (λ k a b. h k (omega (arith, a)) (omega (arith, b))) in
    ground (arith, first, rest)
