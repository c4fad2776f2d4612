-- ===== src/Index/Node.antt =====
-- A page of the B+ tree (include/index/bptree.h) and the loops over its arrays in
-- src/index/bptree.cpp. The arrays are functions of the index; `values` and `children` share
-- their bytes, and a node uses one of them, by its type, for as long as it exists.
pub mod Entries
pub mod Insert
use flex_ql_dl.Base.{
  ℕ, zero, suc, ◌+◌, ◌-◌, ◌%◌, Bool, true, false, ◌&&◌, ◌||◌, List, [], ◌∷◌, ◌++◌, Option, none,
  some, leb, ltb, ◌==◌, if◌then◌else◌, update,
}
use flex_ql_dl.Storage.Pager.{no_page, u32_mod}

pub data NodeType : Type 0 where
  leaf internal : NodeType

abbrev pub bpt_order : ℕ
bpt_order = 250

pub record BptNode : Type 0 where
  pub type : NodeType
  pub num_keys : ℕ
  pub next_leaf : ℕ
  pub keys : ℕ → ℕ
  pub values : ℕ → ℕ
  pub children : ℕ → ℕ

-- `memset`, and the fields that `create_node` sets.
abbrev pub blank_children : NodeType → ℕ → ℕ
blank_children leaf i = 0
blank_children internal i = if leb i bpt_order then no_page else 0

abbrev pub blank : NodeType → BptNode
blank type = record {
  type = type;
  num_keys = 0;
  next_leaf = no_page;
  keys = λ _. 0;
  values = λ _. 0;
  children = blank_children type;
}

-- `for (i…) if (keys[i] == key) …`: the value of the first of `n` keys from `i` on that fits.
unfoldable pub find_value : ℕ → ℕ → ℕ → BptNode → Option ℕ
find_value zero i key node = none
find_value (suc n) i key node =
    let rest = find_value n (i + 1) key node in
    if node.keys i == key then some (node.values i) else rest

-- `while (i < num_keys && key >= keys[i]) i++`, with `n` keys left.
unfoldable pub child_index : ℕ → ℕ → ℕ → BptNode → ℕ
child_index zero i key node = i
child_index (suc n) i key node =
    let rest = child_index n (i + 1) key node in if leb (node.keys i) key then rest else i

-- The child to which a key leads.
abbrev pub child_of : ℕ → BptNode → ℕ
child_of key node = node.children (child_index node.num_keys 0 key node)

-- `for (i = 0; i <= num_keys; i++) if (children[i] == pid) …`, with `n` children left.
unfoldable pub has_child : ℕ → ℕ → ℕ → BptNode → Bool
has_child zero i pid node = false
has_child (suc n) i pid node = node.children i == pid || has_child n (i + 1) pid node

-- `while (i > 0 && keys[i-1] > key)` of a leaf: where the key goes, and the arrays moved up.
unfoldable pub shift : ℕ → ℕ → (ℕ → ℕ) → (ℕ → ℕ) → ℕ × (ℕ → ℕ) × (ℕ → ℕ)
shift zero key keys values = (0, keys, values)
shift (suc i) key keys values =
    let rest = shift i key (update keys (suc i) (keys i)) (update values (suc i) (values i)) in
    if ltb key (keys i) then rest else (suc i, keys, values)

-- The insert into a leaf that has room.
unfoldable pub insert_entry : ℕ → ℕ → BptNode → BptNode
unfolding shift
insert_entry key val node =
    let (i, keys, values) = shift node.num_keys key node.keys node.values in
    record node {
      keys = update keys i key;
      values = update values i val;
      num_keys = (node.num_keys + 1) % u32_mod;
    }

-- `while (i > 0 && keys[i-1] > key)` of an internal node, whose children move behind its keys.
unfoldable pub shift_children : ℕ → ℕ → (ℕ → ℕ) → (ℕ → ℕ) → ℕ × (ℕ → ℕ) × (ℕ → ℕ)
shift_children zero key keys children = (0, keys, children)
shift_children (suc i) key keys children =
    let rest =
      shift_children i key (update keys (suc i) (keys i))
        (update children (suc i + 1) (children (suc i))) in
    if ltb key (keys i) then rest else (suc i, keys, children)

-- The insert of a separator and the child behind it into an internal node that has room.
unfoldable pub insert_child : ℕ → ℕ → BptNode → BptNode
unfolding shift_children
insert_child key pid node =
    let (i, keys, children) = shift_children node.num_keys key node.keys node.children in
    record node {
      keys = update keys i key;
      children = update children (i + 1) pid;
      num_keys = (node.num_keys + 1) % u32_mod;
    }

-- The pairs of `n` keys and values from `i` on, as `temp` collects them.
unfoldable pub entries : ℕ → ℕ → BptNode → List (ℕ × ℕ)
entries zero i node = []
entries (suc n) i node = (node.keys i, node.values i) ∷ entries n (i + 1) node

-- `operator<` of `std::pair`, turned round: not `b < a`.
abbrev pub pair_le : ℕ × ℕ → ℕ × ℕ → Bool
pair_le a b = ltb a.0 b.0 || (a.0 == b.0 && leb a.1 b.1)

unfoldable pub insert_sorted : ℕ × ℕ → List (ℕ × ℕ) → List (ℕ × ℕ)
insert_sorted a [] = a ∷ []
insert_sorted a (b ∷ l) = if pair_le a b then a ∷ b ∷ l else b ∷ insert_sorted a l

-- `std::sort` of pairs: the order is total, so the result is the one sorted list of the pairs.
unfoldable pub sort : List (ℕ × ℕ) → List (ℕ × ℕ)
unfolding insert_sorted
sort [] = []
sort (a ∷ l) = insert_sorted a (sort l)

-- The loops that write the pairs to a leaf whose `num_keys` counts them.
unfoldable pub store_entries : List (ℕ × ℕ) → BptNode → BptNode
store_entries [] node = node
store_entries ((k, v) ∷ l) node = store_entries l (record node {
  keys = update node.keys node.num_keys k;
  values = update node.values node.num_keys v;
  num_keys = (node.num_keys + 1) % u32_mod;
})
