-- ===== src/Index/Tree.antt =====
-- The B+ tree (include/index/bptree.h, src/index/bptree.cpp). The walks from the root take fuel;
-- `none` means that it ran out. Null pointers that are used set the fault of the file.
pub mod Walk
pub mod Leaf
pub mod Insert
pub mod Create
use flex_ql_dl.Base.{
  ℕ, zero, suc, ◌+◌, ◌/◌, Bool, true, false, List, [], ◌∷◌, ◌++◌, Option, none, some, ltb, ◌==◌,
  if◌then◌else◌, update, length, take, drop,
}
use flex_ql_dl.Storage.Pager
use flex_ql_dl.Storage.Pager.{Pager, no_page}
use flex_ql_dl.Cache.Lru.{LruCache}
use flex_ql_dl.Cache.Manager
use flex_ql_dl.Index.Node.{
  NodeType, leaf, internal, bpt_order, BptNode, blank, find_value, child_of, has_child,
  insert_entry, insert_child, entries, sort, store_entries,
}

abbrev pub TreeFile : Type 0
TreeFile = LruCache BptNode

pub record BpTree : Type 0 where
  pub file : TreeFile
  pub root_pid : ℕ

abbrev pub crash : TreeFile → TreeFile
crash f = record f { fault = true }

abbrev pub poke : TreeFile → ℕ → BptNode → TreeFile
poke f a v = record f { pager = Pager.poke f.pager a v }

-- `create_node`: the id of the new page, or `no_page`.
unfoldable pub create_node : NodeType → TreeFile → ℕ × TreeFile
create_node type f =
    let (pid, pager) = Pager.allocate_page f.pager in
    let (page, f') = Manager.get_page (record f { pager = pager }) pid in
    elim page [
      | none ↦ (no_page, f')
      | some a ↦ (pid, Manager.mark_dirty (poke f' a (blank type)) pid)
    ]

-- The constructor, over a pager that is open.
unfoldable pub new : Pager BptNode → BpTree
unfolding create_node
new pager =
    let f = Manager.new 256 pager in
    let (pid, f') = create_node leaf f in
    if pager.num_pages == 0
    then record { file = f'; root_pid = pid }
    else record { file = f; root_pid = 0 }

-- `find_leaf`: the id of the leaf, or `no_page` behind a null page.
unfoldable pub find_leaf : ℕ → ℕ → ℕ → TreeFile → Option (ℕ × TreeFile)
find_leaf zero curr key f = none
find_leaf (suc fuel) curr key f =
    let (page, f') = Manager.get_page f curr in
    elim page [
      | none ↦ some (no_page, f')
      | some a ↦
          let node = f'.pager.memory a in
          elim node.type [
            | leaf ↦ some (curr, f')
            | internal ↦ find_leaf fuel (child_of key node) key f'
          ]
    ]

-- `search` from a page: the value, if the key is found.
unfoldable pub search_from : ℕ → ℕ → ℕ → TreeFile → Option (Option ℕ × TreeFile)
search_from zero curr key f = none
search_from (suc fuel) curr key f =
    let (page, f') = Manager.get_page f curr in
    elim page [
      | none ↦ some (none, f')
      | some a ↦
          let node = f'.pager.memory a in
          elim node.type [
            | leaf ↦ some (find_value node.num_keys 0 key node, f')
            | internal ↦ search_from fuel (child_of key node) key f'
          ]
    ]

unfoldable pub search : ℕ → BpTree → ℕ → Option (Option ℕ × TreeFile)
unfolding search_from
search fuel t key = search_from fuel t.root_pid key t.file

-- The search for the parent: its id, or `no_page` at a leaf or behind `no_page`.
unfoldable pub find_parent : ℕ → ℕ → ℕ → ℕ → TreeFile → Option (ℕ × TreeFile)
find_parent zero left key curr f = none
find_parent (suc fuel) left key curr f =
    let (page, f') = Manager.get_page f curr in
    let step : Option (ℕ × TreeFile) = elim page [
      | none ↦ some (no_page, crash f')
      | some a ↦
          let node = f'.pager.memory a in
          let next = find_parent fuel left key (child_of key node) f' in
          elim node.type [
            | leaf ↦ some (no_page, f')
            | internal ↦ if has_child (node.num_keys + 1) 0 left node then some (curr, f') else next
          ]
    ] in
    if curr == no_page then some (no_page, f) else step

-- A new root over two pages.
unfoldable pub grow_root : ℕ → ℕ → ℕ → TreeFile → BpTree
unfolding create_node
grow_root left key right f =
    let (pid, f') = create_node internal f in
    let (page, f'') = Manager.get_page f' pid in
    elim page [
      | none ↦ record { file = crash f''; root_pid = pid }
      | some a ↦
          let node = f''.pager.memory a in
          let root = record node {
            keys = update node.keys 0 key;
            children = update (update node.children 0 left) 1 right;
            num_keys = 1;
          } in
          record { file = Manager.mark_dirty (poke f'' a root) pid; root_pid = pid }
    ]

-- The separator goes into the parent, if that is found and has room.
unfoldable pub link_child : ℕ → ℕ → ℕ → TreeFile → TreeFile
link_child parent key right f =
    let (page, f') = Manager.get_page f parent in
    let linked : TreeFile = elim page [
      | none ↦ f'
      | some a ↦
          let node = f'.pager.memory a in
          if ltb node.num_keys bpt_order
          then Manager.mark_dirty (poke f' a (insert_child key right node)) parent
          else f'
    ] in
    if parent == no_page then f else linked

unfoldable pub insert_into_parent : ℕ → ℕ → ℕ → ℕ → BpTree → Option BpTree
unfolding grow_root find_parent link_child
insert_into_parent fuel left key right t =
    if left == t.root_pid
    then some (grow_root left key right t.file)
    else elim (find_parent fuel left key t.root_pid t.file) [
      | none ↦ none
      | some (parent, f) ↦ some (record t { file = link_child parent key right f })
    ]

-- The branch of `insert_into_leaf` for a full leaf at the address `a`.
unfoldable pub split_leaf : ℕ → ℕ → ℕ → ℕ → ℕ → BpTree → Option BpTree
unfolding create_node insert_into_parent
split_leaf fuel pid a key val t =
    let (new_pid, f) = create_node leaf t.file in
    let (page, f') = Manager.get_page f new_pid in
    elim page [
      | none ↦ some (record t { file = crash f' })
      | some b ↦
          let node = f'.pager.memory a in
          let temp = sort (entries bpt_order 0 node ++ (key, val) ∷ []) in
          let split_idx = length temp / 2 in
          let left = store_entries (take split_idx temp) (record node { num_keys = 0 }) in
          let new_node = f'.pager.memory b in
          let right = store_entries (drop split_idx temp) (record new_node { num_keys = 0 }) in
          let g = poke f' b (record right { next_leaf = left.next_leaf }) in
          let g' = poke g a (record left { next_leaf = new_pid }) in
          let h = Manager.mark_dirty (Manager.mark_dirty g' pid) new_pid in
          insert_into_parent fuel pid (right.keys 0) new_pid (record t { file = h })
    ]

unfoldable pub insert_into_leaf : ℕ → ℕ → ℕ → ℕ → BpTree → Option BpTree
unfolding split_leaf
insert_into_leaf fuel pid key val t =
    let (page, f) = Manager.get_page t.file pid in
    elim page [
      | none ↦ some (record t { file = crash f })
      | some a ↦
          let node = f.pager.memory a in
          if ltb node.num_keys bpt_order
          then some
              (record t { file = Manager.mark_dirty (poke f a (insert_entry key val node)) pid })
          else split_leaf fuel pid a key val (record t { file = f })
    ]

unfoldable pub insert : ℕ → BpTree → ℕ → ℕ → Option BpTree
unfolding find_leaf insert_into_leaf
insert fuel t key row_id = elim (find_leaf fuel t.root_pid key t.file) [
  | none ↦ none
  | some (pid, f) ↦ insert_into_leaf fuel pid key row_id (record t { file = f })
]

unfoldable pub clear : BpTree → BpTree
unfolding create_node
clear t =
    let f = Manager.clear t.file in
    let (pid, f') = create_node leaf (record f { pager = Pager.clear f.pager }) in
    record { file = f'; root_pid = pid }
