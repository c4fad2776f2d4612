-- ===== src/Index/Tests.antt =====
-- Runs of the tree on concrete pages, and the theorems at concrete inputs.
use mathlib.Core.Option
use flex_ql_dl.Base.{ℕ, ◌≡◌, refl, [], none, some, arith, if◌then◌else◌, ◌==◌}
use flex_ql_dl.Storage.Pager
use flex_ql_dl.Storage.Pager.{Pager, page_addr}
use flex_ql_dl.Cache.Lru
use flex_ql_dl.Cache.Lru.{LruCache}
use flex_ql_dl.Cache.Lru.Invariant.{IsValid, new-IsValid}
use flex_ql_dl.Cache.Manager
use flex_ql_dl.Index.Node.{
  leaf, internal, BptNode, blank, find_value, child_index, insert_entry, insert_child, sort,
  entries, store_entries,
}
use flex_ql_dl.Index.Node.Entries.{or_else}
use flex_ql_dl.Index.Tree
use flex_ql_dl.Index.Tree.{TreeFile, BpTree, link_child, search, insert, clear}
use flex_ql_dl.Index.Tree.Walk.{answer, route, Answers, search_from-Answers}
use flex_ql_dl.Index.Tree.Insert.{value, insert-search}
use flex_ql_dl.Index.Tree.Create.{search-clear}

program : Unit {0}
unfolding Tree.search Tree.insert Tree.clear Tree.new Manager.get_page Manager.mark_dirty
    Manager.clear Lru.new Lru.get Lru.put Lru.clear Lru.find Lru.erase Lru.back Lru.pop_back
    Pager.get_page Pager.allocate_page Pager.clear Pager.flush page_addr find_value child_index
    insert_entry insert_child route sort entries store_entries
program = tt

-- A root over two leaves, with the keys from 5 on in the second.
abbrev root_node : BptNode
root_node = record (blank internal) {
  num_keys = 1;
  keys = λ _. 5;
  children = λ i. if i == 0 then 1 else 2;
}

abbrev first_leaf : BptNode
first_leaf = record (blank leaf) { num_keys = 1; keys = λ _. 2; values = λ _. 20; next_leaf = 2 }

abbrev second_leaf : BptNode
second_leaf = record (blank leaf) {
  num_keys = 2;
  keys = λ i. if i == 0 then 5 else 9;
  values = λ i. if i == 0 then 50 else 90;
}

abbrev memory : ℕ → BptNode
memory a = if a == 0 then root_node else if a == 4096 then first_leaf else second_leaf

abbrev pages : Pager BptNode
pages = record { num_pages = 3; memory = memory; syncs = [] }

abbrev tree : BpTree
tree = record { file = Lru.new 2 pages; root_pid = 0 }

tree-IsValid : IsValid tree.file
tree-IsValid = new-IsValid 2 pages (omega arith)

finds : value (search 2 tree 9) ≡ some (some 90)
unfolding program
finds = refl

misses : value (search 2 tree 4) ≡ some none
unfolding program
misses = refl

-- A walk with too little fuel.
lost : value (search 1 tree 4) ≡ none
unfolding program
lost = refl

leads : route 2 0 7 3 memory ≡ some 2
unfolding program
leads = refl

insert-search_example :
    (t' : BpTree) × (insert 2 tree 7 70 ≡ some t')
    × IsValid t'.file
    × ((q : ℕ)
        → value (search 2 t' q)
          ≡ Option.map
              (λ x. or_else x (if 7 == q then some 70 else none))
              (value (search 2 tree q)))
unfolding Lru.new page_addr
insert-search_example =
    insert-search 2 7 70 2 tree tree-IsValid leads (λ e. absurd (omega (arith, e))) (omega arith)

search_from-Answers_example :
    Answers tree.file
      (Tree.search_from 2 0 9 tree.file)
      (answer 2 0 9 tree.file.pager.num_pages tree.file.pager.memory)
search_from-Answers_example = search_from-Answers 2 0 9 tree.file tree-IsValid

search-clear_example : IsValid (clear tree).file × (value (search 2 (clear tree) 7) ≡ some none)
search-clear_example = search-clear 1 7 tree tree-IsValid
