-- ===== src/Index/Tree/Create.antt =====
-- New pages of the tree, and the tree that `clear` leaves.

use flex_ql_dl.Base.{
  ℕ, suc, ◌+◌, ◌<◌, ◌≡◌, refl, ap, ◌∙◌, inl, inr, none, some, arith, update, update_self, lt→leb,
  leb→le,
}
use flex_ql_dl.Storage.Pager
use flex_ql_dl.Storage.Pager.{page_addr, no_page, max_pages}
use flex_ql_dl.Cache.Lru.Invariant.{IsValid}
use flex_ql_dl.Cache.Manager
use flex_ql_dl.Cache.Manager.Transparent.{get_page_transparent, mark_dirty-Keeps}
use flex_ql_dl.Cache.Manager.Sharing.{poke-IsValid, allocate-IsValid, clear-IsValid}
use flex_ql_dl.Index.Node.{NodeType, leaf, BptNode, blank, find_value}
use flex_ql_dl.Index.Node.Entries.{lookup}
use flex_ql_dl.Index.Tree.{TreeFile, BpTree, poke, create_node, search, clear}
use flex_ql_dl.Index.Tree.Walk.{answer_leaf, page-cases}
use flex_ql_dl.Index.Tree.Insert.{value, search-value}

-- What `create_node` leaves: one more page, which is blank.
record Created (type : NodeType) (f : TreeFile) (r : ℕ × TreeFile) : Type 0 where
  pid : r.0 ≡ f.pager.num_pages
  valid : IsValid r.1
  count : r.1.pager.num_pages ≡ f.pager.num_pages + 1
  content : r.1.pager.memory ≡ update f.pager.memory (page_addr f.pager.num_pages) (blank type)

create_node-Created :
    (type : NodeType) (f : TreeFile)
    → IsValid f
    → f.pager.num_pages < max_pages
    → Created type f (create_node type f)
unfolding create_node Pager.allocate_page
create_node-Created type f v low =
    let n = f.pager.num_pages in
    let (v', next) = allocate-IsValid f (omega (arith, low)) v in
    let g = record f { pager = (Pager.allocate_page f.pager).1 } in
    let (_, kept) = get_page_transparent g n v' in
    let f' = (Manager.get_page g n).1 in
    let made =
      mark_dirty-Keeps (poke f' (page_addr n) (blank type)) n
        (poke-IsValid f' (page_addr n) (blank type) kept.valid) in
    elim (page-cases g n v') [
      | inl (_, out) ↦ absurd (let h = leb→le _ _ out in omega (arith, h, next))
      | inr (at, _) ↦
          rw (at, create_node)
            (record {
              pid = refl;
              valid = made.valid;
              count = made.pages.count ∙ kept.pages.count ∙ next;
              content =
                  made.pages.content
                  ∙ ap (λ m. update m (page_addr n) (blank type)) kept.pages.content;
            })
    ]

lookup-blank : (q : ℕ) → lookup q (blank leaf) ≡ none
unfolding find_value
lookup-blank q = refl

-- After `clear` of a tree with a valid cache, whatever it held: `search` answers each key with
-- nothing, from the new root over the pages as they are then, and the cache is valid.
pub search-clear :
    (fuel q : ℕ) (t : BpTree)
    → IsValid t.file
    → IsValid (clear t).file × (value (search (suc fuel) (clear t) q) ≡ some none)
unfolding clear Pager.clear
search-clear fuel q t v =
    let f = Manager.clear t.file in
    let g = record f { pager = Pager.clear f.pager } in
    let made = create_node-Created leaf g (clear-IsValid t.file v) (omega arith) in
    let m = (clear t).file.pager.memory in
    let n = (clear t).file.pager.num_pages in
    let root : m (page_addr (clear t).root_pid) ≡ blank leaf =
      ap m (ap page_addr made.pid)
      ∙ ap (λ k. k (page_addr 0)) made.content
      ∙ update_self g.pager.memory (page_addr 0) (blank leaf) in
    let count : n ≡ 1 = made.count in
    let first : (clear t).root_pid ≡ 0 = made.pid in
    (
      made.valid,
      search-value (suc fuel) q (clear t) made.valid
          ∙ answer_leaf fuel (clear t).root_pid q n m
              (lt→leb n (clear t).root_pid (omega (arith, count, first))) (ap BptNode.type root)
          ∙ ap some (ap (lookup q) root ∙ lookup-blank q),
    )
