-- ===== src/Index/Tree/Insert.antt =====
-- `insert` as `search` sees it, where the leaf of the key has room.
use mathlib.Core.Path.{subst}
use mathlib.Core.Option
use mathlib.Core.Option.{some_inj, some-ne-none}
use flex_ql_dl.Base.{
  ℕ, ◌<◌, ◌≡◌, ◌≢◌, refl, sym, ap, ◌∙◌, inl, inr, Option, none, some, true, arith, ltb, ◌==◌,
  if◌then◌else◌, Option-cases, update, lt→ltb, leb→le,
}
use flex_ql_dl.Storage.Pager.{page_addr, no_page}
use flex_ql_dl.Cache.Lru.Invariant.{IsValid}
use flex_ql_dl.Cache.Lru.Preserve.{Keeps}
use flex_ql_dl.Cache.Manager
use flex_ql_dl.Cache.Manager.Transparent.{get_page_transparent, mark_dirty-Keeps}
use flex_ql_dl.Cache.Manager.Sharing.{poke-IsValid}
use flex_ql_dl.Index.Node.{bpt_order, insert_entry}
use flex_ql_dl.Index.Node.Entries.{or_else}
use flex_ql_dl.Index.Tree.{
  TreeFile, BpTree, poke, search_from, search, find_leaf, insert_into_leaf, insert,
}
use flex_ql_dl.Index.Tree.Walk.{
  answer, route, Answers, page-cases, search_from-Answers, find_leaf-Answers,
}
use flex_ql_dl.Index.Tree.Leaf.{inserted, route-answer, answer-inserted}

-- The answer of a run, without the state that it leaves.
abbrev pub value : {A : Type 0} → Option (A × TreeFile) → Option A
value r = Option.map (λ x. x.0) r

Answers-value :
    {A : Type 0} (f : TreeFile) (r : Option (A × TreeFile)) (y : Option A)
    → Answers f r y
    → value r ≡ y
Answers-value f none y h = sym h
Answers-value f (some r) y h = sym h.0

-- What is left when the leaf `pid` has taken an entry in.
record Took (pid key val : ℕ) (f : TreeFile) (t' : BpTree) : Type 0 where
  valid : IsValid t'.file
  count : t'.file.pager.num_pages ≡ f.pager.num_pages
  content : t'.file.pager.memory ≡ inserted key val f.pager.num_pages (page_addr pid) f.pager.memory

insert_into_leaf-Took :
    (fuel pid key val : ℕ) (t : BpTree)
    → IsValid t.file
    → pid < t.file.pager.num_pages
    → (t.file.pager.memory (page_addr pid)).num_keys < bpt_order
    → (t' : BpTree) × (insert_into_leaf fuel pid key val t ≡ some t')
      × (t'.root_pid ≡ t.root_pid)
      × Took pid key val t.file t'
unfolding insert_into_leaf
insert_into_leaf-Took fuel pid key val t v inside room = elim (page-cases t.file pid v) [
  | inl (_, out) ↦ absurd (let h = leb→le _ _ out in omega (arith, h, inside))
  | inr (at, _) ↦
      let (_, kept) = get_page_transparent t.file pid v in
      let f = (Manager.get_page t.file pid).1 in
      let a = page_addr pid in
      let node = f.pager.memory a in
      let same : node ≡ t.file.pager.memory a = ap (λ m. m a) kept.pages.content in
      let poked = poke f a (insert_entry key val node) in
      let done =
        mark_dirty-Keeps poked pid (poke-IsValid f a (insert_entry key val node) kept.valid) in
      let fits : ltb node.num_keys bpt_order ≡ true =
        lt→ltb _ _ (subst (λ n. n.num_keys < bpt_order) (sym same) room) in
      (
        record t { file = Manager.mark_dirty poked pid },
        rw (at, insert_into_leaf) (rw fits refl),
        refl,
        record {
          valid = done.valid;
          count = done.pages.count ∙ kept.pages.count;
          content =
              done.pages.content
              ∙ ap (λ m. update m a (insert_entry key val (m a))) kept.pages.content;
        },
      )
]

pub search-value :
    (fuel q : ℕ) (t : BpTree)
    → IsValid t.file
    → value (search fuel t q) ≡ answer fuel t.root_pid q t.file.pager.num_pages t.file.pager.memory
unfolding search
search-value fuel q t v =
    Answers-value t.file (search_from fuel t.root_pid q t.file) _
      (search_from-Answers fuel t.root_pid q t.file v)

Took-Keeps :
    (pid key val : ℕ) (f g : TreeFile) (t' : BpTree)
    → Keeps f g
    → Took pid key val g t'
    → Took pid key val f t'
Took-Keeps pid key val f g t' k h = record {
  valid = h.valid;
  count = h.count ∙ k.pages.count;
  content = h.content ∙ ap (λ m. inserted key val 0 (page_addr pid) m) k.pages.content;
}

Took-search :
    (fuel pid key val : ℕ) (t t' : BpTree)
    → IsValid t.file
    → route fuel t.root_pid key t.file.pager.num_pages t.file.pager.memory ≡ some pid
    → pid ≢ no_page
    → (t.file.pager.memory (page_addr pid)).num_keys < bpt_order
    → t'.root_pid ≡ t.root_pid
    → Took pid key val t.file t'
    → (q : ℕ)
    → value (search fuel t' q)
      ≡ Option.map (λ x. or_else x (if key == q then some val else none)) (value (search fuel t q))
Took-search fuel pid key val t t' v way ne room root took q =
    let n = t.file.pager.num_pages in
    let m = t.file.pager.memory in
    let new = search-value fuel q t' took.valid in
    let old = search-value fuel q t v in
    let law = answer-inserted key val n (page_addr pid) m fuel t.root_pid pid q way ne refl room in
    rw (new, old, root, took.count, took.content) law

-- In a tree of any height with a valid cache, where the pages lead the key to a leaf that has
-- room, `insert` succeeds and keeps the cache valid, and `search` answers every key as before,
-- but for the inserted key, which it finds with the inserted row unless it was found before.
pub insert-search :
    (fuel key val pid : ℕ) (t : BpTree)
    → IsValid t.file
    → route fuel t.root_pid key t.file.pager.num_pages t.file.pager.memory ≡ some pid
    → pid ≢ no_page
    → (t.file.pager.memory (page_addr pid)).num_keys < bpt_order
    → (t' : BpTree) × (insert fuel t key val ≡ some t')
      × IsValid t'.file
      × ((q : ℕ)
          → value (search fuel t' q)
            ≡ Option.map
                (λ x. or_else x (if key == q then some val else none))
                (value (search fuel t q)))
unfolding insert
insert-search fuel key val pid t v way ne room =
    let n = t.file.pager.num_pages in
    let m = t.file.pager.memory in
    let (inside, _, _) = route-answer fuel t.root_pid key n pid m way ne in
    let walked = find_leaf-Answers fuel t.root_pid key t.file v in
    elim (Option-cases (find_leaf fuel t.root_pid key t.file)) [
      | inl lost ↦ absurd (some-ne-none pid (sym way ∙ rw lost at walked))
      | inr (r, found) ↦
          let (arrived, kept) : (route fuel t.root_pid key n m ≡ some r.0) × Keeps t.file r.1 =
            rw found at walked in
          let here : pid ≡ r.0 = some_inj.0 (sym way ∙ arrived) in
          let room' : (r.1.pager.memory (page_addr pid)).num_keys < bpt_order =
            subst (λ m'. (m' (page_addr pid)).num_keys < bpt_order) (sym kept.pages.content) room in
          let (t', done, root, took) =
            insert_into_leaf-Took fuel pid key val (record t { file = r.1 }) kept.valid
              (subst (λ c. pid < c) (sym kept.pages.count) inside) room' in
          (
            t',
            rw (found, insert) (rw (sym here) done),
            took.valid,
            Took-search fuel pid key val t t' v way ne room root
                (Took-Keeps pid key val t.file r.1 t' kept took),
          )
    ]
