-- ===== src/Index/Tree/Walk.antt =====
-- The walks from the root, `search` and `find_leaf`, against walks over the pages themselves.
use flex_ql_dl.Base.{
  ℕ, zero, suc, ◌≡◌, refl, sym, ap, ◌∙◌, ◌⊎◌, inl, inr, Option, none, some, true, false, leb,
  if◌then◌else◌, Bool-cases,
}
use mathlib.Core.Path.{subst}
use flex_ql_dl.Storage.Pager
use flex_ql_dl.Storage.Pager.{page_addr, no_page}
use flex_ql_dl.Cache.Lru.Invariant.{IsValid}
use flex_ql_dl.Cache.Lru.Preserve.{Keeps}
use flex_ql_dl.Cache.Manager
use flex_ql_dl.Cache.Manager.Transparent.{get_page_transparent, Keeps-trans}
use flex_ql_dl.Index.Node.{NodeType, leaf, internal, BptNode, child_of}
use flex_ql_dl.Index.Node.Entries.{lookup}
use flex_ql_dl.Index.Tree.{TreeFile, search_from, find_leaf}

-- What a tree answers from the page `curr` on, of `n` pages in the memory `m`.
unfoldable pub answer : ℕ → ℕ → ℕ → ℕ → (ℕ → BptNode) → Option (Option ℕ)
answer zero curr q n m = none
answer (suc fuel) curr q n m =
    let node = m (page_addr curr) in
    let next = answer fuel (child_of q node) q n m in
    if leb n curr
    then some none
    else elim node.type [ leaf ↦ some (lookup q node) | internal ↦ next ]

-- The page of the leaf to which a key leads, or `no_page`.
unfoldable pub route : ℕ → ℕ → ℕ → ℕ → (ℕ → BptNode) → Option ℕ
route zero curr q n m = none
route (suc fuel) curr q n m =
    let node = m (page_addr curr) in
    let next = route fuel (child_of q node) q n m in
    if leb n curr then some no_page else elim node.type [ leaf ↦ some curr | internal ↦ next ]

module _ (fuel curr q n : ℕ) (m : ℕ → BptNode) where
  pub answer_out : leb n curr ≡ true → answer (suc fuel) curr q n m ≡ some none
  unfolding answer
  answer_out out = rw out refl

  pub answer_leaf :
      leb n curr ≡ false
      → (m (page_addr curr)).type ≡ leaf
      → answer (suc fuel) curr q n m ≡ some (lookup q (m (page_addr curr)))
  unfolding answer
  answer_leaf inside at = simp (inside, at)

  pub answer_internal :
      leb n curr ≡ false
      → (m (page_addr curr)).type ≡ internal
      → answer (suc fuel) curr q n m ≡ answer fuel (child_of q (m (page_addr curr))) q n m
  unfolding answer
  answer_internal inside at = simp (inside, at)

  pub route_out : leb n curr ≡ true → route (suc fuel) curr q n m ≡ some no_page
  unfolding route
  route_out out = rw out refl

  pub route_leaf :
      leb n curr ≡ false
      → (m (page_addr curr)).type ≡ leaf
      → route (suc fuel) curr q n m ≡ some curr
  unfolding route
  route_leaf inside at = simp (inside, at)

  pub route_internal :
      leb n curr ≡ false
      → (m (page_addr curr)).type ≡ internal
      → route (suc fuel) curr q n m ≡ route fuel (child_of q (m (page_addr curr))) q n m
  unfolding route
  route_internal inside at = simp (inside, at)

-- A run that gives an answer, and leaves the pages as they are.
abbrev pub Answers : {A : Type 0} → TreeFile → Option (A × TreeFile) → Option A → Type 0
Answers f none y = y ≡ none
Answers f (some r) y = (y ≡ some r.0) × Keeps f r.1

Answers-Keeps :
    {A : Type 0} (f g : TreeFile) (r : Option (A × TreeFile)) (y : Option A)
    → Keeps f g
    → Answers g r y
    → Answers f r y
Answers-Keeps f g none y k h = h
Answers-Keeps f g (some r) y k h = (h.0, Keeps-trans k h.1)

pub type-cases : (t : NodeType) → (t ≡ leaf) ⊎ (t ≡ internal)
type-cases leaf = inl refl
type-cases internal = inr refl

-- A page that is read is null past the last one, and no page changes.
pub page-cases :
    (f : TreeFile) (pid : ℕ)
    → IsValid f
    → (((Manager.get_page f pid).0 ≡ none) × (leb f.pager.num_pages pid ≡ true))
      ⊎ (((Manager.get_page f pid).0 ≡ some (page_addr pid)) × (leb f.pager.num_pages pid ≡ false))
unfolding Pager.get_page
page-cases f pid v =
    let (found, _) = get_page_transparent f pid v in
    elim (Bool-cases (leb f.pager.num_pages pid)) [
      | inl out ↦ inl (found ∙ rw out refl, out)
      | inr inside ↦ inr (found ∙ rw inside refl, inside)
    ]

-- A walk that goes on over pages that did not change.
Answers-next :
    {A : Type 0} (f g : TreeFile) (pid q : ℕ) (r : Option (A × TreeFile))
    (walk : ℕ → ℕ → (ℕ → BptNode) → Option A)
    → Keeps f g
    → let child = λ (m : ℕ → BptNode). child_of q (m (page_addr pid)) in
      Answers g r (walk (child g.pager.memory) g.pager.num_pages g.pager.memory)
      → Answers f r (walk (child f.pager.memory) f.pager.num_pages f.pager.memory)
Answers-next f g pid q r walk k h =
    let child = λ (m : ℕ → BptNode). child_of q (m (page_addr pid)) in
    let same : walk (child g.pager.memory) g.pager.num_pages g.pager.memory
        ≡ walk (child f.pager.memory) f.pager.num_pages f.pager.memory =
      ap (λ m. walk (child m) g.pager.num_pages m) k.pages.content
      ∙ ap (λ n. walk (child f.pager.memory) n f.pager.memory) k.pages.count in
    Answers-Keeps f g r _ k (subst (λ y. Answers g r y) same h)

-- `search` over the cache answers what the pages say.
pub search_from-Answers :
    (fuel curr q : ℕ) (f : TreeFile)
    → IsValid f
    → Answers f (search_from fuel curr q f) (answer fuel curr q f.pager.num_pages f.pager.memory)
unfolding search_from answer
search_from-Answers zero curr q f v = refl
search_from-Answers (suc fuel) curr q f v =
    let (_, kept) = get_page_transparent f curr v in
    let f' = (Manager.get_page f curr).1 in
    let node = f.pager.memory (page_addr curr) in
    let node' = f'.pager.memory (page_addr curr) in
    let same : node ≡ node' = ap (λ m. m (page_addr curr)) (sym kept.pages.content) in
    let ih = search_from-Answers fuel (child_of q node') q f' kept.valid in
    elim (page-cases f curr v) [
      | inl (null, out) ↦ rw (null, out, search_from, answer) (refl, kept)
      | inr (at, inside) ↦ elim (type-cases node'.type) [
        | inl here ↦
            rw (at, inside, search_from, answer)
              (rw (here, ap BptNode.type same ∙ here) (ap (λ n. some (lookup q n)) same, kept))
        | inr there ↦
            rw (at, inside, search_from, answer)
              (rw (there, ap BptNode.type same ∙ there)
                (Answers-next f f' curr q (search_from fuel (child_of q node') q f')
                  (λ c n m. answer fuel c q n m) kept ih))
      ]
    ]

-- `find_leaf` over the cache goes where the pages lead.
pub find_leaf-Answers :
    (fuel curr q : ℕ) (f : TreeFile)
    → IsValid f
    → Answers f (find_leaf fuel curr q f) (route fuel curr q f.pager.num_pages f.pager.memory)
unfolding find_leaf route
find_leaf-Answers zero curr q f v = refl
find_leaf-Answers (suc fuel) curr q f v =
    let (_, kept) = get_page_transparent f curr v in
    let f' = (Manager.get_page f curr).1 in
    let node' = f'.pager.memory (page_addr curr) in
    let same : f.pager.memory (page_addr curr) ≡ node' =
      ap (λ m. m (page_addr curr)) (sym kept.pages.content) in
    let ih = find_leaf-Answers fuel (child_of q node') q f' kept.valid in
    elim (page-cases f curr v) [
      | inl (null, out) ↦ rw (null, out, find_leaf, route) (refl, kept)
      | inr (at, inside) ↦ elim (type-cases node'.type) [
        | inl here ↦
            rw (at, inside, find_leaf, route) (rw (here, ap BptNode.type same ∙ here) (refl, kept))
        | inr there ↦
            rw (at, inside, find_leaf, route)
              (rw (there, ap BptNode.type same ∙ there)
                (Answers-next f f' curr q (find_leaf fuel (child_of q node') q f')
                  (λ c n m. route fuel c q n m) kept ih))
      ]
    ]
