-- ===== src/Cache/Manager/Marks.antt =====
-- The dirty marks under the operations of src/cache/cache_manager.cpp.
use flex_ql_dl.Base.{
  ℕ, ◌≡◌, refl, sym, ◌∙◌, Bool, true, false, List, ◌∷◌, ◌++◌, Option, none, some, arith, inl, inr,
  leb, length, All, Bool-cases, Option-cases,
}
use flex_ql_dl.Storage.Pager
use flex_ql_dl.Storage.Pager.{page_addr}
use flex_ql_dl.Cache.Lru
use flex_ql_dl.Cache.Lru.{
  CacheEntry, LruCache, find, erase, back, pop_back, evict_internal, push_front,
}
use flex_ql_dl.Cache.Lru.Entries.{has-erase, find-has, All-erase, All-pop_back}
use flex_ql_dl.Cache.Lru.Invariant.{IsValid, get_hit, get_miss}
use flex_ql_dl.Cache.Lru.Preserve.{get-Keeps}
use flex_ql_dl.Cache.Manager.{get_page, mark_dirty, flush}
use flex_ql_dl.Cache.Manager.Durable.{
  is_dirty, synced, NoLoss, is_dirty-has, is_dirty-clean_entries, NoLoss-trans, put-NoLoss,
  get-NoLoss, flush_entries-covers,
}

-- A node with a null pointer is not marked dirty.
abbrev pub CleanIfNull : Option ℕ → Bool → Type 0
CleanIfNull none dirty = dirty ≡ false
CleanIfNull (some a) dirty = Unit

abbrev NullIsClean : CacheEntry → Type 0
NullIsClean e = CleanIfNull e.page e.dirty

abbrev pub NullsClean : List CacheEntry → Type 0
NullsClean = All NullIsClean

clean_of_null :
    (page : Option ℕ) (dirty : Bool) → page ≡ none → CleanIfNull page dirty → dirty ≡ false
clean_of_null none dirty e h = h
clean_of_null (some a) dirty e h = absurd (ground arith)

module _ {P : Type 0} where
  evict_internal-NullsClean :
      (c : LruCache P) → NullsClean c.lru_list → NullsClean (evict_internal c).lru_list
  unfolding evict_internal
  evict_internal-NullsClean c n = elim (Option-cases (back c.lru_list)) [
    | inl empty ↦ rw (empty, evict_internal) n
    | inr (e, found) ↦ rw (found, evict_internal) (All-pop_back NullIsClean c.lru_list n)
  ]

  put-NullsClean :
      (c : LruCache P) (p : ℕ) (page : Option ℕ) (dirty : Bool)
      → NullsClean c.lru_list
      → CleanIfNull page dirty
      → NullsClean (Lru.put c p page dirty).lru_list
  unfolding Lru.put
  put-NullsClean c p page dirty n h = elim (Bool-cases (c.map p)) [
    | inl hit ↦ rw hit (h, All-erase NullIsClean p c.lru_list n)
    | inr miss ↦ elim (Bool-cases (leb c.capacity (length c.lru_list))) [
      | inl full ↦ rw (miss, full) (h, evict_internal-NullsClean c n)
      | inr free ↦ rw (miss, free) (h, n)
    ]
  ]

  get-NullsClean :
      (c : LruCache P) (p : ℕ)
      → IsValid c
      → NullsClean c.lru_list
      → NullsClean (Lru.get c p).1.lru_list
  get-NullsClean c p v n = elim (Bool-cases (c.map p)) [
    | inl hit ↦
        let (e, got, _, _, found) = get_hit c p v hit in
        let (x, found', _, clean) = find-has NullIsClean p c.lru_list (sym (v.mapped p) ∙ hit) n in
        let same : e ≡ x = cc in rw got (rw same clean, All-erase NullIsClean p c.lru_list n)
    | inr miss ↦ rw (get_miss c p miss) n
  ]

  -- After a `get` that answers null, the page is not marked.
  get_null-clean :
      (c : LruCache P) (p : ℕ)
      → IsValid c
      → NullsClean c.lru_list
      → (Lru.get c p).0 ≡ none
      → is_dirty p (Lru.get c p).1.lru_list ≡ false
  unfolding is_dirty
  get_null-clean c p v n null = elim (Bool-cases (c.map p)) [
    | inl hit ↦
        let (e, got, named, _, found) = get_hit c p v hit in
        let clean = get-NullsClean c p v n in
        let head : NullsClean (e ∷ erase p c.lru_list) = rw got at clean in
        let null_page : e.page ≡ none = rw got at null in
        let gone =
          is_dirty-has p (erase p c.lru_list)
            (has-erase p p c.lru_list v.distinct ∙ ground arith) in
        rw got (ground (arith, gone, clean_of_null e.page e.dirty null_page head.0))
    | inr miss ↦ rw (get_miss c p miss) (is_dirty-has p c.lru_list (sym (v.mapped p) ∙ miss))
  ]

  -- `get_page` loses no dirty mark, whatever it evicts.
  pub get_page-NoLoss :
      (c : LruCache P) (p : ℕ)
      → IsValid c
      → NullsClean c.lru_list
      → NoLoss c (get_page c p).1 × NullsClean (get_page c p).1.lru_list
  unfolding get_page
  get_page-NoLoss c p v n =
      let c' = (Lru.get c p).1 in
      let (kept, _) = get-Keeps c p v in
      let clean = get-NullsClean c p v n in
      let page = Pager.get_page c'.pager p in
      elim (Option-cases (Lru.get c p).0) [
        | inl null ↦
            rw (null, get_page)
              (
                NoLoss-trans c c' _ (get-NoLoss c p v) (
                    put-NoLoss c' p page false kept.valid
                      λ marked. sym (get_null-clean c p v n null) ∙ marked),
                put-NullsClean c' p page false clean (unmarked page),
              )
        | inr (a, hit) ↦ rw (hit, get_page) (get-NoLoss c p v, clean)
      ]
    where
      unmarked : (page : Option ℕ) → CleanIfNull page false
      unmarked none = refl
      unmarked (some a) = tt

  -- `mark_dirty` loses no mark, and marks the page if it is cached.
  pub mark_dirty-NoLoss :
      (c : LruCache P) (p : ℕ)
      → IsValid c
      → NullsClean c.lru_list
      → NoLoss c (mark_dirty c p) × NullsClean (mark_dirty c p).lru_list
  unfolding mark_dirty
  mark_dirty-NoLoss c p v n =
      let c' = (Lru.get c p).1 in
      let (kept, _) = get-Keeps c p v in
      let clean = get-NullsClean c p v n in
      elim (Option-cases (Lru.get c p).0) [
        | inl null ↦ rw (null, mark_dirty) (get-NoLoss c p v, clean)
        | inr (a, hit) ↦
            rw (hit, mark_dirty)
              (
                NoLoss-trans c c' _ (get-NoLoss c p v)
                    (put-NoLoss c' p (some a) true kept.valid λ _. refl),
                put-NullsClean c' p (some a) true clean tt,
              )
      ]

  -- `flush` calls `msync` on every page that is marked, and leaves no mark.
  pub flush_all_marked :
      (c : LruCache P)
      → (fresh : List Pager.Sync) × ((flush c).pager.syncs ≡ fresh ++ c.pager.syncs)
        × ((q : ℕ) → is_dirty q c.lru_list ≡ true → synced (page_addr q) fresh ≡ true)
        × ((q : ℕ) → is_dirty q (flush c).lru_list ≡ false)
  unfolding flush Lru.flush_all
  flush_all_marked c =
      let (fresh, appended, covered) = flush_entries-covers c.pager c.lru_list in
      (fresh, appended, covered, λ q. is_dirty-clean_entries q c.lru_list)
