-- ===== src/Cache/Lru.antt =====
-- The LRU page cache (include/cache/lru_cache.h, src/cache/lru_cache.cpp). The nodes of
-- `lru_list` keep the page id with which they were pushed, so the iterator `map[page_id]` is the
-- node of that id, and `map` is the set of its keys. The pager, which the cache holds by
-- reference, is a field: its owners (the cache, the manager, a column, an index) share this one.
-- `fault` records an access that C++ leaves undefined. The mutex makes each call one step.
pub mod Entries
pub mod Invariant
pub mod Preserve
pub mod Policy
use flex_ql_dl.Base.{
  ℕ, Bool, true, false, List, [], ◌∷◌, Option, none, some, leb, ◌==◌, if◌then◌else◌, update, length,
}
use flex_ql_dl.Storage.Pager
use flex_ql_dl.Storage.Pager.{Pager}

pub record CacheEntry : Type 0 where
  pub page_id : ℕ
  pub page : Option ℕ
  pub dirty : Bool

pub record LruCache (P : Type 0) : Type 0 where
  pub capacity : ℕ
  pub lru_list : List CacheEntry
  pub map : ℕ → Bool
  pub pager : Pager P
  pub fault : Bool

-- The node to which the iterator of a page id points.
unfoldable pub find : ℕ → List CacheEntry → Option CacheEntry
find page_id [] = none
find page_id (e ∷ l) = if e.page_id == page_id then some e else find page_id l

-- The list without that node.
unfoldable pub erase : ℕ → List CacheEntry → List CacheEntry
erase page_id [] = []
erase page_id (e ∷ l) = if e.page_id == page_id then l else e ∷ erase page_id l

-- `lru_list.back()`
unfoldable pub back : List CacheEntry → Option CacheEntry
back [] = none
back (e ∷ []) = some e
back (e ∷ f ∷ l) = back (f ∷ l)

-- `lru_list.pop_back()`
unfoldable pub pop_back : List CacheEntry → List CacheEntry
pop_back [] = []
pop_back (e ∷ []) = []
pop_back (e ∷ f ∷ l) = e ∷ pop_back (f ∷ l)

-- The body of the loop of `flush_all_internal`: the pager after the loop, and the list.
unfoldable pub flush_entries : {P : Type 0} → Pager P → List CacheEntry → Pager P
flush_entries p [] = p
flush_entries p (e ∷ l) = flush_entries (if e.dirty then Pager.flush p e.page_id else p) l

unfoldable pub clean_entries : List CacheEntry → List CacheEntry
clean_entries [] = []
clean_entries (e ∷ l) = (if e.dirty then record e { dirty = false } else e) ∷ clean_entries l

module _ {P : Type 0} where
  unfoldable pub new : ℕ → Pager P → LruCache P
  new capacity pager = record {
    capacity = capacity;
    lru_list = [];
    map = λ _. false;
    pager = pager;
    fault = false;
  }

  unfoldable pub get : LruCache P → ℕ → Option ℕ × LruCache P
  unfolding find erase
  get c page_id =
      if c.map page_id
      then elim (find page_id c.lru_list) [
        | some e ↦ (e.page, record c { lru_list = e ∷ erase page_id c.lru_list })
        | none ↦ (none, record c { fault = true })
      ]
      else (none, c)

  unfoldable pub evict_internal : LruCache P → LruCache P
  unfolding back pop_back
  evict_internal c = elim (back c.lru_list) [
    | none ↦ record c { fault = true }
    | some last ↦ record c {
      pager = (if last.dirty then Pager.flush c.pager last.page_id else c.pager);
      lru_list = pop_back c.lru_list;
      map = update c.map last.page_id false;
    }
  ]

  -- `lru_list.push_front(…)`, and the entry of the map.
  unfoldable pub push_front : LruCache P → CacheEntry → LruCache P
  push_front c e = record c { lru_list = e ∷ c.lru_list; map = update c.map e.page_id true }

  unfoldable pub put : LruCache P → ℕ → Option ℕ → Bool → LruCache P
  unfolding erase evict_internal push_front
  put c page_id page dirty =
      let entry : CacheEntry = record { page_id = page_id; page = page; dirty = dirty } in
      if c.map page_id
      then record c { lru_list = entry ∷ erase page_id c.lru_list }
      else push_front (if leb c.capacity (length c.lru_list) then evict_internal c else c) entry

  unfoldable pub exists : LruCache P → ℕ → Bool
  exists c page_id = c.map page_id

  unfoldable pub flush_all_internal : LruCache P → LruCache P
  unfolding flush_entries clean_entries
  flush_all_internal c = record c {
    pager = flush_entries c.pager c.lru_list;
    lru_list = clean_entries c.lru_list;
  }

  unfoldable pub flush_all : LruCache P → LruCache P
  unfolding flush_all_internal
  flush_all c = flush_all_internal c

  unfoldable pub clear : LruCache P → LruCache P
  unfolding flush_all_internal
  clear c = record (flush_all_internal c) { lru_list = []; map = λ _. false }

  unfoldable pub evict : LruCache P → LruCache P
  unfolding evict_internal
  evict c = evict_internal c
