-- ===== src/Cache/Lru/Invariant.antt =====
-- The invariant of the cache, and that every operation of src/cache/lru_cache.cpp keeps it.
use flex_ql_dl.Base.{
  ℕ, ◌<◌, ◌≤◌, ◌≡◌, refl, sym, ◌∙◌, Bool, true, false, List, [], ◌∷◌, Option, none, some, arith,
  if◌then◌else◌, length, All,
}
use flex_ql_dl.Storage.Pager
use flex_ql_dl.Storage.Pager.{Pager, page_addr}
use flex_ql_dl.Cache.Lru.{CacheEntry, LruCache, find, erase, flush_entries, new, get, push_front}
use flex_ql_dl.Cache.Lru.Entries.{
  has, Distinct, has-erase, Distinct-erase, length-erase, All-erase, find-has,
}

-- A cached pointer is null, or points to the page of its id, which the pager has handed out.
abbrev pub Points : ℕ → ℕ → Option ℕ → Type 0
Points pages page_id none = Unit
Points pages page_id (some a) = (a ≡ page_addr page_id) × (page_id < pages)

abbrev pub PointsInto : ℕ → CacheEntry → Type 0
PointsInto pages e = Points pages e.page_id e.page

pub record IsValid {P : Type 0} (c : LruCache P) : Type 0 where
  pub positive : 0 < c.capacity
  pub bounded : length c.lru_list ≤ c.capacity
  pub distinct : Distinct c.lru_list
  pub mapped : (q : ℕ) → c.map q ≡ has q c.lru_list
  pub pointers : All (PointsInto c.pager.num_pages) c.lru_list
  pub defined : c.fault ≡ false

-- Two pagers with the same pages, whatever was synced.
pub record SamePages {P : Type 0} (p q : Pager P) : Type 0 where
  pub count : p.num_pages ≡ q.num_pages
  pub content : p.memory ≡ q.memory

module _ {P : Type 0} where
  pub SamePages-refl : (p : Pager P) → SamePages p p
  SamePages-refl p = record { count = refl; content = refl }

  pub SamePages-trans : {p q r : Pager P} → SamePages p q → SamePages q r → SamePages p r
  SamePages-trans h k = record { count = h.count ∙ k.count; content = h.content ∙ k.content }

  pub SamePages-flush :
      (dirty : Bool) (p : Pager P) (q : ℕ) → SamePages (if dirty then Pager.flush p q else p) p
  unfolding Pager.flush
  SamePages-flush true p q = record { count = refl; content = refl }
  SamePages-flush false p q = record { count = refl; content = refl }

  pub SamePages-flush_entries :
      (p : Pager P) (l : List CacheEntry) → SamePages (flush_entries p l) p
  unfolding flush_entries
  SamePages-flush_entries p [] = SamePages-refl p
  SamePages-flush_entries p (e ∷ l) =
      SamePages-trans (SamePages-flush_entries (if e.dirty then Pager.flush p e.page_id else p) l)
        (SamePages-flush e.dirty p e.page_id)

  -- A cache over an empty list of nodes.
  pub new-IsValid : (capacity : ℕ) (p : Pager P) → 0 < capacity → IsValid (new capacity p)
  unfolding new has
  new-IsValid capacity p h = record {
    positive = h;
    bounded = omega arith;
    distinct = tt;
    mapped = λ q. refl;
    pointers = tt;
    defined = refl;
  }

  -- A hit hands out the pointer of the node, and moves the node to the front.
  pub get_hit :
      (c : LruCache P) (p : ℕ)
      → IsValid c
      → c.map p ≡ true
      → (e : CacheEntry) × (get c p ≡ (e.page, record c { lru_list = e ∷ erase p c.lru_list }))
        × (e.page_id ≡ p)
        × Points c.pager.num_pages p e.page
        × (find p c.lru_list ≡ some e)
  unfolding get
  get_hit c p v h =
      let (e, found, named, points) =
        find-has (PointsInto c.pager.num_pages) p c.lru_list (sym (v.mapped p) ∙ h) v.pointers in
      (e, rw (h, found), named, rw named at points, found)

  pub get_miss : (c : LruCache P) (p : ℕ) → c.map p ≡ false → get c p ≡ (none, c)
  unfolding get
  get_miss c p h = rw h

  -- A node with the page id in front of the others.
  module _ (c : LruCache P) (e : CacheEntry) (v : IsValid c) where
    pub refresh-IsValid :
        c.map e.page_id ≡ true
        → PointsInto c.pager.num_pages e
        → IsValid (record c { lru_list = e ∷ erase e.page_id c.lru_list })
    unfolding has
    refresh-IsValid h points = record {
      positive = v.positive;
      bounded = ground (arith, v.mapped e.page_id, length-erase e.page_id c.lru_list, v.bounded);
      distinct = (
        ground (arith, has-erase e.page_id e.page_id c.lru_list v.distinct),
        Distinct-erase e.page_id c.lru_list v.distinct,
      );
      mapped = λ q.
          ground
            (arith, v.mapped q, v.mapped e.page_id, has-erase e.page_id q c.lru_list v.distinct);
      pointers = (points, All-erase (PointsInto c.pager.num_pages) e.page_id c.lru_list v.pointers);
      defined = v.defined;
    }

    pub push_front-IsValid :
        c.map e.page_id ≡ false
        → length c.lru_list < c.capacity
        → PointsInto c.pager.num_pages e
        → IsValid (push_front c e)
    unfolding has push_front
    push_front-IsValid h room points = record {
      positive = v.positive;
      bounded = room;
      distinct = (ground (arith, v.mapped e.page_id), v.distinct);
      mapped = λ q. ground (arith, v.mapped q);
      pointers = (points, v.pointers);
      defined = v.defined;
    }
