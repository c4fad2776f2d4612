-- ===== src/Cache/Lru/Preserve.antt =====
-- Every operation of src/cache/lru_cache.cpp keeps the invariant of the cache, and leaves the
-- pages of the pager as they are.
use flex_ql_dl.Base.{
  ℕ, ◌<◌, ◌≡◌, refl, sym, ◌∙◌, Bool, false, List, [], ◌∷◌, Option, arith, leb, inl, inr, length,
  All, Bool-cases, leb→le,
}
use flex_ql_dl.Cache.Lru.{
  CacheEntry, LruCache, clean_entries, get, put, evict_internal, flush_all, clear,
}
use flex_ql_dl.Cache.Lru.Entries.{
  has, back-some, length-pop_back, has-pop_back, Distinct-pop_back, All-pop_back, has-clean_entries,
  Distinct-clean_entries, length-clean_entries,
}
use flex_ql_dl.Cache.Lru.Invariant.{
  Points, PointsInto, IsValid, SamePages, SamePages-refl, SamePages-flush, SamePages-flush_entries,
  get_hit, get_miss, refresh-IsValid, push_front-IsValid,
}

-- A step of the cache: the invariant is kept, and the pages are the same.
pub record Keeps {P : Type 0} (c c' : LruCache P) : Type 0 where
  pub valid : IsValid c'
  pub pages : SamePages c'.pager c.pager
  pub cap : c'.capacity ≡ c.capacity

All-clean_entries :
    (n : ℕ) (l : List CacheEntry) → All (PointsInto n) l → All (PointsInto n) (clean_entries l)
unfolding clean_entries
All-clean_entries n [] h = tt
All-clean_entries n (e ∷ l) h = elim (Bool-cases e.dirty) [
  | inl d ↦ rw d (h.0, All-clean_entries n l h.1)
  | inr d ↦ rw d (h.0, All-clean_entries n l h.1)
]

module _ {P : Type 0} where
  -- What the eviction of the last node leaves.
  pub evict_internal-Keeps :
      (c : LruCache P)
      → IsValid c
      → 0 < length c.lru_list
      → Keeps c (evict_internal c)
        × (length (evict_internal c).lru_list < c.capacity)
        × ((q : ℕ) → c.map q ≡ false → (evict_internal c).map q ≡ false)
  unfolding evict_internal
  evict_internal-Keeps c v some_node =
      let (e, found) = back-some c.lru_list some_node in
      let same = SamePages-flush e.dirty c.pager e.page_id in
      rw (found, evict_internal)
        (
          record {
            valid = record {
              positive = v.positive;
              bounded = omega (arith, length-pop_back c.lru_list some_node, v.bounded);
              distinct = Distinct-pop_back c.lru_list v.distinct;
              mapped =
                  λ q. ground (arith, v.mapped q, has-pop_back c.lru_list e q v.distinct found);
              pointers =
                  rw same.count (All-pop_back (PointsInto c.pager.num_pages) c.lru_list v.pointers);
              defined = v.defined;
            };
            pages = same;
            cap = refl;
          },
          omega (arith, length-pop_back c.lru_list some_node, v.bounded),
          λ q h. ground (arith, h),
        )

  -- `put` keeps the invariant of the cache, its capacity and every page of the pager, on a hit, a
  -- miss and an eviction, when the pointer is null or the one to the page of the id.
  pub put-Keeps :
      (c : LruCache P) (p : ℕ) (page : Option ℕ) (dirty : Bool)
      → IsValid c
      → Points c.pager.num_pages p page
      → Keeps c (put c p page dirty)
  unfolding put
  put-Keeps c p page dirty v points =
      let e : CacheEntry = record { page_id = p; page = page; dirty = dirty } in
      elim (Bool-cases (c.map p)) [
        | inl hit ↦ rw hit (record {
          valid = refresh-IsValid c e v hit points;
          pages = SamePages-refl c.pager;
          cap = refl;
        })
        | inr miss ↦ elim (Bool-cases (leb c.capacity (length c.lru_list))) [
          | inl full ↦
              let filled = leb→le c.capacity (length c.lru_list) full in
              let (kept, room, others) =
                evict_internal-Keeps c v (omega (arith, v.positive, filled)) in
              rw (miss, full)
                (record {
                  valid =
                      push_front-IsValid (evict_internal c) e kept.valid (others p miss)
                        (rw kept.cap room) (rw kept.pages.count points);
                  pages = kept.pages;
                  cap = kept.cap;
                })
          | inr free ↦
              rw (miss, free)
                (record {
                  valid = push_front-IsValid c e v miss (ground (arith, free)) points;
                  pages = SamePages-refl c.pager;
                  cap = refl;
                })
        ]
      ]

  pub get-Keeps :
      (c : LruCache P) (p : ℕ)
      → IsValid c
      → Keeps c (get c p).1 × Points c.pager.num_pages p (get c p).0
  get-Keeps c p v = elim (Bool-cases (c.map p)) [
    | inl hit ↦
        let (e, got, named, points, _) = get_hit c p v hit in
        rw got (
          record {
            valid = rw named at (refresh-IsValid c e v (rw named hit) (rw named points));
            pages = SamePages-refl c.pager;
            cap = refl;
          },
          points,
        )
    | inr miss ↦
        rw (get_miss c p miss)
          (record { valid = v; pages = SamePages-refl c.pager; cap = refl }, tt)
  ]

  pub flush_all-Keeps : (c : LruCache P) → IsValid c → Keeps c (flush_all c)
  unfolding flush_all
  flush_all-Keeps c v =
      let same = SamePages-flush_entries c.pager c.lru_list in
      record {
        valid = record {
          positive = v.positive;
          bounded = rw length-clean_entries v.bounded;
          distinct = Distinct-clean_entries c.lru_list v.distinct;
          mapped = λ q. v.mapped q ∙ sym (has-clean_entries q c.lru_list);
          pointers = rw same.count (All-clean_entries c.pager.num_pages c.lru_list v.pointers);
          defined = v.defined;
        };
        pages = same;
        cap = refl;
      }

  pub clear-Keeps : (c : LruCache P) → IsValid c → Keeps c (clear c)
  unfolding clear has
  clear-Keeps c v = record {
    valid = record {
      positive = v.positive;
      bounded = omega arith;
      distinct = tt;
      mapped = λ q. refl;
      pointers = tt;
      defined = v.defined;
    };
    pages = SamePages-flush_entries c.pager c.lru_list;
    cap = refl;
  }
