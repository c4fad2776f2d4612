-- ===== src/Cache/Manager/Sharing.antt =====
-- The owners of a pager allocate pages and write through pointers behind the back of the cache:
-- its invariant does not notice.
use flex_ql_dl.Base.{ℕ, ◌+◌, ◌%◌, ◌<◌, ◌≤◌, ◌≡◌, Option, none, some, arith, All-map}
use flex_ql_dl.Storage.Pager
use flex_ql_dl.Storage.Pager.{Pager, u32_mod}
use flex_ql_dl.Cache.Lru
use flex_ql_dl.Cache.Lru.{CacheEntry, LruCache}
use flex_ql_dl.Cache.Lru.Preserve.{clear-Keeps}
use flex_ql_dl.Cache.Manager
use flex_ql_dl.Cache.Lru.Invariant.{Points, PointsInto, IsValid}

Points-le : (m n pid : ℕ) (page : Option ℕ) → m ≤ n → Points m pid page → Points n pid page
Points-le m n pid none h p = tt
Points-le m n pid (some a) h p = (p.0, omega (arith, p.1, h))

module _ {P : Type 0} (f : LruCache P) where
  pub allocate-IsValid :
      f.pager.num_pages + 1 < u32_mod
      → IsValid f
      → IsValid (record f { pager = (Pager.allocate_page f.pager).1 })
        × ((Pager.allocate_page f.pager).1.num_pages ≡ f.pager.num_pages + 1)
  unfolding Pager.allocate_page
  allocate-IsValid h v =
      let next : (f.pager.num_pages + 1) % u32_mod ≡ f.pager.num_pages + 1 = omega (arith, h) in
      (
        record {
          positive = v.positive;
          bounded = v.bounded;
          distinct = v.distinct;
          mapped = v.mapped;
          pointers = rw next (
              All-map (PointsInto f.pager.num_pages) (PointsInto (f.pager.num_pages + 1)) f.lru_list
                (λ e.
                  Points-le f.pager.num_pages (f.pager.num_pages + 1) e.page_id e.page
                    (omega arith))
                v.pointers);
          defined = v.defined;
        },
        next,
      )

  pub poke-IsValid :
      (a : ℕ) (x : P) → IsValid f → IsValid (record f { pager = Pager.poke f.pager a x })
  poke-IsValid a x v = record {
    positive = v.positive;
    bounded = v.bounded;
    distinct = v.distinct;
    mapped = v.mapped;
    pointers = v.pointers;
    defined = v.defined;
  }

  -- The cache is cleared before the pager is, so no pointer into the old pages is left.
  pub clear-IsValid :
      IsValid f → IsValid (record (Manager.clear f) { pager = Pager.clear (Manager.clear f).pager })
  unfolding Manager.clear Lru.clear Pager.clear
  clear-IsValid v =
      let kept = clear-Keeps f v in
      record {
        positive = kept.valid.positive;
        bounded = kept.valid.bounded;
        distinct = kept.valid.distinct;
        mapped = kept.valid.mapped;
        pointers = tt;
        defined = kept.valid.defined;
      }
