-- ===== src/Cache/Manager.antt =====
-- The cache manager (include/cache/cache_manager.h, src/cache/cache_manager.cpp). Its state is
-- the cache, whose pager is the pager of the manager.
pub mod Transparent
pub mod Durable
pub mod Marks
pub mod Sharing
use flex_ql_dl.Base.{ℕ, true, false, Option, none, some}
use flex_ql_dl.Storage.Pager
use flex_ql_dl.Storage.Pager.{Pager}
use flex_ql_dl.Cache.Lru
use flex_ql_dl.Cache.Lru.{LruCache}

module _ {P : Type 0} where
  unfoldable pub new : ℕ → Pager P → LruCache P
  unfolding Lru.new
  new capacity pager = Lru.new capacity pager

  -- The second half of `get_page`, after a miss.
  unfoldable pub load_page : LruCache P → ℕ → Option ℕ × LruCache P
  load_page c page_id =
      let page = Pager.get_page c.pager page_id in (page, Lru.put c page_id page false)

  unfoldable pub get_page : LruCache P → ℕ → Option ℕ × LruCache P
  unfolding load_page
  get_page c page_id =
      let (page, c') = Lru.get c page_id in
      elim page [ some a ↦ (some a, c') | none ↦ load_page c' page_id ]

  unfoldable pub mark_dirty : LruCache P → ℕ → LruCache P
  mark_dirty c page_id =
      let (page, c') = Lru.get c page_id in
      elim page [ some a ↦ Lru.put c' page_id (some a) true | none ↦ c' ]

  unfoldable pub flush : LruCache P → LruCache P
  flush c = Lru.flush_all c

  unfoldable pub clear : LruCache P → LruCache P
  clear c = Lru.clear c
