-- ===== src/Cache.antt =====
-- src/cache: the LRU page cache and the cache manager in front of the pager.
pub mod Lru
pub mod Manager
mod Tests
