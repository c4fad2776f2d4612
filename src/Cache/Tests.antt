-- ===== src/Cache/Tests.antt =====
-- Runs of the cache on concrete pages, and the theorems at concrete inputs.
use flex_ql_dl.Base.{ℕ, ◌≡◌, refl, true, false, List, [], ◌∷◌, ◌++◌, none, arith, take}
use flex_ql_dl.Storage.Pager
use flex_ql_dl.Storage.Pager.{Pager, Sync, page_at, page_addr}
use flex_ql_dl.Cache.Lru
use flex_ql_dl.Cache.Lru.{CacheEntry, LruCache, erase, find, back, pop_back}
use flex_ql_dl.Cache.Lru.Invariant.{IsValid, new-IsValid}
use flex_ql_dl.Cache.Lru.Preserve.{Keeps, put-Keeps}
use flex_ql_dl.Cache.Lru.Policy.{put_policy}
use flex_ql_dl.Cache.Manager
use flex_ql_dl.Cache.Manager.Transparent.{get_page_transparent, mark_dirty-Keeps}
use flex_ql_dl.Cache.Manager.Durable.{NoLoss, is_dirty, synced}
use flex_ql_dl.Cache.Manager.Marks.{
  NullsClean, get_page-NoLoss, mark_dirty-NoLoss, flush_all_marked,
}

program : Unit {0}
unfolding Manager.get_page Manager.mark_dirty Manager.flush Lru.new Lru.get Lru.put Lru.flush_all
    Pager.get_page Pager.flush page_addr Lru.find Lru.erase Lru.back Lru.pop_back
program = tt

abbrev pages : Pager ℕ
pages = record { num_pages = 5; memory = λ i. i; syncs = [] }

abbrev empty : LruCache ℕ
empty = Lru.new 2 pages

-- Two pages are read, the first is marked, and two more push both out.
abbrev marked : LruCache ℕ
marked = Manager.mark_dirty (Manager.get_page empty 1).1 1

evicted_in_order :
    (Manager.get_page (Manager.get_page marked 2).1 3).1.pager.syncs ≡ page_at 4096 ∷ []
unfolding program
evicted_in_order = refl

past_the_end : (Manager.get_page marked 9).0 ≡ none
unfolding program
past_the_end = refl

empty-IsValid : IsValid empty
empty-IsValid = new-IsValid 2 pages (omega arith)

read-Keeps : Keeps empty (Manager.get_page empty 1).1
read-Keeps = (get_page_transparent empty 1 empty-IsValid).1

read-IsValid : IsValid (Manager.get_page empty 1).1
read-IsValid = read-Keeps.valid

empty-NullsClean : NullsClean empty.lru_list
unfolding Lru.new
empty-NullsClean = tt

marked-Keeps : Keeps (Manager.get_page empty 1).1 marked
marked-Keeps = mark_dirty-Keeps (Manager.get_page empty 1).1 1 read-IsValid

marked-NullsClean : NullsClean marked.lru_list
marked-NullsClean =
    (mark_dirty-NoLoss (Manager.get_page empty 1).1 1 read-IsValid
      (get_page-NoLoss empty 1 empty-IsValid empty-NullsClean).1).1

get_page_transparent_example :
    ((Manager.get_page marked 9).0 ≡ Pager.get_page marked.pager 9)
    × Keeps marked (Manager.get_page marked 9).1
get_page_transparent_example = get_page_transparent marked 9 marked-Keeps.valid

get_page-NoLoss_example :
    NoLoss marked (Manager.get_page marked 2).1 × NullsClean (Manager.get_page marked 2).1.lru_list
get_page-NoLoss_example = get_page-NoLoss marked 2 marked-Keeps.valid marked-NullsClean

flush_all_marked_example :
    (fresh : List Sync) × ((Manager.flush marked).pager.syncs ≡ fresh ++ marked.pager.syncs)
    × ((q : ℕ) → is_dirty q marked.lru_list ≡ true → synced (page_addr q) fresh ≡ true)
    × ((q : ℕ) → is_dirty q (Manager.flush marked).lru_list ≡ false)
flush_all_marked_example = flush_all_marked marked

put_policy_example :
    (Lru.put marked 4 none false).lru_list
    ≡ take marked.capacity
        (record { page_id = 4; page = none; dirty = false } ∷ erase 4 marked.lru_list)
put_policy_example = put_policy marked 4 none false marked-Keeps.valid

put-Keeps_example : Keeps marked (Lru.put marked 4 none false)
put-Keeps_example = put-Keeps marked 4 none false marked-Keeps.valid tt
