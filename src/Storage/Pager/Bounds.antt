-- ===== src/Storage/Pager/Bounds.antt =====
-- The pages of the pager lie in the mapped file and apart from one another.
use flex_ql_dl.Base.{ℕ, ◌+◌, ◌≤◌, ◌<◌, ◌≢◌, ◌⊎◌, arith}
use flex_ql_dl.Storage.Pager.{page_addr, page_size, max_pages, max_file_size}

-- Two different page ids below 2^18 name pages that lie inside the 1 GB mapping and do not overlap.
pub page_addr_apart :
    (p q : ℕ)
    → p < max_pages
    → q < max_pages
    → p ≢ q
    → (page_addr p + page_size ≤ max_file_size)
      × ((page_addr p + page_size ≤ page_addr q) ⊎ (page_addr q + page_size ≤ page_addr p))
unfolding page_addr
page_addr_apart p q hp hq ne = (omega arith, ground arith)
