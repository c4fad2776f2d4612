-- ===== src/Storage/Pager.antt =====
-- The pager (include/storage/page.h, include/storage/pager.h, src/storage/pager.cpp): a file of
-- 1 GB, mapped into memory, and the count of the pages handed out. `P` is the view that the
-- owner of the file has of a page. The memory is indexed by the offset of a page from the start
-- of the mapping, and a `Page*` is that offset; the calls of `msync` are recorded.
pub mod Bounds
use flex_ql_dl.Base.{
  ℕ, ◌+◌, ◌*◌, ◌%◌, ◌^◌, Bool, true, false, List, [], ◌∷◌, Option, none, some, leb, if◌then◌else◌,
  update, ◌&&◌,
}

abbrev pub page_size : ℕ
page_size = 4096

abbrev pub u32_mod : ℕ
u32_mod = 2 ^ 32

abbrev pub u64_mod : ℕ
u64_mod = 2 ^ 64

-- `1ULL << 30`
abbrev pub max_file_size : ℕ
max_file_size = 2 ^ 30

-- `0xFFFFFFFF`, the page id that stands for no page.
abbrev pub no_page : ℕ
no_page = 0xFFFFFFFF

-- The pages that fit into the mapped file.
abbrev pub max_pages : ℕ
max_pages = 2 ^ 18

-- A call of `msync`: on the page at an offset, or on the whole file.
pub data Sync : Type 0 where
  page_at : ℕ → Sync
  whole_file : Sync

pub record Pager (P : Type 0) : Type 0 where
  pub num_pages : ℕ
  pub memory : ℕ → P
  pub syncs : List Sync

-- `page_id * PAGE_SIZE`, a product of two `uint32_t`.
unfoldable pub page_addr : ℕ → ℕ
page_addr page_id = (page_id * page_size) % u32_mod

module _ {P : Type 0} where
  -- The constructor, given whether `open`, `ftruncate` and `mmap` succeed and what the file
  -- holds; `none` is `exit(1)`.
  unfoldable pub new : Bool → Bool → Bool → (ℕ → P) → Option (Pager P)
  new opened truncated mapped contents =
      if opened && truncated && mapped
      then some (record { num_pages = 0; memory = contents; syncs = [] })
      else none

  unfoldable pub get_page : Pager P → ℕ → Option ℕ
  get_page p page_id = if leb p.num_pages page_id then none else some (page_addr page_id)

  unfoldable pub allocate_page : Pager P → ℕ × Pager P
  allocate_page p = (p.num_pages, record p { num_pages = (p.num_pages + 1) % u32_mod })

  unfoldable pub flush : Pager P → ℕ → Pager P
  flush p page_id = record p { syncs = page_at (page_addr page_id) ∷ p.syncs }

  unfoldable pub flush_all : Pager P → Pager P
  flush_all p = record p { syncs = whole_file ∷ p.syncs }

  unfoldable pub clear : Pager P → Pager P
  clear p = record p { num_pages = 0 }

  -- `*page = v`, through a pointer into the mapping.
  abbrev pub poke : Pager P → ℕ → P → Pager P
  poke p addr v = record p { memory = update p.memory addr v }
