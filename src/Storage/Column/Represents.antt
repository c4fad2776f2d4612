-- ===== src/Storage/Column/Represents.antt =====
-- When a column file holds a list of rows, each of the same size: the pages are filled in order.
use flex_ql_dl.Base.{
  ℕ, ◌+◌, ◌-◌, ◌*◌, ◌/◌, ◌<◌, ◌≤◌, ◌≡◌, List, Option, none, some, arith, length, get_elem?, All,
  read_bytes, lt→leb, ◌∙◌, sym, ◌≢◌, update, update_self, update_ne,
}
use Prim.Native.Nat.{min}
use native.Mathlib.Nat.{le-div_iff_mul-le, div-le_self}
use flex_ql_dl.Storage.Pager
use flex_ql_dl.Storage.Pager.{Pager, page_addr, max_pages}
use flex_ql_dl.Cache.Lru.Preserve.{Keeps}
use flex_ql_dl.Cache.Manager
use flex_ql_dl.Cache.Manager.Transparent.{get_page_transparent}
use flex_ql_dl.Cache.Lru.Invariant
use flex_ql_dl.Cache.Lru.Invariant.{SamePages}
use flex_ql_dl.Storage.Column.{ColumnPage, ColumnFile, ColumnStore, body_size}

-- The items of a size that fit into a page.
abbrev pub per_page : ℕ → ℕ
per_page size = body_size / size

-- The content of a page.
abbrev pub page_of : Pager ColumnPage → ℕ → ColumnPage
page_of p pid = p.memory (page_addr pid)

-- The rows are laid out in the pages in order: every page is full but the last, each header
-- counts the items of its page, and the slot of a row holds the bytes of the row.
pub record Layout (size : ℕ) (rows : List (List ℕ)) (p : Pager ColumnPage) : Type 0 where
  pub enough : length rows ≤ p.num_pages * per_page size
  pub tight : p.num_pages * per_page size ≤ length rows + per_page size
  pub mapped : p.num_pages ≤ max_pages
  pub items :
      (pid : ℕ)
      → pid < p.num_pages
      → (page_of p pid).num_items ≡ min (per_page size) (length rows - pid * per_page size)
  pub slots :
      (pid j : ℕ)
      → pid < p.num_pages
      → j < per_page size
      → pid * per_page size + j < length rows
      → some (read_bytes (page_of p pid).body (j * size) size)
        ≡ get_elem? rows (pid * per_page size + j)

-- The item size is one that fits into a page.
abbrev pub Fits : ℕ → Type 0
Fits size = (0 < size) × (size ≤ body_size)

pub record Holds (size : ℕ) (rows : List (List ℕ)) (f : ColumnFile) : Type 0 where
  pub valid : Invariant.IsValid f
  pub layout : Layout size rows f.pager

-- The page that is kept open is the last one.
abbrev pub LastPage : ℕ → ℕ → ColumnStore → Type 0
LastPage pages a c =
    (0 < pages)
    × (a ≡ page_addr (pages - 1))
    × (c.active_header ≡ some a)
    × (c.active_page_idx ≡ pages - 1)

abbrev pub ActiveIs : ℕ → Option ℕ → ColumnStore → Type 0
ActiveIs pages none c = Unit
ActiveIs pages (some a) c = LastPage pages a c

pub ActiveIs-frame :
    (m n : ℕ) (page : Option ℕ) (c d : ColumnStore)
    → n ≡ m
    → d.active_header ≡ c.active_header
    → d.active_page_idx ≡ c.active_page_idx
    → ActiveIs m page c
    → ActiveIs n page d
ActiveIs-frame m n none c d e h i a = tt
ActiveIs-frame m n (some x) c d e h i a = rw (e, h, i) a

-- The column holds the rows.
pub record Represents (size : ℕ) (rows : List (List ℕ)) (c : ColumnStore) : Type 0 where
  pub holds : Holds size rows c.file
  pub widths : All (λ r. length r ≡ size) rows
  pub total : c.total_rows ≡ length rows
  pub active : ActiveIs c.file.pager.num_pages c.active_page c

pub page_addr_inj : (p q : ℕ) → p < max_pages → q < max_pages → page_addr p ≡ page_addr q → p ≡ q
unfolding page_addr
page_addr_inj p q hp hq e = omega arith

pub per_page_bounds : (size : ℕ) → Fits size → (0 < per_page size) × (per_page size ≤ body_size)
per_page_bounds size h = ((le-div_iff_mul-le h.0).1 (omega arith), div-le_self body_size size)

-- The slot of an item lies inside the page.
pub slot_in_page : (size j : ℕ) → Fits size → j < per_page size → (j * size + size ≤ body_size)
slot_in_page size j h k = let whole = (le-div_iff_mul-le h.0).0 k in omega (arith, whole)

-- What is laid out does not depend on the calls of `msync`.
pub Layout-SamePages :
    (size : ℕ) (rows : List (List ℕ)) (p q : Pager ColumnPage)
    → SamePages q p
    → Layout size rows p
    → Layout size rows q
Layout-SamePages size rows p q s l = record {
  enough = rw s.count l.enough;
  tight = rw s.count l.tight;
  mapped = rw s.count l.mapped;
  items = rw (s.count, s.content) l.items;
  slots = rw (s.count, s.content) l.slots;
}

-- A page that is handed out is read through the cache, and nothing that is held changes.
pub page_read :
    (f : ColumnFile) (pid : ℕ)
    → Invariant.IsValid f
    → pid < f.pager.num_pages
    → ((Manager.get_page f pid).0 ≡ some (page_addr pid)) × Keeps f (Manager.get_page f pid).1
unfolding Pager.get_page
page_read f pid v h =
    let (answer, kept) = get_page_transparent f pid v in
    let found : Pager.get_page f.pager pid ≡ some (page_addr pid) = rw (lt→leb _ _ h) in
    (answer ∙ found, kept)

pub Keeps-Holds :
    {f f' : ColumnFile} (size : ℕ) (rows : List (List ℕ))
    → Keeps f f'
    → Holds size rows f
    → Holds size rows f'
Keeps-Holds {f} {f'} size rows k h = record {
  valid = k.valid;
  layout = Layout-SamePages size rows f.pager f'.pager k.pages h.layout;
}

-- The pages under a write to the page `m`.
module _ (p q : Pager ColumnPage) (m : ℕ) (x : ColumnPage)
    (content : q.memory ≡ update p.memory (page_addr m) x) (room : m < max_pages) where
  pub page_of_written : page_of q m ≡ x
  page_of_written = rw content (update_self p.memory (page_addr m) x)

  pub page_of_other : (pid : ℕ) → pid < max_pages → pid ≢ m → page_of q pid ≡ page_of p pid
  page_of_other pid h ne = rw content (
      update_ne p.memory (page_addr m) (page_addr pid) x
        (λ e. ne (sym (page_addr_inj m pid room h e))))
