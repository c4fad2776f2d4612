-- ===== src/Storage/Column.antt =====
-- A column file: `ColumnStore` (include/storage/column_store.h, src/storage/column_store.cpp).
-- A page is seen as its header and the 4088 bytes behind it, indexed from the end of the header.
-- The cache manager of the column, with its pager, is `file`. A null pointer that is dereferenced
-- sets `fault` there, and nothing more happens. An item size of 0 divides by zero in the source;
-- the callers pass 4, 8 and 128.
pub mod Represents
pub mod Open
pub mod Write
pub mod Append
pub mod Lifecycle
use flex_ql_dl.Base.{
  ℕ, zero, suc, ◌+◌, ◌-◌, ◌*◌, ◌/◌, ◌%◌, Bool, true, false, not, ◌||◌, List, [], ◌∷◌, Option, none,
  some, leb, ◌==◌, if◌then◌else◌, take, write_bytes,
}
use flex_ql_dl.Storage.Pager
use flex_ql_dl.Storage.Pager.{Pager, u32_mod, u64_mod, no_page}
use flex_ql_dl.Cache.Lru.{LruCache}
use flex_ql_dl.Cache.Manager

-- `ColumnPageHeader`, and what follows it in the page.
pub record ColumnPage : Type 0 where
  pub num_items : ℕ
  pub item_size : ℕ
  pub body : ℕ → ℕ

-- `4096 - sizeof(ColumnPageHeader)`
abbrev pub body_size : ℕ
body_size = 4088

-- The slots of `insert_variable`.
abbrev pub slot_size : ℕ
slot_size = 128

abbrev pub ColumnFile : Type 0
ColumnFile = LruCache ColumnPage

pub record ColumnStore : Type 0 where
  pub file : ColumnFile
  pub total_rows : ℕ
  pub active_page : Option ℕ
  pub active_header : Option ℕ
  pub active_page_idx : ℕ

-- A null pointer is dereferenced.
abbrev pub crash : ColumnFile → ColumnFile
crash f = record f { fault = true }

-- `*page = v`
abbrev pub poke : ColumnFile → ℕ → ColumnPage → ColumnFile
poke f a v = record f { pager = Pager.poke f.pager a v }

-- `total += h->num_items` over the pages from `i` on, for `n` pages.
unfoldable pub sum_items : ℕ → ℕ → ColumnFile → ℕ → ℕ × ColumnFile
sum_items zero i f total = (total, f)
sum_items (suc n) i f total =
    let (page, f') = Manager.get_page f i in
    elim page [
      | none ↦ (total, crash f')
      | some a ↦ sum_items n (i + 1) f' ((total + (f'.pager.memory a).num_items) % u64_mod)
    ]

-- The constructor, over a pager that is open.
unfoldable pub new : Pager ColumnPage → ColumnStore
unfolding sum_items
new pager =
    let (total, f) = sum_items pager.num_pages 0 (Manager.new 256 pager) 0 in
    record {
      file = f;
      total_rows = total;
      active_page = none;
      active_header = none;
      active_page_idx = no_page;
    }

-- The page has no room for another item of the size.
abbrev pub full_fixed : ℕ → ColumnPage → Bool
full_fixed size h = leb (body_size / size) h.num_items

-- The page is not one of `insert_variable`, or has no room for another slot.
abbrev pub full_variable : ColumnPage → Bool
full_variable h = not (h.item_size == 0) || leb (body_size / slot_size) h.num_items

-- `!active_page_ || …`: the header is read only behind a page.
unfoldable pub needs_page : (ColumnPage → Bool) → ColumnStore → Bool
needs_page full c = elim c.active_page [
  | none ↦ true
  | some _ ↦ elim c.active_header [ none ↦ true | some h ↦ full (c.file.pager.memory h) ]
]

-- `allocate_page`, `get_page`, `memset` and the header of the new page; without the page, null.
unfoldable pub start_page : ℕ → ColumnStore → ColumnStore
start_page item_size c =
    let (pid, pager) = Pager.allocate_page c.file.pager in
    let (page, f) = Manager.get_page (record c.file { pager = pager }) pid in
    elim page [
      | none ↦ record c { file = f; active_page = none; active_page_idx = pid }
      | some a ↦ record c {
        file = poke f a (record { num_items = 0; item_size = item_size; body = λ _. 0 });
        active_page = some a;
        active_header = some a;
        active_page_idx = pid;
      }
    ]

-- The page is used with no check for null.
unfoldable pub require_page : ColumnStore → ColumnStore
require_page c = elim c.active_page [ none ↦ record c { file = crash c.file } | some _ ↦ c ]

-- The choice of a page where none with room is open.
unfoldable pub next_page : (ColumnPage → Bool) → ℕ → ColumnStore → ColumnStore
unfolding start_page require_page
next_page full item_size c =
    let last = c.file.pager.num_pages in
    let (page, f) = Manager.get_page c.file (last - 1) in
    if last == 0 then require_page (start_page item_size c) else elim page [
      | none ↦ record c { file = crash f; active_page = none }
      | some a ↦
          let c' = record c { file = f; active_page = some a; active_header = some a } in
          if full (f.pager.memory a)
          then start_page item_size c'
          else record c' { active_page_idx = last - 1 }
    ]

-- The start of both inserts, the same in both but for the test and the size.
unfoldable pub open_page : (ColumnPage → Bool) → ℕ → ColumnStore → ColumnStore
unfolding needs_page next_page
open_page full item_size c = if needs_page full c then next_page full item_size c else c

-- The write of an item through the pointers to the page and to its header: `fill` writes the slot
-- of an index.
unfoldable pub write_item : (ℕ → (ℕ → ℕ) → ℕ → ℕ) → ℕ → ℕ → ColumnStore → ColumnStore
write_item fill a h c =
    let memory = c.file.pager.memory in
    let f =
      poke c.file a (record (memory a) { body = fill (memory h).num_items (memory a).body }) in
    let header = f.pager.memory h in
    let f' = poke f h (record header { num_items = (header.num_items + 1) % u32_mod }) in
    record c {
      file = Manager.mark_dirty f' c.active_page_idx;
      total_rows = (c.total_rows + 1) % u64_mod;
    }

-- The end of both inserts, by the two pointers. With no page the insert has returned.
unfoldable pub write_at : (ℕ → (ℕ → ℕ) → ℕ → ℕ) → ColumnStore → Option ℕ → Option ℕ → ColumnStore
unfolding write_item
write_at fill c none h = c
write_at fill c (some a) none = record c { file = crash c.file }
write_at fill c (some a) (some h) = write_item fill a h c

unfoldable pub append : (ℕ → (ℕ → ℕ) → ℕ → ℕ) → ColumnStore → ColumnStore
unfolding write_at
append fill c = write_at fill c c.active_page c.active_header

unfoldable pub insert_fixed : ColumnStore → List ℕ → ℕ → ColumnStore
insert_fixed c item size =
    append (λ n body. write_bytes body (n * size) item) (open_page (full_fixed size) size c)

-- The two bytes of a `uint16_t`.
abbrev pub u16_bytes : ℕ → List ℕ
u16_bytes n = n % 256 ∷ (n / 256) % 256 ∷ []

unfoldable pub insert_variable : ColumnStore → List ℕ → ℕ → ColumnStore
insert_variable c item size =
    append
      (λ n body.
        write_bytes (write_bytes body (n * slot_size) (u16_bytes size)) (n * slot_size + 2)
          (take (if leb size 126 then size else 126) item))
      (open_page full_variable 0 c)

unfoldable pub flush : ColumnStore → ColumnStore
flush c = record c { file = Manager.flush c.file }

unfoldable pub clear : ColumnStore → ColumnStore
clear c =
    let f = Manager.clear c.file in
    record c {
      active_page = none;
      active_header = none;
      active_page_idx = no_page;
      total_rows = 0;
      file = record f { pager = Pager.clear f.pager };
    }
