-- ===== src/Storage/Column/Lifecycle.antt =====
-- The start, the flush and the clearing of a column, and a new start over an old file.
use flex_ql_dl.Base.{ℕ, ◌≡◌, refl, true, List, [], some, arith}
use flex_ql_dl.Storage.Pager
use flex_ql_dl.Storage.Pager.{Pager, page_addr, max_pages}
use flex_ql_dl.Cache.Lru.Invariant.{new-IsValid}
use flex_ql_dl.Cache.Lru.Preserve.{flush_all-Keeps}
use flex_ql_dl.Cache.Manager
use flex_ql_dl.Cache.Manager.Sharing.{clear-IsValid}
use flex_ql_dl.Storage.Column.{ColumnPage, ColumnStore, new, flush, clear}
use flex_ql_dl.Storage.Column.Represents.{Layout, ActiveIs-frame, Represents, Keeps-Holds}

Layout-nil : (size : ℕ) (p : Pager ColumnPage) → p.num_pages ≡ 0 → Layout size [] p
Layout-nil size p none_yet = record {
  enough = rw none_yet (omega arith);
  tight = rw none_yet (omega arith);
  mapped = omega (arith, none_yet);
  items = λ pid h. absurd (omega (arith, h, none_yet));
  slots = λ pid j h k inside. absurd (omega (arith, h, none_yet));
}

-- A column over a file that is opened holds no rows, whatever the file holds: the constructor of
-- the pager starts with no pages, also over a file that was written before.
pub new-Represents :
    (size : ℕ) (contents : ℕ → ColumnPage) (p : Pager ColumnPage)
    → Pager.new true true true contents ≡ some p
    → Represents size [] (new p)
unfolding Pager.new new Manager.new
new-Represents size contents p opened =
    let none_yet : p.num_pages ≡ 0 = ground (arith, opened) in
    rw (none_yet, new)
      (record {
        holds = record {
          valid = new-IsValid 256 (record p { num_pages = 0 }) (omega arith);
          layout = Layout-nil size (record p { num_pages = 0 }) refl;
        };
        widths = tt;
        total = refl;
        active = tt;
      })

-- `clear` leaves a column with no rows.
pub clear-Represents :
    (size : ℕ) (rows : List (List ℕ)) (c : ColumnStore)
    → Represents size rows c
    → Represents size [] (clear c)
unfolding clear Pager.clear
clear-Represents size rows c r = record {
  holds = record { valid = clear-IsValid c.file r.holds.valid; layout = Layout-nil size _ refl };
  widths = tt;
  total = refl;
  active = tt;
}

-- `flush` keeps the rows.
pub flush-Represents :
    (size : ℕ) (rows : List (List ℕ)) (c : ColumnStore)
    → Represents size rows c
    → Represents size rows (flush c)
unfolding flush Manager.flush
flush-Represents size rows c r =
    let kept = flush_all-Keeps c.file r.holds.valid in
    record {
      holds = Keeps-Holds size rows kept r.holds;
      widths = r.widths;
      total = r.total;
      active =
          ActiveIs-frame c.file.pager.num_pages _ c.active_page c _ kept.pages.count refl refl
            r.active;
    }
