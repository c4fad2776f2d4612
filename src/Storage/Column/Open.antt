-- ===== src/Storage/Column/Open.antt =====
-- The choice of the page to write to: afterwards the last page is open, and has room.
use flex_ql_dl.Base.{
  ℕ, ◌+◌, ◌-◌, ◌*◌, ◌<◌, ◌≡◌, refl, sym, ◌∙◌, ap, inl, inr, Bool, true, false, List, none, some,
  arith, length, All, ◌==◌, read_bytes, update, Bool-cases, Option-cases, leb→le, leb→lt,
}
use native.Mathlib.Decide.{ℕ_discrete, dec_lt}
use flex_ql_dl.Storage.Pager
use flex_ql_dl.Storage.Pager.{Pager, page_addr, max_pages, u32_mod}
use flex_ql_dl.Cache.Manager
use flex_ql_dl.Cache.Manager.Sharing.{allocate-IsValid, poke-IsValid}
use flex_ql_dl.Storage.Column.{
  ColumnPage, ColumnFile, ColumnStore, full_fixed, needs_page, start_page, require_page, next_page,
  open_page,
}
use flex_ql_dl.Storage.Column.Represents.{
  per_page, page_of, Layout, Fits, Holds, LastPage, Represents, page_of_written, page_of_other,
  per_page_bounds, page_read, Keeps-Holds,
}

before_last : (pid n j per : ℕ) → pid * per + j < n * per → pid < n + 1 → pid < n
before_last pid n j per h k = elim (ℕ_discrete pid n) [
  | yes e ↦ absurd (omega (arith, rw e at h))
  | no ne ↦ omega arith
]

-- A blank page behind full ones changes nothing.
Layout-blank :
    (size : ℕ) (rows : List (List ℕ)) (p q : Pager ColumnPage) (x : ColumnPage)
    → Layout size rows p
    → Fits size
    → length rows ≡ p.num_pages * per_page size
    → p.num_pages < max_pages
    → q.num_pages ≡ p.num_pages + 1
    → q.memory ≡ update p.memory (page_addr p.num_pages) x
    → x.num_items ≡ 0
    → Layout size rows q
Layout-blank size rows p q x l fits full room next content blank = record {
  enough = rw next (omega (arith, l.enough));
  tight = rw next (omega (arith, full));
  mapped = rw next (omega (arith, room));
  items = λ pid h. elim (ℕ_discrete pid n) [
    | yes same ↦
        rw same (ap (λ (y : ColumnPage). y.num_items) written ∙ blank ∙ omega (arith, full))
    | no ne ↦
        let other = page_of_other p q n x content room pid (omega (arith, h, next, room)) ne in
        ap (λ (y : ColumnPage). y.num_items) other ∙ l.items pid (omega (arith, h, next, ne))
  ];
  slots = λ pid j h k inside.
      let before : pid < n = before_last pid n j per (rw full at inside) (omega (arith, h, next)) in
      let other =
        page_of_other p q n x content room pid (omega (arith, before, room))
          (λ e. absurd (omega (arith, before, e))) in
      ap (λ (y : ColumnPage). some (read_bytes y.body (j * size) size)) other
      ∙ l.slots pid j before k inside;
}
  where
    n : ℕ
    n = p.num_pages

    per : ℕ
    per = per_page size

    written : page_of q n ≡ x
    written = page_of_written p q n x content room

-- The column holds the rows, its last page is open, and that page has room.
pub record Ready (size : ℕ) (rows : List (List ℕ)) (c : ColumnStore) : Type 0 where
  pub represents : Represents size rows c
  pub room : length rows < c.file.pager.num_pages * per_page size
  pub address : ℕ
  pub opened : c.active_page ≡ some address

module _ (size : ℕ) (rows : List (List ℕ)) (c : ColumnStore) (fits : Fits size) where
  start_page-Ready :
      Holds size rows c.file
      → All (λ r. length r ≡ size) rows
      → c.total_rows ≡ length rows
      → length rows ≡ c.file.pager.num_pages * per_page size
      → c.file.pager.num_pages < max_pages
      → Ready size rows (start_page size c)
  unfolding start_page Pager.allocate_page
  start_page-Ready holds widths total full room =
      let n = c.file.pager.num_pages in
      let f = record c.file { pager = (Pager.allocate_page c.file.pager).1 } in
      let (allocated, next) = allocate-IsValid c.file (omega (arith, room)) holds.valid in
      let f' = (Manager.get_page f n).1 in
      let (got, kept) = page_read f n allocated (omega (arith, next)) in
      let blank : ColumnPage = record { num_items = 0; item_size = size; body = λ _. 0 } in
      let count : f'.pager.num_pages ≡ n + 1 = kept.pages.count ∙ next in
      let layout =
        Layout-blank size rows c.file.pager (Pager.poke f'.pager (page_addr n) blank) blank
          holds.layout fits full room count
          (ap (λ (m : ℕ → ColumnPage). update m (page_addr n) blank) kept.pages.content) refl in
      rw (got, start_page)
        (record {
          represents = record {
            holds = record {
              valid = poke-IsValid f' (page_addr n) blank kept.valid;
              layout = layout;
            };
            widths = widths;
            total = total;
            active = (
              omega (arith, count),
              rw count (ap page_addr (omega arith)),
              refl,
              omega (arith, count),
            );
          };
          room = rw count (omega (arith, full, (per_page_bounds size fits).0));
          address = page_addr n;
          opened = refl;
        })

-- The number of rows that a file of 1 GB holds.
abbrev pub max_rows : ℕ → ℕ
max_rows size = max_pages * per_page size

below_max_pages : (n per k : ℕ) → n * per < k * per → n < k
below_max_pages n per k h = elim (dec_lt n k) [ yes lt ↦ lt | no ge ↦ absurd (grind arith) ]

needs_page_closed :
    (full : ColumnPage → Bool) (c : ColumnStore) → c.active_page ≡ none → needs_page full c ≡ true
unfolding needs_page
needs_page_closed full c h = rw (h, needs_page)

needs_page_open :
    (full : ColumnPage → Bool) (c : ColumnStore) (a : ℕ)
    → c.active_page ≡ some a
    → c.active_header ≡ some a
    → needs_page full c ≡ full (c.file.pager.memory a)
unfolding needs_page
needs_page_open full c a h k = rw (h, k, needs_page)

-- A last page that is full by its header leaves no room in the file, another has room.
room_of_last :
    (size : ℕ) (rows : List (List ℕ)) (p : Pager ColumnPage) (last : ℕ)
    → last + 1 ≡ p.num_pages
    → Fits size
    → Layout size rows p
    → (full_fixed size (page_of p last) ≡ true → length rows ≡ p.num_pages * per_page size)
      × (full_fixed size (page_of p last) ≡ false → length rows < p.num_pages * per_page size)
room_of_last size rows p last e fits l =
    let per = per_page size in
    let items = l.items last (omega (arith, e)) in
    let times : (last + 1) * per ≡ p.num_pages * per = ap (λ k. k * per) e in
    let positive = (per_page_bounds size fits).0 in
    (
      λ full. omega (arith, items, times, positive, l.enough, leb→le per _ full),
      λ free. omega (arith, items, times, positive, l.enough, leb→lt per _ free),
    )

module _ (size : ℕ) (rows : List (List ℕ)) (c : ColumnStore) (fits : Fits size) where
  next_page-Ready :
      Represents size rows c
      → length rows < max_rows size
      → Ready size rows (next_page (full_fixed size) size c)
  unfolding next_page
  next_page-Ready r small = elim (Bool-cases (n == 0)) [
    | inl first ↦
        let n0 : n ≡ 0 = ground (arith, first) in
        let started =
          start_page-Ready size rows c fits r.holds r.widths r.total
            (rw n0 (omega (arith, rw n0 at r.holds.layout.enough))) (omega (arith, n0)) in
        rw (first, started.opened, require_page) started
    | inr later ↦
        let some_page : 0 < n = ground (arith, later) in
        let (got, kept) = page_read c.file (n - 1) r.holds.valid (omega (arith, some_page)) in
        let holds = Keeps-Holds size rows kept r.holds in
        let last : n - 1 + 1 ≡ f.pager.num_pages = omega (arith, some_page, kept.pages.count) in
        let (no_room, has_room) = room_of_last size rows f.pager (n - 1) last fits holds.layout in
        elim (Bool-cases (full_fixed size (page_of f.pager (n - 1)))) [
          | inl full ↦
              let filled = no_room full in
              rw (later, got, full)
                (start_page-Ready size rows c' fits holds r.widths r.total filled (
                  below_max_pages f.pager.num_pages (per_page size) max_pages
                    (rw (← filled) small)))
          | inr free ↦
              rw (later, got, free)
                (record {
                  represents = record {
                    holds = holds;
                    widths = r.widths;
                    total = r.total;
                    active = (
                      omega (arith, last),
                      ap page_addr (omega (arith, last)),
                      refl,
                      omega (arith, last),
                    );
                  };
                  room = has_room free;
                  address = page_addr (n - 1);
                  opened = refl;
                })
        ]
  ]
    where
      n : ℕ
      n = c.file.pager.num_pages

      f : ColumnFile
      f = (Manager.get_page c.file (n - 1)).1

      c' : ColumnStore
      c' = record c {
        file = f;
        active_page = some (page_addr (n - 1));
        active_header = some (page_addr (n - 1));
      }

  -- `open_page` leaves the rows as they are, and opens a last page that has room, as long as the
  -- file has room for one more row.
  pub open_page-Ready :
      Represents size rows c
      → length rows < max_rows size
      → Ready size rows (open_page (full_fixed size) size c)
  unfolding open_page
  open_page-Ready r small = elim (Bool-cases (needs_page (full_fixed size) c)) [
    | inl needed ↦ rw needed (next_page-Ready r small)
    | inr kept ↦ rw kept (kept_open kept)
  ]
    where
      kept_open : needs_page (full_fixed size) c ≡ false → Ready size rows c
      kept_open kept = elim (Option-cases c.active_page) [
        | inl null ↦ cc (needs_page_closed (full_fixed size) c null)
        | inr (a, opened) ↦
            let (positive, where_it_is, header, _) : LastPage c.file.pager.num_pages a c =
              rw opened at r.active in
            let (_, has_room) =
              room_of_last size rows c.file.pager (c.file.pager.num_pages - 1)
                (omega (arith, positive)) fits r.holds.layout in
            record {
              represents = r;
              room = has_room (
                  rw where_it_is at
                    (sym (needs_page_open (full_fixed size) c a opened header) ∙ kept));
              address = a;
              opened = opened;
            }
      ]
