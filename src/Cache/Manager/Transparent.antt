-- ===== src/Cache/Manager/Transparent.antt =====
-- The cache manager keeps the invariant of the cache, and hands out the pages of the pager.
use flex_ql_dl.Base.{
  ℕ, ◌≡◌, refl, sym, ◌∙◌, true, false, some, arith, inl, inr, leb, Bool-cases, Option-cases, lt→leb,
}
use flex_ql_dl.Storage.Pager
use flex_ql_dl.Storage.Pager.{Pager, page_addr, u32_mod}
use flex_ql_dl.Cache.Lru
use flex_ql_dl.Cache.Lru.{LruCache}
use flex_ql_dl.Cache.Lru.Invariant.{Points, IsValid, SamePages-trans}
use flex_ql_dl.Cache.Lru.Preserve.{Keeps, get-Keeps, put-Keeps}
use flex_ql_dl.Cache.Manager.{get_page, mark_dirty}

module _ {P : Type 0} where
  pub Keeps-trans : {c d e : LruCache P} → Keeps c d → Keeps d e → Keeps c e
  Keeps-trans h k = record {
    valid = k.valid;
    pages = SamePages-trans k.pages h.pages;
    cap = k.cap ∙ h.cap;
  }

  Points-get_page : (p : Pager P) (pid : ℕ) → Points p.num_pages pid (Pager.get_page p pid)
  unfolding Pager.get_page
  Points-get_page p pid = elim (Bool-cases (leb p.num_pages pid)) [
    | inl out ↦ rw out tt
    | inr inside ↦ rw inside (refl, ground (arith, inside))
  ]

  get_page_of_Points :
      (p : Pager P) (pid a : ℕ) → Points p.num_pages pid (some a) → Pager.get_page p pid ≡ some a
  unfolding Pager.get_page
  get_page_of_Points p pid a h = rw (lt→leb p.num_pages pid h.1, h.0)

  pub get_page_same :
      (p q : Pager P) (pid : ℕ)
      → p.num_pages ≡ q.num_pages
      → Pager.get_page p pid ≡ Pager.get_page q pid
  unfolding Pager.get_page
  get_page_same p q pid h = rw h

  -- `get_page` of the manager answers what the pager would, null for an id that is not handed
  -- out, whatever is cached, evicted or stale; it keeps the invariant and every page.
  pub get_page_transparent :
      (c : LruCache P) (pid : ℕ)
      → IsValid c
      → ((get_page c pid).0 ≡ Pager.get_page c.pager pid) × Keeps c (get_page c pid).1
  unfolding get_page
  get_page_transparent c pid v =
      let (kept, points) = get-Keeps c pid v in
      let c' = (Lru.get c pid).1 in
      elim (Option-cases (Lru.get c pid).0) [
        | inl null ↦
            let from : Points c'.pager.num_pages pid (Pager.get_page c'.pager pid) =
              Points-get_page c'.pager pid in
            rw (null, get_page)
              (
                get_page_same c'.pager c.pager pid kept.pages.count,
                Keeps-trans kept
                    (put-Keeps c' pid (Pager.get_page c'.pager pid) false kept.valid from),
              )
        | inr (a, hit) ↦
            rw (hit, get_page) (sym (get_page_of_Points c.pager pid a (rw hit at points)), kept)
      ]

  -- `mark_dirty` keeps the invariant and every page.
  pub mark_dirty-Keeps : (c : LruCache P) (pid : ℕ) → IsValid c → Keeps c (mark_dirty c pid)
  unfolding mark_dirty
  mark_dirty-Keeps c pid v =
      let (kept, points) = get-Keeps c pid v in
      elim (Option-cases (Lru.get c pid).0) [
        | inl null ↦ rw (null, mark_dirty) kept
        | inr (a, hit) ↦
            rw (hit, mark_dirty)
              (Keeps-trans kept (
                put-Keeps (Lru.get c pid).1 pid (some a) true kept.valid
                  (rw kept.pages.count (rw hit at points))))
      ]
