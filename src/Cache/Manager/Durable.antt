-- ===== src/Cache/Manager/Durable.antt =====
-- No dirty mark is lost: a page that was marked is still marked, or `msync` was called on it.
use flex_ql_dl.Base.{
  ℕ, ◌<◌, ◌≡◌, refl, sym, ◌∙◌, Bool, true, false, ◌&&◌, ◌||◌, List, [], ◌∷◌, ◌++◌, Option, some,
  arith, inl, inr, leb, ◌==◌, length, Bool-cases, leb→le,
}
use mathlib.Core.List.{append_assoc}
use flex_ql_dl.Storage.Pager
use flex_ql_dl.Storage.Pager.{Pager, Sync, page_at, whole_file, page_addr}
use flex_ql_dl.Cache.Lru
use flex_ql_dl.Cache.Lru.{
  CacheEntry, LruCache, find, erase, back, pop_back, flush_entries, clean_entries, evict_internal,
  push_front,
}
use flex_ql_dl.Cache.Lru.Entries.{has, back-some}
use flex_ql_dl.Cache.Lru.Invariant.{IsValid, get_hit, get_miss}

-- Whether a node of the page id is marked dirty.
unfoldable pub is_dirty : ℕ → List CacheEntry → Bool
is_dirty q [] = false
is_dirty q (e ∷ l) = (e.page_id == q && e.dirty) || is_dirty q l

-- Whether the calls of `msync` reached the page at the offset.
unfoldable pub synced : ℕ → List Sync → Bool
synced a [] = false
synced a (page_at b ∷ l) = b == a || synced a l
synced a (whole_file ∷ l) = true

-- The calls of `msync` between two states, and that they cover the marks that are gone.
pub record NoLoss {P : Type 0} (c c' : LruCache P) : Type 0 where
  pub fresh : List Sync
  pub appended : c'.pager.syncs ≡ fresh ++ c.pager.syncs
  pub covered :
      (q : ℕ)
      → is_dirty q c.lru_list ≡ true
      → (is_dirty q c'.lru_list || synced (page_addr q) fresh) ≡ true

pub is_dirty-erase :
    (p q : ℕ) (l : List CacheEntry) (e : CacheEntry)
    → find p l ≡ some e
    → is_dirty q l ≡ ((e.page_id == q && e.dirty) || is_dirty q (erase p l))
unfolding is_dirty find erase
is_dirty-erase p q [] e f = absurd (ground arith)
is_dirty-erase p q (x ∷ l) e f = ground (arith, is_dirty-erase p q l e)

is_dirty-refresh :
    (p q : ℕ) (l : List CacheEntry) (e : CacheEntry) (page : Option ℕ) (dirty : Bool)
    → e.page_id ≡ p
    → find p l ≡ some e
    → (is_dirty p l ≡ true → dirty ≡ true)
    → is_dirty q l ≡ true
    → is_dirty q (record { page_id = p; page = page; dirty = dirty } ∷ erase p l) ≡ true
unfolding is_dirty
is_dirty-refresh p q l e page dirty named found marks m =
    ground (arith, m, marks, is_dirty-erase p q l e found, is_dirty-erase p p l e found)

is_dirty-back :
    (q : ℕ) (l : List CacheEntry) (e : CacheEntry)
    → back l ≡ some e
    → is_dirty q l ≡ (is_dirty q (pop_back l) || (e.page_id == q && e.dirty))
unfolding is_dirty back pop_back
is_dirty-back q [] e b = absurd (ground arith)
is_dirty-back q (x ∷ []) e b = ground arith
is_dirty-back q (x ∷ y ∷ l) e b = ground (arith, is_dirty-back q (y ∷ l) e b)

pub is_dirty-has : (q : ℕ) (l : List CacheEntry) → has q l ≡ false → is_dirty q l ≡ false
unfolding is_dirty has
is_dirty-has q [] h = refl
is_dirty-has q (e ∷ l) h = ground (arith, is_dirty-has q l)

pub is_dirty-clean_entries : (q : ℕ) (l : List CacheEntry) → is_dirty q (clean_entries l) ≡ false
unfolding is_dirty clean_entries
is_dirty-clean_entries q [] = refl
is_dirty-clean_entries q (e ∷ l) = ground (arith, is_dirty-clean_entries q l)

synced-append : (a : ℕ) (l m : List Sync) → synced a (l ++ m) ≡ (synced a l || synced a m)
unfolding synced
synced-append a [] m = refl
synced-append a (page_at b ∷ l) m = ground (arith, synced-append a l m)
synced-append a (whole_file ∷ l) m = refl

module _ {P : Type 0} where
  pub NoLoss-refl : (c : LruCache P) → NoLoss c c
  NoLoss-refl c = record { fresh = []; appended = refl; covered = λ q h. rw h }

  -- The eviction calls `msync` on the node that it drops, if that is dirty.
  pub evict_internal-NoLoss : (c : LruCache P) → 0 < length c.lru_list → NoLoss c (evict_internal c)
  unfolding evict_internal Pager.flush synced
  evict_internal-NoLoss c h =
      let (e, found) = back-some c.lru_list h in
      rw (found, evict_internal)
        (elim (Bool-cases e.dirty) [
          | inl d ↦ rw d (record {
            fresh = page_at (page_addr e.page_id) ∷ [];
            appended = refl;
            covered = λ q m. ground (arith, m, d, is_dirty-back q c.lru_list e found);
          })
          | inr d ↦ rw d (record {
            fresh = [];
            appended = refl;
            covered = λ q m. ground (arith, m, d, is_dirty-back q c.lru_list e found);
          })
        ])

  NoLoss-push_front : (c d : LruCache P) (e : CacheEntry) → NoLoss c d → NoLoss c (push_front d e)
  unfolding push_front is_dirty
  NoLoss-push_front c d e h = record {
    fresh = h.fresh;
    appended = h.appended;
    covered = λ q m. ground (arith, h.covered q m);
  }

  -- `put` on a page that is marked has to mark it again; on any other page it loses nothing.
  pub put-NoLoss :
      (c : LruCache P) (p : ℕ) (page : Option ℕ) (dirty : Bool)
      → IsValid c
      → (is_dirty p c.lru_list ≡ true → dirty ≡ true)
      → NoLoss c (Lru.put c p page dirty)
  unfolding Lru.put
  put-NoLoss c p page dirty v marks = elim (Bool-cases (c.map p)) [
    | inl hit ↦
        let (e, _, named, _, found) = get_hit c p v hit in
        rw hit (record {
          fresh = [];
          appended = refl;
          covered =
              λ q m. rw (is_dirty-refresh p q c.lru_list e page dirty named found marks m) refl;
        })
    | inr miss ↦ elim (Bool-cases (leb c.capacity (length c.lru_list))) [
      | inl full ↦
          rw (miss, full)
            (NoLoss-push_front c (evict_internal c) _
              (evict_internal-NoLoss c (omega (arith, v.positive, leb→le _ _ full))))
      | inr free ↦ rw (miss, free) (NoLoss-push_front c c _ (NoLoss-refl c))
    ]
  ]

  pub get-NoLoss : (c : LruCache P) (p : ℕ) → IsValid c → NoLoss c (Lru.get c p).1
  unfolding is_dirty
  get-NoLoss c p v = elim (Bool-cases (c.map p)) [
    | inl hit ↦
        let (e, got, named, _, found) = get_hit c p v hit in
        rw got (record {
          fresh = [];
          appended = refl;
          covered = λ q m. ground (arith, m, is_dirty-erase p q c.lru_list e found);
        })
    | inr miss ↦ rw (get_miss c p miss) (NoLoss-refl c)
  ]

  pub NoLoss-trans : (c d e : LruCache P) → NoLoss c d → NoLoss d e → NoLoss c e
  NoLoss-trans c d e h k = record {
    fresh = k.fresh ++ h.fresh;
    appended = rw (k.appended, h.appended) (sym (append_assoc k.fresh h.fresh c.pager.syncs));
    covered = λ q m.
        ground (arith, m, h.covered q m, k.covered q, synced-append (page_addr q) k.fresh h.fresh);
  }

  -- `flush` calls `msync` on every page that is marked, and leaves no mark.
  pub flush_entries-covers :
      (p : Pager P) (l : List CacheEntry)
      → (fresh : List Sync) × ((flush_entries p l).syncs ≡ fresh ++ p.syncs)
        × ((q : ℕ) → is_dirty q l ≡ true → synced (page_addr q) fresh ≡ true)
  unfolding flush_entries is_dirty Pager.flush synced
  flush_entries-covers p [] = ([], refl, λ q m. absurd (ground arith))
  flush_entries-covers p (e ∷ l) = elim (Bool-cases e.dirty) [
    | inl d ↦
        let (fresh, appended, covered) = flush_entries-covers (Pager.flush p e.page_id) l in
        (
          fresh ++ page_at (page_addr e.page_id) ∷ [],
          rw d (appended ∙ sym (append_assoc fresh (page_at (page_addr e.page_id) ∷ []) p.syncs)),
          λ q m. ground (
            arith,
            m,
            d,
            covered q,
            synced-append (page_addr q) fresh (page_at (page_addr e.page_id) ∷ []),
          ),
        )
    | inr d ↦
        let (fresh, appended, covered) = flush_entries-covers p l in
        (fresh, rw d appended, λ q m. ground (arith, m, d, covered q))
  ]
