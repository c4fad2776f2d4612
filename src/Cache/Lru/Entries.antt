-- ===== src/Cache/Lru/Entries.antt =====
-- Facts of the list of nodes that the proofs on the operations of the cache share.
use flex_ql_dl.Base.{
  ℕ, ◌+◌, ◌<◌, ◌≡◌, refl, inl, inr, Bool-cases, Bool, true, false, ◌||◌, List, [], ◌∷◌, some, arith,
  ◌==◌, if◌then◌else◌, length, All,
}
use flex_ql_dl.Cache.Lru.{CacheEntry, find, erase, back, pop_back, clean_entries}

-- Whether a node with the page id is in the list.
unfoldable pub has : ℕ → List CacheEntry → Bool
has q [] = false
has q (e ∷ l) = e.page_id == q || has q l

-- No two nodes have the same page id.
abbrev pub Distinct : List CacheEntry → Type 0
Distinct [] = Unit
Distinct (e ∷ l) = (has e.page_id l ≡ false) × Distinct l

pub has-erase :
    (p q : ℕ) (l : List CacheEntry)
    → Distinct l
    → has q (erase p l) ≡ (if p == q then false else has q l)
unfolding has erase
has-erase p q [] d = ground arith
has-erase p q (e ∷ l) d = ground (arith, has-erase p q l d.1)

pub Distinct-erase : (p : ℕ) (l : List CacheEntry) → Distinct l → Distinct (erase p l)
unfolding erase
Distinct-erase p [] d = tt
Distinct-erase p (e ∷ l) d = ground (arith, has-erase p e.page_id l d.1, Distinct-erase p l d.1)

pub length-erase :
    (p : ℕ) (l : List CacheEntry) → has p l ≡ true → length (erase p l) + 1 ≡ length l
unfolding has erase
length-erase p [] h = absurd (ground arith)
length-erase p (e ∷ l) h = ground (arith, length-erase p l)

pub All-erase :
    (P : CacheEntry → Type 0) (p : ℕ) (l : List CacheEntry) → All P l → All P (erase p l)
unfolding erase
All-erase P p [] h = tt
All-erase P p (e ∷ l) h = ground (arith, All-erase P p l h.1)

-- The node of a page id that the list has.
pub find-has :
    (P : CacheEntry → Type 0) (p : ℕ) (l : List CacheEntry)
    → has p l ≡ true
    → All P l
    → (e : CacheEntry) × (find p l ≡ some e) × (e.page_id ≡ p) × P e
unfolding has find
find-has P p [] h a = absurd (ground arith)
find-has P p (e ∷ l) h a = elim (Bool-cases (e.page_id == p)) [
  | inl same ↦ (e, ground arith, ground arith, a.0)
  | inr other ↦
      let (x, found, named, holds) = find-has P p l (ground arith) a.1 in
      (x, ground arith, named, holds)
]

-- A list that is not empty has a last node.
pub back-some : (l : List CacheEntry) → 0 < length l → (e : CacheEntry) × (back l ≡ some e)
unfolding back
back-some [] h = absurd (omega arith)
back-some (e ∷ []) h = (e, refl)
back-some (e ∷ f ∷ l) h = back-some (f ∷ l) (omega arith)

pub length-pop_back : (l : List CacheEntry) → 0 < length l → length (pop_back l) + 1 ≡ length l
unfolding pop_back
length-pop_back [] h = absurd (omega arith)
length-pop_back (e ∷ []) h = omega arith
length-pop_back (e ∷ f ∷ l) h = omega (arith, length-pop_back (f ∷ l) (omega arith))

has-back : (l : List CacheEntry) (e : CacheEntry) → back l ≡ some e → has e.page_id l ≡ true
unfolding has back
has-back [] e b = absurd (ground arith)
has-back (f ∷ []) e b = ground arith
has-back (f ∷ g ∷ l) e b = ground (arith, has-back (g ∷ l) e b)

pub has-pop_back :
    (l : List CacheEntry) (e : CacheEntry) (q : ℕ)
    → Distinct l
    → back l ≡ some e
    → has q (pop_back l) ≡ (if e.page_id == q then false else has q l)
unfolding has back pop_back
has-pop_back [] e q d b = absurd (ground arith)
has-pop_back (f ∷ []) e q d b = ground arith
has-pop_back (f ∷ g ∷ l) e q d b =
    ground (arith, has-pop_back (g ∷ l) e q d.1 b, has-back (g ∷ l) e b)

has-pop_back_le : (q : ℕ) (l : List CacheEntry) → has q l ≡ false → has q (pop_back l) ≡ false
unfolding has pop_back
has-pop_back_le q [] h = h
has-pop_back_le q (e ∷ []) h = refl
has-pop_back_le q (e ∷ f ∷ l) h = ground (arith, has-pop_back_le q (f ∷ l))

pub Distinct-pop_back : (l : List CacheEntry) → Distinct l → Distinct (pop_back l)
unfolding pop_back
Distinct-pop_back [] d = tt
Distinct-pop_back (e ∷ []) d = tt
Distinct-pop_back (e ∷ f ∷ l) d =
    (has-pop_back_le e.page_id (f ∷ l) d.0, Distinct-pop_back (f ∷ l) d.1)

pub All-pop_back : (P : CacheEntry → Type 0) (l : List CacheEntry) → All P l → All P (pop_back l)
unfolding pop_back
All-pop_back P [] h = tt
All-pop_back P (e ∷ []) h = tt
All-pop_back P (e ∷ f ∷ l) h = (h.0, All-pop_back P (f ∷ l) h.1)

pub has-clean_entries : (q : ℕ) (l : List CacheEntry) → has q (clean_entries l) ≡ has q l
unfolding has clean_entries
has-clean_entries q [] = refl
has-clean_entries q (e ∷ l) = ground (arith, has-clean_entries q l)

pub Distinct-clean_entries : (l : List CacheEntry) → Distinct l → Distinct (clean_entries l)
unfolding clean_entries
Distinct-clean_entries [] d = tt
Distinct-clean_entries (e ∷ l) d =
    ground (arith, has-clean_entries e.page_id l, Distinct-clean_entries l d.1)

pub length-clean_entries : (l : List CacheEntry) → length (clean_entries l) ≡ length l
unfolding clean_entries
length-clean_entries [] = refl
length-clean_entries (e ∷ l) = omega (arith, length-clean_entries l)
