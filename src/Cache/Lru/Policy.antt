-- ===== src/Cache/Lru/Policy.antt =====
-- The eviction order of the cache: the most recently used nodes stay, in the order of their use.
use flex_ql_dl.Base.{
  ℕ, suc, zero, ◌-◌, ◌≡◌, refl, sym, ◌∙◌, ap, Bool, false, List, [], ◌∷◌, Option, arith, leb, inl,
  inr, length, take, take_of_length-le, Bool-cases, leb→le,
}
use flex_ql_dl.Cache.Lru.{CacheEntry, LruCache, pop_back, erase, put, evict_internal, push_front}
use flex_ql_dl.Cache.Lru.Entries.{has, back-some, length-erase}
use flex_ql_dl.Cache.Lru.Invariant.{IsValid}

pop_back-take : (l : List CacheEntry) (n : ℕ) → length l ≡ suc n → pop_back l ≡ take n l
unfolding pop_back
pop_back-take [] n h = absurd (omega arith)
pop_back-take (e ∷ []) zero h = refl
pop_back-take (e ∷ []) (suc n) h = absurd (omega arith)
pop_back-take (e ∷ f ∷ l) zero h = absurd (omega arith)
pop_back-take (e ∷ f ∷ l) (suc n) h = ap (◌∷◌ e) (pop_back-take (f ∷ l) n (omega arith))

erase_absent : (p : ℕ) (l : List CacheEntry) → has p l ≡ false → erase p l ≡ l
unfolding has erase
erase_absent p [] h = refl
erase_absent p (e ∷ l) h = ground (arith, erase_absent p l)

take-suc :
    (m n : ℕ) (e : CacheEntry) (l : List CacheEntry) → m ≡ suc n → take m (e ∷ l) ≡ e ∷ take n l
take-suc m n e l h = rw h refl

module _ {P : Type 0} where
  evict-take :
      (c : LruCache P) (n : ℕ)
      → length c.lru_list ≡ suc n
      → (evict_internal c).lru_list ≡ take n c.lru_list
  unfolding evict_internal
  evict-take c n h =
      let (e, found) = back-some c.lru_list (omega arith) in
      rw (found, evict_internal) (pop_back-take c.lru_list n h)

  -- After `put` the cache holds the `capacity` most recently used nodes, the written one first:
  -- what is evicted is the node whose last use is furthest back, and only where a new page id
  -- meets a full cache.
  pub put_policy :
      (c : LruCache P) (p : ℕ) (page : Option ℕ) (dirty : Bool)
      → IsValid c
      → (put c p page dirty).lru_list
        ≡ take c.capacity (record { page_id = p; page = page; dirty = dirty } ∷ erase p c.lru_list)
  unfolding put push_front
  put_policy c p page dirty v =
      let x : CacheEntry = record { page_id = p; page = page; dirty = dirty } in
      let n = c.capacity - 1 in
      let size : c.capacity ≡ suc n = omega (arith, v.positive) in
      elim (Bool-cases (c.map p)) [
        | inl hit ↦ rw hit (
            sym (
              take_of_length-le c.capacity _
                (ground (arith, v.bounded, length-erase p c.lru_list (sym (v.mapped p) ∙ hit)))))
        | inr miss ↦
            let absent = erase_absent p c.lru_list (sym (v.mapped p) ∙ miss) in
            elim (Bool-cases (leb c.capacity (length c.lru_list))) [
              | inl full ↦
                  let e = evict-take c n (omega (arith, leb→le _ _ full, v.bounded)) in
                  rw (miss, full, absent)
                    (ap (◌∷◌ x) e ∙ sym (take-suc c.capacity n x c.lru_list size))
              | inr free ↦
                  rw (miss, free, absent)
                    (sym (take_of_length-le c.capacity _ (ground (arith, free))))
            ]
      ]
