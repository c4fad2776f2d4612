-- ===== src/Index/Node/Insert.antt =====
-- The insert into a leaf that has room, as the search sees it.
use flex_ql_dl.Base.{
  ℕ, zero, suc, ◌+◌, ◌-◌, ◌%◌, ◌<◌, ◌≤◌, ◌≡◌, refl, ap, ◌∙◌, ◌⊎◌, inl, inr, none, some, true, arith,
  ◌==◌, ltb, if◌then◌else◌, Bool-cases, update, update_ne, update_self, ltb→lt,
}
use flex_ql_dl.Storage.Pager.{u32_mod}
use flex_ql_dl.Index.Node.{BptNode, bpt_order, shift, insert_entry, find_value}
use flex_ql_dl.Index.Node.Entries.{
  or_else, or_else-none, lookup, find_value_step, find_value-split, find_value-moved,
  find_value-none,
}

-- What the loop leaves: the place `i` of the key, and the entries behind it moved up by one.
record Shifted (n key : ℕ) (keys values : ℕ → ℕ) (i : ℕ) (keys' values' : ℕ → ℕ) : Type 0 where
  inside : i ≤ n
  low_keys : (j : ℕ) → j < i → keys' j ≡ keys j
  low_values : (j : ℕ) → j < i → values' j ≡ values j
  high_keys : (j : ℕ) → i ≤ j → j < n → keys' (j + 1) ≡ keys j
  high_values : (j : ℕ) → i ≤ j → j < n → values' (j + 1) ≡ values j
  greater : (j : ℕ) → i ≤ j → j < n → key < keys j
  past_keys : (j : ℕ) → n < j → keys' j ≡ keys j
  past_values : (j : ℕ) → n < j → values' j ≡ values j

last-cases : (j n : ℕ) → j < suc n → (j < n) ⊎ (j ≡ n)
last-cases j n h = omega arith

shift-Shifted :
    (n key : ℕ) (keys values : ℕ → ℕ)
    → let r = shift n key keys values in Shifted n key keys values r.0 r.1 r.2
unfolding shift
shift-Shifted zero key keys values = record {
  inside = omega arith;
  low_keys = λ j h. refl;
  low_values = λ j h. refl;
  high_keys = λ j h k. absurd (omega (arith, k));
  high_values = λ j h k. absurd (omega (arith, k));
  greater = λ j h k. absurd (omega (arith, k));
  past_keys = λ j h. refl;
  past_values = λ j h. refl;
}
shift-Shifted (suc n) key keys values = elim (Bool-cases (ltb key (keys n))) [
  | inl greater ↦
      let ks = update keys (suc n) (keys n) in
      let vs = update values (suc n) (values n) in
      let ih = shift-Shifted n key ks vs in
      let r = shift n key ks vs in
      let ks_below : (j : ℕ) → j < suc n → ks j ≡ keys j =
        λ j h. update_ne keys (suc n) j (keys n) (λ e. absurd (omega (arith, h, e))) in
      let vs_below : (j : ℕ) → j < suc n → vs j ≡ values j =
        λ j h. update_ne values (suc n) j (values n) (λ e. absurd (omega (arith, h, e))) in
      rw (greater, shift)
        (record {
          inside = omega (arith, ih.inside);
          low_keys = λ j h. ih.low_keys j h ∙ ks_below j (omega (arith, h, ih.inside));
          low_values = λ j h. ih.low_values j h ∙ vs_below j (omega (arith, h, ih.inside));
          high_keys = λ j h k. elim (last-cases j n k) [
            | inl below ↦ ih.high_keys j h below ∙ ks_below j k
            | inr e ↦
                let moved : r.1 (j + 1) ≡ ks (j + 1) = ih.past_keys (j + 1) (omega (arith, e)) in
                moved
                ∙ ap ks (omega (arith, e))
                ∙ update_self keys (suc n) (keys n)
                ∙ ap keys (omega (arith, e))
          ];
          high_values = λ j h k. elim (last-cases j n k) [
            | inl below ↦ ih.high_values j h below ∙ vs_below j k
            | inr e ↦
                let moved : r.2 (j + 1) ≡ vs (j + 1) = ih.past_values (j + 1) (omega (arith, e)) in
                moved
                ∙ ap vs (omega (arith, e))
                ∙ update_self values (suc n) (values n)
                ∙ ap values (omega (arith, e))
          ];
          greater = λ j h k. elim (last-cases j n k) [
            | inl below ↦
                let e = ks_below j k in let g = ih.greater j h below in omega (arith, e, g)
            | inr e ↦
                let g = ltb→lt key (keys n) greater in
                let same = ap keys e in omega (arith, g, same)
          ];
          past_keys = λ j h.
              ih.past_keys j (omega (arith, h))
              ∙ update_ne keys (suc n) j (keys n) (λ e. absurd (omega (arith, h, e)));
          past_values = λ j h.
              ih.past_values j (omega (arith, h))
              ∙ update_ne values (suc n) j (values n) (λ e. absurd (omega (arith, h, e)));
        })
  | inr fits ↦
      rw (fits, shift)
        (record {
          inside = omega arith;
          low_keys = λ j h. refl;
          low_values = λ j h. refl;
          high_keys = λ j h k. absurd (omega (arith, h, k));
          high_values = λ j h k. absurd (omega (arith, h, k));
          greater = λ j h k. absurd (omega (arith, h, k));
          past_keys = λ j h. refl;
          past_values = λ j h. refl;
        })
]

-- A leaf with room that takes a key in answers for it, behind an older entry for the same key, and
-- answers as before for the others.
pub lookup-insert_entry :
    (key val q : ℕ) (node : BptNode)
    → node.num_keys < bpt_order
    → lookup q (insert_entry key val node)
      ≡ or_else (lookup q node) (if key == q then some val else none)
unfolding insert_entry
lookup-insert_entry key val q node room =
    let n = node.num_keys in
    let r = shift n key node.keys node.values in
    let sh = shift-Shifted n key node.keys node.values in
    let moved = insert_entry key val node in
    let m = n - r.0 in
    let total : (n + 1) % u32_mod ≡ r.0 + suc m = omega (arith, room, sh.inside) in
    let old = find_value-split r.0 m n 0 r.0 q node (omega (arith, sh.inside)) (omega arith) in
    let new = find_value-split r.0 (suc m) moved.num_keys 0 r.0 q moved total (omega arith) in
    let below : (k : ℕ) → k < 0 + r.0 → k < r.0 = λ k h. omega (arith, h) in
    let low =
      find_value-moved r.0 0 0 0 q node moved refl
        (λ k h h'.
          let same : k + 0 ≡ k = omega arith in
          rw same (
            update_ne r.1 r.0 k key (λ e. absurd (omega (arith, e, h')))
            ∙ sh.low_keys k (below k h')))
        (λ k h h'.
          let same : k + 0 ≡ k = omega arith in
          rw same (
            update_ne r.2 r.0 k val (λ e. absurd (omega (arith, e, h')))
            ∙ sh.low_values k (below k h'))) in
    let high =
      find_value-moved m r.0 (r.0 + 1) 1 q node moved refl
        (λ k h h'.
          update_ne r.1 r.0 (k + 1) key (λ e. absurd (omega (arith, e, h)))
          ∙ sh.high_keys k h (omega (arith, h, h')))
        (λ k h h'.
          update_ne r.2 r.0 (k + 1) val (λ e. absurd (omega (arith, e, h)))
          ∙ sh.high_values k h (omega (arith, h, h'))) in
    let absent : (key == q) ≡ true → find_value m r.0 q node ≡ none = λ e.
      find_value-none m r.0 q node
        (λ k h h'. let g = sh.greater k h (omega (arith, h, h')) in ground (arith, e, g)) in
    let here : find_value (suc m) r.0 q moved
        ≡ (if key == q then some val else find_value m (r.0 + 1) q moved) =
      find_value_step m r.0 q moved ∙ rw (update_self r.1 r.0 key, update_self r.2 r.0 val) refl in
    rw (new, here, low, high, old)
      (elim (Bool-cases (key == q)) [
        | inl e ↦ rw (e, absent e, or_else-none (find_value r.0 0 q node)) refl
        | inr e ↦
            rw (e, or_else-none (or_else (find_value r.0 0 q node) (find_value m r.0 q node))) refl
      ])
