-- ===== src/Server/Stream/Chunks.antt =====
-- How the stream is cut into chunks does not matter.
use flex_ql_dl.Base.{
  ℕ, ◌≡◌, refl, sym, ap, ◌∙◌, ◌⊎◌, inl, inr, false, List, [], ◌∷◌, ◌++◌, ◌==◌, Bool-cases, ==_self,
  All-append, Text, c_str, Without,
}
use mathlib.Core.List.{append_assoc, append-nil}
use flex_ql_dl.Server.Stream.{drain, receive}

-- The bytes that chunks add.
unfoldable pub received : List Text → Text
received [] = []
received (chunk ∷ chunks) = c_str chunk ++ received chunks

pub cases : {A B : Type 0} (x : A ⊎ B) → ((a : A) × (x ≡ inl a)) ⊎ ((b : B) × (x ≡ inr b))
cases (inl a) = inl (a, refl)
cases (inr b) = inr (b, refl)

module _ {S R : Type 0} (separator : ℕ) (step : S → Text → S ⊎ R) where
  abbrev Run : Type 0
  Run = (S × Text) ⊎ (R × Text)

  -- A run that goes on with more bytes.
  abbrev pub resume : Run → Text → Run
  resume (inl (s, part)) more = drain separator step s part more
  resume (inr (r, rest)) more = inr (r, rest ++ more)

  pub drain-append :
      (s : S) (part l more : Text)
      → drain separator step s part (l ++ more) ≡ resume (drain separator step s part l) more
  unfolding drain
  drain-append s part [] more = refl
  drain-append s part (c ∷ l) more = elim (Bool-cases (c == separator)) [
    | inr go ↦ rw (go, drain) (drain-append s (part ++ c ∷ []) l more)
    | inl cut ↦ elim (cases (step s part)) [
      | inl (s', e) ↦ rw (cut, drain) (rw e (drain-append s' [] l more))
      | inr (r, e) ↦ rw (cut, drain) (rw e refl)
    ]
  ]

  -- Bytes with no separator stay in the accumulator.
  pub drain-Without :
      (s : S) (part l more : Text)
      → Without separator l
      → drain separator step s part (l ++ more) ≡ drain separator step s (part ++ l) more
  unfolding drain
  drain-Without s part [] more h = ap (λ p. drain separator step s p more) (sym (append-nil part))
  drain-Without s part (c ∷ l) more h =
      rw (h.0, drain)
        (drain-Without s (part ++ c ∷ []) l more h.1
          ∙ ap (λ p. drain separator step s p more) (append_assoc part (c ∷ []) l))

  pub drain_nil : (s : S) (part : Text) → drain separator step s part [] ≡ inl (s, part)
  unfolding drain
  drain_nil s part = refl

  abbrev LeftWithout : Run → Type 0
  LeftWithout (inl (s, part)) = Without separator part
  LeftWithout (inr r) = Unit

  -- What is left in the accumulator has no separator.
  drain-LeftWithout :
      (s : S) (part l : Text) → Without separator part → LeftWithout (drain separator step s part l)
  unfolding drain
  drain-LeftWithout s part [] h = h
  drain-LeftWithout s part (c ∷ l) h = elim (Bool-cases (c == separator)) [
    | inr go ↦
        rw (go, drain)
          (drain-LeftWithout s (part ++ c ∷ []) l
            (All-append (λ d. (d == separator) ≡ false) part (c ∷ []) h (go, tt)))
    | inl cut ↦ elim (cases (step s part)) [
      | inl (s', e) ↦ rw (cut, drain) (rw e (drain-LeftWithout s' [] l tt))
      | inr (r, e) ↦ rw (cut, drain) (rw e tt)
    ]
  ]

  -- Where a run stands, or what it returns.
  abbrev pub verdict : Run → (S × Text) ⊎ R
  verdict (inl r) = inl r
  verdict (inr (r, rest)) = inr r

  -- However the bytes are cut into chunks, the loop does what it does on all of them at once.
  pub receive-drain :
      (s : S) (acc : Text) (chunks : List Text)
      → Without separator acc
      → verdict (receive separator step s acc chunks)
        ≡ verdict (drain separator step s acc (received chunks))
  unfolding receive received
  receive-drain s acc [] h = ap verdict (sym (drain_nil s acc))
  receive-drain s acc (chunk ∷ chunks) h =
      let joined = drain-Without s [] acc (c_str chunk) h in
      let whole = drain-append s acc (c_str chunk) (received chunks) in
      let left = drain-LeftWithout s acc (c_str chunk) h in
      rw (receive, joined, whole)
        (elim (cases (drain separator step s acc (c_str chunk))) [
          | inl ((s', acc'), e) ↦ rw (e, receive) (receive-drain s' acc' chunks (rw e at left))
          | inr (r, e) ↦ rw (e, receive) refl
        ])

  -- The return of a run that leaves nothing over.
  abbrev pub clean : R → Run
  clean r = inr (r, [])

  whole_rest : (x : R × Text) (more : Text) (r : R) → resume (inr x) more ≡ clean r → x ≡ (r, [])
  whole_rest (r', []) more r e = ap (λ t. (t, [])) (ap (λ o. returned r o) e)
    where
      returned : R → Run → R
      returned d (inl q) = d
      returned d (inr (t, l)) = t
  whole_rest (r', c ∷ rest) more r e = absurd (no_rest e)
    where
      no_rest : inr (r', (c ∷ rest) ++ more) ≡ clean r → ⊥
      no_rest k = cc

  -- When all the bytes are used, whatever their chunks, nothing stays in the accumulator.
  pub receive_whole :
      (s : S) (acc : Text) (chunks : List Text) (r : R)
      → Without separator acc
      → drain separator step s acc (received chunks) ≡ clean r
      → receive separator step s acc chunks ≡ clean r
  unfolding receive received
  receive_whole s acc [] r h e = absurd (stuck (sym (drain_nil s acc) ∙ e))
    where
      stuck : {x : S × Text} → inl x ≡ clean r → ⊥
      stuck k = cc
  receive_whole s acc (chunk ∷ chunks) r h e =
      let joined = drain-Without s [] acc (c_str chunk) h in
      let whole = sym (drain-append s acc (c_str chunk) (received chunks)) ∙ e in
      let left = drain-LeftWithout s acc (c_str chunk) h in
      rw (receive, joined)
        (elim (cases (drain separator step s acc (c_str chunk))) [
          | inl ((s', acc'), k) ↦
              rw (k, receive) (receive_whole s' acc' chunks r (rw k at left) (rw k at whole))
          | inr (x, k) ↦ rw (k, receive) (ap inr (whole_rest x (received chunks) r (rw k at whole)))
        ])

  abbrev pub taken : S ⊎ R → Text → Run
  taken (inl s) l = drain separator step s [] l
  taken (inr r) l = inr (r, l)

  drain_here :
      (s : S) (part l : Text) → drain separator step s part (separator ∷ l) ≡ taken (step s part) l
  unfolding drain
  drain_here s part l = elim (cases (step s part)) [
    | inl (s', e) ↦ rw (==_self separator, drain) (rw e refl)
    | inr (r, e) ↦ rw (==_self separator, drain) (rw e refl)
  ]

  -- A part that stands in front of a separator is taken.
  pub drain-separator :
      (s : S) (part l : Text)
      → Without separator part
      → drain separator step s [] (part ++ separator ∷ l) ≡ taken (step s part) l
  drain-separator s part l h = drain-Without s [] part (separator ∷ l) h ∙ drain_here s part l

  -- Bytes with no separator are kept.
  pub drain_rest :
      (s : S) (l : Text) → Without separator l → drain separator step s [] l ≡ inl (s, l)
  drain_rest s l h =
      ap (drain separator step s []) (sym (append-nil l))
      ∙ drain-Without s [] l [] h
      ∙ drain_nil s l
