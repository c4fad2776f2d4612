-- ===== src/Parser/Words/Find.antt =====
-- Where `std::string::find` (src/parser/parser.cpp) finds a word between spaces.
use mathlib.Core.List.{append_assoc, append-nil}
use flex_ql_dl.Base.{
  ℕ, ◌≡◌, refl, sym, ap, ◌∙◌, inl, inr, false, List, [], ◌∷◌, ◌++◌, Option, none, some, arith, All,
  ◌==◌, Bool-cases, Option-cases, Text, Without, same_text, strip_prefix, strip_prefix-append,
}
use flex_ql_dl.Parser.Words.{find_text, later, spread}

-- What is found behind a text.
abbrev pub shifted : Text → Option (Text × Text) → Option (Text × Text)
shifted w none = none
shifted w (some (before, behind)) = some (w ++ before, behind)

-- The end of the text, or a space.
abbrev pub EndsWord : Text → Type 0
EndsWord [] = Unit
EndsWord (c ∷ l) = c ≡ 32

later-shifted :
    (c : ℕ) (w : Text) (o : Option (Text × Text)) → later c (shifted w o) ≡ shifted (c ∷ w) o
later-shifted c w none = refl
later-shifted c w (some (a, b)) = refl

shifted_nil : (o : Option (Text × Text)) → shifted [] o ≡ o
shifted_nil none = refl
shifted_nil (some (a, b)) = refl

pub shifted-append :
    (v w : Text) (o : Option (Text × Text)) → shifted v (shifted w o) ≡ shifted (v ++ w) o
shifted-append v w none = refl
shifted-append v w (some (a, b)) = ap (λ l. some (l, b)) (sym (append_assoc v w a))

find_text_here :
    (p : Text) (c : ℕ) (l behind : Text)
    → strip_prefix p (c ∷ l) ≡ some behind
    → find_text p (c ∷ l) ≡ some ([], behind)
unfolding find_text
find_text_here p c l behind h = rw (h, find_text) refl

pub find_text-later :
    (p : Text) (c : ℕ) (l : Text)
    → strip_prefix p (c ∷ l) ≡ none
    → find_text p (c ∷ l) ≡ later c (find_text p l)
unfolding find_text
find_text-later p c l h = rw (h, find_text) refl

-- A pattern is found where it begins.
pub find_text-append : (c : ℕ) (p l : Text) → find_text (c ∷ p) (c ∷ p ++ l) ≡ some ([], l)
find_text-append c p l = find_text_here (c ∷ p) c (p ++ l) l (strip_prefix-append (c ∷ p) l)

-- What starts with a space is not found within a word.
pub find_text-Without :
    (q w l : Text) → Without 32 w → find_text (32 ∷ q) (w ++ l) ≡ shifted w (find_text (32 ∷ q) l)
unfolding find_text strip_prefix
find_text-Without q [] l h = sym (shifted_nil (find_text (32 ∷ q) l))
find_text-Without q (c ∷ w) l h =
    let ih = find_text-Without q w l h.1 in
    let other : (32 == c) ≡ false = ground (arith, h.0) in
    rw (other, find_text) (ap (later c) ih ∙ later-shifted c w (find_text (32 ∷ q) l))

-- A word with a space behind it, before a word that is another, or is the same one.
pub strip_prefix_other :
    (k q w l : Text)
    → Without 32 k
    → Without 32 w
    → EndsWord l
    → same_text k w ≡ false
    → strip_prefix (k ++ 32 ∷ q) (w ++ l) ≡ none
unfolding strip_prefix same_text
strip_prefix_other [] q [] l hk hw e ne = cc
strip_prefix_other [] q (d ∷ w) l hk hw e ne =
    let other : (32 == d) ≡ false = ground (arith, hw.0) in rw other refl
strip_prefix_other (c ∷ k) q [] [] hk hw e ne = refl
strip_prefix_other (c ∷ k) q [] (d ∷ l) hk hw e ne =
    let other : (c == d) ≡ false = ground (arith, hk.0, e) in rw other refl
strip_prefix_other (c ∷ k) q (d ∷ w) l hk hw e ne = elim (Bool-cases (c == d)) [
  | inl same ↦ rw same (strip_prefix_other k q w l hk.1 hw.1 e (rw same at ne))
  | inr other ↦ rw other refl
]

-- A word that is not the one looked for is passed over.
pub find_text_other :
    (k q w l : Text)
    → Without 32 k
    → Without 32 w
    → EndsWord l
    → same_text k w ≡ false
    → find_text (32 ∷ k ++ 32 ∷ q) (32 ∷ w ++ l) ≡ shifted (32 ∷ w) (find_text (32 ∷ k ++ 32 ∷ q) l)
unfolding find_text strip_prefix
find_text_other k q w l hk hw e ne =
    let not_here = strip_prefix_other k q w l hk hw e ne in
    rw (not_here, find_text)
      (ap (later 32) (find_text-Without (k ++ 32 ∷ q) w l hw)
        ∙ later-shifted 32 w (find_text (32 ∷ k ++ 32 ∷ q) l))

-- The words have no space, and none of them is the given one.
abbrev pub Other : Text → List Text → Type 0
Other k ws = All (λ w. Without 32 w × (same_text k w ≡ false)) ws

pub spread-EndsWord : (ws : List Text) (l : Text) → EndsWord l → EndsWord (spread ws ++ l)
unfolding spread
spread-EndsWord [] l e = e
spread-EndsWord (w ∷ ws) l e = refl

-- Words of which none is the one looked for are passed over.
pub find_text-spread :
    (k q : Text) (ws : List Text) (l : Text)
    → Without 32 k
    → Other k ws
    → EndsWord l
    → find_text (32 ∷ k ++ 32 ∷ q) (spread ws ++ l)
      ≡ shifted (spread ws) (find_text (32 ∷ k ++ 32 ∷ q) l)
unfolding spread
find_text-spread k q [] l hk h e = sym (shifted_nil (find_text (32 ∷ k ++ 32 ∷ q) l))
find_text-spread k q (w ∷ ws) l hk h e =
    let p = 32 ∷ k ++ 32 ∷ q in
    ap (λ r. find_text p (32 ∷ r)) (append_assoc w (spread ws) l)
    ∙ find_text_other k q w (spread ws ++ l) hk h.0.0 (spread-EndsWord ws l e) h.0.1
    ∙ ap (shifted (32 ∷ w)) (find_text-spread k q ws l hk h.1 e)
    ∙ shifted-append (32 ∷ w) (spread ws) (find_text p l)

-- A text that is not found in a name is not found in the name with a space behind.
strip_prefix-none :
    (p w l : Text) → Without 32 p → strip_prefix p w ≡ none → strip_prefix p (w ++ 32 ∷ l) ≡ none
unfolding strip_prefix
strip_prefix-none [] w l h e = cc
strip_prefix-none (c ∷ p) [] l h e = ground (arith, h.0)
strip_prefix-none (c ∷ p) (d ∷ w) l h e = elim (Bool-cases (c == d)) [
  | inl same ↦ rw same (strip_prefix-none p w l h.1 (rw same at e))
  | inr other ↦ rw other refl
]

later-none : (c : ℕ) (o : Option (Text × Text)) → later c o ≡ none → o ≡ none
later-none c none e = refl
later-none c (some (a, b)) e = cc

-- A pattern with no space that is not in a name is not found across the end of the name.
pub find_text-none :
    (p w l : Text)
    → Without 32 p
    → find_text p w ≡ none
    → find_text p (w ++ 32 ∷ l) ≡ shifted w (find_text p (32 ∷ l))
find_text-none p [] l h e = sym (shifted_nil (find_text p (32 ∷ l)))
find_text-none p (c ∷ w) l h e = elim (Option-cases (strip_prefix p (c ∷ w))) [
  | inl absent ↦
      let rest = later-none c (find_text p w) (sym (find_text-later p c w absent) ∙ e) in
      find_text-later p c (w ++ 32 ∷ l) (strip_prefix-none p (c ∷ w) l h absent)
      ∙ ap (later c) (find_text-none p w l h rest)
      ∙ later-shifted c w (find_text p (32 ∷ l))
  | inr (b, there) ↦ absurd (none_some (sym e ∙ find_text_here p c w b there))
]
  where
    none_some : {b : Text × Text} → none ≡ some b → ⊥
    none_some k = cc

-- The word is not there.
pub find_text_absent :
    (k q : Text) (ws : List Text)
    → Without 32 k
    → Other k ws
    → find_text (32 ∷ k ++ 32 ∷ q) (spread ws) ≡ none
unfolding find_text
find_text_absent k q ws hk h =
    ap (find_text (32 ∷ k ++ 32 ∷ q)) (sym (append-nil (spread ws)))
    ∙ find_text-spread k q ws [] hk h tt

-- The end of words, each with a space before it.
pub EndsWord-spread : (ws : List Text) → EndsWord (spread ws)
unfolding spread
EndsWord-spread [] = tt
EndsWord-spread (w ∷ ws) = refl

-- Behind a word and others of which none is the one looked for.
pub find_text_behind :
    (k q w : Text) (ws : List Text) (l : Text)
    → Without 32 k
    → Without 32 w
    → Other k ws
    → EndsWord l
    → find_text (32 ∷ k ++ 32 ∷ q) (w ++ (spread ws ++ l))
      ≡ shifted (w ++ spread ws) (find_text (32 ∷ k ++ 32 ∷ q) l)
find_text_behind k q w ws l hk hw h e =
    find_text-Without (k ++ 32 ∷ q) w (spread ws ++ l) hw
    ∙ ap (shifted w) (find_text-spread k q ws l hk h e)
    ∙ shifted-append w (spread ws) (find_text (32 ∷ k ++ 32 ∷ q) l)

-- A single byte is found where it first stands.
pub find_text_byte :
    (c : ℕ) (l r : Text) → Without c l → find_text (c ∷ []) (l ++ c ∷ r) ≡ some (l, r)
unfolding find_text strip_prefix
find_text_byte c [] r h = find_text-append c [] r
find_text_byte c (d ∷ l) r h =
    let other : (c == d) ≡ false = ground (arith, h.0) in
    rw (other, find_text) (ap (later d) (find_text_byte c l r h.1))
