-- ===== src/Base/Visible.antt =====
-- Texts that trimming leaves, and the parts that `std::getline` reads.
use Prim.Native.Nat.{ℕ}
use mathlib.Core.Path.{◌≡◌, refl, ap, ◌∙◌}
use mathlib.Core.Bool.{false}
use flex_ql_dl.Base.Tests.{◌==◌}
use mathlib.Core.List.{List, [], ◌∷◌, ◌++◌}
use native.Mathlib.Omega.{arith}
use flex_ql_dl.Base.Lists.{All, All-append}
use flex_ql_dl.Base.Texts.{Text, is_space, trim_right, unless_blank, getlines, join_with, Without}

-- The last byte is there, and is no white space.
abbrev pub EndsVisible : Text → Type 0
EndsVisible [] = ⊥
EndsVisible (c ∷ []) = is_space c ≡ false
EndsVisible (c ∷ d ∷ l) = EndsVisible (d ∷ l)

pub trim_right-EndsVisible : (l : Text) → EndsVisible l → trim_right l ≡ l
unfolding trim_right
trim_right-EndsVisible [] h = refl
trim_right-EndsVisible (c ∷ []) h = ground (arith, h)
trim_right-EndsVisible (c ∷ d ∷ l) h = ap (unless_blank c) (trim_right-EndsVisible (d ∷ l) h)

pub append-EndsVisible : (a l : Text) → EndsVisible l → EndsVisible (a ++ l)
append-EndsVisible [] l h = h
append-EndsVisible (c ∷ []) [] h = absurd h
append-EndsVisible (c ∷ []) (d ∷ l) h = h
append-EndsVisible (c ∷ d ∷ a) l h = append-EndsVisible (d ∷ a) l h

pub cons-EndsVisible : (c : ℕ) (l : Text) → EndsVisible l → EndsVisible (c ∷ l)
cons-EndsVisible c [] h = absurd h
cons-EndsVisible c (d ∷ l) h = h

-- A part with no delimiter is read whole, up to the delimiter or the end.
pub getlines-append :
    (d : ℕ) (v l : Text) → Without d v → getlines d (v ++ d ∷ l) ≡ v ∷ getlines d l
unfolding getlines
getlines-append d [] l h = ground arith
getlines-append d (c ∷ v) l h =
    let ih = getlines-append d v l h.1 in rw (h.0, getlines) (rw ih refl)

pub getlines_last : (d c : ℕ) (v : Text) → Without d (c ∷ v) → getlines d (c ∷ v) ≡ (c ∷ v) ∷ []
unfolding getlines
getlines_last d c [] h = rw h.0 refl
getlines_last d c (e ∷ v) h = let ih = getlines_last d e v h.1 in rw (h.0, getlines) (rw ih refl)

-- Parts with a separator between them are read back, if none is empty or has it.
abbrev pub IsPart : ℕ → Text → Type 0
IsPart d [] = ⊥
IsPart d (c ∷ l) = Without d (c ∷ l)

pub getlines-join_with_parts :
    (d : ℕ) (parts : List Text) → All (IsPart d) parts → getlines d (join_with d parts) ≡ parts
unfolding join_with getlines
getlines-join_with_parts d [] h = refl
getlines-join_with_parts d ([] ∷ parts) h = absurd h.0
getlines-join_with_parts d ((c ∷ l) ∷ []) h = getlines_last d c l h.0
getlines-join_with_parts d ((c ∷ l) ∷ next ∷ parts) h =
    getlines-append d (c ∷ l) (join_with d (next ∷ parts)) h.0
    ∙ ap (λ r. (c ∷ l) ∷ r) (getlines-join_with_parts d (next ∷ parts) h.1)

-- No part has a byte that is not the separator: the parts together do not have it.
pub join_with-All-Without :
    (d c : ℕ) (parts : List Text)
    → (d == c) ≡ false
    → All (Without c) parts
    → Without c (join_with d parts)
unfolding join_with
join_with-All-Without d c [] ne h = tt
join_with-All-Without d c (part ∷ []) ne h = h.0
join_with-All-Without d c (part ∷ next ∷ parts) ne h =
    All-append (λ b. (b == c) ≡ false) part (d ∷ join_with d (next ∷ parts)) h.0
      (ne, join_with-All-Without d c (next ∷ parts) ne h.1)
