-- ===== src/Parser/Words/Plain.antt =====
-- Names as they can be written in statements, and what the functions that take a text apart
-- (src/parser/parser.cpp) leave of them.

use flex_ql_dl.Base.{
  ℕ, ◌-◌, ◌≡◌, refl, ap, ◌∙◌, Bool, true, false, not, ◌&&◌, ◌||◌, [], ◌∷◌, ◌++◌, none, some, arith,
  All, All-map, leb, ◌==◌, if◌then◌else◌, Text, is_space, upper, into_first,
}
use flex_ql_dl.Parser.Words.{
  words, ends_word, strip_left, strip_right, unless_stripped, is_blank, is_delimiter, before_first,
  behind_last, behind_first, or_behind, and_before, before_last, strip_delimiters, all_or,
}

-- A byte that stands for itself in a name: no white space, no delimiter and no small letter.
abbrev pub is_plain : ℕ → Bool
is_plain c =
    not (
      is_space c
      || is_delimiter c
      || c == b'.'
      || c == b')'
      || c == b'='
      || (leb 97 c && leb c 122))

-- No byte of the text is of the kind.
abbrev pub Lacks : (ℕ → Bool) → Text → Type 0
Lacks p l = All (λ c. p c ≡ false) l

abbrev pub IsName : Text → Type 0
IsName [] = ⊥
IsName (c ∷ l) = (is_plain c ≡ true) × All (λ d. is_plain d ≡ true) l

-- A word: bytes with no white space.
abbrev pub IsWord : Text → Type 0
IsWord [] = ⊥
IsWord (c ∷ l) = (is_space c ≡ false) × Lacks (λ d. is_space d) l

plain_space : (c : ℕ) → is_plain c ≡ true → is_space c ≡ false
plain_space c h = ground (arith, h)

plain_blank : (c : ℕ) → is_plain c ≡ true → is_blank c ≡ false
plain_blank c h = ground (arith, h)

plain_delimiter : (c : ℕ) → is_plain c ≡ true → is_delimiter c ≡ false
plain_delimiter c h = ground (arith, h)

plain_upper : (c : ℕ) → is_plain c ≡ true → (if leb 97 c && leb c 122 then c - 32 else c) ≡ c
plain_upper c h = ground (arith, h)

-- A property of the bytes of a name.
pub IsName-All :
    (p : ℕ → Bool) (l : Text) → ((c : ℕ) → is_plain c ≡ true → p c ≡ false) → IsName l → Lacks p l
IsName-All p [] f h = absurd h
IsName-All p (c ∷ l) f h = (f c h.0, All-map (λ d. is_plain d ≡ true) (λ d. p d ≡ false) l f h.1)

pub IsName-Lacks : (c : ℕ) (l : Text) → is_plain c ≡ false → IsName l → Lacks (λ d. d == c) l
IsName-Lacks c l ne h = IsName-All (λ d. d == c) l (λ d e. apart d e ne) h
  where
    apart : (d : ℕ) → is_plain d ≡ true → is_plain c ≡ false → (d == c) ≡ false
    apart d e k = ground (arith, e, k)

pub IsName-IsWord : (l : Text) → IsName l → IsWord l
IsName-IsWord [] h = absurd h
IsName-IsWord (c ∷ l) h = IsName-All (λ d. is_space d) (c ∷ l) plain_space h

words_visible :
    (c : ℕ) (l : Text)
    → is_space c ≡ false
    → words (c ∷ l) ≡ (if ends_word l then (c ∷ []) ∷ words l else into_first c (words l))
unfolding words
words_visible c l h = rw h refl

-- A word up to the end of the text, or up to white space, is read whole.
pub words-append : (w l : Text) → IsWord w → ends_word l ≡ true → words (w ++ l) ≡ w ∷ words l
words-append [] l h e = absurd h
words-append (c ∷ []) l h e = words_visible c l h.0 ∙ rw e refl
words-append (c ∷ d ∷ w) l h e =
    words_visible c (d ∷ w ++ l) h.0 ∙ rw h.1.0 (ap (into_first c) (words-append (d ∷ w) l h.1 e))

pub words_one : (w : Text) → IsWord w → words w ≡ w ∷ []
unfolding words
words_one w h = ap words (sym_nil w) ∙ words-append w [] h refl
  where
    sym_nil : (l : Text) → l ≡ l ++ []
    sym_nil [] = refl
    sym_nil (c ∷ l) = ap (λ r. c ∷ r) (sym_nil l)

-- What is kept of a text that has no byte of the kind.
pub strip_right-Lacks : (p : ℕ → Bool) (l : Text) → Lacks p l → strip_right p l ≡ l
unfolding strip_right
strip_right-Lacks p [] h = refl
strip_right-Lacks p (c ∷ []) h = rw h.0 refl
strip_right-Lacks p (c ∷ d ∷ l) h = ap (unless_stripped p c) (strip_right-Lacks p (d ∷ l) h.1)

strip_left-Lacks : (p : ℕ → Bool) (l : Text) → Lacks p l → strip_left p l ≡ l
unfolding strip_left
strip_left-Lacks p [] h = refl
strip_left-Lacks p (c ∷ l) h = rw h.0 refl

pub before_first-Lacks : (p : ℕ → Bool) (l : Text) → Lacks p l → before_first p l ≡ l
unfolding before_first
before_first-Lacks p [] h = refl
before_first-Lacks p (c ∷ l) h =
    let ih = before_first-Lacks p l h.1 in rw (h.0, before_first) (ap (λ r. c ∷ r) ih)

behind_last-Lacks : (p : ℕ → Bool) (l : Text) → Lacks p l → behind_last p l ≡ none
unfolding behind_last
behind_last-Lacks p [] h = refl
behind_last-Lacks p (c ∷ l) h = ap (or_behind (p c) l) (behind_last-Lacks p l h.1) ∙ rw h.0 refl

upper-IsName : (l : Text) → All (λ c. is_plain c ≡ true) l → upper l ≡ l
upper-IsName [] h = refl
upper-IsName (c ∷ l) h = rw (plain_upper c h.0) (ap (λ r. c ∷ r) (upper-IsName l h.1))

pub IsName-upper : (l : Text) → IsName l → upper l ≡ l
IsName-upper [] h = absurd h
IsName-upper (c ∷ l) h = upper-IsName (c ∷ l) h

trimmed : (l : Text) → IsName l → strip_right is_blank (strip_left is_blank l) ≡ l
trimmed l h =
    let visible = IsName-All is_blank l plain_blank h in
    ap (strip_right is_blank) (strip_left-Lacks is_blank l visible)
    ∙ strip_right-Lacks is_blank l visible

-- What is left of a text that is a name behind its white space.
strip_delimiters_name :
    (s l : Text)
    → strip_right is_blank (strip_left is_blank s) ≡ l
    → IsName l
    → strip_delimiters s ≡ l
unfolding strip_delimiters
strip_delimiters_name s l e h =
    let whole = behind_last-Lacks (λ c. c == b'.') l (IsName-Lacks b'.' l refl h) in
    let kept = before_first-Lacks is_delimiter l (IsName-All is_delimiter l plain_delimiter h) in
    ap (λ t. upper (before_first is_delimiter (all_or t (behind_last (λ c. c == b'.') t)))) e
    ∙ ap (λ o. upper (before_first is_delimiter (all_or l o))) whole
    ∙ ap upper kept
    ∙ IsName-upper l h

-- A name is what is left of it, with a space before it too.
pub strip_delimiters-IsName : (l : Text) → IsName l → strip_delimiters l ≡ l
strip_delimiters-IsName l h = strip_delimiters_name l l (trimmed l h) h

pub strip_delimiters_space : (l : Text) → IsName l → strip_delimiters (32 ∷ l) ≡ l
unfolding strip_left
strip_delimiters_space l h = strip_delimiters_name (32 ∷ l) l (trimmed l h) h

-- The bytes at the end of a text that are of the kind are taken away, and no others.
pub strip_right_end :
    (p : ℕ → Bool) (l : Text) (c : ℕ) → p c ≡ true → strip_right p (l ++ c ∷ []) ≡ strip_right p l
unfolding strip_right
strip_right_end p [] c h = rw h refl
strip_right_end p (d ∷ l) c h = ap (unless_stripped p d) (strip_right_end p l c h)

-- The last byte is there, and not of the kind.
abbrev pub Ends : (ℕ → Bool) → Text → Type 0
Ends p [] = ⊥
Ends p (c ∷ []) = p c ≡ false
Ends p (c ∷ d ∷ l) = Ends p (d ∷ l)

pub strip_right-Ends : (p : ℕ → Bool) (l : Text) → Ends p l → strip_right p l ≡ l
unfolding strip_right
strip_right-Ends p [] h = refl
strip_right-Ends p (c ∷ []) h = rw h refl
strip_right-Ends p (c ∷ d ∷ l) h = ap (unless_stripped p c) (strip_right-Ends p (d ∷ l) h)

pub Ends-append : (p : ℕ → Bool) (a l : Text) → Ends p l → Ends p (a ++ l)
Ends-append p [] l h = h
Ends-append p (c ∷ []) [] h = absurd h
Ends-append p (c ∷ []) (d ∷ l) h = h
Ends-append p (c ∷ d ∷ a) l h = Ends-append p (d ∷ a) l h

pub Lacks-Ends : (p : ℕ → Bool) (c : ℕ) (l : Text) → Lacks p (c ∷ l) → Ends p (c ∷ l)
Lacks-Ends p c [] h = h.0
Lacks-Ends p c (d ∷ l) h = Lacks-Ends p d l h.1

-- What stands before the last byte of a kind, and behind the first.
pub before_last-append :
    (p : ℕ → Bool) (l : Text) (c : ℕ) → p c ≡ true → before_last p (l ++ c ∷ []) ≡ some l
unfolding before_last
before_last-append p [] c h = rw h refl
before_last-append p (d ∷ l) c h = ap (and_before d (p d)) (before_last-append p l c h)

pub behind_first-Lacks :
    (p : ℕ → Bool) (w l : Text) → Lacks p w → behind_first p (w ++ l) ≡ behind_first p l
unfolding behind_first
behind_first-Lacks p [] l h = refl
behind_first-Lacks p (d ∷ w) l h = rw h.0 (behind_first-Lacks p w l h.1)

pub before_last_behind :
    (p : ℕ → Bool) (w l before : Text)
    → before_last p l ≡ some before
    → before_last p (w ++ l) ≡ some (w ++ before)
unfolding before_last
before_last_behind p [] l before h = h
before_last_behind p (c ∷ w) l before h =
    ap (and_before c (p c)) (before_last_behind p w l before h)
