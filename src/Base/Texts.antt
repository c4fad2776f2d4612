-- ===== src/Base/Texts.antt =====
-- Texts as lists of bytes: the parts of `std::string` and <cctype> that the components share.
use Prim.Native.Nat.{ℕ, ◌-◌}
use mathlib.Core.Path.{◌≡◌, refl}
use mathlib.Core.Bool.{Bool, true, false, ◌&&◌, ◌||◌}
use mathlib.Core.List.{List, [], ◌∷◌, ◌++◌, map}
use mathlib.Core.Option.{Option, none, some}
use native.Mathlib.Omega.{arith}
use flex_ql_dl.Base.Tests.{leb, ◌==◌, if◌then◌else◌}
use flex_ql_dl.Base.Lists.{All}

abbrev pub Text : Type 0
Text = List ℕ

-- `isspace`, in the "C" locale.
abbrev pub is_space : ℕ → Bool
is_space c = c == 32 || (leb 9 c && leb c 13)

-- `toupper`, in the "C" locale.
abbrev pub upper : Text → Text
upper l = map (λ c. if leb 97 c && leb c 122 then c - 32 else c) l

-- `std::string::operator==`
unfoldable pub same_text : Text → Text → Bool
same_text [] [] = true
same_text [] (y ∷ b) = false
same_text (x ∷ a) [] = false
same_text (x ∷ a) (y ∷ b) = let rest = same_text a b in x == y && rest

-- A C string: the bytes before the first '\0'.
unfoldable pub c_str : Text → Text
c_str [] = []
c_str (c ∷ l) = let rest = c_str l in if c == 0 then [] else c ∷ rest

-- `s.find(prefix) == 0`, for what is behind the prefix.
unfoldable pub strip_prefix : Text → Text → Option Text
strip_prefix [] l = some l
strip_prefix (p ∷ prefix) [] = none
strip_prefix (p ∷ prefix) (c ∷ l) =
    let rest = strip_prefix prefix l in if p == c then rest else none

-- `while (!s.empty() && isspace(s[0])) s.erase(0, 1);`
unfoldable pub trim_left : Text → Text
trim_left [] = []
trim_left (c ∷ l) = let rest = trim_left l in if is_space c then rest else c ∷ l

abbrev pub unless_blank : ℕ → Text → Text
unless_blank c [] = if is_space c then [] else c ∷ []
unless_blank c (d ∷ l) = c ∷ d ∷ l

-- `while (!s.empty() && isspace(s.back())) s.pop_back();`
unfoldable pub trim_right : Text → Text
trim_right [] = []
trim_right (c ∷ l) = unless_blank c (trim_right l)

abbrev pub into_first : ℕ → List Text → List Text
into_first c [] = (c ∷ []) ∷ []
into_first c (part ∷ parts) = (c ∷ part) ∷ parts

-- `while (std::getline(ss, part, delimiter))`: nothing is read behind a delimiter at the end.
unfoldable pub getlines : ℕ → Text → List Text
getlines delimiter [] = []
getlines delimiter (c ∷ l) =
    let rest = getlines delimiter l in if c == delimiter then [] ∷ rest else into_first c rest

-- The parts with a separator between them.
unfoldable pub join_with : ℕ → List Text → Text
join_with separator [] = []
join_with separator (part ∷ []) = part
join_with separator (part ∷ next ∷ parts) = part ++ separator ∷ join_with separator (next ∷ parts)

-- No byte of a text is the given one.
abbrev pub Without : ℕ → Text → Type 0
Without c l = All (λ d. (d == c) ≡ false) l

pub same_text_iff : (a b : Text) → same_text a b ≡ true → a ≡ b
unfolding same_text
same_text_iff [] [] h = refl
same_text_iff [] (y ∷ b) h = cc
same_text_iff (x ∷ a) [] h = cc
same_text_iff (x ∷ a) (y ∷ b) h = ground (arith, same_text_iff a b)

pub same_text_self : (a : Text) → same_text a a ≡ true
unfolding same_text
same_text_self [] = refl
same_text_self (x ∷ a) = ground (arith, same_text_self a)

pub strip_prefix-append : (prefix l : Text) → strip_prefix prefix (prefix ++ l) ≡ some l
unfolding strip_prefix
strip_prefix-append [] l = refl
strip_prefix-append (p ∷ prefix) l = ground (arith, strip_prefix-append prefix l)

-- Without a '\0' the whole text is its C string.
pub c_str-Without : (l : Text) → Without 0 l → c_str l ≡ l
unfolding c_str
c_str-Without [] h = refl
c_str-Without (b ∷ l) h = let ih = c_str-Without l h.1 in rw (h.0, c_str) (rw ih refl)
