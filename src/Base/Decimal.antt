-- ===== src/Base/Decimal.antt =====
-- Signed numbers of 64 bits as decimal text: `std::stoll` and `std::to_string`. A number is its
-- bits, below 2 ^ 64.
use Prim.Native.Nat.{ℕ, zero, suc, ◌+◌, ◌-◌, ◌*◌, ◌/◌, ◌%◌, ◌^◌, ◌<◌, ◌≤◌}
use mathlib.Core.Path.{◌≡◌, refl, ap, ◌∙◌}
use mathlib.Core.Logic.{◌⊎◌, inl, inr}
use mathlib.Core.Bool.{Bool, true, false, ◌&&◌}
use mathlib.Core.List.{[], ◌∷◌}
use mathlib.Core.Option.{Option, none, some}
use native.Mathlib.Omega.{arith}
use native.Mathlib.Nat.{pow-succ'}
use flex_ql_dl.Base.Tests.{
  ltb, leb, ltb→lt, ltb→le, lt→ltb, le→leb, ◌==◌, if◌then◌else◌, Bool-cases,
}
use flex_ql_dl.Base.Texts.{Text, is_space, trim_left}

abbrev pub is_digit : ℕ → Bool
is_digit c = leb 48 c && leb c 57

-- The number of the digits at the start of a text, behind a number.
unfoldable pub read_digits : ℕ → Text → ℕ
read_digits n [] = n
read_digits n (c ∷ l) =
    let rest = read_digits (10 * n + (c - 48)) l in if is_digit c then rest else n

-- A digit at least has to be there.
abbrev pub unsigned_number : Text → Option ℕ
unsigned_number [] = none
unsigned_number (c ∷ l) = if is_digit c then some (read_digits 0 (c ∷ l)) else none

-- The bits of a number, if it has no more than 63 and the sign.
abbrev pub positive_bits : ℕ → Option ℕ
positive_bits n = if ltb n (2 ^ 63) then some n else none

abbrev pub negative_bits : ℕ → Option ℕ
negative_bits n = if leb n (2 ^ 63) then some ((2 ^ 64 - n) % 2 ^ 64) else none

abbrev pub with_number : (ℕ → Option ℕ) → Option ℕ → Option ℕ
with_number f none = none
with_number f (some n) = f n

-- `stoll` behind the white space.
abbrev pub signed_number : Text → Option ℕ
signed_number [] = none
signed_number (c ∷ l) =
    if c == b'-'
    then with_number negative_bits (unsigned_number l)
    else if c == b'+'
    then with_number positive_bits (unsigned_number l)
    else with_number positive_bits (unsigned_number (c ∷ l))

-- `std::stoll`; `none` is an exception.
unfoldable pub stoll : Text → Option ℕ
unfolding read_digits trim_left
stoll l = signed_number (trim_left l)

-- The digits of a number before a text, for a number of at most so many digits.
unfoldable pub digits : ℕ → ℕ → Text → Text
digits zero n l = l
digits (suc k) n l =
    let rest = digits k (n / 10) ((48 + n % 10) ∷ l) in if ltb n 10 then (48 + n % 10) ∷ l else rest

-- `std::to_string(int64_t)`: 19 digits are enough.
unfoldable pub to_string : ℕ → Text
unfolding digits
to_string n = if ltb n (2 ^ 63) then digits 19 n [] else b'-' ∷ digits 19 (2 ^ 64 - n) []

read_digits_digit :
    (a d : ℕ) (l : Text) → d < 10 → read_digits a ((48 + d) ∷ l) ≡ read_digits (10 * a + d) l
unfolding read_digits
read_digits_digit a d l h =
    let back : 48 + d - 48 ≡ d = omega arith in
    let digit : is_digit (48 + d) ≡ true = ground (arith, h) in rw (digit, back) refl

read_digits-digits :
    (k n : ℕ) (l : Text) → n < 10 ^ suc k → read_digits 0 (digits (suc k) n l) ≡ read_digits n l
unfolding digits
read_digits-digits zero n l h =
    let below : ltb n 10 ≡ true = lt→ltb n 10 (omega (arith, h)) in
    let last : 10 * 0 + n % 10 ≡ n = omega (arith, h) in
    rw below (read_digits_digit 0 (n % 10) l (omega arith) ∙ ap (λ m. read_digits m l) last)
read_digits-digits (suc j) n l h = elim (Bool-cases (ltb n 10)) [
  | inl small ↦
      let last : 10 * 0 + n % 10 ≡ n = omega (arith, ltb→lt n 10 small) in
      rw small (read_digits_digit 0 (n % 10) l (omega arith) ∙ ap (λ m. read_digits m l) last)
  | inr large ↦
      let power = pow-succ' 10 (suc j) in
      let last : 10 * (n / 10) + n % 10 ≡ n = omega arith in
      rw large (
        read_digits-digits j (n / 10) ((48 + n % 10) ∷ l) (omega (arith, h, power))
        ∙ read_digits_digit (n / 10) (n % 10) l (omega arith)
        ∙ ap (λ m. read_digits m l) last)
]

-- A text that starts with a digit.
abbrev StartsDigit : Text → Type 0
StartsDigit [] = ⊥
StartsDigit (c ∷ l) = is_digit c ≡ true

digits-StartsDigit : (k n : ℕ) (l : Text) → StartsDigit l ⊎ (0 < k) → StartsDigit (digits k n l)
unfolding digits
digits-StartsDigit zero n l (inl h) = h
digits-StartsDigit zero n l (inr h) = absurd (omega (arith, h))
digits-StartsDigit (suc k) n l h =
    let digit : is_digit (48 + n % 10) ≡ true = ground arith in
    elim (Bool-cases (ltb n 10)) [
      | inl small ↦ rw small digit
      | inr large ↦ rw large (digits-StartsDigit k (n / 10) ((48 + n % 10) ∷ l) (inl digit))
    ]

unsigned_number-StartsDigit :
    (l : Text) → StartsDigit l → unsigned_number l ≡ some (read_digits 0 l)
unfolding read_digits
unsigned_number-StartsDigit [] h = absurd h
unsigned_number-StartsDigit (c ∷ l) h = rw h refl

stoll-StartsDigit : (l : Text) → StartsDigit l → stoll l ≡ positive_bits (read_digits 0 l)
unfolding stoll trim_left
stoll-StartsDigit [] h = absurd h
stoll-StartsDigit (c ∷ l) h =
    let visible : is_space c ≡ false = ground (arith, h) in
    let no_minus : (c == b'-') ≡ false = ground (arith, h) in
    let no_plus : (c == b'+') ≡ false = ground (arith, h) in rw (visible, no_minus, no_plus, h) refl

unsigned_number-digits : (n : ℕ) → n < 10 ^ 19 → unsigned_number (digits 19 n []) ≡ some n
unfolding read_digits
unsigned_number-digits n h =
    unsigned_number-StartsDigit (digits 19 n []) (digits-StartsDigit 19 n [] (inr (omega arith)))
    ∙ ap some (read_digits-digits 18 n [] h)

stoll_minus : (n : ℕ) → n < 2 ^ 64 → 2 ^ 63 ≤ n → stoll (b'-' ∷ digits 19 (2 ^ 64 - n) []) ≡ some n
unfolding stoll trim_left
stoll_minus n h k =
    let back : (2 ^ 64 - (2 ^ 64 - n)) % 2 ^ 64 ≡ n = omega (arith, h) in
    let fits : leb (2 ^ 64 - n) (2 ^ 63) ≡ true = le→leb _ _ (omega (arith, h, k)) in
    ap (with_number negative_bits) (unsigned_number-digits (2 ^ 64 - n) (omega (arith, k)))
    ∙ rw fits (ap some back)

-- A number of 64 bits that is printed is read back, negative ones and the least one included.
pub stoll-to_string : (n : ℕ) → n < 2 ^ 64 → stoll (to_string n) ≡ some n
unfolding to_string read_digits
stoll-to_string n h = elim (Bool-cases (ltb n (2 ^ 63))) [
  | inl small ↦
      let below = ltb→lt n (2 ^ 63) small in
      let read = read_digits-digits 18 n [] (omega (arith, below)) in
      rw small (
        stoll-StartsDigit (digits 19 n []) (digits-StartsDigit 19 n [] (inr (omega arith)))
        ∙ ap positive_bits read
        ∙ rw small refl)
  | inr large ↦ rw large (stoll_minus n h (ltb→le n (2 ^ 63) large))
]
