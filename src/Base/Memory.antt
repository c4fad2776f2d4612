-- ===== src/Base/Memory.antt =====
-- Memory as a function of the address: a single cell, and a run of bytes (`memcpy`).
use Prim.Native.Nat.{ℕ, zero, suc, ◌+◌, ◌<◌, ◌≤◌}
use mathlib.Core.Path.{◌≡◌, refl, ap}
use mathlib.Core.Logic.{◌≢◌, ◌⊎◌}
use mathlib.Core.List.{List, [], ◌∷◌}
use native.Mathlib.Omega.{arith}
use flex_ql_dl.Base.Tests.{◌==◌, if◌then◌else◌}
use flex_ql_dl.Base.Lists.{length}

-- The memory with one cell rewritten.
abbrev pub update {ℓ} : {A : Type ℓ} → (ℕ → A) → ℕ → A → ℕ → A
update m a v b = if a == b then v else m b

pub update_self {ℓ} : {A : Type ℓ} (m : ℕ → A) (a : ℕ) (v : A) → update m a v a ≡ v
update_self m a v = ground arith

pub update_ne {ℓ} : {A : Type ℓ} (m : ℕ → A) (a b : ℕ) (v : A) → a ≢ b → update m a v b ≡ m b
update_ne m a b v h = ground arith

-- `memcpy(memory + at, bytes, size)` for a source of `size` bytes.
unfoldable pub write_bytes : (ℕ → ℕ) → ℕ → List ℕ → ℕ → ℕ
write_bytes m at [] = m
write_bytes m at (x ∷ xs) = write_bytes (update m at x) (at + 1) xs

-- `memcpy(out, memory + at, size)`.
unfoldable pub read_bytes : (ℕ → ℕ) → ℕ → ℕ → List ℕ
read_bytes m at zero = []
read_bytes m at (suc n) = m at ∷ read_bytes m (at + 1) n

pub length-read_bytes : (m : ℕ → ℕ) (at n : ℕ) → length (read_bytes m at n) ≡ n
unfolding read_bytes
length-read_bytes m at zero = refl
length-read_bytes m at (suc n) = ap suc (length-read_bytes m (at + 1) n)

pub write_bytes_outside :
    (xs : List ℕ) (m : ℕ → ℕ) (at i : ℕ)
    → (i < at) ⊎ (at + length xs ≤ i)
    → write_bytes m at xs i ≡ m i
unfolding write_bytes
write_bytes_outside [] m at i h = refl
write_bytes_outside (x ∷ xs) m at i h =
    ground (arith, write_bytes_outside xs (update m at x) (at + 1) i)

-- What is written is read back.
pub read_bytes-write_bytes :
    (xs : List ℕ) (m : ℕ → ℕ) (at : ℕ) → read_bytes (write_bytes m at xs) at (length xs) ≡ xs
unfolding read_bytes write_bytes
read_bytes-write_bytes [] m at = refl
read_bytes-write_bytes (x ∷ xs) m at = ground (
  arith,
  write_bytes_outside xs (update m at x) (at + 1) at,
  read_bytes-write_bytes xs (update m at x) (at + 1),
)

-- A write elsewhere leaves what is read.
pub read_bytes-write_bytes_apart :
    (n : ℕ) (xs : List ℕ) (m : ℕ → ℕ) (at from : ℕ)
    → (from + n ≤ at) ⊎ (at + length xs ≤ from)
    → read_bytes (write_bytes m at xs) from n ≡ read_bytes m from n
unfolding read_bytes
read_bytes-write_bytes_apart zero xs m at from h = refl
read_bytes-write_bytes_apart (suc n) xs m at from h =
    ground
      (arith, write_bytes_outside xs m at from, read_bytes-write_bytes_apart n xs m at (from + 1))
