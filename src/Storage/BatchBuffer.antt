-- ===== src/Storage/BatchBuffer.antt =====
-- `ColumnBatchBuffer` (src/storage/batch_buffer.cpp): values that wait to be written together.
use flex_ql_dl.Base.{ℕ, ◌≡◌, sym, ap, ◌∙◌, Bool, List, [], ◌∷◌, ◌++◌, leb, length}
use mathlib.Core.List.{append_assoc, append-nil}

pub record ColumnBatchBuffer : Type 0 where
  pub buffer : List (List ℕ)
  pub max_batch_size : ℕ

abbrev pub new : ℕ → ColumnBatchBuffer
new batch_size = record { buffer = []; max_batch_size = batch_size }

abbrev pub add : ColumnBatchBuffer → List ℕ → ColumnBatchBuffer
add b value = record b { buffer = b.buffer ++ value ∷ [] }

abbrev pub is_full : ColumnBatchBuffer → Bool
is_full b = leb b.max_batch_size (length b.buffer)

abbrev pub get_data : ColumnBatchBuffer → List (List ℕ)
get_data b = b.buffer

abbrev pub clear : ColumnBatchBuffer → ColumnBatchBuffer
clear b = record b { buffer = [] }

-- Values added one after another.
abbrev pub add_all : ColumnBatchBuffer → List (List ℕ) → ColumnBatchBuffer
add_all b [] = b
add_all b (value ∷ values) = add_all (add b value) values

-- The values that were added are there behind those that were, in their order, and the size of a
-- batch stays.
pub get_data-add_all :
    (b : ColumnBatchBuffer) (values : List (List ℕ))
    → add_all b values ≡ record b { buffer = get_data b ++ values }
get_data-add_all b [] = ap (λ l. record b { buffer = l }) (sym (append-nil b.buffer))
get_data-add_all b (value ∷ values) =
    get_data-add_all (add b value) values
    ∙ ap (λ l. record b { buffer = l }) (append_assoc b.buffer (value ∷ []) values)
