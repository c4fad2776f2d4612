-- ===== src/Executor/Insert.antt =====
-- `Executor::exec_insert` (src/executor/executor.cpp).
pub mod Values
pub mod Printing
pub mod Printed
mod Tests
use flex_ql_dl.Base.{
  ℕ, zero, suc, ◌+◌, ◌-◌, ◌*◌, ◌/◌, ◌^◌, Bool, true, false, ◌&&◌, List, [], ◌∷◌, ◌++◌, Option, none,
  some, leb, ◌==◌, if◌then◌else◌, length, update, Text, trim_left, trim_right, getlines, Outcome,
  done, aborted, fault, starved, ◌>>=◌, stoll,
}
use flex_ql_dl.Storage.Row.{
  ColumnType, int, float, decimal, char, varchar, datetime, ColumnDef, Value,
}
use flex_ql_dl.Storage.Table.{Table, insert_row}
use flex_ql_dl.Parser.Ast.{InsertStmt}
use flex_ql_dl.Executor.Database.{Env, Database, Answer, succeeded, failed, not_found, get_table}

-- The texts between a '(' and the next ')': `inside` is what was read behind a '(', if one is open.
-- A last '(' with no ')' is dropped.
unfoldable pub tuples : Option Text → Text → List Text
tuples inside [] = []
tuples none (c ∷ l) =
    let opened = tuples (some []) l in
    let rest = tuples none l in if c == b'(' then opened else rest
tuples (some tuple) (c ∷ l) =
    let closed = tuples none l in
    let rest = tuples (some (tuple ++ c ∷ [])) l in if c == b')' then tuple ∷ closed else rest

abbrev pub quote : ℕ
quote = 39

-- A text without its last byte, if that is a quote.
abbrev pub drop_quote : Text → Option Text
drop_quote [] = none
drop_quote (c ∷ []) = if c == quote then some [] else none
drop_quote (c ∷ d ∷ l) =
    let rest = drop_quote (d ∷ l) in elim rest [ none ↦ none | some r ↦ some (c ∷ r) ]

-- The quotes around a text are removed, if there are two.
abbrev pub unquote : Text → Text
unquote [] = []
unquote (c ∷ l) = elim (drop_quote l) [ none ↦ c ∷ l | some r ↦ if c == quote then r else c ∷ l ]

abbrev pub number_value : ColumnType → Option ℕ → Outcome Value
number_value type none = aborted
number_value type (some n) = done (record { type = type; bits = n; str = [] })

module _ (env : Env) where
  -- The four bytes of a float in a union.
  abbrev pub with_float : Option ℕ → Option ℕ
  with_float none = none
  with_float (some n) = some ((env.junk / 2 ^ 32) * 2 ^ 32 + n)

  unfoldable pub parse_value : ColumnType → Text → Outcome Value
  unfolding stoll
  parse_value varchar val = done (record { type = varchar; bits = env.junk; str = unquote val })
  parse_value decimal val = number_value decimal (stoll val)
  parse_value int val = number_value decimal (stoll val)
  parse_value _ val = number_value float (with_float (env.stof val))

  -- The values of a tuple, each by the type of its column. One more than there are columns reads
  -- behind the schema.
  unfoldable pub parse_values : List ColumnDef → List Text → Outcome (List Value)
  unfolding parse_value trim_left trim_right
  parse_values schema [] = done []
  parse_values [] (val ∷ vals) = fault
  parse_values (d ∷ schema) (val ∷ vals) = parse_value d.type (trim_right (trim_left val)) >>= λ v.
      parse_values schema vals >>= λ values. done (v ∷ values)

  -- The loop over the tuples.
  unfoldable pub insert_tuples : List Text → Table → Outcome Table
  unfolding parse_values getlines insert_row
  insert_tuples [] t = done t
  insert_tuples (tuple ∷ rest) t = parse_values t.schema (getlines b',' tuple) >>= λ row.
      insert_row env.fuel t row >>= λ t'. insert_tuples rest t'

  unfoldable pub exec_insert : InsertStmt → Database → Outcome (Answer × Database)
  unfolding tuples insert_tuples
  exec_insert s db = elim (get_table db s.table_name) [
    | none ↦ done (failed (not_found s.table_name), db)
    | some a ↦ insert_tuples (tuples none s.raw_values) (db.heap a) >>= λ t.
        done (succeeded [], record db { heap = update db.heap a t })
  ]
