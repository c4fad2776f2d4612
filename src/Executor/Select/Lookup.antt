-- ===== src/Executor/Select/Lookup.antt =====
-- A SELECT by ID, through the index.

use mathlib.Core.Option
use mathlib.Core.Option.{some_inj, some-ne-none}
use flex_ql_dl.Base.{
  ℕ, ◌≡◌, refl, sym, ap, ◌∙◌, inl, inr, true, false, List, [], ◌∷◌, none, some, update, update_self,
  done, Option-cases,
}
use flex_ql_dl.Storage.Row.{Value}
use flex_ql_dl.Storage.Table.{Table, pk_text}
use flex_ql_dl.Index.Tree.{search}
use flex_ql_dl.Index.IndexManager.{create_index}
use flex_ql_dl.Parser.Ast.{SelectStmt}
use flex_ql_dl.Executor.Rows.{Heap, read_row, materialize_row}
use flex_ql_dl.Executor.Rows.Lookup.{Finds}
use flex_ql_dl.Executor.Database.{Env, Database, succeeded, get_table}
use flex_ql_dl.Executor.Filter.{unknown_column, row_strings, finish_rows}
use flex_ql_dl.Executor.Select.{lookup_key, find_row, select_rows, search_index, exec_select}
use flex_ql_dl.Executor.Select.Refines.{exec_select-select_rows, answer_rows-texts}

-- What the index answers for a key that it has.
search_index-found :
    (env : Env) (a key rid : ℕ) (heap : Heap) (row : List Value)
    → Finds env.junk env.fuel key rid row (heap a)
    → (t : Table) × (search_index env a key heap ≡ done (some rid, update heap a t))
      × (t.schema ≡ (heap a).schema)
      × (t.columns ≡ (heap a).columns)
unfolding search_index
search_index-found env a key rid heap row f = elim (Option-cases (search env.fuel f.tree key)) [
  | inl lost ↦ absurd (some-ne-none (some rid) (sym f.found ∙ rw lost refl))
  | inr (r, found) ↦
      let hit : r.0 ≡ some rid = some_inj.0 (ap (Option.map (λ x. x.0)) (sym found) ∙ f.found) in
      (
        record (heap a) {
          index_manager =
              create_index (heap a).index_manager pk_text (record f.tree { file = r.1 });
        },
        rw (f.there, search_index) (rw found (rw hit refl)),
        refl,
        refl,
      )
]

find_row-found :
    (env : Env) (a key rid : ℕ) (heap : Heap) (row : List Value)
    → Finds env.junk env.fuel key rid row (heap a)
    → (heap' : Heap) × (find_row env a (some key) heap ≡ done (some row, heap'))
unfolding find_row materialize_row
find_row-found env a key rid heap row f =
    let (t, found, same, columns) = search_index-found env a key rid heap row f in
    let heap' = update heap a t in
    let at : heap' a ≡ t = update_self heap a t in
    let read : (materialize_row env.junk a rid heap').0 ≡ row =
      ap (λ u. (read_row env.junk rid u.schema u.columns).0) at
      ∙ ap (λ l. (read_row env.junk rid l t.columns).0) same
      ∙ ap (λ c. (read_row env.junk rid (heap a).schema c).0) columns
      ∙ f.read in
    (
      (materialize_row env.junk a rid heap').1,
      rw (found, find_row) (ap (λ r. done (some r, (materialize_row env.junk a rid heap').1)) read),
    )

-- A SELECT with the clause ID = key and no join, whose index finds a row for the key, if the table
-- has the columns that are asked for: the callback gets that row alone.
pub exec_select-lookup :
    (env : Env) (s : SelectStmt) (a key rid : ℕ) (row : List Value) (db : Database)
    → get_table db s.table_name ≡ some a
    → s.has_join ≡ false
    → s.has_order ≡ false
    → unknown_column (db.heap a).schema s.columns ≡ none
    → lookup_key s ≡ some key
    → Finds env.junk env.fuel key rid row (db.heap a)
    → (heap' : Heap) × (exec_select env s db
        ≡ done (
          succeeded (row_strings (db.heap a).schema [] s.columns row ∷ []),
          record db { heap = heap' },
        ))
unfolding finish_rows select_rows
exec_select-lookup env s a key rid row db there alone unordered known asked f =
    let (heap', found) = find_row-found env a key rid db.heap row f in
    (
      heap',
      exec_select-select_rows env s a db there (rw alone known)
          ∙ rw asked (rw found refl)
          ∙ answer_rows-texts env s a db (db.heap a).schema [] true (row ∷ []) heap' _ refl
              (rw unordered refl),
    )
