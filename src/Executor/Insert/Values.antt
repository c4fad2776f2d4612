-- ===== src/Executor/Insert/Values.antt =====
-- INSERT on a table that holds rows (src/executor/executor.cpp).
use mathlib.Core.Path.{subst}
use mathlib.Core.List.{append_assoc, append-nil}
use flex_ql_dl.Base.{
  ℕ, ◌+◌, ◌≤◌, ◌≡◌, refl, sym, ap, ◌∙◌, false, List, [], ◌∷◌, ◌++◌, none, some, arith, length,
  length-append, update, Text, getlines, same_text, done,
}
use flex_ql_dl.Storage.Row.{ColumnDef, Value}
use flex_ql_dl.Storage.Table.{Table, id_text}
use flex_ql_dl.Storage.Table.Holds.{IsRow, Stored, max_table_rows}
use flex_ql_dl.Storage.Table.Insert.{insert_row-Stored}
use flex_ql_dl.Parser.Ast.{InsertStmt}
use flex_ql_dl.Executor.Database.{Env, Database, succeeded, get_table}
use flex_ql_dl.Executor.Insert.{tuples, parse_values, insert_tuples, exec_insert}

-- The texts of tuples stand for rows.
abbrev pub StandFor : Env → List ColumnDef → List Text → List (List Value) → Type 0
StandFor env schema [] [] = Unit
StandFor env schema (tuple ∷ texts) (row ∷ rows) =
    (parse_values env schema (getlines b',' tuple) ≡ done row)
    × IsRow env.junk schema row
    × StandFor env schema texts rows
StandFor env schema _ _ = ⊥

module _ (env : Env) (d : ColumnDef) (schema : List ColumnDef)
    (no_id : same_text d.name id_text ≡ false) where
  insert_tuples-Stored :
      (texts : List Text) (new rows : List (List Value)) (t : Table)
      → StandFor env (d ∷ schema) texts new
      → length rows + length new ≤ max_table_rows
      → Stored env.junk (d ∷ schema) rows t
      → (t' : Table) × (insert_tuples env texts t ≡ done t')
        × Stored env.junk (d ∷ schema) (rows ++ new) t'
  unfolding insert_tuples
  insert_tuples-Stored [] [] rows t h room s =
      (t, refl, subst (λ l. Stored env.junk (d ∷ schema) l t) (sym (append-nil rows)) s)
  insert_tuples-Stored [] (row ∷ new) rows t h room s = absurd h
  insert_tuples-Stored (tuple ∷ texts) [] rows t h room s = absurd h
  insert_tuples-Stored (tuple ∷ texts) (row ∷ new) rows t h room s =
      let (u, inserted, stored) =
        insert_row-Stored env.junk d schema rows row t h.1 (omega (arith, room)) s env.fuel no_id in
      let (t', rest, stored') =
        insert_tuples-Stored texts new (rows ++ row ∷ []) u h.2
          (omega (arith, room, length-append rows (row ∷ []))) stored in
      let parsed : parse_values env t.schema (getlines b',' tuple) ≡ done row =
        ap (λ l. parse_values env l (getlines b',' tuple)) s.same_schema ∙ h.0 in
      (
        t',
        rw (parsed, insert_tuples) (rw inserted rest),
        subst (λ l. Stored env.junk (d ∷ schema) l t') (append_assoc rows (row ∷ []) new) stored',
      )

  -- INSERT on a table without an ID, whose tuples the loop reads as rows of the table.
  pub exec_insert-Stored :
      (s : InsertStmt) (new rows : List (List Value)) (a : ℕ) (db : Database)
      → get_table db s.table_name ≡ some a
      → StandFor env (d ∷ schema) (tuples none s.raw_values) new
      → length rows + length new ≤ max_table_rows
      → Stored env.junk (d ∷ schema) rows (db.heap a)
      → (t' : Table) × (exec_insert env s db
          ≡ done (succeeded [], record db { heap = update db.heap a t' }))
        × Stored env.junk (d ∷ schema) (rows ++ new) t'
  unfolding exec_insert
  exec_insert-Stored s new rows a db there h room stored =
      let (t', done', stored') =
        insert_tuples-Stored (tuples none s.raw_values) new rows (db.heap a) h room stored in
      (t', rw (there, exec_insert) (rw done' refl), stored')
