-- ===== src/Executor/Rows/Lookup.antt =====
-- A row that is found by its ID: `Table::insert_row`, the index, and `materialize_row`.

use flex_ql_dl.Base.{
  ℕ, ◌<◌, ◌≡◌, ◌≢◌, refl, ap, ◌∙◌, true, List, [], ◌∷◌, ◌++◌, none, some, length, same_text,
  same_text_self, get_elem?-append_last, done, ==_self,
}
use flex_ql_dl.Storage.Pager.{page_addr, no_page}
use flex_ql_dl.Cache.Lru.Invariant.{IsValid}
use flex_ql_dl.Storage.Row.{ColumnDef, Value}
use flex_ql_dl.Index.Node.{bpt_order}
use flex_ql_dl.Index.Tree
use flex_ql_dl.Index.Tree.{BpTree, search}
use flex_ql_dl.Index.Tree.Walk.{route}
use flex_ql_dl.Index.Tree.Insert.{value, insert-search}
use flex_ql_dl.Index.Tree.Leaf.{inserted}
use flex_ql_dl.Index.IndexManager.{create_index, get_index}
use flex_ql_dl.Storage.Table.{Table, id_text, pk_text, insert_key, insert_row}
use flex_ql_dl.Storage.Table.Holds.{IsRow, Stored, max_table_rows}
use flex_ql_dl.Storage.Table.Insert.{with_values, with_values-Stored, insert_row-with_values}
use flex_ql_dl.Executor.Rows.{read_row}
use flex_ql_dl.Executor.Rows.Held.{read_row-get_elem?}

-- What `SELECT … WHERE ID = key` finds in a table: the index has the row's number, and the row of
-- the number is read.
pub record Finds (junk fuel key rid : ℕ) (row : List Value) (t : Table) : Type 0 where
  pub tree : BpTree
  pub there : get_index t.index_manager pk_text ≡ some tree
  pub valid : IsValid tree.file
  pub found : value (search fuel tree key) ≡ some (some rid)
  pub read : (read_row junk rid t.schema t.columns).0 ≡ row

pub insert_key-done :
    (fuel rid : ℕ) (v : Value) (values : List Value) (t : Table) (tree tree' : BpTree)
    → get_index t.index_manager pk_text ≡ some tree
    → Tree.insert fuel tree v.bits rid ≡ some tree'
    → insert_key fuel rid (v ∷ values) t
      ≡ done (record t { index_manager = create_index t.index_manager pk_text tree' })
unfolding insert_key
insert_key-done fuel rid v values t tree tree' there inserted =
    rw (there, insert_key) (rw inserted refl)

module _ (junk fuel pid : ℕ) (d : ColumnDef) (schema : List ColumnDef) (rows : List (List Value))
    (v : Value) (values : List Value) (t : Table) (tree : BpTree) where
  -- A row that is inserted into a table with an ID comes behind the rows of the table, and a
  -- lookup of its ID finds the row, in a tree of any height that leads the ID to a leaf with room.
  -- The ID was not in the index, the row has a value of its type for each column, and the column
  -- files have room.
  pub insert_row-Finds :
      IsRow junk (d ∷ schema) (v ∷ values)
      → length rows < max_table_rows
      → Stored junk (d ∷ schema) rows t
      → same_text d.name id_text ≡ true
      → get_index t.index_manager pk_text ≡ some tree
      → IsValid tree.file
      → route fuel tree.root_pid v.bits tree.file.pager.num_pages tree.file.pager.memory ≡ some pid
      → pid ≢ no_page
      → (tree.file.pager.memory (page_addr pid)).num_keys < bpt_order
      → value (search fuel tree v.bits) ≡ some none
      → (t' : Table) × (insert_row fuel t (v ∷ values) ≡ done t')
        × Stored junk (d ∷ schema) (rows ++ (v ∷ values) ∷ []) t'
        × Finds junk fuel v.bits (length rows) (v ∷ values) t'
  insert_row-Finds typed room s has there valid way ne leaf_room fresh =
      let row = v ∷ values in
      let rid = length rows in
      let u = with_values t row in
      let stored = with_values-Stored junk d schema rows row t typed room s in
      let (tree', done', valid', law) =
        insert-search fuel v.bits rid pid tree valid way ne leaf_room in
      let t' = record u { index_manager = create_index t.index_manager pk_text tree' } in
      let (read, _) =
        read_row-get_elem? junk (d ∷ schema) (rows ++ row ∷ []) u.columns rid row stored.typed typed
          (get_elem?-append_last rows row rid refl) stored.holds in
      (
        t',
        insert_row-with_values junk d schema rows row t typed room s fuel
            ∙ rw has (insert_key-done fuel rid v values u tree tree' there done'),
        record { same_schema = s.same_schema; typed = stored.typed; holds = stored.holds },
        record {
          tree = tree';
          there = rw (same_text_self pk_text) refl;
          valid = valid';
          found = law v.bits ∙ rw (fresh, ==_self v.bits) refl;
          read = ap (λ l. (read_row junk rid l u.columns).0) s.same_schema ∙ read;
        },
      )
