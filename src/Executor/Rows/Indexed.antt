-- ===== src/Executor/Rows/Indexed.antt =====
-- A table whose index has the rows: `Table::insert_row`, and the rows by their ID.
use mathlib.Core.Option
use flex_ql_dl.Base.{
  ℕ, suc, ◌<◌, ◌≡◌, ◌≢◌, refl, sym, ap, ◌∙◌, inl, inr, Bool, true, false, List, [], ◌∷◌, ◌++◌,
  Option, none, some, length, same_text, same_text_self, done, ◌==◌, if◌then◌else◌, Bool-cases,
}
use flex_ql_dl.Storage.Pager.{page_addr, no_page}
use flex_ql_dl.Cache.Lru.Invariant.{IsValid}
use flex_ql_dl.Storage.Row.{ColumnDef, Value}
use flex_ql_dl.Index.Node.{bpt_order}
use flex_ql_dl.Index.Tree.{BpTree, search}
use flex_ql_dl.Index.Tree.Walk.{route}
use flex_ql_dl.Index.Tree.Insert.{value, insert-search}
use flex_ql_dl.Index.Node.Entries.{or_else}
use flex_ql_dl.Index.IndexManager.{create_index, get_index}
use flex_ql_dl.Storage.Table.{Table, id_text, pk_text, insert_row}
use flex_ql_dl.Storage.Table.Holds.{IsRow, Stored, max_table_rows}
use flex_ql_dl.Storage.Table.Insert.{with_values, with_values-Stored, insert_row-with_values}
use flex_ql_dl.Executor.Rows.Lookup.{insert_key-done}

-- The first value of the row is the ID.
abbrev pub has_id : ℕ → List Value → Bool
has_id key [] = false
has_id key (v ∷ values) = v.bits == key

-- The number of the first row with an ID.
abbrev pub find_id : ℕ → List (List Value) → Option ℕ
find_id key [] = none
find_id key (row ∷ rows) =
    let rest = find_id key rows in if has_id key row then some 0 else Option.map suc rest

-- The index answers every key with the first row that has it as its ID, and no other key.
pub record Indexed (fuel : ℕ) (rows : List (List Value)) (t : Table) : Type 0 where
  pub tree : BpTree
  pub there : get_index t.index_manager pk_text ≡ some tree
  pub valid : IsValid tree.file
  pub answers : (key : ℕ) → value (search fuel tree key) ≡ some (find_id key rows)

map_suc-or_else :
    (x : Option ℕ) (b : Bool) (n : ℕ)
    → Option.map suc (or_else x (if b then some n else none))
      ≡ or_else (Option.map suc x) (if b then some (suc n) else none)
map_suc-or_else none true n = refl
map_suc-or_else none false n = refl
map_suc-or_else (some m) b n = refl

find_id-append :
    (key : ℕ) (rows : List (List Value)) (v : Value) (values : List Value)
    → find_id key (rows ++ (v ∷ values) ∷ [])
      ≡ or_else (find_id key rows) (if v.bits == key then some (length rows) else none)
find_id-append key [] v values = refl
find_id-append key (row ∷ rows) v values = elim (Bool-cases (has_id key row)) [
  | inl here ↦ rw here refl
  | inr other ↦ rw other (
      ap (Option.map suc) (find_id-append key rows v values)
      ∙ map_suc-or_else (find_id key rows) (v.bits == key) (length rows))
]

module _ (junk fuel pid : ℕ) (d : ColumnDef) (schema : List ColumnDef) (rows : List (List Value))
    (v : Value) (values : List Value) (t : Table) where
  -- A row that is inserted into a table with an ID comes behind the rows of the table, and the index
  -- has all of them: it answers each key with the first row of that ID, and an ID that no row has with
  -- nothing, if it did so before. The tree, of any height, leads the ID to a leaf with room; the row
  -- has a value of its type for each column, and the column files have room.
  pub insert_row-Indexed :
      IsRow junk (d ∷ schema) (v ∷ values)
      → length rows < max_table_rows
      → Stored junk (d ∷ schema) rows t
      → same_text d.name id_text ≡ true
      → (ix : Indexed fuel rows t)
      → route fuel ix.tree.root_pid v.bits ix.tree.file.pager.num_pages ix.tree.file.pager.memory
        ≡ some pid
      → pid ≢ no_page
      → (ix.tree.file.pager.memory (page_addr pid)).num_keys < bpt_order
      → (t' : Table) × (insert_row fuel t (v ∷ values) ≡ done t')
        × Stored junk (d ∷ schema) (rows ++ (v ∷ values) ∷ []) t'
        × Indexed fuel (rows ++ (v ∷ values) ∷ []) t'
  insert_row-Indexed typed room s has ix way ne leaf_room =
      let row = v ∷ values in
      let rid = length rows in
      let u = with_values t row in
      let stored = with_values-Stored junk d schema rows row t typed room s in
      let (tree', done', valid', law) =
        insert-search fuel v.bits rid pid ix.tree ix.valid way ne leaf_room in
      (
        record u { index_manager = create_index t.index_manager pk_text tree' },
        insert_row-with_values junk d schema rows row t typed room s fuel
            ∙ rw has (insert_key-done fuel rid v values u ix.tree tree' ix.there done'),
        record { same_schema = s.same_schema; typed = stored.typed; holds = stored.holds },
        record {
          tree = tree';
          there = rw (same_text_self pk_text) refl;
          valid = valid';
          answers = λ key.
              law key
              ∙ ap (Option.map (λ x. or_else x (if v.bits == key then some rid else none)))
                  (ix.answers key)
              ∙ ap some (sym (find_id-append key rows v values));
        },
      )
