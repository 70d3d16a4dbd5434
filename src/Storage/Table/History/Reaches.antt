-- ===== src/Storage/Table/History/Reaches.antt =====
-- What holds of every table that `create` and the methods of src/storage/table.rs reach.
use skipper_db.Base.{
  ℕ, zero, suc, ◌+◌, ◌<◌, ◌≡◌, refl, ap, sym, ◌∙◌, subst, ◌⊎◌, inl, inr, List, [], Option, none,
  some, length, All, Option-cases, le_or_lt, lt→ltb,
}
use skipper_db.Types.{Value}
use skipper_db.Base.Utf8.{Text}
use skipper_db.Errors.{ok, err, ok_inj, bind_assoc, map_ok, map_ok-bind, ◌>>=◌, schema_too_large}
use skipper_db.Catalog.Schema.{Schema, IsColumn, serialize}
use skipper_db.Storage.Page.{page_size}
use skipper_db.Storage.BTree
use skipper_db.Storage.BTree.{Pages}
use skipper_db.Storage.BTree.Nodes.{Rid}
use skipper_db.Storage.Record.{IsRow}
use skipper_db.Storage.Table.{
  Table, Index, create_table, open_table, open_index, index_path, get, schema_offset,
}
use skipper_db.Storage.Table.Indexed.{with_index}
use skipper_db.Storage.Table.Stores.{record_at, at_page}
use skipper_db.Storage.Table.Keeps.{fresh-Keeps}
use skipper_db.Storage.Table.Rows.{get-none, get-some}
use skipper_db.Storage.Table.Head.{create_table_lem, open_table-Headed, marker}
use skipper_db.Storage.Table.History.{Reached, created, after, IsIntact}
use skipper_db.Storage.Table.History.Steps.{Step-IsIntact}

no_records : (page i : ℕ) → at_page [] page i ≡ none
no_records zero i = refl
no_records (suc page) i = refl

module _ (path : Text) (s : Schema) where
  create_table_large :
      page_size < schema_offset + length (serialize s)
      → create_table none path s ≡ err schema_too_large
  unfolding create_table
  create_table_large big = rw (lt→ltb page_size (schema_offset + length (serialize s)) big) refl

  -- A table that was just created.
  create_table-IsIntact :
      (t : Table)
      → All IsColumn s.columns
      → 0 < length s.columns
      → length s.columns < 65536
      → create_table none path s ≡ ok t
      → IsIntact t
  create_table-IsIntact t cs some_columns few h =
      elim (le_or_lt (schema_offset + length (serialize s)) page_size) [
        | inr big ↦ absurd (cc (create_table_large big, h))
        | inl fits ↦
            let (t', e, headed, index, at, schema, (meta, filed)) =
              create_table_lem path s cs few fits in
            subst IsIntact (ok_inj (sym e ∙ h)) (record {
              sound = record {
                stores = [];
                keeps = fresh-Keeps t' meta filed;
                readable = λ rid bytes z. absurd (cc (z, no_records rid.page rid.slot));
              };
              headed = headed;
              some_columns = rw schema some_columns;
              few_columns = rw schema few;
            })
      ]

pub Reached-IsIntact : (t : Table) → Reached t → IsIntact t
Reached-IsIntact t (created path s cs some_columns few h) =
    create_table-IsIntact path s t cs some_columns few h
Reached-IsIntact t (after {t = before} r step) =
    Step-IsIntact before t step (Reached-IsIntact before r)

-- On every table that was created and then changed by any calls of `insert`, `update`, `delete` and
-- `create_index` that returned, `get` returns, under every row id and without an error or a panic, no
-- row or a row of the table's schema. (The rows of these calls fit the schema, and the file had room for
-- one more page.)
pub Reached-get :
    (t : Table) (rid : Rid)
    → Reached t
    → (get t rid ≡ ok none)
      ⊎ ((row : List Value) × (get t rid ≡ ok (some row)) × IsRow t.schema.columns row)
Reached-get t rid r =
    let h = (Reached-IsIntact t r).sound in
    elim (Option-cases (record_at h.stores rid)) [
      | inl e ↦ inl (get-none t h.stores h.keeps rid e)
      | inr (bytes, e) ↦
          let (row, d, typed) = h.readable rid bytes e in
          inr (row, get-some t h.stores h.keeps rid bytes row e d, typed)
    ]

-- What `open` makes of the index of a table.
reopened_index :
    (t : Table) (index_file : Option Pages) (index : Option Index)
    → t.index ≡ index
    → (open_index (marker index) t.path index_file >>= λ ix. ok (with_index t ix))
      ≡ open_table t.path (some t.file) index_file
    → ((t.index ≡ none) × (open_table t.path (some t.file) index_file ≡ ok t))
      ⊎ ((ix : Index) × (t.index ≡ some ix)
          × (open_table t.path (some t.file) index_file
              ≡ map_ok
                  (λ tree. with_index t (some (record { column = ix.column; tree = tree })))
                  (BTree.open_tree (index_path t.path) index_file)))
unfolding open_index
reopened_index t index_file none e h = inl (e, sym h ∙ ap (λ ix. ok (with_index t ix)) (sym e))
reopened_index t index_file (some ix) e h = inr (
  ix,
  e,
  sym h
      ∙ bind_assoc (BTree.open_tree (index_path t.path) index_file) _ _
      ∙ map_ok-bind _ (BTree.open_tree (index_path t.path) index_file),
)

-- Every table that was created and then changed by any calls of `insert`, `update`, `delete` and
-- `create_index` that returned is opened from its file: as it was if it has no index, and else with an
-- index of the same column, whose tree is opened from the index file. (The rows of these calls fit the
-- schema, and the file had room for one more page.)
pub Reached-open_table :
    (t : Table) (index_file : Option Pages)
    → Reached t
    → ((t.index ≡ none) × (open_table t.path (some t.file) index_file ≡ ok t))
      ⊎ ((ix : Index) × (t.index ≡ some ix)
          × (open_table t.path (some t.file) index_file
              ≡ map_ok
                  (λ tree. with_index t (some (record { column = ix.column; tree = tree })))
                  (BTree.open_tree (index_path t.path) index_file)))
Reached-open_table t index_file r =
    reopened_index t index_file t.index refl
      (sym (open_table-Headed t index_file (Reached-IsIntact t r).headed))
