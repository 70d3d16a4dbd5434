-- ===== src/Storage/Table/History/Steps.antt =====
-- Every step of a table leaves it intact.
use skipper_db.Base.{
  ℕ, zero, suc, ◌+◌, ◌-◌, ◌%◌, ◌<◌, ◌≡◌, refl, ap, sym, ◌∙◌, subst, inl, inr, Bool, true, false,
  List, [], ◌∷◌, Option, none, some, length, arith, le_or_lt, length-append, lt→ltb, splice,
  Option-cases, if◌then◌else◌,
}
use skipper_db.Base.Utf8.{Bytes, Text}
use skipper_db.Base.Words.{to_le, length-to_le}
use skipper_db.Types.{Value, ColumnType, column_type_eq}
use skipper_db.Errors.{ok, err, ok_inj, bind_parts, unsupported_key_type}
use skipper_db.Fuel.{done, run_parts, done_inj}
use skipper_db.Catalog.Schema.{Schema, column_index}
use skipper_db.Storage.Page.{page_size, header_size, slot_size}
use skipper_db.Storage.BTree
use skipper_db.Storage.BTree.{Pages}
use skipper_db.Storage.BTree.Insert
use skipper_db.Storage.BTree.Insert.{at_index}
use skipper_db.Storage.BTree.Nodes.{Rid}
use skipper_db.Storage.Record.{IsRow, encode}
use skipper_db.Storage.Record.Encode.{null_bitmap, payload_bytes, length-null_bitmap}
use skipper_db.Storage.Record.RoundTrip.{encode-IsRow, row_bytes, IsRow-length}
use skipper_db.Storage.Table.{
  Table, Index, index_col_offset, page_count, delete, update, insert_record,
}
use skipper_db.Storage.Table.Indexed.{
  insert, index_row, index_value, with_index, create_index, insert_entries,
}
use skipper_db.Storage.Table.Keys.{key_column, int_column, write_index_marker, key_entries}
use skipper_db.Storage.Table.Scan.{scan}
use skipper_db.Storage.Table.Scan.Loop.{collect}
use skipper_db.Storage.Table.Refines.{insert_record_too_large}
use skipper_db.Storage.Table.Rows.{IsStorable}
use skipper_db.Storage.Table.Rows.Edited.{Shows, delete-get, update-get, storing, inserted-Shows}
use skipper_db.Storage.Table.Head.{marker, put_ok, marked_page-IsHead}
use skipper_db.Storage.Table.History.{IsIntact, Step, inserts, deletes, updates, indexes}

-- The tables have one file, and differ in the tree of the index at most.
record SameFile (t t' : Table) : Type 0 where
  file : t'.file ≡ t.file
  schema : t'.schema ≡ t.schema
  mark : marker t'.index ≡ marker t.index

SameFile-IsIntact : (t t' : Table) → SameFile t t' → IsIntact t → IsIntact t'
SameFile-IsIntact t t' s h =
    let k = h.sound.keeps in
    record {
      sound = record {
        stores = h.sound.stores;
        keeps = record {
          meta = k.meta;
          pages = k.pages;
          filed = s.file ∙ k.filed;
          stands = k.stands;
          small = k.small;
        };
        readable = rw s.schema h.sound.readable;
      };
      headed = record {
        meta = h.headed.meta;
        pages = h.headed.pages;
        filed = s.file ∙ h.headed.filed;
        is_head = rw (s.schema, s.mark) h.headed.is_head;
      };
      some_columns = rw s.schema h.some_columns;
      few_columns = rw s.schema h.few_columns;
    }

Shows-IsIntact :
    (t t' : Table) (rid : Rid) (x : Option (List Value))
    → Shows t rid x t'
    → IsIntact t
    → IsIntact t'
Shows-IsIntact t t' rid x s h =
    let (pages, e) = s.same_head h.headed.meta h.headed.pages h.headed.filed in
    record {
      sound = s.sound;
      headed = record {
        meta = h.headed.meta;
        pages = pages;
        filed = e;
        is_head = rw (s.same_schema, s.same_index) h.headed.is_head;
      };
      some_columns = rw s.same_schema h.some_columns;
      few_columns = rw s.same_schema h.few_columns;
    }

-- A row of a schema with a column can be stored.
pub storable :
    (s : Schema) (row : List Value) → 0 < length s.columns → IsRow s.columns row → IsStorable s row
storable s row wide typed = record {
  typed = typed;
  bytes = row_bytes row;
  coded = encode-IsRow s row typed;
  live_bytes = omega (
    arith,
    length-append (null_bitmap row) (payload_bytes row),
    length-null_bitmap row,
    IsRow-length s.columns row typed,
  );
}

same_table : (t t' : Table) → done (ok t) ≡ done (ok t') → SameFile t t'
same_table t t' h =
    subst (SameFile t) (ok_inj (done_inj h)) (record { file = refl; schema = refl; mark = refl })

index_value-SameFile :
    (fuel : ℕ) (t t' : Table) (rid : Rid) (index : Index) (v : Value)
    → t.index ≡ some index
    → index_value fuel t rid index v ≡ done (ok t')
    → SameFile t t'
unfolding index_value
index_value-SameFile fuel t t' rid index (Value.int key) e h =
    let (tree, e₁, h₁) = run_parts (Insert.insert fuel index.tree key rid) _ h in
    subst (SameFile t) (ok_inj (done_inj h₁))
      (record { file = refl; schema = refl; mark = sym (ap marker e) })
index_value-SameFile fuel t t' rid index (Value.text s) e h = same_table t t' h
index_value-SameFile fuel t t' rid index Value.null e h = same_table t t' h

index_row-SameFile :
    (fuel : ℕ) (t t' : Table) (values : List Value) (rid : Rid) (index : Option Index)
    → t.index ≡ index
    → index_row fuel t values rid index ≡ done (ok t')
    → SameFile t t'
unfolding index_row
index_row-SameFile fuel t t' values rid none e h = same_table t t' h
index_row-SameFile fuel t t' values rid (some index) e h =
    let (v, e₁, h₁) = run_parts (done (at_index values index.column)) _ h in
    index_value-SameFile fuel t t' rid index v e h₁

insert-IsIntact :
    (fuel : ℕ) (t t' : Table) (row : List Value) (rid : Rid)
    → IsRow t.schema.columns row
    → page_count t + 1 < 4294967296
    → insert fuel t row ≡ done (ok (t', rid))
    → IsIntact t
    → IsIntact t'
unfolding insert
insert-IsIntact fuel t t' row rid typed room h k =
    let (bytes, e₁, h₁) = run_parts (done (encode t.schema row)) _ h in
    let ((t₁, rid₁), e₂, h₂) = run_parts (done (insert_record t bytes)) _ h₁ in
    let (t₂, e₃, h₃) = run_parts (index_row fuel t₁ row rid₁ t₁.index) _ h₂ in
    let last : t₂ ≡ t' = ap (λ p. p.0) (ok_inj (done_inj h₃)) in
    let s = storable t.schema row k.some_columns typed in
    let same : s.bytes ≡ bytes = ok_inj (sym s.coded ∙ done_inj e₁) in
    elim (le_or_lt (length s.bytes + slot_size) (page_size - header_size)) [
      | inr large ↦ absurd (
          cc (
            insert_record_too_large t k.sound.stores k.sound.keeps bytes (rw same at large),
            done_inj e₂,
          ))
      | inl fits ↦
          let i = storing t k.sound row s fits room in
          let stored : i.table ≡ t₁ =
            ap (λ p. p.0) (ok_inj (sym i.runs ∙ ap (insert_record t) same ∙ done_inj e₂)) in
          let intact =
            Shows-IsIntact t i.table i.rid (some row) (inserted-Shows t k.sound row s i) k in
          subst IsIntact last (
            SameFile-IsIntact t₁ t₂ (index_row-SameFile fuel t₁ t₂ row rid₁ t₁.index refl e₃)
              (subst IsIntact stored intact))
    ]

delete-IsIntact :
    (t t' : Table) (rid : Rid) (b : Bool) → delete t rid ≡ ok (t', b) → IsIntact t → IsIntact t'
delete-IsIntact t t' rid b h k = elim (delete-get t k.sound rid) [
  | inl (missing, e) ↦ subst IsIntact (ap (λ p. p.0) (ok_inj (sym e ∙ h))) k
  | inr (row, shown, (t₁, e, s)) ↦
      subst IsIntact (ap (λ p. p.0) (ok_inj (sym e ∙ h))) (Shows-IsIntact t t₁ rid none s k)
]

update-IsIntact :
    (t t' : Table) (rid : Rid) (row : List Value) (b : Bool)
    → IsRow t.schema.columns row
    → update t rid row ≡ ok (t', b)
    → IsIntact t
    → IsIntact t'
update-IsIntact t t' rid row b typed h k =
    elim (update-get t k.sound rid row (storable t.schema row k.some_columns typed)) [
      | inl (missing, e) ↦ subst IsIntact (ap (λ p. p.0) (ok_inj (sym e ∙ h))) k
      | inr (old, shown, (bytes, free, measures, inr (no_room, full))) ↦ absurd (cc (full, h))
      | inr (old, shown, (bytes, free, measures, inl (room, (t₁, e, s)))) ↦
          subst IsIntact (ap (λ p. p.0) (ok_inj (sym e ∙ h)))
            (Shows-IsIntact t t₁ rid (some row) s k)
    ]

-- The table after the marker of a column was written.
abbrev marked_table : Table → Bytes → ℕ → Table
marked_table t meta column = record {
  file = BTree.write_page t.file 0 (splice meta index_col_offset (to_le 4 (suc column)));
  schema = t.schema;
  path = t.path;
  index = t.index;
}

module _ (t : Table) (index : Index) (k : IsIntact t)
    (l : index.column < length t.schema.columns) where
  write_index_marker_lem :
      write_index_marker t index.column ≡ ok (marked_table t k.headed.meta index.column)
  unfolding write_index_marker BTree.read_page
  write_index_marker_lem =
      let hd = k.headed in
      let col : index.column % 4294967296 + 1 ≡ suc index.column = omega (arith, k.few_columns) in
      rw
        (
          hd.filed,
          col,
          lt→ltb (suc index.column) 4294967296 (omega (arith, k.few_columns)),
          put_ok hd.meta index_col_offset (to_le 4 (suc index.column))
              (omega (arith, hd.is_head.sized, length-to_le 4 (suc index.column))),
        )
        refl

  marked-IsIntact : IsIntact (with_index (marked_table t k.headed.meta index.column) (some index))
  unfolding BTree.write_page
  marked-IsIntact =
      let hd = k.headed in
      let kp = k.sound.keeps in
      let meta : Bytes = splice hd.meta index_col_offset (to_le 4 (suc index.column)) in
      record {
        sound = record {
          stores = k.sound.stores;
          keeps = record {
            meta = meta;
            pages = kp.pages;
            filed = rw kp.filed refl;
            stands = kp.stands;
            small = kp.small;
          };
          readable = k.sound.readable;
        };
        headed = record {
          meta = meta;
          pages = hd.pages;
          filed = rw hd.filed refl;
          is_head =
              marked_page-IsHead hd.meta t.schema (marker t.index) (suc index.column) hd.is_head
                (omega (arith, k.few_columns));
        };
        some_columns = k.some_columns;
        few_columns = k.few_columns;
      }

at_index_bound : {A : Type 0} (xs : List A) (i : ℕ) (x : A) → at_index xs i ≡ ok x → i < length xs
unfolding at_index
at_index_bound [] i x h = cc
at_index_bound (y ∷ xs) zero x h = omega arith
at_index_bound (y ∷ xs) (suc i) x h = omega (arith, at_index_bound xs i x h)

pick_bound :
    (b : Bool) (col i n : ℕ)
    → (if b then ok col else err unsupported_key_type) ≡ ok i
    → col < n
    → i < n
pick_bound true col i n h l = omega (arith, ok_inj h)
pick_bound false col i n h l = cc

int_column_bound : (s : Schema) (col i : ℕ) → int_column s col ≡ ok i → i < length s.columns
unfolding int_column
int_column_bound s col i h =
    let (c, e, h₁) = bind_parts (at_index s.columns col) _ h in
    pick_bound (column_type_eq c.ty ColumnType.int) col i (length s.columns) h₁
      (at_index_bound s.columns col c e)

key_column_bound :
    (s : Schema) (column : Text) (i : ℕ) → key_column s column ≡ ok i → i < length s.columns
unfolding key_column
key_column_bound s column i h = elim (Option-cases (column_index s column)) [
  | inl e ↦ absurd (cc (rw (key_column, e) at h))
  | inr (col, e) ↦ int_column_bound s col i (rw (key_column, e) at h)
]

create_index-IsIntact :
    (fuel : ℕ) (t t' : Table) (column : Text) (index_file : Option Pages)
    → create_index fuel t column index_file ≡ done (ok t')
    → IsIntact t
    → IsIntact t'
unfolding create_index
create_index-IsIntact fuel t t' column index_file h k =
    let (col, e₁, h₁) = run_parts (done (key_column t.schema column)) _ h in
    let (rows, e₂, h₂) = run_parts (collect fuel t scan) _ h₁ in
    let (entries, e₃, h₃) = run_parts (done (key_entries col rows)) _ h₂ in
    let (tree, e₄, h₄) = run_parts (done (BTree.create index_file)) _ h₃ in
    let (tree', e₅, h₅) = run_parts (insert_entries fuel tree entries) _ h₄ in
    let (t₁, e₆, h₆) = run_parts (done (write_index_marker t col)) _ h₅ in
    let index : Index = record { column = col; tree = tree' } in
    let l = key_column_bound t.schema column col (done_inj e₁) in
    let marked = ok_inj (sym (write_index_marker_lem t index k l) ∙ done_inj e₆) in
    subst IsIntact (ok_inj (done_inj h₆))
      (subst (λ u. IsIntact (with_index u (some index))) marked (marked-IsIntact t index k l))

pub Step-IsIntact : (t t' : Table) → Step t t' → IsIntact t → IsIntact t'
Step-IsIntact t t' (inserts fuel row rid typed room h) k =
    insert-IsIntact fuel t t' row rid typed room h k
Step-IsIntact t t' (deletes rid b h) k = delete-IsIntact t t' rid b h k
Step-IsIntact t t' (updates rid row b typed h) k = update-IsIntact t t' rid row b typed h k
Step-IsIntact t t' (indexes fuel column index_file h) k =
    create_index-IsIntact fuel t t' column index_file h k
