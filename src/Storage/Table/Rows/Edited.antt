-- ===== src/Storage/Table/Rows/Edited.antt =====
-- What `insert`, `delete` and `update` of src/storage/table.rs change of the rows of a table.
use skipper_db.Base.{
  ℕ, ◌+◌, ◌<◌, ◌≡◌, ◌≢◌, refl, sym, ◌∙◌, ◌⊎◌, inl, inr, true, false, List, Option, none, some,
  arith, Option-cases,
}
use skipper_db.Base.Utf8.{Bytes}
use skipper_db.Types.{Value}
use skipper_db.Errors.{ok, err, record_too_large}
use skipper_db.Fuel.{done}
use skipper_db.Storage.Page.Store.{live}
use skipper_db.Storage.Record.{decode, IsRow}
use skipper_db.Storage.BTree.Nodes.{Rid}
use skipper_db.Storage.Table.{Table, page_count, get, delete, update}
use skipper_db.Storage.Table.Indexed.{insert, index_row}
use skipper_db.Storage.Table.Stores.{IsPlaced-fresh, IsPlaced-self, IsPlaced-other, record_at}
use skipper_db.Storage.Table.Keeps.{SameHead, Keeps-page_count}
use skipper_db.Storage.Table.Refines.{Inserted, insert_record_lem}
use skipper_db.Storage.Table.Edits.{
  Rewritten, Measures, HasRoom, delete-missing, delete-there, update-missing, update-there,
}
use skipper_db.Storage.Table.Rows.{
  IsSound, IsStorable, FitsPage, live_lem, IsStorable-decode, get-none, get-some, get-same,
  Readable-change, stored-IsRow,
}

-- The table `t'` shows `x` under the row id, and what `t` shows under every other one.
pub record Shows (t : Table) (rid : Rid) (x : Option (List Value)) (t' : Table) : Type 0 where
  pub sound : IsSound t'
  pub here : get t' rid ≡ ok x
  pub elsewhere : (q : Rid) → q ≢ rid → get t' q ≡ get t q
  pub same_schema : t'.schema ≡ t.schema
  pub same_index : t'.index ≡ t.index
  pub same_path : t'.path ≡ t.path
  pub same_head : SameHead t t'

module _ (t : Table) (h : IsSound t) where
  rewritten-Shows :
      (rid : Rid) (x : Option Bytes) (row : Option (List Value)) (t' : Table)
      (r : Rewritten t h.stores rid x t')
      → get t' rid ≡ ok row
      → ((bytes : Bytes)
          → x ≡ some bytes
          → (v : List Value) × (decode t.schema bytes ≡ ok v) × IsRow t.schema.columns v)
      → Shows t rid row t'
  rewritten-Shows rid x row t' r here new = record {
    sound = record {
      stores = r.stores;
      keeps = r.keeps;
      readable = rw r.same_schema (
          Readable-change t.schema h.stores r.stores rid h.readable (λ b e. new b (sym r.self ∙ e))
            r.others);
    };
    here = here;
    elsewhere =
        λ q d. get-same t t' h.stores r.stores q h.keeps r.keeps r.same_schema (r.others q d);
    same_schema = r.same_schema;
    same_index = r.same_index;
    same_path = r.same_path;
    same_head = r.same_head;
  }

  -- The row of a record that is there.
  pub get-there :
      (rid : Rid) (bytes : Bytes)
      → record_at h.stores rid ≡ some bytes
      → (row : List Value) × (get t rid ≡ ok (some row))
  get-there rid bytes e =
      let (row, d, typed) = h.readable rid bytes e in
      (row, get-some t h.stores h.keeps rid bytes row e d)

  -- On a sound table `delete` does one of two things, and never panics or fails: under a row id that
  -- shows no row it returns false and changes nothing, and one that shows a row shows none afterwards,
  -- while every other row id shows what it did.
  pub delete-get :
      (rid : Rid)
      → ((get t rid ≡ ok none) × (delete t rid ≡ ok (t, false)))
        ⊎ ((row : List Value) × (get t rid ≡ ok (some row))
            × ((t' : Table) × (delete t rid ≡ ok (t', true)) × Shows t rid none t'))
  delete-get rid = elim (Option-cases (record_at h.stores rid)) [
    | inl e ↦ inl (get-none t h.stores h.keeps rid e, delete-missing t h.stores h.keeps rid e)
    | inr (bytes, e) ↦
        let (row, shown) = get-there rid bytes e in
        let (t', runs, r) = delete-there t h.stores h.keeps rid bytes e in
        let gone = get-none t' r.stores r.keeps rid r.self in
        inr (row, shown, (t', runs, rewritten-Shows rid none none t' r gone (λ b z. cc)))
  ]

  -- On a sound table `update` to a storable row does one of three things, and never panics: under a
  -- row id that shows no row it returns false and changes nothing; under one that shows a row, if the
  -- row's record is no longer than the one in the slot or than the free bytes of the page, it returns
  -- true, the row id shows the new row afterwards and every other one what it did; and if the record
  -- is longer than both, it fails with `record_too_large`.
  pub update-get :
      (rid : Rid) (row : List Value) (s : IsStorable t.schema row)
      → ((get t rid ≡ ok none) × (update t rid row ≡ ok (t, false)))
        ⊎ ((old : List Value) × (get t rid ≡ ok (some old))
            × ((bytes : Bytes) × (free : ℕ) × Measures t rid bytes free
                × ((HasRoom s.bytes bytes free
                      × ((t' : Table) × (update t rid row ≡ ok (t', true))
                          × Shows t rid (some row) t'))
                    ⊎ ((¬ HasRoom s.bytes bytes free)
                        × (update t rid row ≡ err record_too_large)))))
  update-get rid row s = elim (Option-cases (record_at h.stores rid)) [
    | inl e ↦ inl (
      get-none t h.stores h.keeps rid e,
      update-missing t h.stores h.keeps rid row s.bytes s.coded e,
    )
    | inr (bytes, e) ↦
        let (old, shown) = get-there rid bytes e in
        let (free, measures, way) =
          update-there t h.stores h.keeps rid row s.bytes s.coded bytes e in
        inr (
          old,
          shown,
          (
            bytes,
            free,
            measures,
            elim way [
              | inr full ↦ inr full
              | inl (fits, (t', runs, r)) ↦
                  let here =
                    get-some t' r.stores r.keeps rid s.bytes row
                      (r.self ∙ live_lem s.bytes s.live_bytes)
                      (rw r.same_schema (IsStorable-decode t.schema row s)) in
                  inl (
                    fits,
                    (
                      t',
                      runs,
                      rewritten-Shows rid (live s.bytes) (some row) t' r here
                          (stored-IsRow t.schema row s),
                    ),
                  )
            ],
          ),
        )
  ]

  pub inserted-Shows :
      (row : List Value) (s : IsStorable t.schema row) (i : Inserted t h.stores h.keeps s.bytes)
      → Shows t i.rid (some row) i.table
  inserted-Shows row s i = record {
    sound = record {
      stores = i.stores;
      keeps = i.keeps;
      readable = rw i.same_schema (
          Readable-change t.schema h.stores i.stores i.rid h.readable
            (λ b e.
              stored-IsRow t.schema row s b
                (sym (IsPlaced-self s.bytes h.stores i.stores i.rid i.placed) ∙ e))
            (λ q d. IsPlaced-other s.bytes h.stores i.stores i.rid q i.placed d));
    };
    here =
        get-some i.table i.stores i.keeps i.rid s.bytes row
          (IsPlaced-self s.bytes h.stores i.stores i.rid i.placed ∙ live_lem s.bytes s.live_bytes)
          (rw i.same_schema (IsStorable-decode t.schema row s));
    elsewhere = λ q d.
        get-same t i.table h.stores i.stores q h.keeps i.keeps i.same_schema
          (IsPlaced-other s.bytes h.stores i.stores i.rid q i.placed d);
    same_schema = i.same_schema;
    same_index = i.same_index;
    same_path = i.same_path;
    same_head = i.same_head;
  }

  -- The way of a storable row into a table with room for one more page.
  pub storing :
      (row : List Value) (s : IsStorable t.schema row)
      → FitsPage s.bytes
      → page_count t + 1 < 4294967296
      → Inserted t h.stores h.keeps s.bytes
  storing row s fits room =
      insert_record_lem t h.stores h.keeps s.bytes fits
        (omega (arith, Keeps-page_count t h.stores h.keeps))

  pub insert_runs :
      (fuel : ℕ) (row : List Value) (s : IsStorable t.schema row)
      (i : Inserted t h.stores h.keeps s.bytes)
      → t.index ≡ none
      → insert fuel t row ≡ done (ok (i.table, i.rid))
  unfolding insert index_row
  insert_runs fuel row s i e = rw (s.coded, i.runs, i.same_index, e) refl

  -- `insert` of a storable row that fits an empty page into a sound table without an index, with room
  -- for one more page, returns, with any fuel and without a panic, a row id that showed no row before and shows the row
  -- afterwards, while every other row id shows what it did.
  pub insert-get :
      (fuel : ℕ) (row : List Value) (s : IsStorable t.schema row)
      → FitsPage s.bytes
      → t.index ≡ none
      → page_count t + 1 < 4294967296
      → (t' : Table) × (rid : Rid) × (insert fuel t row ≡ done (ok (t', rid)))
        × (get t rid ≡ ok none)
        × Shows t rid (some row) t'
  insert-get fuel row s fits e room =
      let i = storing row s fits room in
      (
        i.table,
        i.rid,
        insert_runs fuel row s i e,
        get-none t h.stores h.keeps i.rid (IsPlaced-fresh s.bytes h.stores i.stores i.rid i.placed),
        inserted-Shows row s i,
      )
