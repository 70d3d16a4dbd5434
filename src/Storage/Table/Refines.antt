-- ===== src/Storage/Table/Refines.antt =====
-- The methods of src/storage/table.rs on a file whose data pages stand for stores.
use skipper_db.Base.{
  ℕ, zero, suc, ◌+◌, ◌-◌, ◌<◌, ◌≤◌, ◌≡◌, refl, ap, sym, ◌∙◌, ◌⊎◌, inl, inr, true, false, List, [],
  ◌∷◌, ◌++◌, none, length, set, arith, le_or_lt, le→leb, lt→leb, lt→ltb, ne→==, max,
}
use skipper_db.Base.Utf8.{Bytes}
use skipper_db.Errors.{ok, err, record_too_large}
use skipper_db.Storage.Page.{page_size, header_size, slot_size}
use skipper_db.Storage.Page.Store.{Store, entry, appended, store_insert, store_insert_fits}
use skipper_db.Storage.Page.Refines.{get_refines, insert_refines, new_refines}
use skipper_db.Storage.Page.History.{empty_store}
use skipper_db.Storage.BTree.Nodes.{Rid}
use skipper_db.Storage.Table.{
  Table, page_count, write_page, out_of_file, get, decode_found, insert_record, insert_in_new,
}
use skipper_db.Storage.Table.Stores.{
  IsPlaced, in_last, in_new, record_at, in_page_lem, in_page_beyond,
}
use skipper_db.Storage.Table.Keeps.{
  Keeps, SameHead, write_page-SameHead, Found, Keeps-page_count, Keeps-Found, Keeps-read_page,
  Keeps-set, Keeps-append,
}

-- A row id outside the file, and one inside with its page.
pub data Place (t : Table) (ss : List Store) (h : Keeps t ss) (rid : Rid) : Type 0 where
  outside : out_of_file t rid ≡ true → record_at ss rid ≡ none → Place t ss h rid
  inside :
      (k : ℕ) (f : Found h.pages ss k)
      → k < length ss
      → rid.page ≡ suc k
      → out_of_file t rid ≡ false
      → record_at ss rid ≡ entry f.store.slots rid.slot
      → Place t ss h rid

store_insert_full :
    (s : Store) (r : Bytes) → s.free < length r + slot_size → store_insert s r ≡ (s, none)
unfolding store_insert
store_insert_full s r h = rw (lt→ltb s.free (length r + slot_size) h) refl

module _ (t : Table) (ss : List Store) (h : Keeps t ss) where
  Place-at :
      (rid : Rid) (page : ℕ) → rid ≡ record { page = page; slot = rid.slot } → Place t ss h rid
  unfolding out_of_file
  Place-at rid zero e = outside (rw e refl) (rw e refl)
  Place-at rid (suc k) e = elim (le_or_lt (length ss) k) [
    | inl l ↦
        outside
          (rw (e, ne→== (suc k) 0 (λ z. absurd (omega arith)), Keeps-page_count t ss h)
            (le→leb (suc (length ss)) (suc k) (omega arith)))
          (rw e (in_page_beyond ss k rid.slot l))
    | inr l ↦
        let f = Keeps-Found t ss h k l in
        inside k f l (ap (λ r. r.page) e)
          (rw (e, ne→== (suc k) 0 (λ z. absurd (omega arith)), Keeps-page_count t ss h)
            (lt→leb (suc (length ss)) (suc k) (omega arith)))
          (rw e (in_page_lem ss k rid.slot f.store f.in_stores))
  ]

  pub place : (rid : Rid) → Place t ss h rid
  place rid = Place-at rid rid.page refl

  -- `get` shows the record that the stores have under the row id, decoded.
  pub get-record_at : (rid : Rid) → get t rid ≡ decode_found t.schema (record_at ss rid)
  unfolding get decode_found
  get-record_at rid = elim (place rid) [
    | outside o e ↦ rw (o, e) refl
    | inside k f l p o e ↦
        rw (o, e, p, Keeps-read_page t ss h k f, get_refines _ f.store f.represents rid.slot) refl
  ]

  -- A record's way into the file.
  pub record Inserted (r : Bytes) : Type 0 where
    pub table : Table
    pub rid : Rid
    pub stores : List Store
    pub runs : insert_record t r ≡ ok (table, rid)
    pub placed : IsPlaced r ss stores rid
    pub keeps : Keeps table stores
    pub same_schema : table.schema ≡ t.schema
    pub same_index : table.index ≡ t.index
    pub same_path : table.path ≡ t.path
    pub same_head : SameHead t table

  new_lem :
      (r : Bytes)
      → length r + slot_size ≤ page_size - header_size
      → suc (suc (length ss)) < 4294967296
      → insert_record t r ≡ insert_in_new t r
      → Inserted r
  unfolding insert_in_new write_page
  new_lem r fits room e =
      let (fresh, made, rep) = new_refines in
      let (q, put, rep') = insert_refines fresh empty_store rep r in
      let stored = store_insert_fits empty_store r fits in
      let top : max (suc (length ss)) 1 ≡ suc (length ss) = omega arith in
      record {
        table = write_page t (suc (length ss)) q;
        rid = record { page = suc (length ss); slot = 0 };
        stores = ss ++ (appended empty_store r ∷ []);
        runs = e ∙ rw (insert_in_new, made, put, stored, Keeps-page_count t ss h) (rw top refl);
        placed = in_new;
        keeps = Keeps-append t ss h q (appended empty_store r) (rw stored at rep') room;
        same_schema = refl;
        same_index = refl;
        same_path = refl;
        same_head = write_page-SameHead t (length ss) q;
      }

  no_pages_lem : (r : Bytes) → length ss ≡ 0 → insert_record t r ≡ insert_in_new t r
  unfolding insert_record
  no_pages_lem r e = rw (Keeps-page_count t ss h, e) refl

  module _ (k : ℕ) (f : Found h.pages ss k) (e : length ss ≡ suc k) (r : Bytes) where
    last_index : suc (suc k) - 1 ≡ suc k
    last_index = omega arith

    last_full_lem : f.store.free < length r + slot_size → insert_record t r ≡ insert_in_new t r
    unfolding insert_record
    last_full_lem full =
        let (q, put, rep) = insert_refines _ f.store f.represents r in
        let stored = store_insert_full f.store r full in
        rw
          (
            Keeps-page_count t ss h,
            e,
            lt→ltb 1 (suc (suc k)) (omega arith),
            last_index,
            Keeps-read_page t ss h k f,
            put,
            stored,
          )
          refl

    last_fits_lem : length r + slot_size ≤ f.store.free → Inserted r
    unfolding insert_record write_page
    last_fits_lem fits =
        let (q, put, rep) = insert_refines _ f.store f.represents r in
        let last : page_count t - 1 ≡ suc k = omega (arith, Keeps-page_count t ss h) in
        let stored = store_insert_fits f.store r fits in
        record {
          table = write_page t (suc k) q;
          rid = record { page = suc k; slot = length f.store.slots };
          stores = set ss k (appended f.store r);
          runs =
              rw
                (
                  Keeps-page_count t ss h,
                  e,
                  lt→ltb 1 (suc (suc k)) (omega arith),
                  last_index,
                  Keeps-read_page t ss h k f,
                  put,
                  stored,
                )
                (rw last refl);
          placed = in_last k f.store e f.in_stores fits;
          keeps = Keeps-set t ss h q (appended f.store r) (rw stored at rep) k (omega arith);
          same_schema = refl;
          same_index = refl;
          same_path = refl;
          same_head = write_page-SameHead t k q;
        }

  last_page :
      (n : ℕ)
      → n ≡ length ss
      → (length ss ≡ 0) ⊎ ((k : ℕ) × (f : Found h.pages ss k) × (length ss ≡ suc k))
  last_page zero e = inl (sym e)
  last_page (suc k) e = inr (k, Keeps-Found t ss h k (omega arith), sym e)

  -- A record that fits a page goes to the last page or to a new one.
  pub insert_record_lem :
      (r : Bytes)
      → length r + slot_size ≤ page_size - header_size
      → suc (suc (length ss)) < 4294967296
      → Inserted r
  insert_record_lem r fits room = elim (last_page (length ss) refl) [
    | inl none_yet ↦ new_lem r fits room (no_pages_lem r none_yet)
    | inr (k, f, e) ↦ elim (le_or_lt (length r + slot_size) f.store.free) [
      | inl fits' ↦ last_fits_lem k f e r fits'
      | inr full ↦ new_lem r fits room (last_full_lem k f e r full)
    ]
  ]

  too_large_lem :
      (r : Bytes)
      → page_size - header_size < length r + slot_size
      → insert_in_new t r ≡ err record_too_large
  unfolding insert_in_new
  too_large_lem r big =
      let (fresh, made, rep) = new_refines in
      let (q, put, rep') = insert_refines fresh empty_store rep r in
      rw (made, put, store_insert_full empty_store r big) refl

  -- A record that fits no page.
  pub insert_record_too_large :
      (r : Bytes)
      → page_size - header_size < length r + slot_size
      → insert_record t r ≡ err record_too_large
  insert_record_too_large r big = elim (last_page (length ss) refl) [
    | inl none_yet ↦ no_pages_lem r none_yet ∙ too_large_lem r big
    | inr (k, f, e) ↦
        let rep = f.represents in
        last_full_lem k f e r (omega (arith, rep.freed, rep.valid.bounded)) ∙ too_large_lem r big
  ]
