-- ===== src/Storage/Table/Edits.antt =====
-- `delete` and `update` of src/storage/table.rs on a file whose data pages stand for stores.
use skipper_db.Base.{
  ℕ, suc, ◌<◌, ◌≤◌, ◌≡◌, ◌≢◌, refl, sym, ap, arith, ◌∙◌, ◌⊎◌, inl, inr, true, false, List, Option,
  none, some, length, set, le_or_lt, length-set,
}
use skipper_db.Base.Utf8.{Bytes}
use skipper_db.Types.{Value}
use skipper_db.Errors.{ok, err, record_too_large}
use skipper_db.Storage.Page.{SlottedPage, free_space}
use skipper_db.Storage.Page
use skipper_db.Storage.Page.Store.{
  Store, entry, live, with_slot, store_delete-none, store_delete-some, store_update,
  store_update_in_place, store_update_moves, store_update_full,
}
use skipper_db.Storage.Page.Refines.{
  Represents, get_refines, delete_refines, update_refines, free_space_refines,
}
use skipper_db.Storage.Record.{encode}
use skipper_db.Storage.BTree.Nodes.{Rid}
use skipper_db.Storage.Table.{Table, read_page, write_page, out_of_file, delete, update}
use skipper_db.Storage.Table.Stores.{
  record_at, entry_in_range, in_page-with_slot_self, record_at-with_slot_other,
}
use skipper_db.Storage.Table.Keeps.{
  Keeps, SameHead, write_page-SameHead, Found, Keeps-read_page, Keeps-set,
}
use skipper_db.Storage.Table.Refines.{outside, inside, place}

-- The table with another content under one row id, and all else as it was.
pub record Rewritten (t : Table) (ss : List Store) (rid : Rid) (x : Option Bytes) (t' : Table)
    : Type 0 where
  pub stores : List Store
  pub keeps : Keeps t' stores
  pub self : record_at stores rid ≡ x
  pub others : (q : Rid) → q ≢ rid → record_at stores q ≡ record_at ss q
  pub size : length stores ≡ length ss
  pub same_schema : t'.schema ≡ t.schema
  pub same_index : t'.index ≡ t.index
  pub same_path : t'.path ≡ t.path
  pub same_head : SameHead t t'

-- The page of the row id has the record `old` in its slot, and `free` free bytes.
abbrev pub Measures : Table → Rid → Bytes → ℕ → Type 0
Measures t rid old free =
    (page : SlottedPage) × (read_page t rid.page ≡ ok page)
    × (Page.get page rid.slot ≡ ok (some old))
    × (free_space page ≡ ok free)

-- The record takes no more than the old one or the free bytes.
abbrev pub HasRoom : Bytes → Bytes → ℕ → Type 0
HasRoom rec old free = (length rec ≤ length old) ⊎ (length rec ≤ free)

module _ (t : Table) (ss : List Store) (h : Keeps t ss) (rid : Rid) where
  rewrite_slot :
      (k : ℕ) (f : Found h.pages ss k) (old : Bytes) (x : Option Bytes) (n : ℕ) (q : SlottedPage)
      → k < length ss
      → rid.page ≡ suc k
      → entry f.store.slots rid.slot ≡ some old
      → Represents q (with_slot f.store rid.slot x n)
      → Rewritten t ss rid x (write_page t rid.page q)
  unfolding write_page
  rewrite_slot k f old x n q l p e rep =
      let hi = entry_in_range f.store.slots rid.slot old e in
      record {
        stores = set ss k (with_slot f.store rid.slot x n);
        keeps = rw p (Keeps-set t ss h q (with_slot f.store rid.slot x n) rep k l);
        self = rw p (in_page-with_slot_self ss k rid.slot f.store x n f.in_stores l hi);
        others = λ r d.
            record_at-with_slot_other ss k rid.slot f.store x n f.in_stores l hi rid r p refl d;
        size = length-set ss k (with_slot f.store rid.slot x n);
        same_schema = refl;
        same_index = refl;
        same_path = refl;
        same_head = rw p (write_page-SameHead t k q);
      }

  pub delete-missing : record_at ss rid ≡ none → delete t rid ≡ ok (t, false)
  unfolding delete
  delete-missing e = elim (place t ss h rid) [
    | outside o e' ↦ rw o refl
    | inside k f l p o e' ↦
        let (q, runs, rep) = delete_refines _ f.store f.represents rid.slot in
        rw (o, p, Keeps-read_page t ss h k f, runs, store_delete-none f.store rid.slot (sym e' ∙ e))
          refl
  ]

  pub delete-there :
      (old : Bytes)
      → record_at ss rid ≡ some old
      → (t' : Table) × (delete t rid ≡ ok (t', true)) × Rewritten t ss rid none t'
  unfolding delete
  delete-there old e = elim (place t ss h rid) [
    | outside o e' ↦ absurd (cc (e, e'))
    | inside k f l p o e' ↦
        let (q, runs, rep) = delete_refines _ f.store f.represents rid.slot in
        let gone = store_delete-some f.store rid.slot (sym e' ∙ e) in
        (
          write_page t rid.page q,
          rw (o, p, Keeps-read_page t ss h k f, runs, gone) refl,
          rewrite_slot k f old none 0 q l p (sym e' ∙ e) (rw gone at rep),
        )
  ]

  module _ (values : List Value) (rec : Bytes) (coded : encode t.schema values ≡ ok rec) where
    pub update-missing : record_at ss rid ≡ none → update t rid values ≡ ok (t, false)
    unfolding update
    update-missing e = elim (place t ss h rid) [
      | outside o e' ↦ rw (coded, o) refl
      | inside k f l p o e' ↦
          rw
            (
              coded,
              o,
              p,
              Keeps-read_page t ss h k f,
              get_refines _ f.store f.represents rid.slot,
              sym e' ∙ e,
            )
            refl
    ]

    -- The row is replaced if there is room for the record, and only then.
    abbrev pub Updated : Bytes → Type 0
    Updated old =
        (free : ℕ) × Measures t rid old free
        × ((HasRoom rec old free
              × ((t' : Table) × (update t rid values ≡ ok (t', true))
                  × Rewritten t ss rid (live rec) t'))
            ⊎ ((¬ HasRoom rec old free) × (update t rid values ≡ err record_too_large)))

    module _ (k : ℕ) (f : Found h.pages ss k) (old : Bytes) (l : k < length ss)
        (p : rid.page ≡ suc k) (o : out_of_file t rid ≡ false)
        (e : entry f.store.slots rid.slot ≡ some old) where
      update_runs :
          (s' : Store)
          → store_update f.store rid.slot rec ≡ (s', true)
          → (q : SlottedPage) × (update t rid values ≡ ok (write_page t rid.page q, true))
            × Represents q s'
      unfolding update
      update_runs s' stored =
          let (q, runs, rep) = update_refines _ f.store f.represents rid.slot rec in
          (
            q,
            rw
                (
                  coded,
                  o,
                  p,
                  Keeps-read_page t ss h k f,
                  get_refines _ f.store f.represents rid.slot,
                  e,
                  runs,
                  stored,
                )
                (rw p refl),
            rw stored at rep,
          )

      update_stays :
          store_update f.store rid.slot rec ≡ (f.store, false)
          → update t rid values ≡ err record_too_large
      unfolding update
      update_stays stored =
          let (q, runs, rep) = update_refines _ f.store f.represents rid.slot rec in
          rw
            (
              coded,
              o,
              p,
              Keeps-read_page t ss h k f,
              get_refines _ f.store f.represents rid.slot,
              e,
              runs,
              stored,
            )
            refl

      measures : Measures t rid old f.store.free
      measures = (
        record { bytes = f.page },
        rw p (Keeps-read_page t ss h k f),
        get_refines _ f.store f.represents rid.slot ∙ ap ok e,
        free_space_refines _ f.store f.represents,
      )

      update_to :
          (n : ℕ)
          → HasRoom rec old f.store.free
          → store_update f.store rid.slot rec ≡ (with_slot f.store rid.slot (live rec) n, true)
          → Updated old
      update_to n fits stored =
          let (q, runs, rep) = update_runs _ stored in
          (
            f.store.free,
            measures,
            inl (
              fits,
              (write_page t rid.page q, runs, rewrite_slot k f old (live rec) n q l p e rep),
            ),
          )

      no_room : length old < length rec → f.store.free < length rec → ¬ HasRoom rec old f.store.free
      no_room grow full (inl short) = omega arith
      no_room grow full (inr fits) = omega arith

      update_inside : Updated old
      update_inside = elim (le_or_lt (length rec) (length old)) [
        | inl fits ↦ update_to 0 (inl fits) (store_update_in_place f.store rid.slot rec e fits)
        | inr grow ↦ elim (le_or_lt (length rec) f.store.free) [
          | inl room ↦
              update_to (length rec) (inr room)
                (store_update_moves f.store rid.slot rec e grow room)
          | inr full ↦ (
            f.store.free,
            measures,
            inr (
              no_room grow full,
              update_stays (store_update_full f.store rid.slot rec e grow full),
            ),
          )
        ]
      ]

    pub update-there : (old : Bytes) → record_at ss rid ≡ some old → Updated old
    update-there old e = elim (place t ss h rid) [
      | outside o e' ↦ absurd (cc (e, e'))
      | inside k f l p o e' ↦ update_inside k f old l p o (sym e' ∙ e)
    ]
