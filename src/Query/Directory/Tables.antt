-- ===== src/Query/Directory/Tables.antt =====
-- A table in the files of a directory: what src/query/mod.rs and src/query/exec.rs read of it.
use skipper_db.Base.{
  ℕ, suc, ◌+◌, ◌*◌, ◌<◌, ◌≤◌, ◌≡◌, ◌≢◌, refl, ap, subst, inl, inr, List, [], ◌∷◌, map, none, some,
  length, arith, Bool-cases,
}
use skipper_db.Base.Utf8.{Text, text_eq, text_eq_refl, text_eq→eq, Bytes}
use skipper_db.Errors.{ok}
use skipper_db.Storage.Page.{SlottedPage}
use skipper_db.Storage.Page.Store.{Store, Slots}
use skipper_db.Storage.Page.Refines.{Represents}
use skipper_db.Storage.BTree.{Pages}
use skipper_db.Storage.Table.{Table, index_path, open_table}
use skipper_db.Storage.Table.Scan.{Item, scan}
use skipper_db.Storage.Table.Scan.Runs.{collect-Gives}
use skipper_db.Storage.Table.Scan.Pages.{scan-Gives}
use skipper_db.Storage.Table.Keeps.{Stands}
use skipper_db.Storage.Table.Listing.{slot_rounds, rounds}
use skipper_db.Storage.Table.Rows.{IsSound}
use skipper_db.Storage.Table.Rows.Listed.{Lists, Lists-unique, Lists-all_rows, listed}
use skipper_db.Storage.Table.History.{Reached}
use skipper_db.Storage.Table.History.Reaches.{Reached-IsIntact, Reached-open_table}
use skipper_db.Query.Directory.{
  Files, put_file, table_path, open_at, opened_schema, dir_catalog, settled, scan_fuel,
  scanned_rows, rows_of_opened, read_table,
}

pub put_file_same :
    (files : Files) (path : Text) (file : Pages) → put_file files path file path ≡ some file
unfolding put_file
put_file_same files path file = rw (text_eq_refl path) refl

pub put_file_other :
    (files : Files) (path : Text) (file : Pages) (p : Text)
    → p ≢ path
    → put_file files path file p ≡ files p
unfolding put_file
put_file_other files path file p d = elim (Bool-cases (text_eq p path)) [
  | inl e ↦ absurd (d (text_eq→eq p path e))
  | inr e ↦ rw e refl
]

-- A table without an index, in the directory's file of its name.
pub record IsStored (files : Files) (dir name : Text) (t : Table) : Type 0 where
  pub there : files (table_path dir name) ≡ some t.file
  pub at : t.path ≡ table_path dir name
  pub reached : Reached t
  pub plain : t.index ≡ none

slot_rounds_bound : (s : Slots) (m : ℕ) → slot_rounds s m ≡ suc (length s + m)
slot_rounds_bound [] m = omega arith
slot_rounds_bound (x ∷ s) m = omega (arith, slot_rounds_bound s m)

slots_bound : (p : SlottedPage) (s : Store) → Represents p s → length s.slots < 65536
slots_bound p s r = omega (arith, r.counted, r.valid.room, r.valid.bounded)

rounds_bound : (ps : List Bytes) (ss : List Store) → Stands ps ss → rounds ss ≤ 65537 * length ps
rounds_bound [] [] h = omega arith
rounds_bound [] (s ∷ ss) h = absurd h
rounds_bound (p ∷ ps) [] h = absurd h
rounds_bound (p ∷ ps) (s ∷ ss) h = omega (
  arith,
  rounds_bound ps ss h.1,
  slot_rounds_bound s.slots (rounds ss),
  slots_bound (record { bytes = p }) s h.0,
)

-- The rows that a scan lists are what is read of the table.
pub scanned_rows_lem :
    (t : Table) (items : List Item)
    → IsSound t
    → Lists t items
    → scanned_rows t ≡ ok (map (λ i. i.1) items)
unfolding scanned_rows scan_fuel settled
scanned_rows_lem t items h l =
    let (rows, e) = listed t h in
    let k = h.keeps in
    let same : rows ≡ items = Lists-unique t rows items (Lists-all_rows t h.stores rows k e) l in
    let enough : rounds h.stores < suc (65537 * length t.file) =
      omega (arith, rounds_bound k.pages h.stores k.stands, ap (length {A = Bytes}) k.filed) in
    rw
      (collect-Gives t (suc (65537 * length t.file)) scan rows (rounds h.stores)
        (scan-Gives t h.stores k rows e) enough)
      (rw same refl)

module _ (files : Files) (dir name : Text) (t : Table) (h : IsStored files dir name t) where
  pub open_at_lem : open_at files (table_path dir name) ≡ ok t
  unfolding open_at
  open_at_lem = elim (Reached-open_table t (files (index_path (table_path dir name))) h.reached) [
    | inl (e, opened) ↦ rw h.there (
        subst (λ p. open_table p (some t.file) (files (index_path (table_path dir name))) ≡ ok t)
          h.at opened)
    | inr (ix, e, opened) ↦ absurd (cc (e, h.plain))
  ]

  pub dir_catalog_lem : dir_catalog files dir name ≡ some t.schema
  unfolding dir_catalog opened_schema
  dir_catalog_lem = rw open_at_lem refl

  pub read_table_lem :
      (items : List Item) → Lists t items → read_table files dir name ≡ ok (map (λ i. i.1) items)
  unfolding read_table rows_of_opened
  read_table_lem items l =
      rw open_at_lem (scanned_rows_lem t items (Reached-IsIntact t h.reached).sound l)
