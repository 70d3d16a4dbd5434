-- ===== src/Storage/Table/Rows/Listed.antt =====
-- What a scan of src/storage/table.rs lists, against what `get` shows and what `insert` adds.
use skipper_db.Base.{
  ℕ, suc, ◌+◌, ◌<◌, ◌≤◌, ◌≡◌, ap, sym, ◌∙◌, subst, List, [], ◌∷◌, ◌++◌, none, some, arith, max,
  Option-cases, inl, inr,
}
use mathlib.Core.List.{Memᴰ}
use mathlib.Core.Option.{some_inj}
use skipper_db.Types.{Value}
use skipper_db.Errors.{ok, ok_inj}
use skipper_db.Fuel.{done}
use skipper_db.Storage.BTree.Nodes.{Rid}
use skipper_db.Storage.Page.Store.{Store}
use skipper_db.Storage.Table.{Table, page_count, get}
use skipper_db.Storage.Table.Indexed.{insert}
use skipper_db.Storage.Table.Scan.{Item, scan}
use skipper_db.Storage.Table.Scan.Loop.{collect}
use skipper_db.Storage.Table.Scan.Runs.{collect-Gives}
use skipper_db.Storage.Table.Scan.Pages.{scan-Gives}
use skipper_db.Storage.Table.Stores.{record_at}
use skipper_db.Storage.Table.Keeps.{Keeps}
use skipper_db.Storage.Table.Listing.{all_rows, rounds}
use skipper_db.Storage.Table.Listing.Grows.{all_rows-IsPlaced}
use skipper_db.Storage.Table.Listing.Members.{Under, all_rows-from, all_rows-has, all_rows_ok}
use skipper_db.Storage.Table.Rows.{
  IsSound, IsStorable, FitsPage, live_lem, IsStorable-decode, get-some, get-none,
}
use skipper_db.Storage.Table.Rows.Edited.{storing, insert_runs}

-- A scan lists the rows, with all fuel from some number on.
abbrev pub Lists : Table → List Item → Type 0
Lists t rows = (fuel : ℕ) × ((n : ℕ) → fuel ≤ n → collect n t scan ≡ done (ok rows))

pub Lists-all_rows :
    (t : Table) (ss : List Store) (rows : List Item)
    → Keeps t ss
    → all_rows t.schema ss ≡ ok rows
    → Lists t rows
Lists-all_rows t ss rows h e = (
  suc (rounds ss),
  λ n l. collect-Gives t n scan rows (rounds ss) (scan-Gives t ss h rows e) (omega arith),
)

pub Lists-unique : (t : Table) (xs ys : List Item) → Lists t xs → Lists t ys → xs ≡ ys
Lists-unique t xs ys (n, f) (m, g) =
    let a = f (max n m) (omega arith) in let b = g (max n m) (omega arith) in cc (a, b)

module _ (t : Table) (h : IsSound t) where
  abbrev pub listed : (rows : List Item) × (all_rows t.schema h.stores ≡ ok rows)
  listed =
      all_rows_ok t.schema h.stores
        (λ rid b e. let (row, d, typed) = h.readable rid b e in (row, d))

  -- What `get` shows is a record under the row id.
  get-Under :
      (rid : Rid) (row : List Value)
      → get t rid ≡ ok (some row)
      → Under t.schema (record_at h.stores rid) row
  get-Under rid row e = elim (Option-cases (record_at h.stores rid)) [
    | inl missing ↦ absurd (cc (e, get-none t h.stores h.keeps rid missing))
    | inr (bytes, there) ↦
        let (row', d, typed) = h.readable rid bytes there in
        let same : row' ≡ row =
          some_inj.0 (ok_inj (sym (get-some t h.stores h.keeps rid bytes row' there d) ∙ e)) in
        record { bytes = bytes; there = there; decodes = d ∙ ap ok same }
  ]

  -- A scan of a sound table comes to an end, without a panic or an error, and lists exactly the rows
  -- that `get` shows, with their row ids.
  pub scan-get :
      (rows : List Item) × Lists t rows
      × ((rid : Rid) (row : List Value) → Memᴰ (rid, row) rows → get t rid ≡ ok (some row))
      × ((rid : Rid) (row : List Value) → get t rid ≡ ok (some row) → Memᴰ (rid, row) rows)
  scan-get =
      let (rows, e) = listed in
      (
        rows,
        Lists-all_rows t h.stores rows h.keeps e,
        λ rid row m.
            let u = all_rows-from t.schema h.stores rows rid row e m in
            get-some t h.stores h.keeps rid u.bytes row u.there u.decodes,
        λ rid row g. all_rows-has t.schema h.stores rows rid row e (get-Under rid row g),
      )

  pub inserted-Lists :
      (row : List Value) (rows : List Item) (s : IsStorable t.schema row) (fits : FitsPage s.bytes)
      (room : page_count t + 1 < 4294967296)
      → Lists t rows
      → let i = storing t h row s fits room in Lists i.table (rows ++ ((i.rid, row) ∷ []))
  inserted-Lists row rows s fits room l =
      let i = storing t h row s fits room in
      let (rows', e') = listed in
      let same : rows' ≡ rows =
        Lists-unique t rows' rows (Lists-all_rows t h.stores rows' h.keeps e') l in
      subst (λ rs. Lists i.table (rs ++ ((i.rid, row) ∷ []))) same
        (Lists-all_rows i.table i.stores _ i.keeps (
          rw i.same_schema (
            all_rows-IsPlaced t.schema s.bytes row (IsStorable-decode t.schema row s) h.stores
              i.stores i.rid rows' i.placed (live_lem s.bytes s.live_bytes) e')))

  -- A storable row that fits an empty page and that `insert` puts into a sound table without an index comes last in the next
  -- scan, behind the rows that a scan listed before.
  pub scan-insert :
      (fuel : ℕ) (row : List Value) (rows : List Item) (s : IsStorable t.schema row)
      → FitsPage s.bytes
      → t.index ≡ none
      → page_count t + 1 < 4294967296
      → Lists t rows
      → (t' : Table) × (rid : Rid) × (insert fuel t row ≡ done (ok (t', rid)))
        × Lists t' (rows ++ ((rid, row) ∷ []))
  scan-insert fuel row rows s fits e room l =
      let i = storing t h row s fits room in
      (i.table, i.rid, insert_runs t h fuel row s i e, inserted-Lists row rows s fits room l)
