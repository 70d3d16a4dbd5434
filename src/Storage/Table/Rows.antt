-- ===== src/Storage/Table/Rows.antt =====
-- A heap file as rows under row ids: what the methods of src/storage/table.rs make of the rows that
-- `get` shows and a scan lists.
pub mod Edited
pub mod Listed
use skipper_db.Base.{
  ℕ, zero, suc, ◌+◌, ◌-◌, ◌<◌, ◌≤◌, ◌≡◌, ◌≢◌, refl, ap, sym, ◌∙◌, subst, ◌⊎◌, inl, inr, Bool, List,
  [], ◌∷◌, ◌++◌, Option, none, some, length, arith, ne→==, if◌then◌else◌, length-append, ◌==◌,
}
use mathlib.Core.Option.{some_inj}
use native.Mathlib.Decide.{ℕ_discrete}
use skipper_db.Base.Utf8.{Bytes}
use skipper_db.Types.{Value}
use skipper_db.Errors.{ok, ok_inj}
use skipper_db.Fuel.{Run, done, ◌>>=◌}
use skipper_db.Catalog.Schema.{Schema}
use skipper_db.Storage.Page.{page_size, header_size, slot_size}
use skipper_db.Storage.Page.Store.{Store, live}
use skipper_db.Storage.Record.{IsRow, encode, decode, bitmap_len}
use skipper_db.Storage.Record.RoundTrip.{decode-encode, encode-IsRow}
use skipper_db.Storage.BTree.Nodes.{Rid}
use skipper_db.Storage.Table.{Table, page_count, get, decode_found, insert_record}
use skipper_db.Storage.Table.Indexed.{insert, index_row}
use skipper_db.Storage.Table.Stores.{
  IsPlaced, IsPlaced-fresh, IsPlaced-self, IsPlaced-other, record_at, Rid_ext,
}
use skipper_db.Storage.Table.Keeps.{Keeps, Keeps-page_count}
use skipper_db.Storage.Table.Refines.{get-record_at, Inserted, insert_record_lem}

-- Every record is a row of the schema.
abbrev pub Readable : Schema → List Store → Type 0
Readable s ss =
    (rid : Rid) (bytes : Bytes)
    → record_at ss rid ≡ some bytes
    → (row : List Value) × (decode s bytes ≡ ok row) × IsRow s.columns row

-- The invariant of a table.
pub record IsSound (t : Table) : Type 0 where
  pub stores : List Store
  pub keeps : Keeps t stores
  pub readable : Readable t.schema stores

-- A row of the schema, whose record has some bytes.
pub record IsStorable (s : Schema) (row : List Value) : Type 0 where
  pub typed : IsRow s.columns row
  pub bytes : Bytes
  pub coded : encode s row ≡ ok bytes
  pub live_bytes : 0 < length bytes

Rid_discrete : (a b : Rid) → (a ≡ b) ⊎ (a ≢ b)
Rid_discrete a b = elim (ℕ_discrete a.page b.page) [
  | no d ↦ inr (λ e. d (ap (λ r. r.page) e))
  | yes e ↦ elim (ℕ_discrete a.slot b.slot) [
    | no d ↦ inr (λ e'. d (ap (λ r. r.slot) e'))
    | yes f ↦ inl (Rid_ext a b e f)
  ]
]

pub live_lem : (bytes : Bytes) → 0 < length bytes → live bytes ≡ some bytes
live_lem bytes h = rw (ne→== (length bytes) 0 (λ e. absurd (omega arith))) refl

-- The record fits an empty page.
abbrev pub FitsPage : Bytes → Type 0
FitsPage bytes = length bytes + slot_size ≤ page_size - header_size

-- The bytes of a storable row decode to it.
pub IsStorable-decode :
    (s : Schema) (row : List Value) (h : IsStorable s row) → decode s h.bytes ≡ ok row
IsStorable-decode s row h =
    let (bytes, coded, back) = decode-encode s row h.typed in
    let same : h.bytes ≡ bytes = ok_inj (sym h.coded ∙ coded) in rw same back

-- `get` under a row id shows no row.
pub get-none :
    (t : Table) (ss : List Store) (h : Keeps t ss) (rid : Rid)
    → record_at ss rid ≡ none
    → get t rid ≡ ok none
unfolding decode_found
get-none t ss h rid e = get-record_at t ss h rid ∙ rw e refl

pub get-some :
    (t : Table) (ss : List Store) (h : Keeps t ss) (rid : Rid) (bytes : Bytes) (row : List Value)
    → record_at ss rid ≡ some bytes
    → decode t.schema bytes ≡ ok row
    → get t rid ≡ ok (some row)
unfolding decode_found
get-some t ss h rid bytes row e d = get-record_at t ss h rid ∙ rw (e, d) refl

-- Two tables of one schema show the same under a row id that has the same record.
pub get-same :
    (t t' : Table) (ss ss' : List Store) (rid : Rid)
    → Keeps t ss
    → Keeps t' ss'
    → t'.schema ≡ t.schema
    → record_at ss' rid ≡ record_at ss rid
    → get t' rid ≡ get t rid
get-same t t' ss ss' rid h h' e r =
    get-record_at t' ss' h' rid ∙ rw (e, r) (sym (get-record_at t ss h rid))

-- Records that are rows, where one row id changes.
pub Readable-change :
    (s : Schema) (ss ss' : List Store) (rid : Rid)
    → Readable s ss
    → ((bytes : Bytes)
        → record_at ss' rid ≡ some bytes
        → (row : List Value) × (decode s bytes ≡ ok row) × IsRow s.columns row)
    → ((q : Rid) → q ≢ rid → record_at ss' q ≡ record_at ss q)
    → Readable s ss'
Readable-change s ss ss' rid old new others q bytes e = elim (Rid_discrete q rid) [
  | inl same ↦ new bytes (rw same at e)
  | inr d ↦ old q bytes (sym (others q d) ∙ e)
]

-- The bytes of a storable row, found again.
pub stored-IsRow :
    (s : Schema) (row : List Value) (h : IsStorable s row) (bytes : Bytes)
    → live h.bytes ≡ some bytes
    → (r : List Value) × (decode s bytes ≡ ok r) × IsRow s.columns r
stored-IsRow s row h bytes e =
    let same : h.bytes ≡ bytes = some_inj.0 (sym (live_lem h.bytes h.live_bytes) ∙ e) in
    (row, subst (λ b. decode s b ≡ ok row) same (IsStorable-decode s row h), h.typed)
