-- ===== src/Storage/Table/Listing/Members.antt =====
-- Which rows are in the list of the rows of a heap file.
use skipper_db.Base.{
  ℕ, zero, suc, ◌+◌, ◌≡◌, refl, ap, sym, ◌∙◌, subst, inl, inr, List, [], ◌∷◌, ◌++◌, Option, none,
  some, arith,
}
use mathlib.Core.List.{Memᴰ}
use mathlib.Core.List.Memᴰ.{
  head, tail, append_left, append_right, append_cases, cases_cons, not-nil,
}
use mathlib.Core.Option.{some_inj}
use skipper_db.Base.Utf8.{Bytes}
use skipper_db.Types.{Value}
use skipper_db.Errors.{ok, bind_parts, ok_inj}
use skipper_db.Catalog.Schema.{Schema}
use skipper_db.Storage.Page.Store.{Store, Slots, entry}
use skipper_db.Storage.Record.{decode}
use skipper_db.Storage.BTree.Nodes.{Rid}
use skipper_db.Storage.Table.{rid_of}
use skipper_db.Storage.Table.Scan.{Item}
use skipper_db.Storage.Table.Stores.{in_page, at_page, record_at, Rid_ext}
use skipper_db.Storage.Table.Listing.{slot_rows, page_rows, all_rows}

-- The row is under the row id, in the records that `at` shows.
pub record Under (s : Schema) (at : Option Bytes) (row : List Value) : Type 0 where
  pub bytes : Bytes
  pub there : at ≡ some bytes
  pub decodes : decode s bytes ≡ ok row

module _ (s : Schema) where
  -- Where a listed row of a page is from.
  slot_rows-from :
      (page i : ℕ) (xs : Slots) (rows : List Item) (rid : Rid) (row : List Value)
      → slot_rows s page i xs ≡ ok rows
      → Memᴰ (rid, row) rows
      → (j : ℕ) × (rid ≡ rid_of page (i + j)) × Under s (entry xs j) row
  unfolding slot_rows
  slot_rows-from page i [] rows rid row h m =
      absurd (not-nil (subst (Memᴰ (rid, row)) (sym (ok_inj h)) m))
  slot_rows-from page i (none ∷ xs) rows rid row h m =
      let (j, e, u) = slot_rows-from page (suc i) xs rows rid row h m in
      (suc j, e ∙ ap (rid_of page) (omega arith), u)
  slot_rows-from page i (some bytes ∷ xs) rows rid row h m =
      let (r, d, h₁) = bind_parts (decode s bytes) _ h in
      let (later, e, h₂) = bind_parts (slot_rows s page (suc i) xs) _ h₁ in
      let whole : rows ≡ (rid_of page i, r) ∷ later = sym (ok_inj h₂) in
      elim (cases_cons (subst (Memᴰ (rid, row)) whole m)) [
        | inl first ↦ (
          0,
          ap (λ p. p.0) first ∙ ap (rid_of page) (omega arith),
          record { bytes = bytes; there = refl; decodes = d ∙ ap ok (sym (ap (λ p. p.1) first)) },
        )
        | inr m' ↦
            let (j, e', u) = slot_rows-from page (suc i) xs later rid row e m' in
            (suc j, e' ∙ ap (rid_of page) (omega arith), u)
      ]

  slot_rows-has :
      (page i : ℕ) (xs : Slots) (rows : List Item) (j : ℕ) (row : List Value)
      → slot_rows s page i xs ≡ ok rows
      → Under s (entry xs j) row
      → Memᴰ (rid_of page (i + j), row) rows
  unfolding slot_rows
  slot_rows-has page i [] rows j row h u = absurd (cc u.there)
  slot_rows-has page i (none ∷ xs) rows zero row h u = absurd (cc u.there)
  slot_rows-has page i (none ∷ xs) rows (suc j) row h u =
      subst (λ n. Memᴰ (rid_of page n, row) rows) {x = suc i + j} {y = i + suc j} (omega arith)
        (slot_rows-has page (suc i) xs rows j row h u)
  slot_rows-has page i (some bytes ∷ xs) rows zero row h u =
      let (r, d, h₁) = bind_parts (decode s bytes) _ h in
      let (later, e, h₂) = bind_parts (slot_rows s page (suc i) xs) _ h₁ in
      let same : row ≡ r = ok_inj (sym u.decodes ∙ ap (decode s) (sym (some_inj.0 u.there)) ∙ d) in
      subst (Memᴰ (rid_of page (i + 0), row)) (ok_inj h₂)
        (head (ap (λ n. (rid_of page n, row)) (omega arith) ∙ ap (λ v. (rid_of page i, v)) same))
  slot_rows-has page i (some bytes ∷ xs) rows (suc j) row h u =
      let (r, d, h₁) = bind_parts (decode s bytes) _ h in
      let (later, e, h₂) = bind_parts (slot_rows s page (suc i) xs) _ h₁ in
      subst (Memᴰ (rid_of page (i + suc j), row)) (ok_inj h₂) (
        tail (
          subst (λ n. Memᴰ (rid_of page n, row) later) {x = suc i + j} {y = i + suc j} (omega arith)
            (slot_rows-has page (suc i) xs later j row e
              (record { bytes = u.bytes; there = u.there; decodes = u.decodes }))))

  page_rows-from :
      (page : ℕ) (ss : List Store) (rows : List Item) (rid : Rid) (row : List Value)
      → page_rows s page ss ≡ ok rows
      → Memᴰ (rid, row) rows
      → (k j : ℕ) × (rid ≡ rid_of (page + k) j) × Under s (in_page ss k j) row
  unfolding page_rows
  page_rows-from page [] rows rid row h m =
      absurd (not-nil (subst (Memᴰ (rid, row)) (sym (ok_inj h)) m))
  page_rows-from page (x ∷ ss) rows rid row h m =
      let (front, d, h₁) = bind_parts (slot_rows s page 0 x.slots) _ h in
      let (rest, e, h₂) = bind_parts (page_rows s (suc page) ss) _ h₁ in
      elim (append_cases front (subst (Memᴰ (rid, row)) (sym (ok_inj h₂)) m)) [
        | inl m' ↦
            let (j, e', u) = slot_rows-from page 0 x.slots front rid row d m' in
            (0, j, e' ∙ Rid_ext _ _ (omega arith) (omega arith), u)
        | inr m' ↦
            let (k, j, e', u) = page_rows-from (suc page) ss rest rid row e m' in
            (suc k, j, e' ∙ ap (λ p. rid_of p j) (omega arith), u)
      ]

  page_rows-has :
      (page : ℕ) (ss : List Store) (rows : List Item) (k j : ℕ) (row : List Value)
      → page_rows s page ss ≡ ok rows
      → Under s (in_page ss k j) row
      → Memᴰ (rid_of (page + k) j, row) rows
  unfolding page_rows
  page_rows-has page [] rows k j row h u = absurd (cc u.there)
  page_rows-has page (x ∷ ss) rows zero j row h u =
      let (front, d, h₁) = bind_parts (slot_rows s page 0 x.slots) _ h in
      let (rest, e, h₂) = bind_parts (page_rows s (suc page) ss) _ h₁ in
      subst (Memᴰ (rid_of (page + 0) j, row)) (ok_inj h₂) (
        append_left rest (
          subst (λ r. Memᴰ (r, row) front)
            (Rid_ext (rid_of page (0 + j)) (rid_of (page + 0) j) (omega arith) (omega arith))
            (slot_rows-has page 0 x.slots front j row d u)))
  page_rows-has page (x ∷ ss) rows (suc k) j row h u =
      let (front, d, h₁) = bind_parts (slot_rows s page 0 x.slots) _ h in
      let (rest, e, h₂) = bind_parts (page_rows s (suc page) ss) _ h₁ in
      subst (Memᴰ (rid_of (page + suc k) j, row)) (ok_inj h₂) (
        append_right front (
          subst (λ p. Memᴰ (rid_of p j, row) rest) {x = suc page + k} {y = page + suc k}
            (omega arith) (page_rows-has (suc page) ss rest k j row e u)))

  pub all_rows-from :
      (ss : List Store) (rows : List Item) (rid : Rid) (row : List Value)
      → all_rows s ss ≡ ok rows
      → Memᴰ (rid, row) rows
      → Under s (record_at ss rid) row
  unfolding all_rows
  all_rows-from ss rows rid row h m =
      let (k, j, e, u) = page_rows-from 1 ss rows rid row h m in
      let there : rid ≡ rid_of (suc k) j = e ∙ ap (λ p. rid_of p j) (omega arith) in
      subst (λ r. Under s (record_at ss r) row) (sym there) u

  at_page-has :
      (ss : List Store) (rows : List Item) (page j : ℕ) (row : List Value)
      → page_rows s 1 ss ≡ ok rows
      → Under s (at_page ss page j) row
      → Memᴰ (rid_of page j, row) rows
  at_page-has ss rows zero j row h u = absurd (cc u.there)
  at_page-has ss rows (suc k) j row h u =
      subst (λ p. Memᴰ (rid_of p j, row) rows) {x = 1 + k} {y = suc k} (omega arith)
        (page_rows-has 1 ss rows k j row h u)

  pub all_rows-has :
      (ss : List Store) (rows : List Item) (rid : Rid) (row : List Value)
      → all_rows s ss ≡ ok rows
      → Under s (record_at ss rid) row
      → Memᴰ (rid, row) rows
  unfolding all_rows
  all_rows-has ss rows rid row h u = at_page-has ss rows rid.page rid.slot row h u

  slot_rows_ok :
      (page i : ℕ) (xs : Slots)
      → ((j : ℕ) (b : Bytes) → entry xs j ≡ some b → (row : List Value) × (decode s b ≡ ok row))
      → (rows : List Item) × (slot_rows s page i xs ≡ ok rows)
  unfolding slot_rows
  slot_rows_ok page i [] h = ([], refl)
  slot_rows_ok page i (none ∷ xs) h = slot_rows_ok page (suc i) xs (λ j b e. h (suc j) b e)
  slot_rows_ok page i (some bytes ∷ xs) h =
      let (row, d) = h 0 bytes refl in
      let (rest, e) = slot_rows_ok page (suc i) xs (λ j b e. h (suc j) b e) in
      ((rid_of page i, row) ∷ rest, rw (d, e) refl)

  page_rows_ok :
      (page : ℕ) (ss : List Store)
      → ((k j : ℕ) (b : Bytes)
          → in_page ss k j ≡ some b
          → (row : List Value) × (decode s b ≡ ok row))
      → (rows : List Item) × (page_rows s page ss ≡ ok rows)
  unfolding page_rows
  page_rows_ok page [] h = ([], refl)
  page_rows_ok page (x ∷ ss) h =
      let (front, d) = slot_rows_ok page 0 x.slots (λ j b e. h 0 j b e) in
      let (rest, e) = page_rows_ok (suc page) ss (λ k j b e. h (suc k) j b e) in
      (front ++ rest, rw (d, e) refl)

  -- If every record decodes, so does the list.
  pub all_rows_ok :
      (ss : List Store)
      → ((rid : Rid) (b : Bytes)
          → record_at ss rid ≡ some b
          → (row : List Value) × (decode s b ≡ ok row))
      → (rows : List Item) × (all_rows s ss ≡ ok rows)
  unfolding all_rows
  all_rows_ok ss h = page_rows_ok 1 ss (λ k j b e. h (rid_of (suc k) j) b e)
