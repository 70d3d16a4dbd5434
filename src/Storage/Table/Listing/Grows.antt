-- ===== src/Storage/Table/Listing/Grows.antt =====
-- What a new record adds to the rows of a heap file.
use skipper_db.Base.{
  ℕ, zero, suc, ◌+◌, ◌≡◌, refl, ap, sym, ◌∙◌, subst, List, [], ◌∷◌, ◌++◌, none, some, length, set,
  get_elem?, append_assoc, append-nil, arith,
}
use mathlib.Core.Option.{some_inj}
use skipper_db.Base.Utf8.{Bytes}
use skipper_db.Types.{Value}
use skipper_db.Errors.{ok, bind_parts, ok_inj}
use skipper_db.Catalog.Schema.{Schema}
use skipper_db.Storage.Page.Store.{Store, Slots, live, appended}
use skipper_db.Storage.Page.History.{empty_store}
use skipper_db.Storage.Record.{decode}
use skipper_db.Storage.BTree.Nodes.{Rid}
use skipper_db.Storage.Table.{rid_of}
use skipper_db.Storage.Table.Scan.{Item}
use skipper_db.Storage.Table.Stores.{IsPlaced, in_last, in_new}
use skipper_db.Storage.Table.Listing.{slot_rows, page_rows, all_rows}

module _ (s : Schema) (bytes : Bytes) (row : List Value) (d : decode s bytes ≡ ok row) where
  slot_rows-append :
      (page i : ℕ) (xs : Slots) (front : List Item)
      → slot_rows s page i xs ≡ ok front
      → slot_rows s page i (xs ++ (some bytes ∷ []))
        ≡ ok (front ++ ((rid_of page (i + length xs), row) ∷ []))
  unfolding slot_rows
  slot_rows-append page i [] front h =
      subst
        (λ f. slot_rows s page i (some bytes ∷ []) ≡ ok (f ++ ((rid_of page (i + 0), row) ∷ [])))
        {x = []} {y = front} (cc h) (rw d (ap (λ n. ok ((rid_of page n, row) ∷ [])) (omega arith)))
  slot_rows-append page i (none ∷ xs) front h =
      slot_rows-append page (suc i) xs front h
      ∙ ap (λ n. ok (front ++ ((rid_of page n, row) ∷ []))) (omega arith)
  slot_rows-append page i (some b ∷ xs) front h =
      let (r, e, h₁) = bind_parts (decode s b) _ h in
      let (later, e', h₂) = bind_parts (slot_rows s page (suc i) xs) _ h₁ in
      subst
        (λ f.
          slot_rows s page i (some b ∷ (xs ++ (some bytes ∷ [])))
          ≡ ok (f ++ ((rid_of page (i + suc (length xs)), row) ∷ [])))
        {x = (rid_of page i, r) ∷ later} {y = front} (cc h₂)
        (rw (e, slot_rows-append page (suc i) xs later e')
          (ap (λ n. ok ((rid_of page i, r) ∷ (later ++ ((rid_of page n, row) ∷ []))))
            (omega arith)))

  page_rows-last :
      (page k : ℕ) (ss : List Store) (st : Store) (front : List Item)
      → length ss ≡ suc k
      → get_elem? ss k ≡ some st
      → live bytes ≡ some bytes
      → page_rows s page ss ≡ ok front
      → page_rows s page (set ss k (appended st bytes))
        ≡ ok (front ++ ((rid_of (page + k) (length st.slots), row) ∷ []))
  unfolding page_rows
  page_rows-last page k [] st front n g l h = absurd (omega arith)
  page_rows-last page zero (x ∷ []) st front n g l h =
      let (rows, e, h₁) = bind_parts (slot_rows s page 0 x.slots) _ h in
      let same : x ≡ st = some_inj.0 g in
      let whole : rows ≡ front = sym (append-nil rows) ∙ ok_inj h₁ in
      let there : page + 0 ≡ page = omega arith in
      let first : 0 + length st.slots ≡ length st.slots = omega arith in
      rw (l, slot_rows-append page 0 st.slots rows (rw same at e), there, first, append-nil, whole)
        refl
  page_rows-last page zero (x ∷ y ∷ ss) st front n g l h = absurd (omega arith)
  page_rows-last page (suc k) (x ∷ ss) st front n g l h =
      let (rows, e, h₁) = bind_parts (slot_rows s page 0 x.slots) _ h in
      let (rest, e', h₂) = bind_parts (page_rows s (suc page) ss) _ h₁ in
      let whole : rows ++ rest ≡ front = ok_inj h₂ in
      let there : suc page + k ≡ page + suc k = omega arith in
      rw (e, page_rows-last (suc page) k ss st rest (omega arith) g l e', there)
        (ap ok (sym (append_assoc rows rest _)) ∙ rw whole refl)

  page_rows-new :
      (page : ℕ) (ss : List Store) (front : List Item)
      → live bytes ≡ some bytes
      → page_rows s page ss ≡ ok front
      → page_rows s page (ss ++ (appended empty_store bytes ∷ []))
        ≡ ok (front ++ ((rid_of (page + length ss) 0, row) ∷ []))
  unfolding page_rows slot_rows
  page_rows-new page [] front l h =
      let whole : [] ≡ front = ok_inj h in
      let there : page + 0 ≡ page = omega arith in
      subst
        (λ f.
          page_rows s page (appended empty_store bytes ∷ [])
          ≡ ok (f ++ ((rid_of (page + 0) 0, row) ∷ [])))
        whole (rw (l, slot_rows-append page 0 [] [] refl, there) refl)
  page_rows-new page (x ∷ ss) front l h =
      let (rows, e, h₁) = bind_parts (slot_rows s page 0 x.slots) _ h in
      let (rest, e', h₂) = bind_parts (page_rows s (suc page) ss) _ h₁ in
      let whole : rows ++ rest ≡ front = ok_inj h₂ in
      let there : suc page + length ss ≡ page + suc (length ss) = omega arith in
      rw (e, page_rows-new (suc page) ss rest l e', there)
        (ap ok (sym (append_assoc rows rest _)) ∙ rw whole refl)

  -- The row comes last.
  pub all_rows-IsPlaced :
      (ss ss' : List Store) (rid : Rid) (front : List Item)
      → IsPlaced bytes ss ss' rid
      → live bytes ≡ some bytes
      → all_rows s ss ≡ ok front
      → all_rows s ss' ≡ ok (front ++ ((rid, row) ∷ []))
  unfolding all_rows
  all_rows-IsPlaced ss _ _ front (in_last k st n g fits) l h =
      page_rows-last 1 k ss st front n g l h
      ∙ ap (λ p. ok (front ++ ((rid_of p (length st.slots), row) ∷ []))) (omega arith)
  all_rows-IsPlaced ss _ _ front in_new l h =
      page_rows-new 1 ss front l h ∙ ap (λ p. ok (front ++ ((rid_of p 0, row) ∷ []))) (omega arith)
