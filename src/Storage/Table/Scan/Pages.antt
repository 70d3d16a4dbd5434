-- ===== src/Storage/Table/Scan/Pages.antt =====
-- The rounds of a scan of a heap file whose data pages stand for stores.
use skipper_db.Base.{
  ℕ, zero, suc, ◌+◌, ◌%◌, ◌<◌, ◌≤◌, ◌≡◌, refl, ap, sym, ◌∙◌, subst, List, [], ◌∷◌, ◌++◌, Option,
  none, some, length, drop, get_elem?, ◌==◌, if◌then◌else◌, arith, le→leb, lt→leb, ne→==,
  length-drop,
}
use mathlib.Core.Option.{some_inj}
use skipper_db.Base.Utf8.{Bytes}
use skipper_db.Types.{Value}
use skipper_db.Errors.{ok, bind_parts}
use skipper_db.Storage.Page.{SlottedPage}
use skipper_db.Storage.Page.Store.{Store, Slots, entry}
use skipper_db.Storage.Page.Refines.{Represents, get_refines, slot_count_refines}
use skipper_db.Storage.Record.{decode}
use skipper_db.Storage.Table.{Table, rid_of}
use skipper_db.Storage.Table.Keeps.{Keeps, Found, Keeps-page_count, Keeps-Found, Keeps-read_page}
use skipper_db.Storage.Table.Listing.{slot_rows, page_rows, all_rows, slot_rounds, rounds}
use skipper_db.Storage.Table.Scan.{
  Scan, Item, scan, total_pages, finished, again, item, visit, round,
}
use skipper_db.Storage.Table.Scan.Runs.{Gives, ends, passes, yields}

module _ {A : Type 0} where
  drop-head :
      (xs : List A) (i : ℕ) (y : A) (ys : List A)
      → drop i xs ≡ y ∷ ys
      → (get_elem? xs i ≡ some y) × (drop (suc i) xs ≡ ys) × (i < length xs)
  drop-head [] zero y ys e = cc
  drop-head [] (suc i) y ys e = cc
  drop-head (x ∷ xs) zero y ys e = (cc e, cc e, omega arith)
  drop-head (x ∷ xs) (suc i) y ys e = let (a, b, c) = drop-head xs i y ys e in (a, b, omega arith)

  drop_none : (xs : List A) (i : ℕ) → drop i xs ≡ [] → length xs ≤ i
  drop_none xs i e = omega (arith, length-drop i xs, ap (length {A = A}) e)

entry_lem : (s : Slots) (i : ℕ) (x : Option Bytes) → get_elem? s i ≡ some x → entry s i ≡ x
entry_lem [] i x e = cc
entry_lem (y ∷ s) zero x e = cc e
entry_lem (y ∷ s) (suc i) x e = entry_lem s i x e

-- A state of the scan on page `page_id`, with slot `i` the next one.
abbrev on_page : ℕ → ℕ → SlottedPage → ℕ → Scan
on_page total page_id p i = record {
  total_pages = some total;
  page_id = page_id;
  page = some p;
  next_slot = i;
}

-- The rounds on one page, from slot `i` on.
module _ (t : Table) (total page_id : ℕ) (p : SlottedPage) (st : Store)
    (rep : Represents p st) where
  abbrev left : ℕ → Scan
  left i = record { total_pages = some total; page_id = page_id; page = none; next_slot = i }

  visit_end : (i : ℕ) → length st.slots ≤ i → visit t total page_id p i ≡ ok (left i, again)
  unfolding visit
  visit_end i h = rw (slot_count_refines p st rep, le→leb (length st.slots) i h) refl

  module _ (i : ℕ) (l : i < length st.slots) where
    small : i % 65536 ≡ i
    small = omega (arith, rep.counted, rep.valid.room, rep.valid.bounded)

    next_slot : i + 1 ≡ suc i
    next_slot = omega arith

    visit_dead :
        get_elem? st.slots i ≡ some none
        → visit t total page_id p i ≡ ok (on_page total page_id p (suc i), again)
    unfolding visit
    visit_dead e =
        rw
          (
            slot_count_refines p st rep,
            lt→leb (length st.slots) i l,
            small,
            get_refines p st rep i,
            entry_lem st.slots i none e,
          )
          (rw next_slot refl)

    visit_live :
        (bytes : Bytes) (row : List Value)
        → get_elem? st.slots i ≡ some (some bytes)
        → decode t.schema bytes ≡ ok row
        → visit t total page_id p i
          ≡ ok (on_page total page_id p (suc i), item (rid_of page_id i, row))
    unfolding visit
    visit_live bytes row e d =
        rw
          (
            slot_count_refines p st rep,
            lt→leb (length st.slots) i l,
            small,
            get_refines p st rep i,
            entry_lem st.slots i (some bytes) e,
          )
          (rw (d, next_slot, small) refl)

  -- From a state whose next round visits slot `i`, to the state that leaves the page.
  slots_Gives :
      (ys : Slots) (i : ℕ) (s : Scan) (front rest : List Item) (m : ℕ)
      → drop i st.slots ≡ ys
      → round t s ≡ visit t total page_id p i
      → slot_rows t.schema page_id i ys ≡ ok front
      → ((j : ℕ) → Gives t (left j) rest m)
      → Gives t s (front ++ rest) (slot_rounds ys m)
  unfolding slot_rows round total_pages
  slots_Gives [] i s front rest m at r h more =
      subst (λ f. Gives t s (f ++ rest) (suc m)) {x = []} {y = front} (cc h)
        (passes (left i) (r ∙ visit_end i (drop_none st.slots i at)) (more i))
  slots_Gives (none ∷ ys) i s front rest m at r h more =
      let (there, at', l) = drop-head st.slots i none ys at in
      passes (on_page total page_id p (suc i)) (r ∙ visit_dead i l there)
        (slots_Gives ys (suc i) _ front rest m at' refl h more)
  slots_Gives (some bytes ∷ ys) i s front rest m at r h more =
      let (there, at', l) = drop-head st.slots i (some bytes) ys at in
      let (row, d, h₁) = bind_parts (decode t.schema bytes) _ h in
      let (later, e, h₂) = bind_parts (slot_rows t.schema page_id (suc i) ys) _ h₁ in
      subst (λ f. Gives t s (f ++ rest) (suc (slot_rounds ys m)))
        {x = (rid_of page_id i, row) ∷ later} {y = front} (cc h₂)
        (yields (on_page total page_id p (suc i)) (rid_of page_id i, row)
          (r ∙ visit_live i l bytes row there d)
          (slots_Gives ys (suc i) _ later rest m at' refl e more))

-- A state of the scan between two pages.
abbrev between : Option ℕ → ℕ → ℕ → Scan
between count k j = record { total_pages = count; page_id = k; page = none; next_slot = j }

next_page_lem : (k : ℕ) → (if k == 0 then 1 else k + 1) ≡ suc k
next_page_lem zero = refl
next_page_lem (suc k) = rw (ne→== (suc k) 0 (λ e. absurd (omega arith))) (omega arith)

module _ (t : Table) (ss : List Store) (h : Keeps t ss) where
  round_end :
      (count : Option ℕ) (k j : ℕ)
      → length ss ≤ k
      → total_pages t (between count k j) ≡ suc (length ss)
      → round t (between count k j) ≡ ok (between (some (suc (length ss))) k j, finished)
  unfolding round
  round_end count k j l c =
      rw (c, next_page_lem k, le→leb (suc (length ss)) (suc k) (omega arith)) refl

  round_page :
      (count : Option ℕ) (k j : ℕ) (f : Found h.pages ss k)
      → k < length ss
      → total_pages t (between count k j) ≡ suc (length ss)
      → round t (between count k j)
        ≡ visit t (suc (length ss)) (suc k) (record { bytes = f.page }) 0
  unfolding round
  round_page count k j f l c =
      rw
        (
          c,
          next_page_lem k,
          lt→leb (suc (length ss)) (suc k) (omega arith),
          Keeps-read_page t ss h k f,
        )
        refl

  -- The rounds from the state that has left the data page before page `k`.
  pages_Gives :
      (xs : List Store) (count : Option ℕ) (k j : ℕ) (rows : List Item)
      → drop k ss ≡ xs
      → total_pages t (between count k j) ≡ suc (length ss)
      → page_rows t.schema (suc k) xs ≡ ok rows
      → Gives t (between count k j) rows (rounds xs)
  unfolding page_rows total_pages
  pages_Gives [] count k j rows at c r =
      subst (λ rs. Gives t (between count k j) rs 0) {x = []} {y = rows} (cc r)
        (ends _ (round_end count k j (drop_none ss k at) c))
  pages_Gives (x ∷ xs) count k j rows at c r =
      let (there, at', l) = drop-head ss k x xs at in
      let f = Keeps-Found t ss h k l in
      let (front, d, r₁) = bind_parts (slot_rows t.schema (suc k) 0 x.slots) _ r in
      let (rest, d', r₂) = bind_parts (page_rows t.schema (suc (suc k)) xs) _ r₁ in
      let same : f.store ≡ x = some_inj.0 (sym f.in_stores ∙ there) in
      subst (λ rs. Gives t (between count k j) rs (rounds (x ∷ xs))) {x = front ++ rest} {y = rows}
        (cc r₂)
        (slots_Gives t (suc (length ss)) (suc k) (record { bytes = f.page }) x
          (subst (Represents (record { bytes = f.page })) same f.represents) x.slots 0 _ front rest
          (rounds xs) refl (round_page count k j f l c) d
          (λ i. pages_Gives xs (some (suc (length ss))) (suc k) i rest at' refl d'))

  -- A scan gives the rows of the stores.
  pub scan-Gives :
      (rows : List Item) → all_rows t.schema ss ≡ ok rows → Gives t scan rows (rounds ss)
  unfolding all_rows scan total_pages
  scan-Gives rows r = pages_Gives ss none 0 0 rows refl (Keeps-page_count t ss h) r
