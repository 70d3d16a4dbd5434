-- ===== src/Storage/Table/Listing.antt =====
-- The rows that a scan of a heap file is to give, from the stores of its data pages: page by page and
-- slot by slot, each record decoded.
pub mod Grows
pub mod Members
use skipper_db.Base.{ℕ, zero, suc, ◌≡◌, List, [], ◌∷◌, ◌++◌, Option, some, none}
use skipper_db.Base.Utf8.{Bytes}
use skipper_db.Types.{Value}
use skipper_db.Errors.{Result, ok, ◌>>=◌}
use skipper_db.Catalog.Schema.{Schema}
use skipper_db.Storage.Page.Store.{Store, Slots}
use skipper_db.Storage.Record.{decode}
use skipper_db.Storage.Table.{rid_of}
use skipper_db.Storage.Table.Scan.{Item}

-- The rows of a page from slot `i` on.
unfoldable pub slot_rows : Schema → ℕ → ℕ → Slots → Result (List Item)
slot_rows s page i [] = ok []
slot_rows s page i (none ∷ xs) = slot_rows s page (suc i) xs
slot_rows s page i (some bytes ∷ xs) = do
  row ← decode s bytes
  rest ← slot_rows s page (suc i) xs
  ok ((rid_of page i, row) ∷ rest)

-- The rows of the pages from `page` on.
unfoldable pub page_rows : Schema → ℕ → List Store → Result (List Item)
page_rows s page [] = ok []
page_rows s page (x ∷ xs) = do
  front ← slot_rows s page 0 x.slots
  rest ← page_rows s (suc page) xs
  ok (front ++ rest)

unfoldable pub all_rows : Schema → List Store → Result (List Item)
all_rows s ss = page_rows s 1 ss

-- How many rounds a scan takes before its last one: one for each slot and one to leave each page.
abbrev pub slot_rounds : Slots → ℕ → ℕ
slot_rounds [] m = suc m
slot_rounds (x ∷ xs) m = suc (slot_rounds xs m)

abbrev pub rounds : List Store → ℕ
rounds [] = 0
rounds (x ∷ xs) = slot_rounds x.slots (rounds xs)
