-- ===== src/Storage/Table/Scan.antt =====
-- src/storage/table.rs: `Scan`, the iterator over the rows of a table, round by round of its loop.
-- It borrows the table, which does not change while it runs.
pub mod Loop
pub mod Runs
pub mod Pages
use skipper_db.Base.{
  ℕ, zero, suc, ◌+◌, ◌%◌, List, [], ◌∷◌, Option, none, some, leb, ◌==◌, if◌then◌else◌,
}
use skipper_db.Errors.{Result, ok, err, panic, ◌>>=◌}
use skipper_db.Types.{Value}
use skipper_db.Storage.Page
use skipper_db.Storage.Page.{SlottedPage}
use skipper_db.Storage.Record.{decode}
use skipper_db.Storage.BTree.Nodes.{Rid}
use skipper_db.Storage.Table.{Table, page_count, read_page, rid_of}

pub record Scan : Type 0 where
  pub total_pages : Option ℕ
  pub page_id : ℕ
  pub page : Option SlottedPage
  pub next_slot : ℕ

unfoldable pub scan : Scan
scan = record { total_pages = none; page_id = 0; page = none; next_slot = 0 }

-- The count is taken when it is first asked for.
unfoldable pub total_pages : Table → Scan → ℕ
total_pages t s = elim s.total_pages [ none ↦ page_count t | some count ↦ count ]

abbrev pub Item : Type 0
Item = Rid × List Value

-- What one round of the loop comes to.
pub data Round : Type 0 where
  finished again : Round
  item : Item → Round

-- The next slot of a page.
unfoldable pub visit : Table → ℕ → ℕ → SlottedPage → ℕ → Result (Scan × Round)
visit t total page_id page next_slot = do
  count ← Page.slot_count page
  if leb count next_slot
      then ok (
        record { total_pages = some total; page_id = page_id; page = none; next_slot = next_slot },
        again,
      )
      else (do
        let after : Scan = record {
          total_pages = some total;
          page_id = page_id;
          page = some page;
          next_slot = next_slot + 1;
        }
        found ← Page.get page (next_slot % 65536)
        elim found [
          | none ↦ ok (after, again)
          | some bytes ↦ (do
            row ← decode t.schema bytes
            ok (after, item (rid_of page_id (next_slot % 65536), row)))
        ])

-- One round of the loop of `next`.
unfoldable pub round : Table → Scan → Result (Scan × Round)
round t s =
    let total = total_pages t s in
    elim s.page [
      | some page ↦ visit t total s.page_id page s.next_slot
      | none ↦
          let next_page = if s.page_id == 0 then 1 else s.page_id + 1 in
          if leb total next_page
          then ok (
            record {
              total_pages = some total;
              page_id = s.page_id;
              page = none;
              next_slot = s.next_slot;
            },
            finished,
          )
          else (do page ← read_page t next_page; visit t total next_page page 0)
    ]
