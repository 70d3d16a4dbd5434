-- ===== src/Storage/Table/Scan/Loop.antt =====
-- src/storage/table.rs: `next` of a scan, and the rows that it gives. Fuel is spent by the rounds of
-- the loop.
use skipper_db.Base.{ℕ, zero, suc, List, [], ◌∷◌, Option, none, some}
use skipper_db.Fuel.{Run, done, out_of_fuel, ◌>>=◌}
use skipper_db.Errors.{ok}
use skipper_db.Storage.Table.{Table}
use skipper_db.Storage.Table.Scan.{Scan, Item, finished, again, item, round}

unfoldable pub next : ℕ → Table → Scan → Run (Scan × Option Item)
next zero t s = out_of_fuel
next (suc n) t s = do
  (s', r) ← done (round t s)
  elim r [ finished ↦ done (ok (s', none)) | again ↦ next n t s' | item x ↦ done (ok (s', some x)) ]

-- `collect`, which stops at the first error.
unfoldable pub collect : ℕ → Table → Scan → Run (List Item)
collect zero t s = out_of_fuel
collect (suc n) t s = do
  (s', x) ← next (suc n) t s
  elim x [ none ↦ done (ok []) | some i ↦ (do is ← collect n t s'; done (ok (i ∷ is))) ]
