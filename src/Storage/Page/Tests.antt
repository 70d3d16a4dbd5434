-- ===== src/Storage/Page/Tests.antt =====
-- Runs of the page at concrete records, and the theorems about pages at concrete inputs.
use skipper_db.Base.{ℕ, ◌≡◌, refl, true, [], ◌∷◌, Option, some, none, splice, List, arith}
use skipper_db.Base.Utf8.{Bytes}
use skipper_db.Errors.{Result, ok, ◌>>=◌}
use skipper_db.Storage.Page.{
  SlottedPage, new, insert, get, delete, update, zeroed, set_slot_count, set_free_ptr, write_u16,
  copy_into, free_space, free_ptr, slot_dir_end, slot_count, slot, set_slot, read_u16, u16_at,
}
use skipper_db.Storage.Page.Store.{Store, store_insert, store_delete, store_update, entry}
use skipper_db.Storage.Page.Refines.{
  Represents, new_refines, insert_refines, delete_refines, update_refines, insert_empty_dead,
}
use skipper_db.Storage.Page.History.{
  Call, insert_call, delete_call, update_call, page_run, slot_reply, done_reply, store_run,
  store_step, empty_store, page_run-new,
}

two_inserts : Result (Option Bytes × Option Bytes × ℕ)
two_inserts = do
  p ← new
  (p₁, a) ← insert p (1 ∷ 2 ∷ 3 ∷ [])
  (p₂, b) ← insert p₁ (9 ∷ [])
  (p₃, d) ← delete p₂ 0
  (p₄, u) ← update p₃ 1 (7 ∷ 8 ∷ [])
  x ← get p₄ 0
  y ← get p₄ 1
  free ← free_space p₄
  ok (x, y, free)

two_inserts_lem : two_inserts ≡ ok (none, some (7 ∷ 8 ∷ []), 4078)
unfolding two_inserts new insert get delete update zeroed set_slot_count set_free_ptr write_u16
    copy_into free_space free_ptr slot_dir_end slot_count slot set_slot read_u16 u16_at splice
two_inserts_lem = refl

abbrev calls : List Call
calls =
    insert_call (1 ∷ 2 ∷ 3 ∷ [])
    ∷ insert_call (9 ∷ [])
    ∷ delete_call 0
    ∷ update_call 1 (7 ∷ 8 ∷ [])
    ∷ []

page_run-new_example :
    (q : SlottedPage) × ((new >>= λ p. page_run p calls) ≡ ok (q, (store_run empty_store calls).1))
    × ((i : ℕ) → get q i ≡ ok (entry (store_run empty_store calls).0.slots i))
page_run-new_example = page_run-new calls

-- The replies of that run.
replies :
    (store_run empty_store calls).1
    ≡ slot_reply (some 0) ∷ slot_reply (some 1) ∷ done_reply true ∷ done_reply true ∷ []
unfolding store_run store_step store_insert store_delete store_update
replies = refl

abbrev blank : SlottedPage
blank = new_refines.0

insert_refines_example :
    (q : SlottedPage) × (insert blank (1 ∷ 2 ∷ [])
      ≡ ok (q, (store_insert empty_store (1 ∷ 2 ∷ [])).1))
    × Represents q (store_insert empty_store (1 ∷ 2 ∷ [])).0
insert_refines_example = insert_refines blank empty_store new_refines.2 (1 ∷ 2 ∷ [])

abbrev one : SlottedPage
one = insert_refines_example.0

abbrev one_store : Store
one_store = (store_insert empty_store (1 ∷ 2 ∷ [])).0

delete_refines_example :
    (q : SlottedPage) × (delete one 0 ≡ ok (q, (store_delete one_store 0).1))
    × Represents q (store_delete one_store 0).0
delete_refines_example = delete_refines one one_store insert_refines_example.2 0

update_refines_example :
    (q : SlottedPage) × (update one 0 (7 ∷ []) ≡ ok (q, (store_update one_store 0 (7 ∷ [])).1))
    × Represents q (store_update one_store 0 (7 ∷ [])).0
update_refines_example = update_refines one one_store insert_refines_example.2 0 (7 ∷ [])

insert_empty_dead_example :
    (q : SlottedPage) × (insert blank [] ≡ ok (q, some 0)) × (get q 0 ≡ ok none)
insert_empty_dead_example = insert_empty_dead blank empty_store new_refines.2 (omega arith)
