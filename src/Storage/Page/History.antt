-- ===== src/Storage/Page/History.antt =====
-- Any sequence of calls of the methods of src/storage/page.rs, against the same calls of the store.
use skipper_db.Base.{ℕ, ◌-◌, ◌≡◌, refl, Bool, List, [], ◌∷◌, Option}
use skipper_db.Base.Utf8.{Bytes}
use skipper_db.Errors.{Result, ok, ◌>>=◌}
use skipper_db.Storage.Page.{SlottedPage, page_size, header_size, new, insert, get, delete, update}
use skipper_db.Storage.Page.Store.{Store, store_insert, store_delete, store_update, entry}
use skipper_db.Storage.Page.Refines.{
  Represents, new_refines, insert_refines, delete_refines, update_refines, get_refines,
}

pub data Call : Type 0 where
  insert_call : Bytes → Call
  delete_call : ℕ → Call
  update_call : ℕ → Bytes → Call

-- What a call returned.
pub data Reply : Type 0 where
  slot_reply : Option ℕ → Reply
  done_reply : Bool → Reply

unfoldable pub page_step : SlottedPage → Call → Result (SlottedPage × Reply)
page_step p (insert_call r) = do (q, i) ← insert p r; ok (q, slot_reply i)
page_step p (delete_call i) = do (q, done) ← delete p i; ok (q, done_reply done)
page_step p (update_call i r) = do (q, done) ← update p i r; ok (q, done_reply done)

unfoldable pub store_step : Store → Call → Store × Reply
store_step s (insert_call r) = let (t, i) = store_insert s r in (t, slot_reply i)
store_step s (delete_call i) = let (t, done) = store_delete s i in (t, done_reply done)
store_step s (update_call i r) = let (t, done) = store_update s i r in (t, done_reply done)

unfoldable pub page_run : SlottedPage → List Call → Result (SlottedPage × List Reply)
page_run p [] = ok (p, [])
page_run p (c ∷ cs) = do
  (q, reply) ← page_step p c
  (q', replies) ← page_run q cs
  ok (q', reply ∷ replies)

unfoldable pub store_run : Store → List Call → Store × List Reply
store_run s [] = (s, [])
store_run s (c ∷ cs) =
    let (t, reply) = store_step s c in let (t', replies) = store_run t cs in (t', reply ∷ replies)

-- The store that a fresh page stands for.
abbrev pub empty_store : Store
empty_store = record { slots = []; free = page_size - header_size }

step_refines :
    (p : SlottedPage) (s : Store) (c : Call)
    → Represents p s
    → (q : SlottedPage) × (page_step p c ≡ ok (q, (store_step s c).1))
      × Represents q (store_step s c).0
unfolding page_step store_step
step_refines p s (insert_call r) h = let (q, e, k) = insert_refines p s h r in (q, rw e, k)
step_refines p s (delete_call i) h = let (q, e, k) = delete_refines p s h i in (q, rw e, k)
step_refines p s (update_call i r) h = let (q, e, k) = update_refines p s h i r in (q, rw e, k)

-- From a page that stands for a store, any calls return what the store returns, none panics, and
-- the page that they leave stands for the store that they leave.
pub page_run_refines :
    (cs : List Call) (p : SlottedPage) (s : Store)
    → Represents p s
    → (q : SlottedPage) × (page_run p cs ≡ ok (q, (store_run s cs).1))
      × Represents q (store_run s cs).0
unfolding page_run store_run
page_run_refines [] p s h = (p, refl, h)
page_run_refines (c ∷ cs) p s h =
    let (q, e, k) = step_refines p s c h in
    let (q', e', k') = page_run_refines cs q (store_step s c).0 k in (q', rw (e, e'), k')

-- On a new page any sequence of `insert`, `delete` and `update` calls returns what the same calls
-- return on the empty store of slots, none of them panics, and afterwards `get` on any slot
-- returns, without a panic, what the store's slot shows.
pub page_run-new :
    (cs : List Call)
    → (q : SlottedPage) × ((new >>= λ p. page_run p cs) ≡ ok (q, (store_run empty_store cs).1))
      × ((i : ℕ) → get q i ≡ ok (entry (store_run empty_store cs).0.slots i))
page_run-new cs =
    let (p, made, h) = new_refines in
    let (q, e, k) = page_run_refines cs p empty_store h in
    (q, rw made e, λ i. get_refines q (store_run empty_store cs).0 k i)
