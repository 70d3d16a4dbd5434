-- ===== src/Storage/BTree/Insert.antt =====
-- src/storage/btree.rs: find, and insert with the splits. The descent takes fuel, one for each level.
use skipper_db.Base.{
  ℕ, zero, suc, ◌+◌, ◌/◌, Bool, true, false, not, List, [], ◌∷◌, ◌++◌, Option, none, some, leb,
  if◌then◌else◌, length, get_elem?, set, take, drop, Ordering,
}
use skipper_db.Base.Int.{ℤ, cmp_ℤ}
use skipper_db.Errors.{Result, ok, panic}
use skipper_db.Fuel.{Run, done, out_of_fuel, ◌>>=◌}
use skipper_db.Catalog.Schema.{position}
use skipper_db.Storage.BTree.Nodes.{Rid, leaf, internal}
use skipper_db.Storage.BTree.{BTree, read_node, write_node, alloc_node, set_root}

abbrev pub max_keys : ℕ
max_keys = 4

abbrev pub key_eq : ℤ → ℤ → Bool
key_eq a b = elim (cmp_ℤ a b) [ Ordering.eq ↦ true | _ ↦ false ]

abbrev pub key_lt : ℤ → ℤ → Bool
key_lt a b = elim (cmp_ℤ a b) [ Ordering.lt ↦ true | _ ↦ false ]

-- `partition_point`, on a list whose elements with `p` stand in front.
unfoldable pub partition_point : (ℤ → Bool) → List ℤ → ℕ
partition_point p [] = 0
partition_point p (k ∷ ks) = let more = partition_point p ks in if p k then suc more else 0

unfoldable pub child_index : List ℤ → ℤ → ℕ
child_index keys key = partition_point (λ k. not (key_lt key k)) keys

-- `keys.binary_search(&key)` on ascending keys: the place of the key, and if the key is there.
unfoldable pub binary_search : List ℤ → ℤ → ℕ × Bool
binary_search keys key =
    let i = partition_point (λ k. key_lt k key) keys in
    (i, elim (get_elem? keys i) [ none ↦ false | some k ↦ key_eq k key ])

-- `xs[i]`
unfoldable pub at_index {ℓ} : {A : Type ℓ} → List A → ℕ → Result A
at_index xs i = elim (get_elem? xs i) [ none ↦ panic | some x ↦ ok x ]

-- `xs.insert(i, x)` and `xs.split_off(i)`, which panic beyond the end
unfoldable pub insert_at {ℓ} : {A : Type ℓ} → List A → ℕ → A → Result (List A)
insert_at xs i x = if leb i (length xs) then ok (take i xs ++ (x ∷ drop i xs)) else panic

unfoldable pub split_off {ℓ} : {A : Type ℓ} → List A → ℕ → Result (List A × List A)
split_off xs i = if leb i (length xs) then ok (take i xs, drop i xs) else panic

unfoldable pub find_from : ℕ → BTree → ℕ → ℤ → Run (Option Rid)
find_from zero t page key = out_of_fuel
find_from (suc n) t page key = do
  node ← done (read_node t page)
  elim node [
    | leaf keys rids next ↦ elim (position (λ k. key_eq k key) keys) [
      | none ↦ done (ok none)
      | some i ↦ (do r ← done (at_index rids i); done (ok (some r)))
    ]
    | internal keys children ↦ (do
      child ← done (at_index children (child_index keys key))
      find_from n t child key)
  ]

unfoldable pub find : ℕ → BTree → ℤ → Run (Option Rid)
find n t key = find_from n t t.root key

-- A separator and the page to its right, if the node was split.
abbrev pub Split : Type 0
Split = Option (ℤ × ℕ)

-- A leaf with a new entry, which is split if it has too many.
unfoldable pub store_leaf : BTree → ℕ → List ℤ → List Rid → ℕ → Run (BTree × Split)
store_leaf t page keys rids next =
    if leb (length keys) max_keys
    then (do t' ← done (write_node t page (leaf keys rids next)); done (ok (t', none)))
    else (do
      let mid = length keys / 2
      (keys_left, keys_right) ← done (split_off keys mid)
      (rids_left, rids_right) ← done (split_off rids mid)
      sep ← done (at_index keys_right 0)
      (t₁, right_page) ← done (alloc_node t (leaf keys_right rids_right next))
      t₂ ← done (write_node t₁ page (leaf keys_left rids_left right_page))
      done (ok (t₂, some (sep, right_page))))

-- An internal node with a new child, likewise.
unfoldable pub store_internal : BTree → ℕ → List ℤ → List ℕ → Run (BTree × Split)
store_internal t page keys children =
    if leb (length keys) max_keys
    then (do t' ← done (write_node t page (internal keys children)); done (ok (t', none)))
    else (do
      let mid = length keys / 2
      sep_up ← done (at_index keys mid)
      (keys_left, keys_right) ← done (split_off keys (mid + 1))
      (children_left, children_right) ← done (split_off children (mid + 1))
      (t₁, right_page) ← done (alloc_node t (internal keys_right children_right))
      t₂ ← done (write_node t₁ page (internal (take mid keys_left) children_left))
      done (ok (t₂, some (sep_up, right_page))))

unfoldable pub insert_into : ℕ → BTree → ℕ → ℤ → Rid → Run (BTree × Split)
insert_into zero t page key rid = out_of_fuel
insert_into (suc n) t page key rid = do
  node ← done (read_node t page)
  elim node [
    | leaf keys rids next ↦
        let (i, found) = binary_search keys key in
        if found
        then (do
          old ← done (at_index rids i)
          t' ← done (write_node t page (leaf keys (set rids i rid) next))
          done (ok (t', none)))
        else (do
          keys' ← done (insert_at keys i key)
          rids' ← done (insert_at rids i rid)
          store_leaf t page keys' rids' next)
    | internal keys children ↦ (do
      let i = child_index keys key
      child ← done (at_index children i)
      (t', split) ← insert_into n t child key rid
      elim split [
        | none ↦ done (ok (t', none))
        | some (sep, right_page) ↦ (do
          keys' ← done (insert_at keys i sep)
          children' ← done (insert_at children (i + 1) right_page)
          store_internal t' page keys' children')
      ])
  ]

unfoldable pub insert : ℕ → BTree → ℤ → Rid → Run BTree
insert n t key rid = do
  (t', split) ← insert_into n t t.root key rid
  elim split [
    | none ↦ done (ok t')
    | some (sep, right) ↦ (do
      (t₁, root_page) ← done (alloc_node t' (internal (sep ∷ []) (t'.root ∷ right ∷ [])))
      done (set_root t₁ root_page))
  ]
