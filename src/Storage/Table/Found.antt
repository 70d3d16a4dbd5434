-- ===== src/Storage/Table/Found.antt =====
-- What `find_by_key` of src/storage/table.rs returns.
use skipper_db.Base.{
  ℕ, ◌≡◌, refl, ap, sym, ◌∙◌, subst, Bool, true, false, List, Option, none, some, if◌then◌else◌,
  arith,
}
use mathlib.Core.Option.{some_inj}
use skipper_db.Base.Int.{ℤ, pos, negsuc, cmp_ℤ}
use skipper_db.Types.{Value}
use skipper_db.Errors.{ok, ok_inj, bind_parts}
use skipper_db.Fuel.{done, run_parts, done_inj}
use skipper_db.Storage.BTree.Nodes.{Rid}
use skipper_db.Storage.BTree.Insert
use skipper_db.Storage.BTree.Insert.{at_index, key_eq}
use skipper_db.Storage.Table.{Table, Index, get}
use skipper_db.Storage.Table.Scan.{Item}
use skipper_db.Storage.Table.Keys.{key_match, row_with_key}
use skipper_db.Storage.Table.Indexed.{find_row, find_in, find_by_key}

key_eq→eq : (a b : ℤ) → key_eq a b ≡ true → a ≡ b
unfolding cmp_ℤ
key_eq→eq (pos a) (pos b) h = ap pos (ground arith)
key_eq→eq (pos a) (negsuc b) h = cc
key_eq→eq (negsuc a) (pos b) h = cc
key_eq→eq (negsuc a) (negsuc b) h = ap negsuc (ground arith)

module _ (key : ℤ) (rid : Rid) (row : List Value) where
  match_true :
      (k : ℤ) (x : Item) (b : Bool)
      → key_eq k key ≡ b
      → (if b then some (rid, row) else none) ≡ some x
      → (x ≡ (rid, row)) × (Value.int k ≡ Value.int key)
  match_true k x true e h = (sym (some_inj.0 h), ap Value.int (key_eq→eq k key e))
  match_true k x false e h = cc

  key_match-some :
      (v : Value) (x : Item)
      → key_match key rid row v ≡ some x
      → (x ≡ (rid, row)) × (v ≡ Value.int key)
  unfolding key_match
  key_match-some (Value.int k) x h = match_true k x (key_eq k key) refl h
  key_match-some (Value.text s) x h = cc
  key_match-some Value.null x h = cc

-- The row is shown by `get` under the row id, and has the key in the column.
abbrev pub HasKey : Table → ℕ → ℤ → Item → Type 0
HasKey t column key x = (get t x.0 ≡ ok (some x.1)) × (at_index x.1 column ≡ ok (Value.int key))

module _ (t : Table) (column : ℕ) (key : ℤ) where
  row_with_key-some :
      (rid : Rid) (row : Option (List Value)) (x : Item)
      → get t rid ≡ ok row
      → row_with_key column key rid row ≡ ok (some x)
      → HasKey t column key x
  unfolding row_with_key
  row_with_key-some rid none x g h = cc
  row_with_key-some rid (some row) x g h =
      let (v, e, h₁) = bind_parts (at_index row column) _ h in
      let (same, int) = key_match-some key rid row v x (ok_inj h₁) in
      subst (HasKey t column key) (sym same) (g, e ∙ ap ok int)

  find_row-some :
      (found : Option Rid) (x : Item)
      → find_row t column key found ≡ done (ok (some x))
      → HasKey t column key x
  unfolding find_row
  find_row-some none x h = cc
  find_row-some (some rid) x h =
      let (row, e, h₁) = run_parts (done (get t rid)) _ h in
      row_with_key-some rid row x (done_inj e) (done_inj h₁)

find_in-some :
    (fuel : ℕ) (t : Table) (key : ℤ) (index : Option Index) (x : Item)
    → t.index ≡ index
    → find_in fuel t key index ≡ done (ok (some x))
    → (ix : Index) × (t.index ≡ some ix) × HasKey t ix.column key x
unfolding find_in
find_in-some fuel t key none x e h = cc
find_in-some fuel t key (some ix) x e h =
    let (found, e₁, h₁) = run_parts (Insert.find fuel ix.tree key) _ h in
    (ix, e, find_row-some t ix.column key found x h₁)

-- If `find_by_key` returns a row and its row id, whatever the index file holds, then `get` shows the row
-- under the row id, and the row has the key in the index's column.
pub find_by_key-get :
    (fuel : ℕ) (t : Table) (key : ℤ) (rid : Rid) (row : List Value)
    → find_by_key fuel t key ≡ done (ok (some (rid, row)))
    → (ix : Index) × (t.index ≡ some ix)
      × (get t rid ≡ ok (some row))
      × (at_index row ix.column ≡ ok (Value.int key))
unfolding find_by_key
find_by_key-get fuel t key rid row h =
    let (ix, e, k) = find_in-some fuel t key t.index (rid, row) refl h in (ix, e, k.0, k.1)
