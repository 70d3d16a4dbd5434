-- ===== src/Storage/BTree/Tests.antt =====
-- The index, run at small inputs.
use skipper_db.Base.{ℕ, ◌≡◌, refl, List, [], ◌∷◌, Option, some, none, splice}
use skipper_db.Base.Int.{negsuc, pos, cmp_ℤ, i64_to_le, i64_from_le}
use skipper_db.Base.Utf8.{ascii, text_eq}
use skipper_db.Catalog.Schema.{position}
use skipper_db.Errors.{ok}
use skipper_db.Fuel.{Run, done, ◌>>=◌}
use skipper_db.Storage.BTree.{
  BTree, create, open_tree, write_meta, write_page, read_page, read_node, write_node, alloc_node,
  set_root,
}
use skipper_db.Storage.BTree.Nodes.{
  Rid, put, text_at, to_page, put_entries, put_keys, put_children, from_page, read_leaf,
  read_internal, read_entries, read_keys, read_children,
}
use skipper_db.Storage.BTree.Nodes.{Node, leaf}
use skipper_db.Storage.BTree.Nodes.RoundTrip.{from_page-to_page}
use skipper_db.Base.{arith}
use skipper_db.Base.Utf8.{Bytes}
use skipper_db.Storage.BTree.Insert.{
  find, insert, partition_point, child_index, binary_search, at_index, insert_at, split_off,
  find_from, store_leaf, store_internal, insert_into,
}

abbrev insert_all : List ℕ → BTree → Run BTree
insert_all [] t = done (ok t)
insert_all (k ∷ ks) t = do t' ← insert 5 t (pos k) (record { page = k; slot = k }); insert_all ks t'

-- The keys in a file that is opened again.
abbrev keys : List ℕ
keys = 5 ∷ 2 ∷ 9 ∷ 1 ∷ 7 ∷ 3 ∷ 8 ∷ 4 ∷ 6 ∷ []

abbrev found : ℕ → Run (Option Rid)
found k = do
  t ← done (create none)
  t' ← insert_all keys t
  t'' ← done (open_tree (ascii "t.idx") (some t'.file))
  find 5 t'' (pos k)

found_three : found 3 ≡ done (ok (some (record { page = 3; slot = 3 })))
unfolding create open_tree write_meta write_page read_page read_node write_node alloc_node set_root
    put text_at text_eq splice to_page put_entries put_keys put_children from_page read_leaf
    read_internal read_entries read_keys read_children i64_to_le i64_from_le cmp_ℤ position
    partition_point child_index binary_search at_index insert_at split_off find_from find store_leaf
    store_internal insert_into insert
found_three = refl

-- A leaf with two entries, in front of page 3.
abbrev two : Node
two =
    leaf (negsuc 4 ∷ pos 7 ∷ [])
      (record { page = 1; slot = 0 } ∷ record { page = 2; slot = 9 } ∷ []) 3

from_page-to_page_example : (buf : Bytes) × (to_page two ≡ ok buf) × (from_page buf ≡ ok two)
from_page-to_page_example = from_page-to_page two (
  refl,
  omega arith,
  (omega arith, (omega arith, tt)),
  ((omega arith, omega arith), ((omega arith, omega arith), tt)),
  omega arith,
)
