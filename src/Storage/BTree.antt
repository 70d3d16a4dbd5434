-- ===== src/Storage/BTree.antt =====
-- src/storage/btree.rs: the index file, a B+tree with one node in each page.
pub mod Nodes
pub mod Insert
mod Tests
use skipper_db.Base.{
  ℕ, zero, suc, ◌+◌, ◌*◌, ◌%◌, Bool, true, false, List, [], ◌∷◌, ◌++◌, Option, none, some, ltb, leb,
  ◌==◌, if◌then◌else◌, length, get_elem?, set, replicate, slice, splice,
}
use skipper_db.Base.Utf8.{Bytes, Text}
use skipper_db.Base.Words.{to_le, from_le}
use skipper_db.Errors.{
  Result, ok, err, panic, ◌>>=◌, ◌>>◌, io, not_found, already_exists, unexpected_eof,
  not_a_skipper_db, unsupported_version,
}
use skipper_db.Storage.Header.{magic, format_version}
use skipper_db.Storage.Page.{page_size}
use skipper_db.Storage.BTree.Nodes.{Node, leaf, internal, to_page, from_page, text_at, put}

-- A file as its pages; a file that is not there is `none`.
abbrev pub Pages : Type 0
Pages = List Bytes

pub record BTree : Type 0 where
  pub file : Pages
  pub root : ℕ

-- A write beyond the end leaves zeros between.
unfoldable pub write_page : Pages → ℕ → Bytes → Pages
write_page [] zero bs = bs ∷ []
write_page [] (suc n) bs = replicate page_size 0 ∷ write_page [] n bs
write_page (p ∷ ps) zero bs = bs ∷ ps
write_page (p ∷ ps) (suc n) bs = p ∷ write_page ps n bs

unfoldable pub read_page : Pages → ℕ → Result Bytes
read_page file page = elim (get_elem? file page) [
  | none ↦ err (io unexpected_eof)
  | some bs ↦ ok bs
]

unfoldable pub read_node : BTree → ℕ → Result Node
read_node t page = do bs ← read_page t.file page; from_page bs

unfoldable pub write_node : BTree → ℕ → Node → Result BTree
write_node t page node = do
  bs ← to_page node
  ok (record { file = write_page t.file page bs; root = t.root })

-- The page behind the last one, cut to a u32.
unfoldable pub alloc_node : BTree → Node → Result (BTree × ℕ)
alloc_node t node = do
  let page = length t.file % 4294967296
  t' ← write_node t page node
  ok (t', page)

unfoldable pub write_meta : BTree → Result BTree
write_meta t = do
  m₁ ← put (replicate page_size 0) 0 magic
  m₂ ← put m₁ 8 (to_le 4 format_version)
  m₃ ← put m₂ 12 (to_le 4 t.root)
  ok (record { file = write_page t.file 0 m₃; root = t.root })

unfoldable pub set_root : BTree → ℕ → Result BTree
set_root t root = write_meta (record { file = t.file; root = root })

unfoldable pub create : Option Pages → Result BTree
create (some file) = err (io already_exists)
create none = do t ← write_meta (record { file = []; root = 1 }); write_node t 1 (leaf [] [] 0)

-- `BTree::open`: the root's page from the meta page of a file at a path.
unfoldable pub open_tree : Text → Option Pages → Result BTree
open_tree path none = err (io not_found)
open_tree path (some file) = do
  meta ← read_page file 0
  if text_at meta 0 magic
      then (if from_le (slice meta 8 4) == format_version
          then ok (record { file = file; root = from_le (slice meta 12 4) })
          else err (unsupported_version (from_le (slice meta 8 4))))
      else err (not_a_skipper_db path)
