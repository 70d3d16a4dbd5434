-- ===== src/Storage/BTree/Nodes.antt =====
-- src/storage/btree.rs: the nodes and their form in a page.
pub mod Writes
pub mod RoundTrip
use skipper_db.Base.{
  ℕ, zero, suc, ◌+◌, ◌*◌, Bool, List, [], ◌∷◌, ltb, leb, ◌==◌, if◌then◌else◌, length, get_or,
  replicate, slice, splice,
}
use skipper_db.Base.Int.{ℤ, i64_to_le, i64_from_le}
use skipper_db.Base.Utf8.{Bytes, text_eq}
use skipper_db.Base.Words.{to_le, from_le}
use skipper_db.Errors.{Result, ok, err, panic, ◌>>=◌, malformed_index}
use skipper_db.Storage.Page.{page_size}

-- The address of a row, of src/storage/table.rs.
pub record Rid : Type 0 where
  pub page : ℕ
  pub slot : ℕ

pub data Node : Type 0 where
  leaf : List ℤ → List Rid → ℕ → Node
  internal : List ℤ → List ℕ → Node

-- `buf[at..at + len].copy_from_slice(bs)`
unfoldable pub put : Bytes → ℕ → Bytes → Result Bytes
put buf at bs = if leb (at + length bs) (length buf) then ok (splice buf at bs) else panic

-- `buf[at..at + len] == bs`
unfoldable pub text_at : Bytes → ℕ → Bytes → Bool
text_at buf at bs = text_eq (slice buf at (length bs)) bs

unfoldable pub put_entries : List ℤ → List Rid → ℕ → Bytes → Result Bytes
put_entries (k ∷ ks) (r ∷ rs) at buf = do
  b₁ ← put buf at (i64_to_le k)
  b₂ ← put b₁ (at + 8) (to_le 4 r.page)
  b₃ ← put b₂ (at + 12) (to_le 2 r.slot)
  put_entries ks rs (at + 14) b₃
put_entries [] rs at buf = ok buf
put_entries (k ∷ ks) [] at buf = ok buf

-- The bytes, and where they end.
unfoldable pub put_keys : List ℤ → ℕ → Bytes → Result (Bytes × ℕ)
put_keys [] at buf = ok (buf, at)
put_keys (k ∷ ks) at buf = do b ← put buf at (i64_to_le k); put_keys ks (at + 8) b

unfoldable pub put_children : List ℕ → ℕ → Bytes → Result Bytes
put_children [] at buf = ok buf
put_children (c ∷ cs) at buf = do b ← put buf at (to_le 4 c); put_children cs (at + 4) b

unfoldable pub to_page : Node → Result Bytes
to_page (leaf keys rids next) = do
  b₁ ← put (replicate page_size 0) 0 (0 ∷ [])
  b₂ ← put b₁ 1 (to_le 2 (length keys))
  b₃ ← put b₂ 3 (to_le 4 next)
  put_entries keys rids 7 b₃
to_page (internal keys children) = do
  b₁ ← put (replicate page_size 0) 0 (1 ∷ [])
  b₂ ← put b₁ 1 (to_le 2 (length keys))
  (b₃, at) ← put_keys keys 3 b₂
  put_children children at b₃

unfoldable pub read_entries : ℕ → ℕ → Bytes → List ℤ × List Rid
read_entries zero at buf = ([], [])
read_entries (suc n) at buf =
    let (ks, rs) = read_entries n (at + 14) buf in
    let rid : Rid = record {
      page = from_le (slice buf (at + 8) 4);
      slot = from_le (slice buf (at + 12) 2);
    } in
    (i64_from_le (slice buf at 8) ∷ ks, rid ∷ rs)

unfoldable pub read_keys : ℕ → ℕ → Bytes → List ℤ
read_keys zero at buf = []
read_keys (suc n) at buf = i64_from_le (slice buf at 8) ∷ read_keys n (at + 8) buf

unfoldable pub read_children : ℕ → ℕ → Bytes → List ℕ
read_children zero at buf = []
read_children (suc n) at buf = from_le (slice buf at 4) ∷ read_children n (at + 4) buf

unfoldable pub read_leaf : ℕ → Bytes → Result Node
read_leaf count buf =
    if ltb page_size (7 + count * 14)
    then err malformed_index
    else (let (keys, rids) = read_entries count 7 buf in
        ok (leaf keys rids (from_le (slice buf 3 4))))

unfoldable pub read_internal : ℕ → Bytes → Result Node
read_internal count buf =
    if ltb page_size (3 + count * 8 + (count + 1) * 4)
    then err malformed_index
    else ok (internal (read_keys count 3 buf) (read_children (count + 1) (3 + count * 8) buf))

-- `buf` has the length of a page.
unfoldable pub from_page : Bytes → Result Node
from_page buf =
    let count = from_le (slice buf 1 2) in
    if get_or buf 0 0 == 0
    then read_leaf count buf
    else if get_or buf 0 0 == 1
    then read_internal count buf
    else err malformed_index
