-- ===== src/Storage/BTree/Nodes/RoundTrip.antt =====
-- `from_page` of src/storage/btree.rs on the pages that `to_page` writes.
use skipper_db.Base.{
  ℕ, suc, ◌+◌, ◌*◌, ◌≤◌, ◌≡◌, refl, ◌∙◌, ap, subst, List, [], ◌∷◌, le→ltb, length, get_or,
  replicate, length-replicate, All, arith,
}
use skipper_db.Base.Int.{ℤ, IsI64, i64_from_le-i64_to_le}
use skipper_db.Base.Utf8.{Bytes}
use skipper_db.Base.Words.{to_le, from_le-to_le, IsU16, IsU32}
use skipper_db.Errors.{ok}
use skipper_db.Storage.Page.{page_size}
use skipper_db.Storage.BTree.Nodes.{
  Rid, Node, leaf, internal, to_page, from_page, read_entries, read_keys, read_children, read_leaf,
  read_internal,
}
use skipper_db.Storage.BTree.Nodes.Writes.{
  Keeps, Keeps-trans, Has, put_lem, HasEntries, HasKeys, HasChildren, put_entries_lem, put_keys_lem,
  put_children_lem,
}

-- An address that fits its fields.
abbrev pub IsRid : Rid → Type 0
IsRid r = IsU32 r.page × IsU16 r.slot

-- A node that fits a page, with as many row ids as keys, or one child more than keys.
abbrev pub IsNode : Node → Type 0
IsNode (leaf keys rids next) =
    (length keys ≡ length rids)
    × (7 + length keys * 14 ≤ page_size)
    × All IsI64 keys
    × All IsRid rids
    × IsU32 next
IsNode (internal keys children) =
    (length children ≡ suc (length keys))
    × (3 + length keys * 8 + length children * 4 ≤ page_size)
    × All IsI64 keys
    × All IsU32 children

read_entries_lem :
    (ks : List ℤ) (rs : List Rid) (at : ℕ) (buf : Bytes)
    → length ks ≡ length rs
    → All IsI64 ks
    → All IsRid rs
    → HasEntries ks rs at buf
    → read_entries (length ks) at buf ≡ (ks, rs)
unfolding read_entries
read_entries_lem [] [] at buf l h k has = refl
read_entries_lem [] (r ∷ rs) at buf l h k has = absurd (omega arith)
read_entries_lem (x ∷ ks) [] at buf l h k has = absurd (omega arith)
read_entries_lem (x ∷ ks) (r ∷ rs) at buf l h k has =
    rw
      (
        has.0,
        has.1,
        has.2,
        i64_from_le-i64_to_le x h.0,
        from_le-to_le 4 r.page k.0.0,
        from_le-to_le 2 r.slot k.0.1,
        read_entries_lem ks rs (at + 14) buf (omega arith) h.1 k.1 has.3,
      )
      refl

read_keys_lem :
    (ks : List ℤ) (at : ℕ) (buf : Bytes)
    → All IsI64 ks
    → HasKeys ks at buf
    → read_keys (length ks) at buf ≡ ks
unfolding read_keys
read_keys_lem [] at buf h has = refl
read_keys_lem (x ∷ ks) at buf h has =
    rw (has.0, i64_from_le-i64_to_le x h.0, read_keys_lem ks (at + 8) buf h.1 has.1) refl

read_children_lem :
    (cs : List ℕ) (at : ℕ) (buf : Bytes)
    → All IsU32 cs
    → HasChildren cs at buf
    → read_children (length cs) at buf ≡ cs
unfolding read_children
read_children_lem [] at buf h has = refl
read_children_lem (c ∷ cs) at buf h has =
    rw (has.0, from_le-to_le 4 c h.0, read_children_lem cs (at + 4) buf h.1 has.1) refl

-- The tag in the first byte.
first_byte : (buf : Bytes) (t : ℕ) → Has buf 0 1 (t ∷ []) → get_or buf 0 0 ≡ t
first_byte [] t h = absurd (cc h)
first_byte (b ∷ bs) t h = ap (λ l. get_or l 0 0) h

zeros_length : length (replicate {A = ℕ} page_size 0) ≡ page_size
zeros_length = length-replicate {A = ℕ} page_size 0

leaf_read :
    (keys : List ℤ) (rids : List Rid) (next : ℕ) (buf : Bytes)
    → IsNode (leaf keys rids next)
    → Has buf 0 1 (0 ∷ [])
    → Has buf 1 2 (to_le 2 (length keys))
    → Has buf 3 4 (to_le 4 next)
    → HasEntries keys rids 7 buf
    → from_page buf ≡ ok (leaf keys rids next)
unfolding from_page read_leaf
leaf_read keys rids next buf v tag count link has =
    rw
      (
        from_page,
        count,
        from_le-to_le 2 (length keys) (omega (arith, v.1)),
        first_byte buf 0 tag,
        read_leaf,
        le→ltb page_size (7 + length keys * 14) (omega (arith, v.1)),
        read_entries_lem keys rids 7 buf v.0 v.2 v.3 has,
        link,
        from_le-to_le 4 next v.4,
      )
      refl

internal_read :
    (keys : List ℤ) (children : List ℕ) (buf : Bytes)
    → IsNode (internal keys children)
    → Has buf 0 1 (1 ∷ [])
    → Has buf 1 2 (to_le 2 (length keys))
    → HasKeys keys 3 buf
    → HasChildren children (3 + length keys * 8) buf
    → from_page buf ≡ ok (internal keys children)
unfolding from_page read_internal
internal_read keys children buf v tag count has has' =
    let more : length keys + 1 ≡ length children = omega (arith, v.0) in
    rw
      (
        from_page,
        count,
        from_le-to_le 2 (length keys) (omega (arith, v.1)),
        first_byte buf 1 tag,
        read_internal,
        le→ltb page_size (3 + length keys * 8 + (length keys + 1) * 4) (omega (arith, v.0, v.1)),
        read_keys_lem keys 3 buf v.2 has,
        more,
        read_children_lem children (3 + length keys * 8) buf v.3 has',
      )
      refl

HasKeys-Keeps :
    (ks : List ℤ) (at end : ℕ) (b c : Bytes)
    → at + 8 * length ks ≤ end
    → Keeps end b c
    → HasKeys ks at b
    → HasKeys ks at c
HasKeys-Keeps [] at end b c h kept has = tt
HasKeys-Keeps (k ∷ ks) at end b c h kept has =
    (kept.1 at 8 (omega arith) ∙ has.0, HasKeys-Keeps ks (at + 8) end b c (omega arith) kept has.1)

leaf_page :
    (keys : List ℤ) (rids : List Rid) (next : ℕ)
    → IsNode (leaf keys rids next)
    → (buf : Bytes) × (to_page (leaf keys rids next) ≡ ok buf)
      × (from_page buf ≡ ok (leaf keys rids next))
unfolding to_page
leaf_page keys rids next v =
    let (b₁, e₁, k₁, h₁) =
      put_lem (replicate page_size 0) 0 1 (0 ∷ []) refl (omega (arith, zeros_length)) in
    let (b₂, e₂, k₂, h₂) =
      put_lem b₁ 1 2 (to_le 2 (length keys)) refl (omega (arith, zeros_length, k₁.0)) in
    let (b₃, e₃, k₃, h₃) =
      put_lem b₂ 3 4 (to_le 4 next) refl (omega (arith, zeros_length, k₁.0, k₂.0)) in
    let (b, e, kept, has) =
      put_entries_lem keys rids 7 b₃ v.0 (omega (arith, zeros_length, k₁.0, k₂.0, k₃.0, v.1)) in
    let from₃ = Keeps-trans 3 7 b₂ b₃ b (omega arith) k₃ kept in
    let from₂ = Keeps-trans 1 3 b₁ b₂ b (omega arith) k₂ from₃ in
    (
      b,
      rw (to_page, e₁, e₂, e₃) e,
      leaf_read keys rids next b v (from₂.1 0 1 (omega arith) ∙ h₁) (from₃.1 1 2 (omega arith) ∙ h₂)
          (kept.1 3 4 (omega arith) ∙ h₃) has,
    )

internal_page :
    (keys : List ℤ) (children : List ℕ)
    → IsNode (internal keys children)
    → (buf : Bytes) × (to_page (internal keys children) ≡ ok buf)
      × (from_page buf ≡ ok (internal keys children))
unfolding to_page
internal_page keys children v =
    let (b₁, e₁, k₁, h₁) =
      put_lem (replicate page_size 0) 0 1 (1 ∷ []) refl (omega (arith, zeros_length)) in
    let (b₂, e₂, k₂, h₂) =
      put_lem b₁ 1 2 (to_le 2 (length keys)) refl (omega (arith, zeros_length, k₁.0)) in
    let (b₃, e₃, k₃, h₃) = put_keys_lem keys 3 b₂ (omega (arith, zeros_length, k₁.0, k₂.0, v.1)) in
    let (b, e, kept, has) =
      put_children_lem children (3 + 8 * length keys) b₃
        (omega (arith, zeros_length, k₁.0, k₂.0, k₃.0, v.1)) in
    let from₃ = Keeps-trans 3 (3 + 8 * length keys) b₂ b₃ b (omega arith) k₃ kept in
    let from₂ = Keeps-trans 1 3 b₁ b₂ b (omega arith) k₂ from₃ in
    (
      b,
      rw (to_page, e₁, e₂, e₃) e,
      internal_read keys children b v (from₂.1 0 1 (omega arith) ∙ h₁)
          (from₃.1 1 2 (omega arith) ∙ h₂)
          (HasKeys-Keeps keys 3 (3 + 8 * length keys) b₃ b (omega arith) kept h₃)
          (subst (λ n. HasChildren children n b) (omega arith) has),
    )

-- A node that fits a page, with as many row ids as keys or one child more than keys, is written to
-- a page, without a panic, and read back from it. (Keys are i64, pages u32 and slots u16.)
pub from_page-to_page :
    (node : Node)
    → IsNode node
    → (buf : Bytes) × (to_page node ≡ ok buf) × (from_page buf ≡ ok node)
from_page-to_page (leaf keys rids next) v = leaf_page keys rids next v
from_page-to_page (internal keys children) v = internal_page keys children v
