-- ===== src/Storage/BTree/Nodes/Writes.antt =====
-- What the writes of `to_page` of src/storage/btree.rs leave in the page.
use skipper_db.Base.{
  ℕ, ◌+◌, ◌*◌, ◌≤◌, ◌≡◌, refl, ◌∙◌, ap, subst, List, [], ◌∷◌, le→leb, length, slice, splice,
  slice-splice_self, slice-splice-Apart, inl, length-splice, arith,
}
use skipper_db.Base.Int.{ℤ, i64_to_le, length-i64_to_le}
use skipper_db.Base.Utf8.{Bytes}
use skipper_db.Base.Words.{to_le}
use skipper_db.Errors.{ok}
use skipper_db.Storage.BTree.Nodes.{Rid, put, put_entries, put_keys, put_children}

-- The page has its length, and the bytes in front of `at`, as before.
abbrev pub Keeps : ℕ → Bytes → Bytes → Type 0
Keeps at buf buf' =
    (length buf' ≡ length buf) × ((a n : ℕ) → a + n ≤ at → slice buf' a n ≡ slice buf a n)

pub Keeps-trans :
    (at at' : ℕ) (b c d : Bytes) → at ≤ at' → Keeps at b c → Keeps at' c d → Keeps at b d
Keeps-trans at at' b c d h (l, k) (l', k') = (l' ∙ l, λ a n m. k' a n (omega arith) ∙ k a n m)

-- The `n` bytes at `at`.
abbrev pub Has : Bytes → ℕ → ℕ → Bytes → Type 0
Has buf at n bs = slice buf at n ≡ bs

pub put_lem :
    (buf : Bytes) (at n : ℕ) (bs : Bytes)
    → length bs ≡ n
    → at + n ≤ length buf
    → (buf' : Bytes) × (put buf at bs ≡ ok buf') × Keeps at buf buf' × Has buf' at n bs
unfolding put
put_lem buf at n bs l h =
    let room : at + length bs ≤ length buf = omega (arith, l) in
    (
      splice buf at bs,
      rw (put, le→leb _ _ room) refl,
      (length-splice buf at bs, λ a m k. slice-splice-Apart buf at bs a m (inl k)),
      subst (λ m. slice (splice buf at bs) at m ≡ bs) l (slice-splice_self buf at bs room),
    )

abbrev pub HasEntries : List ℤ → List Rid → ℕ → Bytes → Type 0
HasEntries (k ∷ ks) (r ∷ rs) at buf =
    Has buf at 8 (i64_to_le k)
    × Has buf (at + 8) 4 (to_le 4 r.page)
    × Has buf (at + 12) 2 (to_le 2 r.slot)
    × HasEntries ks rs (at + 14) buf
HasEntries [] rs at buf = Unit
HasEntries (k ∷ ks) [] at buf = Unit

abbrev pub HasKeys : List ℤ → ℕ → Bytes → Type 0
HasKeys [] at buf = Unit
HasKeys (k ∷ ks) at buf = Has buf at 8 (i64_to_le k) × HasKeys ks (at + 8) buf

abbrev pub HasChildren : List ℕ → ℕ → Bytes → Type 0
HasChildren [] at buf = Unit
HasChildren (c ∷ cs) at buf = Has buf at 4 (to_le 4 c) × HasChildren cs (at + 4) buf

pub put_entries_lem :
    (ks : List ℤ) (rs : List Rid) (at : ℕ) (buf : Bytes)
    → length ks ≡ length rs
    → at + 14 * length ks ≤ length buf
    → (buf' : Bytes) × (put_entries ks rs at buf ≡ ok buf')
      × Keeps at buf buf'
      × HasEntries ks rs at buf'
unfolding put_entries
put_entries_lem [] rs at buf l h = (buf, refl, (refl, λ a n m. refl), tt)
put_entries_lem (k ∷ ks) [] at buf l h = (buf, refl, (refl, λ a n m. refl), tt)
put_entries_lem (k ∷ ks) (r ∷ rs) at buf l h =
    let (b₁, e₁, k₁, h₁) = put_lem buf at 8 (i64_to_le k) (length-i64_to_le k) (omega arith) in
    let (b₂, e₂, k₂, h₂) = put_lem b₁ (at + 8) 4 (to_le 4 r.page) refl (omega (arith, k₁.0)) in
    let (b₃, e₃, k₃, h₃) =
      put_lem b₂ (at + 12) 2 (to_le 2 r.slot) refl (omega (arith, k₁.0, k₂.0)) in
    let (b, e, kept, has) =
      put_entries_lem ks rs (at + 14) b₃ (omega arith) (omega (arith, k₁.0, k₂.0, k₃.0)) in
    let from₃ = Keeps-trans (at + 12) (at + 14) b₂ b₃ b (omega arith) k₃ kept in
    let from₂ = Keeps-trans (at + 8) (at + 12) b₁ b₂ b (omega arith) k₂ from₃ in
    (
      b,
      rw (e₁, e₂, e₃) e,
      Keeps-trans at (at + 8) buf b₁ b (omega arith) k₁ from₂,
      (
        from₂.1 at 8 (omega arith) ∙ h₁,
        from₃.1 (at + 8) 4 (omega arith) ∙ h₂,
        kept.1 (at + 12) 2 (omega arith) ∙ h₃,
        has,
      ),
    )

pub put_keys_lem :
    (ks : List ℤ) (at : ℕ) (buf : Bytes)
    → at + 8 * length ks ≤ length buf
    → (buf' : Bytes) × (put_keys ks at buf ≡ ok (buf', at + 8 * length ks))
      × Keeps at buf buf'
      × HasKeys ks at buf'
unfolding put_keys
put_keys_lem [] at buf h = (buf, ap (λ n. ok (buf, n)) (omega arith), (refl, λ a n m. refl), tt)
put_keys_lem (k ∷ ks) at buf h =
    let (b₁, e₁, k₁, h₁) = put_lem buf at 8 (i64_to_le k) (length-i64_to_le k) (omega arith) in
    let (b, e, kept, has) = put_keys_lem ks (at + 8) b₁ (omega (arith, k₁.0)) in
    (
      b,
      rw e₁ (e ∙ ap (λ n. ok (b, n)) (omega arith)),
      Keeps-trans at (at + 8) buf b₁ b (omega arith) k₁ kept,
      (kept.1 at 8 (omega arith) ∙ h₁, has),
    )

pub put_children_lem :
    (cs : List ℕ) (at : ℕ) (buf : Bytes)
    → at + 4 * length cs ≤ length buf
    → (buf' : Bytes) × (put_children cs at buf ≡ ok buf')
      × Keeps at buf buf'
      × HasChildren cs at buf'
unfolding put_children
put_children_lem [] at buf h = (buf, refl, (refl, λ a n m. refl), tt)
put_children_lem (c ∷ cs) at buf h =
    let (b₁, e₁, k₁, h₁) = put_lem buf at 4 (to_le 4 c) refl (omega arith) in
    let (b, e, kept, has) = put_children_lem cs (at + 4) b₁ (omega (arith, k₁.0)) in
    (
      b,
      rw e₁ e,
      Keeps-trans at (at + 4) buf b₁ b (omega arith) k₁ kept,
      (kept.1 at 4 (omega arith) ∙ h₁, has),
    )
