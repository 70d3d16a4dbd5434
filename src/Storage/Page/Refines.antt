-- ===== src/Storage/Page/Refines.antt =====
-- The methods of src/storage/page.rs implement the abstract store of slots, and never panic on a
-- page that they built.
use skipper_db.Base.{
  ℕ, ◌+◌, ◌-◌, ◌*◌, ◌≤◌, ◌<◌, ◌≡◌, ◌≢◌, ◌∙◌, refl, sym, ap, subst, ◌⊎◌, [], ◌∷◌, Option, none, some,
  length, slice, Apart, length-set, length-append, length-replicate, length-splice, lt→ltb, le→ltb,
  eq→==, le_or_lt, inl, inr, arith, length-slice,
}
use native.Mathlib.Decide.{ℕ_discrete}
use native.Mathlib.Nat.{le_refl}
use skipper_db.Base.Utf8.{Bytes}
use skipper_db.Errors.{ok}
use skipper_db.Storage.Page.{
  SlottedPage, page_size, header_size, slot_size, u16_to_le, zeroed, new, insert, get, delete,
  update, free_space, slot_count,
}
use skipper_db.Storage.Page.Layout.{
  count, ptr, offset, len, IsValid, cell, cell_live, cell_dead, cell_beyond, u16_at-splice-Apart,
  u16_at-splice_self,
}
use skipper_db.Storage.Page.Keep.{Edited-IsValid, cell-Edited}
use skipper_db.Storage.Page.Edit.{Edited, put_u16, put_slot}
use skipper_db.Storage.Page.Reads.{
  get_lem, free_space_lem, slot_count_lem, set_slot_count_lem, set_free_ptr_lem,
}
use skipper_db.Storage.Page.Writes.{
  inserted, insert_full, inserted-Edited, insert_fits, delete_beyond, delete_dead, delete_live,
  deleted-Edited, placed_at, moved, placed-Edited, moved-Edited, update_beyond, update_dead,
  update_in_place, update_full, update_moves,
}
use skipper_db.Storage.Page.Store.{
  Store, entry, live, store_insert, store_delete, store_update, entry-append, entry-set, appended,
  with_slot, store_delete-none, store_delete-some, store_update-none, store_update_in_place,
  store_update_moves, store_update_full, store_insert_fits,
}

-- The page `p` stands for the store `s`.
pub record Represents (p : SlottedPage) (s : Store) : Type 0 where
  pub valid : IsValid p
  pub counted : count p ≡ length s.slots
  pub freed : ptr p ≡ header_size + count p * slot_size + s.free
  pub shows : (i : ℕ) → cell p i ≡ entry s.slots i

module _ (p : SlottedPage) (s : Store) (h : Represents p s) where
  inserted-Represents :
      (r : Bytes) → length r + slot_size ≤ s.free → Represents (inserted p r) (appended s r)
  inserted-Represents r fits =
      let v = h.valid in
      let e = inserted-Edited p r v (omega (arith, h.freed)) in
      let off : ℕ = ptr p - length r in
      let low : header_size + (count p + 1) * slot_size ≤ off = omega (arith, h.freed) in
      let fresh : (j : ℕ)
          → j ≢ count p
          → j < count p
          → 0 < len p j
          → Apart (offset p j) (len p j) off (length r) =
        λ j n hj l. let c = v.cells j hj l in inr (omega (arith, c.0)) in
      record {
        valid =
            Edited-IsValid p _ (count p + 1) (count p) off r off e v (omega arith) (omega arith)
              (λ j n hj. omega arith) low (omega arith) (λ _. le_refl off) (omega arith) fresh;
        counted = omega (arith, e.counted, h.counted, length-append s.slots (live r ∷ []));
        freed = omega (arith, e.counted, e.pointed, h.freed);
        shows = λ j.
            cell-Edited p _ (count p + 1) (count p) off r off e v (omega arith) (omega arith)
              (λ j n hj. omega arith) low (omega arith) (λ _. le_refl off) (omega arith) fresh j
            ∙ rw (h.shows j, h.counted) (sym (entry-append s.slots (live r) j));
      }

  -- On a page that stands for a store, `insert` does not panic, returns what `store_insert` returns, and
  -- leaves a page that stands for the store that `store_insert` leaves.
  pub insert_refines :
      (r : Bytes)
      → (q : SlottedPage) × (insert p r ≡ ok (q, (store_insert s r).1))
        × Represents q (store_insert s r).0
  unfolding store_insert
  insert_refines r = elim (le_or_lt (length r + slot_size) s.free) [
    | inl fits ↦ rw (le→ltb _ _ fits) (
      inserted p r,
      insert_fits p r h.valid (omega (arith, h.freed))
          ∙ ap (λ n. ok (inserted p r, some n)) h.counted,
      inserted-Represents r fits,
    )
    | inr full ↦ rw (lt→ltb _ _ full) (p, insert_full p r h.valid (omega (arith, h.freed)), h)
  ]

  -- The edit of a slot that is there.
  Edited-Represents :
      (q : SlottedPage) (i off : ℕ) (r : Bytes) (n : ℕ)
      → Edited p q (count p) i off r (ptr p - n) (count p)
      → i < count p
      → n ≤ s.free
      → (0 < length r → ptr p - n ≤ off)
      → off + length r ≤ page_size
      → ((j : ℕ) → j ≢ i → j < count p → 0 < len p j → Apart (offset p j) (len p j) off (length r))
      → Represents q (with_slot s i (live r) n)
  Edited-Represents q i off r n e hi room above high fresh =
      let v = h.valid in
      let low : header_size + count p * slot_size ≤ ptr p - n = omega (arith, h.freed) in
      record {
        valid =
            Edited-IsValid p q (count p) i off r (ptr p - n) e v hi (le_refl _) (λ j m hj. hj) low
              (omega arith) above high fresh;
        counted = omega (arith, e.counted, h.counted, length-set s.slots i (live r));
        freed = omega (arith, e.counted, e.pointed, h.freed);
        shows = λ j.
            cell-Edited p q (count p) i off r (ptr p - n) e v hi (le_refl _) (λ j m hj. hj) low
              (omega arith) above high fresh j
            ∙ rw (h.shows j) (sym (entry-set s.slots i (live r) j (omega (arith, h.counted))));
      }

  entry_live :
      (i : ℕ)
      → i < count p
      → 0 < len p i
      → (x : Bytes) × (entry s.slots i ≡ some x) × (length x ≡ len p i)
  entry_live i hi l =
      let c = h.valid.cells i hi l in
      (
        slice p.bytes (offset p i) (len p i),
        sym (h.shows i) ∙ cell_live p i hi l,
        length-slice p.bytes _ _ (omega (arith, c.1, h.valid.sized)),
      )

  entry-none : (i : ℕ) → (count p ≤ i) ⊎ (len p i ≡ 0) → entry s.slots i ≡ none
  entry-none i (inl beyond) = sym (h.shows i) ∙ cell_beyond p i beyond
  entry-none i (inr dead) = sym (h.shows i) ∙ cell_dead p i dead

  -- The cell of a live slot is apart from the other live cells, and so is any part of it.
  part-Apart :
      (i n : ℕ)
      → i < count p
      → 0 < len p i
      → n ≤ len p i
      → (j : ℕ) → j ≢ i
      → j < count p
      → 0 < len p j
      → Apart (offset p j) (len p j) (offset p i) n
  part-Apart i n hi l le j m hj lj = omega (arith, h.valid.apart j i hj hi m lj l)

  deleted-Represents :
      (i : ℕ)
      → i < count p
      → 0 < len p i
      → Represents (put_slot p i (offset p i) 0) (with_slot s i none 0)
  deleted-Represents i hi l =
      let c = h.valid.cells i hi l in
      let e : Edited p (put_slot p i (offset p i) 0) (count p) i (offset p i) [] (ptr p - 0)
          (count p) =
        subst (λ k. Edited p (put_slot p i (offset p i) 0) (count p) i (offset p i) [] k (count p))
          (omega arith) (deleted-Edited p i h.valid hi l) in
      Edited-Represents (put_slot p i (offset p i) 0) i (offset p i) [] 0 e hi (omega arith)
        (λ z. absurd (omega arith)) (omega arith) (part-Apart i 0 hi l (omega arith))

  -- On a page that stands for a store, `delete` does not panic, returns what `store_delete` returns, and
  -- leaves a page that stands for the store that `store_delete` leaves.
  pub delete_refines :
      (i : ℕ)
      → (q : SlottedPage) × (delete p i ≡ ok (q, (store_delete s i).1))
        × Represents q (store_delete s i).0
  delete_refines i = elim (le_or_lt (count p) i) [
    | inl beyond ↦
        rw (store_delete-none s i (entry-none i (inl beyond)))
          (p, delete_beyond p i h.valid beyond, h)
    | inr hi ↦ elim (ℕ_discrete (len p i) 0) [
      | yes z ↦
          rw (store_delete-none s i (entry-none i (inr z))) (p, delete_dead p i h.valid hi z, h)
      | no n ↦
          let l : 0 < len p i = omega arith in
          rw (store_delete-some s i (entry_live i hi l).1)
            (put_slot p i (offset p i) 0, delete_live p i h.valid hi l, deleted-Represents i hi l)
    ]
  ]

  placed-Represents :
      (i : ℕ) (r : Bytes)
      → i < count p
      → 0 < len p i
      → length r ≤ len p i
      → Represents (placed_at p r i (offset p i)) (with_slot s i (live r) 0)
  placed-Represents i r hi l fits =
      let c = h.valid.cells i hi l in
      let e : Edited p (placed_at p r i (offset p i)) (count p) i (offset p i) r (ptr p - 0)
          (count p) =
        subst (λ k. Edited p (placed_at p r i (offset p i)) (count p) i (offset p i) r k (count p))
          (omega arith) (placed-Edited p r i h.valid hi l fits) in
      Edited-Represents _ i (offset p i) r 0 e hi (omega arith) (λ z. omega (arith, c.0))
        (omega (arith, c.1)) (part-Apart i (length r) hi l fits)

  moved-Represents :
      (i : ℕ) (r : Bytes)
      → i < count p
      → length r ≤ s.free
      → Represents (moved p r i) (with_slot s i (live r) (length r))
  moved-Represents i r hi fits =
      let v = h.valid in
      Edited-Represents (moved p r i) i (ptr p - length r) r (length r)
        (moved-Edited p r i v hi (omega (arith, h.freed))) hi fits (λ z. le_refl _)
        (omega (arith, h.freed))
        (λ j m hj lj. let c = v.cells j hj lj in inr (omega (arith, c.0, h.freed)))

  -- On a page that stands for a store, `update` does not panic, returns what `store_update` returns, and
  -- leaves a page that stands for the store that `store_update` leaves.
  pub update_refines :
      (i : ℕ) (r : Bytes)
      → (q : SlottedPage) × (update p i r ≡ ok (q, (store_update s i r).1))
        × Represents q (store_update s i r).0
  update_refines i r = elim (le_or_lt (count p) i) [
    | inl beyond ↦
        rw (store_update-none s i r (entry-none i (inl beyond)))
          (p, update_beyond p r i h.valid beyond, h)
    | inr hi ↦ elim (ℕ_discrete (len p i) 0) [
      | yes z ↦
          rw (store_update-none s i r (entry-none i (inr z))) (p, update_dead p r i h.valid hi z, h)
      | no n ↦
          let l : 0 < len p i = omega arith in
          let (x, shown, size) = entry_live i hi l in
          elim (le_or_lt (length r) (len p i)) [
            | inl fits ↦ rw (store_update_in_place s i r shown (omega arith)) (
              placed_at p r i (offset p i),
              update_in_place p r i h.valid hi l fits,
              placed-Represents i r hi l fits,
            )
            | inr grow ↦ elim (le_or_lt (length r) s.free) [
              | inl room ↦ rw (store_update_moves s i r shown (omega arith) room) (
                moved p r i,
                update_moves p r i h.valid hi l grow (omega (arith, h.freed)),
                moved-Represents i r hi room,
              )
              | inr full ↦
                  rw (store_update_full s i r shown (omega arith) full)
                    (p, update_full p r i h.valid hi l grow (omega (arith, h.freed)), h)
            ]
          ]
    ]
  ]

  -- `get` shows the slots of the store, and `free_space` and `slot_count` its room and its length.
  pub get_refines : (i : ℕ) → get p i ≡ ok (entry s.slots i)
  get_refines i = get_lem p i h.valid ∙ ap ok (h.shows i)

  pub free_space_refines : free_space p ≡ ok s.free
  free_space_refines = free_space_lem p h.valid.sized h.valid.room ∙ ap ok (omega (arith, h.freed))

  pub slot_count_refines : slot_count p ≡ ok (length s.slots)
  slot_count_refines = slot_count_lem p h.valid.sized ∙ ap ok h.counted

-- On a page that stands for a store with room for a slot, `insert` of an empty record returns the
-- next slot's number, but `get` of that slot then returns no record.
pub insert_empty_dead :
    (p : SlottedPage) (s : Store)
    → Represents p s
    → slot_size ≤ s.free
    → (q : SlottedPage) × (insert p [] ≡ ok (q, some (length s.slots)))
      × (get q (length s.slots) ≡ ok none)
insert_empty_dead p s h room =
    let (q, e, k) = insert_refines p s h [] in
    let done = store_insert_fits s [] room in
    (
      q,
      e ∙ ap (λ (x : Store × Option ℕ). ok (q, x.1)) done,
      get_refines q _ k (length s.slots)
          ∙ ap (λ (x : Store × Option ℕ). ok (entry x.0.slots (length s.slots))) done
          ∙ ap ok (entry-append s.slots none (length s.slots) ∙ rw (eq→== (length s.slots) _ refl)),
    )

length-zeroed : length zeroed ≡ page_size
unfolding zeroed
length-zeroed = length-replicate {A = ℕ} page_size 0

abbrev fresh_page : SlottedPage
fresh_page = put_u16 (put_u16 (record { bytes = zeroed }) 0 0) 2 page_size

count-fresh_page : count fresh_page ≡ 0
count-fresh_page =
    u16_at-splice-Apart _ 2 (u16_to_le page_size) 0 (omega arith)
    ∙ u16_at-splice_self zeroed 0 0 (omega (arith, length-zeroed)) (omega arith)

ptr-fresh_page : ptr fresh_page ≡ page_size
ptr-fresh_page =
    u16_at-splice_self _ 2 page_size
      (omega (arith, length-splice zeroed 0 (u16_to_le 0), length-zeroed)) (omega arith)

fresh_page-IsValid : IsValid fresh_page
fresh_page-IsValid = record {
  sized = length-splice _ _ _ ∙ length-splice _ _ _ ∙ length-zeroed;
  room = omega (arith, count-fresh_page, ptr-fresh_page);
  bounded = omega (arith, ptr-fresh_page);
  cells = λ i h l. absurd (omega (arith, count-fresh_page));
  apart = λ i j h k n l m. absurd (omega (arith, count-fresh_page));
}

-- A fresh page stands for the store with no slots and all the room.
pub new_refines :
    (p : SlottedPage) × (new ≡ ok p)
    × Represents p (record { slots = []; free = page_size - header_size })
unfolding new
new_refines = (
  fresh_page,
  rw (
    set_slot_count_lem (record { bytes = zeroed }) length-zeroed 0,
    set_free_ptr_lem (put_u16 (record { bytes = zeroed }) 0 0)
        (length-splice zeroed 0 _ ∙ length-zeroed) page_size,
  ),
  record {
    valid = fresh_page-IsValid;
    counted = count-fresh_page;
    freed = omega (arith, count-fresh_page, ptr-fresh_page);
    shows = λ i. cell_beyond fresh_page i (omega (arith, count-fresh_page));
  },
)
