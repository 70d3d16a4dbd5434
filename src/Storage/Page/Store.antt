-- ===== src/Storage/Page/Store.antt =====
-- What a page promises, with no bytes in sight: a list of slots that are live or dead, and a number
-- of free bytes. Page/Refines.antt relates the two.
use skipper_db.Base.{
  ℕ, zero, suc, ◌+◌, ◌-◌, ◌<◌, ◌≤◌, ◌≡◌, refl, Bool, true, false, List, [], ◌∷◌, ◌++◌, Option, none,
  some, ltb, leb, ◌==◌, if◌then◌else◌, length, set, arith, le→leb, lt→leb, lt→ltb, le→ltb,
}
use skipper_db.Base.Utf8.{Bytes}
use skipper_db.Storage.Page.{slot_size}

abbrev pub Slots : Type 0
Slots = List (Option Bytes)

pub record Store : Type 0 where
  pub slots : Slots
  pub free : ℕ

-- The record in a slot; a slot that is not there shows none.
abbrev pub entry : Slots → ℕ → Option Bytes
entry [] i = none
entry (x ∷ s) zero = x
entry (x ∷ s) (suc i) = entry s i

-- A slot of length 0 counts as dead, so the empty record is never live.
abbrev pub live : Bytes → Option Bytes
live r = if length r == 0 then none else some r

-- The store with one more slot, which takes room for the record and for the slot.
abbrev pub appended : Store → Bytes → Store
appended s r = record { slots = s.slots ++ (live r ∷ []); free = s.free - (length r + slot_size) }

-- The store with another content in slot `i`, for `n` free bytes.
abbrev pub with_slot : Store → ℕ → Option Bytes → ℕ → Store
with_slot s i x n = record { slots = set s.slots i x; free = s.free - n }

unfoldable pub store_insert : Store → Bytes → Store × Option ℕ
store_insert s r =
    if ltb s.free (length r + slot_size) then (s, none) else (appended s r, some (length s.slots))

unfoldable pub store_delete : Store → ℕ → Store × Bool
store_delete s i = elim (entry s.slots i) [
  | none ↦ (s, false)
  | some x ↦ (with_slot s i none 0, true)
]

unfoldable pub store_update : Store → ℕ → Bytes → Store × Bool
store_update s i r = elim (entry s.slots i) [
  | none ↦ (s, false)
  | some x ↦
      if leb (length r) (length x)
      then (with_slot s i (live r) 0, true)
      else if ltb s.free (length r)
      then (s, false)
      else (with_slot s i (live r) (length r), true)
]

pub entry-append :
    (s : Slots) (x : Option Bytes) (j : ℕ)
    → entry (s ++ (x ∷ [])) j ≡ (if j == length s then x else entry s j)
entry-append [] x zero = refl
entry-append [] x (suc j) = ground arith
entry-append (y ∷ s) x zero = ground arith
entry-append (y ∷ s) x (suc j) = ground (arith, entry-append s x j)

pub entry-set :
    (s : Slots) (i : ℕ) (x : Option Bytes) (j : ℕ)
    → i < length s
    → entry (set s i x) j ≡ (if j == i then x else entry s j)
entry-set [] i x j h = absurd (omega arith)
entry-set (y ∷ s) zero x zero h = refl
entry-set (y ∷ s) zero x (suc j) h = ground arith
entry-set (y ∷ s) (suc i) x zero h = ground arith
entry-set (y ∷ s) (suc i) x (suc j) h = ground (arith, entry-set s i x j)

pub entry_beyond : (s : Slots) (i : ℕ) → length s ≤ i → entry s i ≡ none
entry_beyond [] i h = refl
entry_beyond (y ∷ s) zero h = absurd (omega arith)
entry_beyond (y ∷ s) (suc i) h = entry_beyond s i (omega arith)

module _ (s : Store) (i : ℕ) where
  pub store_delete-none : entry s.slots i ≡ none → store_delete s i ≡ (s, false)
  unfolding store_delete
  store_delete-none h = rw (h, store_delete)

  pub store_delete-some :
      {x : Bytes} → entry s.slots i ≡ some x → store_delete s i ≡ (with_slot s i none 0, true)
  unfolding store_delete
  store_delete-some h = rw (h, store_delete)

  pub store_update-none : (r : Bytes) → entry s.slots i ≡ none → store_update s i r ≡ (s, false)
  unfolding store_update
  store_update-none r h = rw (h, store_update)

  pub store_update_in_place :
      (r : Bytes) {x : Bytes}
      → entry s.slots i ≡ some x
      → length r ≤ length x
      → store_update s i r ≡ (with_slot s i (live r) 0, true)
  unfolding store_update
  store_update_in_place r {x} h fits = rw (h, store_update) (rw (le→leb (length r) (length x) fits))

  pub store_update_moves :
      (r : Bytes) {x : Bytes}
      → entry s.slots i ≡ some x
      → length x < length r
      → length r ≤ s.free
      → store_update s i r ≡ (with_slot s i (live r) (length r), true)
  unfolding store_update
  store_update_moves r {x} h grow room =
      rw (h, store_update) (rw (lt→leb (length r) (length x) grow, le→ltb s.free (length r) room))

  pub store_update_full :
      (r : Bytes) {x : Bytes}
      → entry s.slots i ≡ some x
      → length x < length r
      → s.free < length r
      → store_update s i r ≡ (s, false)
  unfolding store_update
  store_update_full r {x} h grow full =
      rw (h, store_update) (rw (lt→leb (length r) (length x) grow, lt→ltb s.free (length r) full))

pub store_insert_fits :
    (s : Store) (r : Bytes)
    → length r + slot_size ≤ s.free
    → store_insert s r ≡ (appended s r, some (length s.slots))
unfolding store_insert
store_insert_fits s r h = rw (le→ltb s.free (length r + slot_size) h)
