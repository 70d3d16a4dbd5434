-- ===== src/Storage/Table/Stores.antt =====
-- The data pages of a heap file as stores of slots, and where a new record goes.
-- src/storage/table.rs is to keep them; Table/Keeps.antt relates the two.
use skipper_db.Base.{
  ℕ, zero, suc, ◌+◌, ◌<◌, ◌≤◌, ◌≡◌, ◌≢◌, refl, sym, ap, List, [], ◌∷◌, ◌++◌, Option, none, some,
  length, get_elem?, set, ◌==◌, if◌then◌else◌, arith, ◌∙◌, eq→==, ne→==, length-set, length-append,
}
use mathlib.Core.Option.{some_inj}
use native.Mathlib.Decide.{ℕ_discrete}
use skipper_db.Base.Utf8.{Bytes}
use skipper_db.Storage.Page.{slot_size}
use skipper_db.Storage.Page.Store.{
  Store, Slots, entry, live, appended, entry-append, entry_beyond, entry-set, with_slot,
}
use skipper_db.Storage.Page.History.{empty_store}
use skipper_db.Storage.BTree.Nodes.{Rid}

-- The record in a slot of the data page `k`, from 0.
abbrev pub in_page : List Store → ℕ → ℕ → Option Bytes
in_page [] k i = none
in_page (s ∷ ss) zero i = entry s.slots i
in_page (s ∷ ss) (suc k) i = in_page ss k i

-- Page 0 of the file holds no records.
abbrev pub at_page : List Store → ℕ → ℕ → Option Bytes
at_page ss zero i = none
at_page ss (suc k) i = in_page ss k i

abbrev pub record_at : List Store → Rid → Option Bytes
record_at ss r = at_page ss r.page r.slot

-- A new record goes to the last page, or to a new page behind it if there is no room.
pub data IsPlaced (r : Bytes) : List Store → List Store → Rid → Type 0 where
  in_last :
      {ss : List Store} (k : ℕ) (s : Store)
      → length ss ≡ suc k
      → get_elem? ss k ≡ some s
      → length r + slot_size ≤ s.free
      → IsPlaced r ss (set ss k (appended s r)) (record { page = suc k; slot = length s.slots })
  in_new :
      {ss : List Store}
      → IsPlaced r ss
          (ss ++ (appended empty_store r ∷ []))
          (record { page = suc (length ss); slot = 0 })

pub in_page_lem :
    (ss : List Store) (k i : ℕ) (s : Store)
    → get_elem? ss k ≡ some s
    → in_page ss k i ≡ entry s.slots i
in_page_lem [] k i s h = cc
in_page_lem (x ∷ ss) zero i s h = ap (λ t. entry t.slots i) (some_inj.0 h)
in_page_lem (x ∷ ss) (suc k) i s h = in_page_lem ss k i s h

pub in_page-set_self :
    (ss : List Store) (k i : ℕ) (s : Store)
    → k < length ss
    → in_page (set ss k s) k i ≡ entry s.slots i
in_page-set_self [] k i s h = absurd (omega arith)
in_page-set_self (x ∷ ss) zero i s h = refl
in_page-set_self (x ∷ ss) (suc k) i s h = in_page-set_self ss k i s (omega arith)

pub in_page-set_ne :
    (ss : List Store) (k j i : ℕ) (s : Store) → k ≢ j → in_page (set ss k s) j i ≡ in_page ss j i
in_page-set_ne [] k j i s h = refl
in_page-set_ne (x ∷ ss) zero zero i s h = absurd (h refl)
in_page-set_ne (x ∷ ss) zero (suc j) i s h = refl
in_page-set_ne (x ∷ ss) (suc k) zero i s h = refl
in_page-set_ne (x ∷ ss) (suc k) (suc j) i s h = in_page-set_ne ss k j i s (λ e. h (ap suc e))

pub in_page-append :
    (ss : List Store) (s : Store) (j i : ℕ)
    → in_page (ss ++ (s ∷ [])) j i ≡ (if j == length ss then entry s.slots i else in_page ss j i)
in_page-append [] s zero i = refl
in_page-append [] s (suc j) i = ground arith
in_page-append (x ∷ ss) s zero i = ground arith
in_page-append (x ∷ ss) s (suc j) i = ground (arith, in_page-append ss s j i)

pub in_page_beyond : (ss : List Store) (k i : ℕ) → length ss ≤ k → in_page ss k i ≡ none
in_page_beyond [] k i h = refl
in_page_beyond (x ∷ ss) zero i h = absurd (omega arith)
in_page_beyond (x ∷ ss) (suc k) i h = in_page_beyond ss k i (omega arith)

pub entry_in_range : (s : Slots) (i : ℕ) (b : Bytes) → entry s i ≡ some b → i < length s
entry_in_range [] i b h = cc
entry_in_range (x ∷ s) zero b h = omega arith
entry_in_range (x ∷ s) (suc i) b h = omega (arith, entry_in_range s i b h)

pub Rid_ext : (a b : Rid) → a.page ≡ b.page → a.slot ≡ b.slot → a ≡ b
Rid_ext a b e f =
    ap (λ p. record { page = p; slot = a.slot }) e ∙ ap (λ i. record { page = b.page; slot = i }) f

module _ (r : Bytes) where
  -- The slot that a new record goes to was not live.
  pub IsPlaced-fresh :
      (ss ss' : List Store) (rid : Rid) → IsPlaced r ss ss' rid → record_at ss rid ≡ none
  IsPlaced-fresh ss _ _ (in_last k s n h fits) =
      in_page_lem ss k (length s.slots) s h ∙ entry_beyond s.slots (length s.slots) (omega arith)
  IsPlaced-fresh ss _ _ in_new = in_page_beyond ss (length ss) 0 (omega arith)

  pub IsPlaced-self :
      (ss ss' : List Store) (rid : Rid) → IsPlaced r ss ss' rid → record_at ss' rid ≡ live r
  IsPlaced-self ss _ _ (in_last k s n h fits) =
      in_page-set_self ss k (length s.slots) (appended s r) (omega arith)
      ∙ entry-append s.slots (live r) (length s.slots)
      ∙ rw (eq→== (length s.slots) _ refl) refl
  IsPlaced-self ss _ _ in_new =
      in_page-append ss (appended empty_store r) (length ss) 0 ∙ rw (eq→== (length ss) _ refl) refl

  -- The file grows by one page at most.
  pub IsPlaced-length :
      (ss ss' : List Store) (rid : Rid) → IsPlaced r ss ss' rid → length ss' ≤ suc (length ss)
  IsPlaced-length ss _ _ (in_last k s n h fits) = omega (arith, length-set ss k (appended s r))
  IsPlaced-length ss _ _ in_new = omega (arith, length-append ss (appended empty_store r ∷ []))

  last-other :
      (ss : List Store) (k : ℕ) (s : Store) (page slot : ℕ)
      → length ss ≡ suc k
      → get_elem? ss k ≡ some s
      → (page ≡ k → slot ≢ length s.slots)
      → in_page (set ss k (appended s r)) page slot ≡ in_page ss page slot
  last-other ss k s page slot n h other = elim (ℕ_discrete page k) [
    | no d ↦ in_page-set_ne ss k page slot (appended s r) (λ e. d (sym e))
    | yes e ↦ rw e (
        in_page-set_self ss k slot (appended s r) (omega arith)
        ∙ entry-append s.slots (live r) slot
        ∙ rw (ne→== slot (length s.slots) (other e)) refl
        ∙ sym (in_page_lem ss k slot s h))
  ]

  new-other :
      (ss : List Store) (page slot : ℕ)
      → (page ≡ length ss → slot ≢ 0)
      → in_page (ss ++ (appended empty_store r ∷ [])) page slot ≡ in_page ss page slot
  new-other ss page slot other = elim (ℕ_discrete page (length ss)) [
    | no d ↦
        in_page-append ss (appended empty_store r) page slot ∙ rw (ne→== page (length ss) d) refl
    | yes e ↦
        in_page-append ss (appended empty_store r) page slot
        ∙ rw (eq→== page (length ss) e) (
            entry-append [] (live r) slot
            ∙ rw (ne→== slot 0 (other e)) (sym (in_page_beyond ss page slot (omega arith))))
  ]

  at_page-other :
      (ss ss' : List Store) (rid : Rid) (page slot : ℕ)
      → IsPlaced r ss ss' rid
      → (page ≡ rid.page → slot ≢ rid.slot)
      → at_page ss' page slot ≡ at_page ss page slot
  at_page-other ss _ _ zero i (in_last k s n h fits) d = refl
  at_page-other ss _ _ (suc p) i (in_last k s n h fits) d =
      last-other ss k s p i n h (λ e. d (ap suc e))
  at_page-other ss _ _ zero i in_new d = refl
  at_page-other ss _ _ (suc p) i in_new d = new-other ss p i (λ e. d (ap suc e))

  pub IsPlaced-other :
      (ss ss' : List Store) (rid q : Rid)
      → IsPlaced r ss ss' rid
      → q ≢ rid
      → record_at ss' q ≡ record_at ss q
  IsPlaced-other ss ss' rid q h d =
      at_page-other ss ss' rid q.page q.slot h (λ e f. d (Rid_ext q rid e f))

-- One slot of one page is rewritten.
module _ (ss : List Store) (k i : ℕ) (s : Store) (x : Option Bytes) (n : ℕ)
    (h : get_elem? ss k ≡ some s) (hk : k < length ss) (hi : i < length s.slots) where
  pub in_page-with_slot_self : in_page (set ss k (with_slot s i x n)) k i ≡ x
  in_page-with_slot_self =
      in_page-set_self ss k i (with_slot s i x n) hk
      ∙ entry-set s.slots i x i hi
      ∙ rw (eq→== i i refl) refl

  other_slot :
      (page slot : ℕ)
      → (page ≡ k → slot ≢ i)
      → in_page (set ss k (with_slot s i x n)) page slot ≡ in_page ss page slot
  other_slot page slot d = elim (ℕ_discrete page k) [
    | no far ↦ in_page-set_ne ss k page slot (with_slot s i x n) (λ e. far (sym e))
    | yes e ↦ rw e (
        in_page-set_self ss k slot (with_slot s i x n) hk
        ∙ entry-set s.slots i x slot hi
        ∙ rw (ne→== slot i (d e)) refl
        ∙ sym (in_page_lem ss k slot s h))
  ]

  at_page-with_slot_other :
      (page slot : ℕ)
      → (page ≡ suc k → slot ≢ i)
      → at_page (set ss k (with_slot s i x n)) page slot ≡ at_page ss page slot
  at_page-with_slot_other zero slot d = refl
  at_page-with_slot_other (suc page) slot d = other_slot page slot (λ e. d (ap suc e))

  pub record_at-with_slot_other :
      (rid q : Rid)
      → rid.page ≡ suc k
      → rid.slot ≡ i
      → q ≢ rid
      → record_at (set ss k (with_slot s i x n)) q ≡ record_at ss q
  record_at-with_slot_other rid q e f d =
      at_page-with_slot_other q.page q.slot (λ e' f'. d (Rid_ext q rid (e' ∙ sym e) (f' ∙ sym f)))
