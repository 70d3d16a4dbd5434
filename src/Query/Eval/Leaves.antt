-- ===== src/Query/Eval/Leaves.antt =====
-- What a column and a call of a function mean on a row, with none of the code of src/query/exec.rs in it.
use skipper_db.Base.{
  ℕ, suc, ◌≡◌, ◌≢◌, refl, sym, subst, ◌∙◌, ◌⊎◌, inl, inr, true, false, List, [], ◌∷◌, Option, none,
  some, get_elem?, Bool-cases, Option-cases,
}
use skipper_db.Base.Int.{pos}
use skipper_db.Base.Utf8.{
  Text, ascii, text_eq, text_eq_refl, text_eq→eq, count_chars, eq_ignore_ascii_case,
}
use skipper_db.Errors.{Result, ok, panic, ok_inj}
use skipper_db.Types.{Value}
use skipper_db.Catalog.Schema.{position}
use skipper_db.Query.Eval.{Row, apply_function, column_value}

-- The number of characters of a text; anything else has no length.
abbrev pub IsLength : Value → Value → Type 0
IsLength (Value.text s) v = v ≡ Value.int (pos (count_chars s))
IsLength (Value.int n) v = v ≡ Value.null
IsLength Value.null v = v ≡ Value.null

-- LENGTH is the one function, in any case of its letters.
abbrev pub IsCall : Text → Value → Value → Type 0
IsCall name x v =
    (eq_ignore_ascii_case name (ascii "LENGTH") ≡ true → IsLength x v)
    × (eq_ignore_ascii_case name (ascii "LENGTH") ≡ false → v ≡ Value.null)

-- The value under the first column of the name, and NULL if no column has it.
abbrev pub IsUnder : Text → List Text → Row → Value → Type 0
IsUnder name [] row v = v ≡ Value.null
IsUnder name (c ∷ cs) [] v = (c ≢ name) × IsUnder name cs [] v
IsUnder name (c ∷ cs) (x ∷ row) v = ((c ≡ name) × (x ≡ v)) ⊎ ((c ≢ name) × IsUnder name cs row v)

IsLength-unique : (x v w : Value) → IsLength x v → IsLength x w → v ≡ w
IsLength-unique (Value.text s) v w h k = h ∙ sym k
IsLength-unique (Value.int n) v w h k = h ∙ sym k
IsLength-unique Value.null v w h k = h ∙ sym k

pub IsCall-unique : (name : Text) (x v w : Value) → IsCall name x v → IsCall name x w → v ≡ w
IsCall-unique name x v w h k = elim (Bool-cases (eq_ignore_ascii_case name (ascii "LENGTH"))) [
  | inl e ↦ IsLength-unique x v w (h.0 e) (k.0 e)
  | inr e ↦ h.1 e ∙ sym (k.1 e)
]

pub apply_function-IsCall : (name : Text) (x : Value) → IsCall name x (apply_function name x)
unfolding apply_function
apply_function-IsCall name (Value.text s) = (λ e. rw e refl, λ e. rw e refl)
apply_function-IsCall name (Value.int n) = (λ e. refl, λ e. refl)
apply_function-IsCall name Value.null = (λ e. refl, λ e. refl)

pub IsUnder-unique :
    (name : Text) (cs : List Text) (row : Row) (v w : Value)
    → IsUnder name cs row v
    → IsUnder name cs row w
    → v ≡ w
IsUnder-unique name [] row v w h k = h ∙ sym k
IsUnder-unique name (c ∷ cs) [] v w h k = IsUnder-unique name cs [] v w h.1 k.1
IsUnder-unique name (c ∷ cs) (x ∷ row) v w (inl h) (inl k) = sym h.1 ∙ k.1
IsUnder-unique name (c ∷ cs) (x ∷ row) v w (inl h) (inr k) = absurd (k.0 h.0)
IsUnder-unique name (c ∷ cs) (x ∷ row) v w (inr h) (inl k) = absurd (h.0 k.0)
IsUnder-unique name (c ∷ cs) (x ∷ row) v w (inr h) (inr k) = IsUnder-unique name cs row v w h.1 k.1

-- The value at a position that was looked for.
abbrev at_position : Row → Option ℕ → Result Value
at_position row none = ok Value.null
at_position row (some i) = elim (get_elem? row i) [ none ↦ panic | some v ↦ ok v ]

abbrev further : Option ℕ → Option ℕ
further none = none
further (some i) = some (suc i)

at_further :
    (x v : Value) (row : Row) (o : Option ℕ)
    → at_position (x ∷ row) (further o) ≡ ok v
    → at_position row o ≡ ok v
at_further x v row none h = h
at_further x v row (some i) h = h

at_further_empty :
    (v : Value) (o : Option ℕ) → at_position [] (further o) ≡ ok v → at_position [] o ≡ ok v
at_further_empty v none h = h
at_further_empty v (some i) h = absurd (cc h)

text_eq-ne : (s t : Text) → text_eq s t ≡ false → s ≢ t
text_eq-ne s t h e = cc (h, text_eq_refl s, e)

abbrev place : Text → List Text → Option ℕ
place name cs = position (λ c. text_eq c name) cs

place_here : (name c : Text) (cs : List Text) → text_eq c name ≡ true → place name (c ∷ cs) ≡ some 0
unfolding position
place_here name c cs h = rw (position, h) refl

place_later :
    (name c : Text) (cs : List Text)
    → text_eq c name ≡ false
    → place name (c ∷ cs) ≡ further (place name cs)
unfolding position
place_later name c cs h = elim (Option-cases (place name cs)) [
  | inl e ↦ rw (position, h, e) refl
  | inr (i, e) ↦ rw (position, h, e) refl
]

at_position-IsUnder :
    (name : Text) (cs : List Text) (row : Row) (v : Value)
    → at_position row (place name cs) ≡ ok v
    → IsUnder name cs row v
unfolding position
at_position-IsUnder name [] row v h = sym (ok_inj h)
at_position-IsUnder name (c ∷ cs) [] v h = elim (Bool-cases (text_eq c name)) [
  | inl e ↦ absurd (cc (subst (λ o. at_position [] o ≡ ok v) (place_here name c cs e) h))
  | inr e ↦
      let h' = subst (λ o. at_position [] o ≡ ok v) (place_later name c cs e) h in
      (
        text_eq-ne c name e,
        at_position-IsUnder name cs [] v (at_further_empty v (place name cs) h'),
      )
]
at_position-IsUnder name (c ∷ cs) (x ∷ row) v h = elim (Bool-cases (text_eq c name)) [
  | inl e ↦ inl (
    text_eq→eq c name e,
    ok_inj (subst (λ o. at_position (x ∷ row) o ≡ ok v) (place_here name c cs e) h),
  )
  | inr e ↦
      let h' = subst (λ o. at_position (x ∷ row) o ≡ ok v) (place_later name c cs e) h in
      inr (
        text_eq-ne c name e,
        at_position-IsUnder name cs row v (at_further x v row (place name cs) h'),
      )
]

column_value-place :
    (name : Text) (row : Row) (cs : List Text)
    → column_value name row cs ≡ at_position row (place name cs)
unfolding column_value
column_value-place name row cs = elim (Option-cases (place name cs)) [
  | inl e ↦ rw (column_value, e) refl
  | inr (i, e) ↦ rw (column_value, e) refl
]

pub column_value-IsUnder :
    (name : Text) (row : Row) (cs : List Text) (v : Value)
    → column_value name row cs ≡ ok v
    → IsUnder name cs row v
column_value-IsUnder name row cs v h =
    at_position-IsUnder name cs row v (sym (column_value-place name row cs) ∙ h)
