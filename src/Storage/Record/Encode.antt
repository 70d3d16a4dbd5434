-- ===== src/Storage/Record/Encode.antt =====
-- What `encode` of src/storage/record.rs returns, on every branch, and the bitmap that it writes.
use native.Mathlib.Decide.{ℕ_discrete}
use skipper_db.Base.{
  ℕ, zero, suc, ◌+◌, ◌*◌, ◌/◌, ◌<◌, ◌≤◌, ◌≡◌, ◌∙◌, refl, sym, ap, Bool, true, false, List, [], ◌∷◌,
  ◌++◌, append_assoc, append-nil, Option, none, some, arith, lt→ltb, ◌==◌, if◌then◌else◌, length,
  replicate, length-append, length-replicate, All, inl, inr, ◌⊎◌, eq→==, ne→==,
}
use skipper_db.Base.Utf8.{Bytes, Text}
use skipper_db.Base.Words.{to_le, IsByte}
use skipper_db.Base.Int.{i64_to_le}
use skipper_db.Base.Bits.{
  set_bit, test_bit, length-set_bit, set_bit-IsByte, test_bit-set_bit, test_bit-replicate,
  set_bit-append,
}
use skipper_db.Errors.{Result, ok, err, record_arity, type_mismatch, ◌>>=◌}
use skipper_db.Types.{ColumnType, Value}
use skipper_db.Catalog.Schema.{Column, Schema}
use skipper_db.Storage.Record.{bitmap_len, encode_value, encode_loop, encode}

-- The bytes of a value that is not NULL.
abbrev pub value_bytes : Value → Bytes
value_bytes Value.null = []
value_bytes (Value.int n) = i64_to_le n
value_bytes (Value.text s) = to_le 4 (length s) ++ s

abbrev pub payload_bytes : List Value → Bytes
payload_bytes [] = []
payload_bytes (v ∷ vs) = value_bytes v ++ payload_bytes vs

abbrev pub is_null : Value → Bool
is_null Value.null = true
is_null _ = false

-- The bitmap with a bit for each NULL, from column `i` on.
unfoldable pub mark_nulls : Bytes → ℕ → List Value → Bytes
mark_nulls bm i [] = bm
mark_nulls bm i (Value.null ∷ vs) = mark_nulls (set_bit bm i) (suc i) vs
mark_nulls bm i (v ∷ vs) = mark_nulls bm (suc i) vs

-- The first column whose value is of another type.
abbrev pub mismatch : Column → Value → Option Text
mismatch c Value.null = none
mismatch c (Value.int n) = elim c.ty [ ColumnType.int ↦ none | ColumnType.text ↦ some c.name ]
mismatch c (Value.text s) = elim c.ty [ ColumnType.int ↦ some c.name | ColumnType.text ↦ none ]

unfoldable pub first_mismatch : List Column → List Value → Option Text
first_mismatch [] vs = none
first_mismatch (c ∷ cs) [] = none
first_mismatch (c ∷ cs) (v ∷ vs) =
    let later = first_mismatch cs vs in elim (mismatch c v) [ none ↦ later | some name ↦ some name ]

-- The outcome that the two make up.
abbrev pub outcome : Option Text → Bytes → Result Bytes
outcome none bs = ok bs
outcome (some name) bs = err (type_mismatch name)

pub ColumnType-cases : (t : ColumnType) → (t ≡ ColumnType.int) ⊎ (t ≡ ColumnType.text)
ColumnType-cases ColumnType.int = inl refl
ColumnType-cases ColumnType.text = inr refl

encode_value_lem :
    (i : ℕ) (c : Column) (v : Value) (bm pl : Bytes)
    → i / 8 < length bm
    → encode_value i c v (bm ++ pl)
      ≡ outcome (mismatch c v) (mark_nulls bm i (v ∷ []) ++ (pl ++ value_bytes v))
unfolding encode_value mark_nulls
encode_value_lem i c Value.null bm pl h =
    rw (lt→ltb (i / 8) (length (bm ++ pl)) (omega (arith, length-append bm pl)))
      (rw (set_bit-append bm pl i h, append-nil))
encode_value_lem i c (Value.int n) bm pl h = elim (ColumnType-cases c.ty) [
  | inl e ↦ rw (e, encode_value) (rw append_assoc)
  | inr e ↦ rw (e, encode_value)
]
encode_value_lem i c (Value.text s) bm pl h = elim (ColumnType-cases c.ty) [
  | inl e ↦ rw (e, encode_value)
  | inr e ↦ rw (e, encode_value) (rw append_assoc)
]

pub length-mark_nulls :
    (bm : Bytes) (i : ℕ) (vs : List Value) → length (mark_nulls bm i vs) ≡ length bm
unfolding mark_nulls
length-mark_nulls bm i [] = refl
length-mark_nulls bm i (Value.null ∷ vs) =
    length-mark_nulls (set_bit bm i) (suc i) vs ∙ length-set_bit bm i
length-mark_nulls bm i (Value.int n ∷ vs) = length-mark_nulls bm (suc i) vs
length-mark_nulls bm i (Value.text s ∷ vs) = length-mark_nulls bm (suc i) vs

mark_nulls-cons :
    (bm : Bytes) (i : ℕ) (v : Value) (vs : List Value)
    → mark_nulls (mark_nulls bm i (v ∷ [])) (suc i) vs ≡ mark_nulls bm i (v ∷ vs)
unfolding mark_nulls
mark_nulls-cons bm i Value.null vs = refl
mark_nulls-cons bm i (Value.int n) vs = refl
mark_nulls-cons bm i (Value.text s) vs = refl

outcome-bind :
    (m later : Option Text) (f : Bytes → Result Bytes) (bs ys : Bytes)
    → f bs ≡ outcome later ys
    → (outcome m bs >>= f) ≡ outcome (elim m [ none ↦ later | some name ↦ some name ]) ys
outcome-bind none later f bs ys h = h
outcome-bind (some name) later f bs ys h = refl

encode_loop_lem :
    (i : ℕ) (cs : List Column) (vs : List Value) (bm pl : Bytes)
    → length vs ≡ length cs
    → i + length cs ≤ 8 * length bm
    → encode_loop i cs vs (bm ++ pl)
      ≡ outcome (first_mismatch cs vs) (mark_nulls bm i vs ++ (pl ++ payload_bytes vs))
unfolding encode_loop first_mismatch
encode_loop_lem i [] [] bm pl e h = unfold mark_nulls in rw append-nil
encode_loop_lem i [] (v ∷ vs) bm pl e h = absurd (omega arith)
encode_loop_lem i (c ∷ cs) [] bm pl e h = absurd (omega arith)
encode_loop_lem i (c ∷ cs) (v ∷ vs) bm pl e h =
    let bm' = mark_nulls bm i (v ∷ []) in
    rw (encode_value_lem i c v bm pl (omega arith)) (
      outcome-bind (mismatch c v) (first_mismatch cs vs) (encode_loop (suc i) cs vs) _ _ (
        encode_loop_lem (suc i) cs vs bm' (pl ++ value_bytes v) (omega arith)
          (omega (arith, length-mark_nulls bm i (v ∷ [])))
        ∙ rw (mark_nulls-cons bm i v vs, append_assoc pl (value_bytes v) (payload_bytes vs))))

-- The bitmap of a row.
abbrev pub null_bitmap : List Value → Bytes
null_bitmap vs = mark_nulls (replicate (bitmap_len (length vs)) 0) 0 vs

-- `encode` refuses a row of another length than the schema, then names the first column whose value
-- has another type, and else returns the bitmap of the NULLs and behind it the other values; it
-- does not panic.
pub encode_lem :
    (s : Schema) (vs : List Value)
    → encode s vs ≡ (
        if length vs == length s.columns
        then outcome (first_mismatch s.columns vs) (null_bitmap vs ++ payload_bytes vs)
        else err (record_arity (length s.columns) (length vs)))
unfolding encode
encode_lem s vs = elim (ℕ_discrete (length vs) (length s.columns)) [
  | yes e ↦
      let zeros : Bytes = replicate (bitmap_len (length s.columns)) 0 in
      rw (eq→== _ _ e) (
        ap (encode_loop 0 s.columns vs) (sym (append-nil zeros))
        ∙ encode_loop_lem 0 s.columns vs zeros [] e
            (omega (arith, length-replicate {A = ℕ} (bitmap_len (length s.columns)) 0))
        ∙ ap
            (λ n.
              outcome (first_mismatch s.columns vs)
                (mark_nulls (replicate (bitmap_len n) 0) 0 vs ++ payload_bytes vs))
            (sym e))
  | no n ↦ rw (ne→== _ _ n)
]

-- The bits of a bitmap from `i` on say which of the values are NULL.
abbrev pub Marked : Bytes → ℕ → List Value → Type 0
Marked bm i [] = Unit
Marked bm i (v ∷ vs) = (test_bit bm i ≡ is_null v) × Marked bm (suc i) vs

test_bit-mark_nulls_before :
    (bm : Bytes) (i : ℕ) (vs : List Value) (k : ℕ)
    → All IsByte bm
    → i + length vs ≤ 8 * length bm
    → k < i
    → test_bit (mark_nulls bm i vs) k ≡ test_bit bm k
unfolding mark_nulls
test_bit-mark_nulls_before bm i [] k b h lt = refl
test_bit-mark_nulls_before bm i (Value.null ∷ vs) k b h lt =
    test_bit-mark_nulls_before (set_bit bm i) (suc i) vs k (set_bit-IsByte bm i b)
      (omega (arith, length-set_bit bm i)) (omega arith)
    ∙ test_bit-set_bit bm i k b (omega arith)
    ∙ rw (ne→== i k (omega arith))
test_bit-mark_nulls_before bm i (Value.int n ∷ vs) k b h lt =
    test_bit-mark_nulls_before bm (suc i) vs k b (omega arith) (omega arith)
test_bit-mark_nulls_before bm i (Value.text s ∷ vs) k b h lt =
    test_bit-mark_nulls_before bm (suc i) vs k b (omega arith) (omega arith)

-- On a bitmap with no bit set from `i` on, `mark_nulls` marks the NULLs.
pub mark_nulls-Marked :
    (bm : Bytes) (i : ℕ) (vs : List Value)
    → All IsByte bm
    → i + length vs ≤ 8 * length bm
    → ((k : ℕ) → i ≤ k → test_bit bm k ≡ false)
    → Marked (mark_nulls bm i vs) i vs
unfolding mark_nulls
mark_nulls-Marked bm i [] b h clear = tt
mark_nulls-Marked bm i (Value.null ∷ vs) b h clear =
    let b' = set_bit-IsByte bm i b in
    let h' : suc i + length vs ≤ 8 * length (set_bit bm i) = omega (arith, length-set_bit bm i) in
    (
      test_bit-mark_nulls_before (set_bit bm i) (suc i) vs i b' h' (omega arith)
          ∙ test_bit-set_bit bm i i b (omega arith)
          ∙ rw (eq→== i i refl),
      mark_nulls-Marked (set_bit bm i) (suc i) vs b' h' (λ k le.
          test_bit-set_bit bm i k b (omega arith)
          ∙ rw (ne→== i k (omega arith)) (clear k (omega arith))),
    )
mark_nulls-Marked bm i (Value.int n ∷ vs) b h clear = (
  test_bit-mark_nulls_before bm (suc i) vs i b (omega arith) (omega arith) ∙ clear i (omega arith),
  mark_nulls-Marked bm (suc i) vs b (omega arith) (λ k le. clear k (omega arith)),
)
mark_nulls-Marked bm i (Value.text s ∷ vs) b h clear = (
  test_bit-mark_nulls_before bm (suc i) vs i b (omega arith) (omega arith) ∙ clear i (omega arith),
  mark_nulls-Marked bm (suc i) vs b (omega arith) (λ k le. clear k (omega arith)),
)

zeros-IsByte : (n : ℕ) → All IsByte (replicate n 0)
zeros-IsByte zero = tt
zeros-IsByte (suc n) = (omega arith, zeros-IsByte n)

pub length-null_bitmap : (vs : List Value) → length (null_bitmap vs) ≡ bitmap_len (length vs)
length-null_bitmap vs =
    length-mark_nulls _ 0 vs ∙ length-replicate {A = ℕ} (bitmap_len (length vs)) 0

pub null_bitmap-Marked : (vs : List Value) → Marked (null_bitmap vs) 0 vs
null_bitmap-Marked vs =
    let n = bitmap_len (length vs) in
    mark_nulls-Marked (replicate n 0) 0 vs (zeros-IsByte n)
      (omega (arith, length-replicate {A = ℕ} n 0)) (λ k le. test_bit-replicate n k)
