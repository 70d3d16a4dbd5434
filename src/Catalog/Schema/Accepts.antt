-- ===== src/Catalog/Schema/Accepts.antt =====
-- The bytes that `deserialize` of src/catalog/schema.rs accepts, and as which schema.
use skipper_db.Base.{
  ℕ, zero, suc, ◌+◌, ◌*◌, ◌/◌, ◌%◌, ◌<◌, ◌≡◌, refl, sym, ap, ◌∙◌, subst, ◌⊎◌, inl, inr, true, List,
  [], ◌∷◌, ◌++◌, length, take, drop, get_or, arith, length-take, All, All-take, All-drop, le_or_lt,
  le→ltb, lt→ltb, Bool-cases, not, ◌==◌,
}
use skipper_db.Base.Utf8.{Bytes, Text, is_utf8, IsUtf8}
use skipper_db.Base.Words.{IsByte, to_le, from_le}
use skipper_db.Errors.{Result, ok, err, malformed_schema, bind_parts, ok_inj}
use skipper_db.Types.{ColumnType}
use skipper_db.Catalog.Schema.{
  Column, Schema, IsColumn, type_tag, take_bytes, read_u8, read_u16, type_of_tag, as_text,
  read_column, read_columns, deserialize,
}
use skipper_db.Catalog.Schema.RoundTrip.{
  read_u8-cons, read_u16-to_le, type_of_tag-type_tag, take_bytes-append, as_text_lem,
}
use skipper_db.Catalog.Schema.Total.{deserialize_total}

-- The bytes of a column, in which any byte but 0 says that it is nullable.
abbrev pub column_with : Column → ℕ → Bytes
column_with c flag = type_tag c.ty ∷ flag ∷ (to_le 2 (length c.name) ++ c.name)

-- The columns one after the other, and anything behind them.
pub data Written : List Column → Bytes → Type 0 where
  no_more : {bs : Bytes} → Written [] bs
  next :
      {c : Column} {cs : List Column} {bs : Bytes} (flag : ℕ)
      → IsColumn c
      → c.nullable ≡ not (flag == 0)
      → Written cs bs
      → Written (c ∷ cs) (column_with c flag ++ bs)

-- The bytes have the number of columns, and then the columns.
abbrev pub IsWritten : Schema → Bytes → Type 0
IsWritten s bs =
    (length s.columns < 65536)
    × ((rest : Bytes) × (bs ≡ to_le 2 (length s.columns) ++ rest) × Written s.columns rest)

take-drop : (n : ℕ) (bs : Bytes) → bs ≡ take n bs ++ drop n bs
take-drop zero bs = refl
take-drop (suc n) [] = refl
take-drop (suc n) (b ∷ bs) = ap (λ l. b ∷ l) (take-drop n bs)

-- What a reader took off the front.
record Taken (bs a r : Bytes) (n : ℕ) : Type 0 where
  whole : bs ≡ a ++ r
  size : length a ≡ n
  front : All IsByte a
  behind : All IsByte r

take_bytes_parts :
    (n : ℕ) (bs a r : Bytes) → All IsByte bs → take_bytes n bs ≡ ok (a, r) → Taken bs a r n
unfolding take_bytes
take_bytes_parts n bs a r b h = elim (le_or_lt n (length bs)) [
  | inl fits ↦
      let h' : ok (take n bs, drop n bs) ≡ ok (a, r) = rw (le→ltb (length bs) n fits) at h in
      subst (λ x. Taken bs x.0 x.1 n) (ok_inj h')
        (record {
          whole = take-drop n bs;
          size = omega (arith, length-take n bs);
          front = All-take IsByte n bs b;
          behind = All-drop IsByte n bs b;
        })
  | inr short ↦
      let h' : ◌≡◌ {A = Result (Bytes × Bytes)} (err malformed_schema) (ok (a, r)) =
        rw (lt→ltb (length bs) n short) at h in
      absurd (cc h')
]

single_lem : (bs a r : Bytes) → Taken bs a r 1 → (bs ≡ get_or a 0 0 ∷ r) × All IsByte r
single_lem bs [] r t = absurd (omega (arith, t.size))
single_lem bs (x ∷ []) r t = (t.whole, t.behind)
single_lem bs (x ∷ y ∷ a) r t = absurd (omega (arith, t.size))

pair_lem :
    (bs a r : Bytes)
    → Taken bs a r 2
    → (bs ≡ to_le 2 (from_le a) ++ r) × (from_le a < 65536) × All IsByte r
pair_lem bs [] r t = absurd (omega (arith, t.size))
pair_lem bs (x ∷ []) r t = absurd (omega (arith, t.size))
pair_lem bs (x ∷ y ∷ []) r t =
    let low : (x + 256 * (y + 256 * 0)) % 256 ≡ x = omega (arith, t.front.0) in
    let high : ((x + 256 * (y + 256 * 0)) / 256) % 256 ≡ y =
      omega (arith, t.front.0, t.front.1.0) in
    (t.whole ∙ rw (low, high) refl, omega (arith, t.front.0, t.front.1.0), t.behind)
pair_lem bs (x ∷ y ∷ z ∷ a) r t = absurd (omega (arith, t.size))

read_u8_parts :
    (bs r : Bytes) (v : ℕ) → All IsByte bs → read_u8 bs ≡ ok (v, r) → (bs ≡ v ∷ r) × All IsByte r
unfolding read_u8
read_u8_parts bs r v b h =
    let (x, e, f) = bind_parts (take_bytes 1 bs) _ h in
    subst (λ y. (bs ≡ y.0 ∷ y.1) × All IsByte y.1) (ok_inj f)
      (single_lem bs x.0 x.1 (take_bytes_parts 1 bs x.0 x.1 b e))

read_u16_parts :
    (bs r : Bytes) (v : ℕ)
    → All IsByte bs
    → read_u16 bs ≡ ok (v, r)
    → (bs ≡ to_le 2 v ++ r) × (v < 65536) × All IsByte r
unfolding read_u16
read_u16_parts bs r v b h =
    let (x, e, f) = bind_parts (take_bytes 2 bs) _ h in
    subst (λ y. (bs ≡ to_le 2 y.0 ++ y.1) × (y.0 < 65536) × All IsByte y.1) (ok_inj f)
      (pair_lem bs x.0 x.1 (take_bytes_parts 2 bs x.0 x.1 b e))

type_of_tag_parts : (tag : ℕ) (ty : ColumnType) → type_of_tag tag ≡ ok ty → tag ≡ type_tag ty
unfolding type_of_tag
type_of_tag_parts zero ty h = ap type_tag (ok_inj h)
type_of_tag_parts (suc zero) ty h = ap type_tag (ok_inj h)
type_of_tag_parts (suc (suc tag)) ty h = absurd (cc h)

as_text_parts : (bs name : Bytes) → as_text bs ≡ ok name → (bs ≡ name) × IsUtf8 name
unfolding as_text
as_text_parts bs name h = elim (Bool-cases (is_utf8 bs)) [
  | inl valid ↦
      let same : bs ≡ name = ok_inj (rw valid at h) in
      (same, subst (λ t. is_utf8 t ≡ true) same valid)
  | inr not_valid ↦
      let h' : ◌≡◌ {A = Result Text} (err malformed_schema) (ok name) = rw not_valid at h in
      absurd (cc h')
]

-- The column at the front of the bytes.
abbrev Starts : Bytes → Column × Bytes → Type 0
Starts bs x =
    (flag : ℕ) × (bs ≡ column_with x.0 flag ++ x.1)
    × IsColumn x.0
    × (x.0.nullable ≡ not (flag == 0))
    × All IsByte x.1

parts_join :
    (bs r₁ r₂ r₃ r₄ bytes name : Bytes) (tag flag n : ℕ) (ty : ColumnType)
    → bs ≡ tag ∷ r₁
    → tag ≡ type_tag ty
    → r₁ ≡ flag ∷ r₂
    → r₂ ≡ to_le 2 n ++ r₃
    → r₃ ≡ bytes ++ r₄
    → bytes ≡ name
    → n ≡ length name
    → bs ≡ type_tag ty ∷ flag ∷ ((to_le 2 (length name) ++ name) ++ r₄)
parts_join bs r₁ r₂ r₃ r₄ bytes name tag flag n ty e₁ e₂ e₃ e₄ e₅ e₆ e₇ =
    rw (e₁, e₂, e₃, e₄, e₅, e₆, e₇) refl

read_column_parts :
    (bs : Bytes) (x : Column × Bytes) → All IsByte bs → read_column bs ≡ ok x → Starts bs x
unfolding read_column
read_column_parts bs x b h =
    let ((tag, r₁), e₁, f₁) = bind_parts (read_u8 bs) _ h in
    let (at₁, b₁) = read_u8_parts bs r₁ tag b e₁ in
    let (ty, e₂, f₂) = bind_parts (type_of_tag tag) _ f₁ in
    let ((flag, r₂), e₃, f₃) = bind_parts (read_u8 r₁) _ f₂ in
    let (at₂, b₂) = read_u8_parts r₁ r₂ flag b₁ e₃ in
    let ((n, r₃), e₄, f₄) = bind_parts (read_u16 r₂) _ f₃ in
    let (at₃, small, b₃) = read_u16_parts r₂ r₃ n b₂ e₄ in
    let ((bytes, r₄), e₅, f₅) = bind_parts (take_bytes n r₃) _ f₄ in
    let taken = take_bytes_parts n r₃ bytes r₄ b₃ e₅ in
    let (name, e₆, f₆) = bind_parts (as_text bytes) _ f₅ in
    let (same, text) = as_text_parts bytes name e₆ in
    let size : n ≡ length name = sym taken.size ∙ ap length same in
    subst (Starts bs) (ok_inj f₆) (
      flag,
      parts_join bs r₁ r₂ r₃ r₄ bytes name tag flag n ty at₁ (type_of_tag_parts tag ty e₂) at₂ at₃
          taken.whole same size,
      record { text = text; short = omega (arith, size) },
      refl,
      taken.behind,
    )

read_columns_parts :
    (n : ℕ) (bs : Bytes) (x : List Column × Bytes)
    → All IsByte bs
    → read_columns n bs ≡ ok x
    → (length x.0 ≡ n) × Written x.0 bs
unfolding read_columns
read_columns_parts zero bs x b h =
    subst (λ y. (length y.0 ≡ 0) × Written y.0 bs) (ok_inj h) (refl, no_more)
read_columns_parts (suc n) bs x b h =
    let ((c, r), e, f) = bind_parts (read_column bs) _ h in
    let ((cs, r'), e', f') = bind_parts (read_columns n r) _ f in
    let (flag, at, column, nullable, b') = read_column_parts bs (c, r) b e in
    let (count, more) = read_columns_parts n r (cs, r') b' e' in
    subst (λ y. (length y.0 ≡ suc n) × Written y.0 bs) (ok_inj f')
      (ap suc count, subst (Written (c ∷ cs)) (sym at) (next flag column nullable more))

deserialize-IsWritten :
    (bs : Bytes) (s : Schema) → All IsByte bs → deserialize bs ≡ ok s → IsWritten s bs
unfolding deserialize
deserialize-IsWritten bs s b h =
    let ((n, r), e, f) = bind_parts (read_u16 bs) _ h in
    let ((cs, r'), e', f') = bind_parts (read_columns n r) _ f in
    let (at, small, b') = read_u16_parts bs r n b e in
    let (count, written) = read_columns_parts n r (cs, r') b' e' in
    subst (λ t. IsWritten t bs) (ok_inj f') (omega (arith, count), (r, rw count at, written))

read_column-column_with :
    (c : Column) (flag : ℕ) (rest : Bytes)
    → IsColumn c
    → c.nullable ≡ not (flag == 0)
    → read_column (column_with c flag ++ rest) ≡ ok (c, rest)
unfolding read_column
read_column-column_with c flag rest h nullable = rw (
  read_u8-cons (type_tag c.ty),
  type_of_tag-type_tag c.ty,
  read_u8-cons flag,
  read_u16-to_le (length c.name) (c.name ++ rest) h.short,
  take_bytes-append c.name rest,
  as_text_lem c.name h.text,
  sym nullable,
)

Written-read_columns :
    (cs : List Column) (bs : Bytes)
    → Written cs bs
    → (r : Bytes) × (read_columns (length cs) bs ≡ ok (cs, r))
unfolding read_columns
Written-read_columns _ bs no_more = (bs, refl)
Written-read_columns _ _ (next {c} {cs} {bs} flag column nullable more) =
    let (r, e) = Written-read_columns cs bs more in
    (r, rw (read_column-column_with c flag bs column nullable, e) refl)

IsWritten-deserialize : (bs : Bytes) (s : Schema) → IsWritten s bs → deserialize bs ≡ ok s
unfolding deserialize
IsWritten-deserialize bs s (small, (rest, at, written)) =
    let (r, e) = Written-read_columns s.columns rest written in
    rw (at, read_u16-to_le (length s.columns) rest small, e) refl

-- On any bytes `deserialize` returns the schema that is written there, whatever follows it, and
-- `malformed_schema` exactly if none is. (A written schema is the number of its columns, below 65536, and
-- for each column its type's tag, a byte that is 0 if the column is not nullable, and its UTF-8 name
-- behind the name's length, below 65536.)
pub deserialize_lem :
    (bs : Bytes)
    → All IsByte bs
    → ((s : Schema) × (deserialize bs ≡ ok s) × IsWritten s bs)
      ⊎ ((deserialize bs ≡ err malformed_schema) × ((s : Schema) → ¬ IsWritten s bs))
deserialize_lem bs b = elim (deserialize_total bs) [
  | inl (s, e) ↦ inl (s, e, deserialize-IsWritten bs s b e)
  | inr bad ↦ inr (bad, λ s w. absurd (cc (bad, IsWritten-deserialize bs s w)))
]
