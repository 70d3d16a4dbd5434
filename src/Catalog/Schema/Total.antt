-- ===== src/Catalog/Schema/Total.antt =====
-- `deserialize` of src/catalog/schema.rs on any bytes, and on a truncated schema.
use skipper_db.Base.{
  ℕ, zero, suc, ◌<◌, ◌≡◌, ◌≢◌, ap, List, [], ◌∷◌, ◌++◌, arith, length, take, drop, get_or,
  take-append_le, drop-append_le, length-append, le→ltb, lt→ltb, le_or_lt, inl, inr, ◌⊎◌,
  Bool-cases, All,
}
use skipper_db.Base.Utf8.{Bytes, is_utf8}
use skipper_db.Errors.{
  Result, ok, err, malformed_schema, ◌>>=◌, bind_parts, map_ok, Yields, value, failure, Yields-bind,
  Yields-cases,
}
use skipper_db.Base.Words.{from_le}
use skipper_db.Catalog.Schema.{
  Column, Schema, IsColumn, serialize, Reader, take_bytes, read_u8, read_u16, type_of_tag, as_text,
  read_column, read_columns, deserialize,
}
use skipper_db.Catalog.Schema.RoundTrip.{serialize_parts}

-- A reader does not look past what it takes: bytes behind the input join the rest.
abbrev IsLocal : {A : Type 0} → Reader A → Type 0
IsLocal {A} read =
    (bs more rest : Bytes) (a : A)
    → read bs ≡ ok (a, rest)
    → read (bs ++ more) ≡ ok (a, rest ++ more)

-- A result that is a value or `malformed_schema`.
abbrev Sound : {A : Type 0} → Result A → Type 0
Sound m = Yields (λ _. Unit {0}) malformed_schema m

Sound-bind :
    {A B : Type 0} {m : Result A} {f : A → Result B}
    → Sound m
    → ((a : A) → Sound (f a))
    → Sound (m >>= f)
Sound-bind s k = Yields-bind s (λ a _. k a)

take_bytes-Sound : (n : ℕ) (bs : Bytes) → Sound (take_bytes n bs)
unfolding take_bytes
take_bytes-Sound n bs = elim (le_or_lt n (length bs)) [
  | inl h ↦ rw (le→ltb _ _ h) (value tt)
  | inr h ↦ rw (lt→ltb _ _ h) failure
]

read_u8-Sound : (bs : Bytes) → Sound (read_u8 bs)
unfolding read_u8
read_u8-Sound bs = Sound-bind (take_bytes-Sound 1 bs) λ _. value tt

read_u16-Sound : (bs : Bytes) → Sound (read_u16 bs)
unfolding read_u16
read_u16-Sound bs = Sound-bind (take_bytes-Sound 2 bs) λ _. value tt

type_of_tag-Sound : (t : ℕ) → Sound (type_of_tag t)
unfolding type_of_tag
type_of_tag-Sound zero = value tt
type_of_tag-Sound (suc zero) = value tt
type_of_tag-Sound (suc (suc t)) = failure

as_text-Sound : (bs : Bytes) → Sound (as_text bs)
unfolding as_text
as_text-Sound bs = elim (Bool-cases (is_utf8 bs)) [ inl h ↦ rw h (value tt) | inr h ↦ rw h failure ]

read_column-Sound : (bs : Bytes) → Sound (read_column bs)
unfolding read_column
read_column-Sound bs = Sound-bind (read_u8-Sound bs) λ (tag, r₁).
    Sound-bind (type_of_tag-Sound tag) λ ty. Sound-bind (read_u8-Sound r₁) λ (null, r₂).
      Sound-bind (read_u16-Sound r₂) λ (n, r₃).
        Sound-bind (take_bytes-Sound n r₃)
          λ (name, r₄). Sound-bind (as_text-Sound name) λ text. value tt

read_columns-Sound : (n : ℕ) (bs : Bytes) → Sound (read_columns n bs)
unfolding read_columns
read_columns-Sound zero bs = value tt
read_columns-Sound (suc n) bs =
    Sound-bind (read_column-Sound bs) λ (c, r). Sound-bind (read_columns-Sound n r) λ _. value tt

deserialize-Sound : (bs : Bytes) → Sound (deserialize bs)
unfolding deserialize
deserialize-Sound bs =
    Sound-bind (read_u16-Sound bs) λ (n, r). Sound-bind (read_columns-Sound n r) λ _. value tt

IsLocal-bind :
    {A B : Type 0} (read : Reader A) (k : A → Reader B)
    → IsLocal read
    → ((a : A) → IsLocal (k a))
    → IsLocal (λ bs. read bs >>= λ x. k x.0 x.1)
IsLocal-bind read k local locals bs more rest b h =
    let (x, e, f) = bind_parts (read bs) (λ x. k x.0 x.1) h in
    rw (local bs more x.1 x.0 e) (locals x.0 x.1 more rest b f)

IsLocal-lift :
    {A B : Type 0} (m : Result A) (k : A → Reader B)
    → ((a : A) → IsLocal (k a))
    → IsLocal (λ bs. m >>= λ a. k a bs)
IsLocal-lift m k locals bs more rest b h =
    let (a, e, f) = bind_parts m (λ a. k a bs) h in rw e (locals a bs more rest b f)

IsLocal-ok : {A : Type 0} (a : A) → IsLocal (λ bs. ok (a, bs))
IsLocal-ok a bs more rest b h = ap (map_ok (λ x. (x.0, x.1 ++ more))) h

take_bytes-IsLocal : (n : ℕ) → IsLocal (take_bytes n)
unfolding take_bytes
take_bytes-IsLocal n bs more rest a h = elim (le_or_lt n (length bs)) [
  | inl fits ↦
      let h' : ok (take n bs, drop n bs) ≡ ok (a, rest) = rw (le→ltb (length bs) n fits) at h in
      rw
        (
          le→ltb (length (bs ++ more)) n (omega (arith, length-append bs more)),
          take-append_le n bs more fits,
          drop-append_le n bs more fits,
        )
        (ap (map_ok (λ (x : Bytes × Bytes). (x.0, x.1 ++ more))) h')
  | inr short ↦
      let h' : ◌≡◌ {A = Result (Bytes × Bytes)} (err malformed_schema) (ok (a, rest)) =
        rw (lt→ltb (length bs) n short) at h in
      cc
]

read_u8-IsLocal : IsLocal read_u8
unfolding read_u8
read_u8-IsLocal =
    IsLocal-bind (take_bytes 1) (λ bs r. ok (get_or bs 0 0, r)) (take_bytes-IsLocal 1)
      (λ bs. IsLocal-ok _)

read_u16-IsLocal : IsLocal read_u16
unfolding read_u16
read_u16-IsLocal =
    IsLocal-bind (take_bytes 2) (λ bs r. ok (from_le bs, r)) (take_bytes-IsLocal 2)
      (λ bs. IsLocal-ok _)

read_column-IsLocal : IsLocal read_column
unfolding read_column
read_column-IsLocal = IsLocal-bind read_u8 _ read_u8-IsLocal λ tag.
    IsLocal-lift (type_of_tag tag) _ λ ty. IsLocal-bind read_u8 _ read_u8-IsLocal λ null.
      IsLocal-bind read_u16 _ read_u16-IsLocal λ n.
        IsLocal-bind (take_bytes n) _ (take_bytes-IsLocal n)
          λ bs. IsLocal-lift (as_text bs) _ λ name. IsLocal-ok _

read_columns-IsLocal : (n : ℕ) → IsLocal (read_columns n)
unfolding read_columns
read_columns-IsLocal zero = IsLocal-ok []
read_columns-IsLocal (suc n) =
    IsLocal-bind read_column _ read_column-IsLocal
      λ c. IsLocal-bind (read_columns n) _ (read_columns-IsLocal n) λ cs. IsLocal-ok _

-- On any bytes `deserialize` returns a schema or `malformed_schema`: it does not panic.
pub deserialize_total :
    (bs : Bytes)
    → ((s : Schema) × (deserialize bs ≡ ok s)) ⊎ (deserialize bs ≡ err malformed_schema)
deserialize_total bs = elim (Yields-cases (deserialize-Sound bs)) [
  | inl (s, e, u) ↦ inl (s, e)
  | inr e ↦ inr e
]

-- What the parts of a successful `deserialize` read.
deserialize_parts :
    (bs : Bytes) (s : Schema)
    → deserialize bs ≡ ok s
    → (n : ℕ) × (cs : List Column) × (r r' : Bytes) × (read_u16 bs ≡ ok (n, r))
      × (read_columns n r ≡ ok (cs, r'))
unfolding deserialize
deserialize_parts bs s h =
    let (x, e, f) = bind_parts (read_u16 bs) _ h in
    let (y, e', f') = bind_parts (read_columns x.0 x.1) _ f in (x.0, y.0, x.1, y.1, e, e')

append-ne-nil : {A : Type 0} (xs : List A) (y : A) (ys : List A) → xs ++ (y ∷ ys) ≢ []
append-ne-nil xs y ys h = absurd (omega (arith, ap length h, length-append xs (y ∷ ys)))

-- For a schema that the format can hold, every proper prefix of what `serialize` writes is refused
-- with `malformed_schema`.
pub deserialize_truncated :
    (s : Schema) (front back : Bytes) (x : ℕ)
    → All IsColumn s.columns
    → length s.columns < 65536
    → serialize s ≡ front ++ (x ∷ back)
    → deserialize front ≡ err malformed_schema
deserialize_truncated s front back x h n e = elim (deserialize_total front) [
  | inr bad ↦ bad
  | inl (t, got) ↦
      let (k, cs, r, r', first, second) = deserialize_parts front t got in
      let first' = read_u16-IsLocal front (x ∷ back) r k first in
      let second' = read_columns-IsLocal k r (x ∷ back) r' cs second in
      let (whole, wholes) = serialize_parts s h n in
      absurd (append-ne-nil r' x back (cc (e, first', second', whole, wholes)))
]
