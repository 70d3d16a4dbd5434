-- ===== src/Catalog/Schema/RoundTrip.antt =====
-- `deserialize` reads back what `serialize` wrote.
use skipper_db.Base.{
  ℕ, ◌<◌, ◌≡◌, ◌∙◌, refl, sym, ap, Bool, true, false, List, [], ◌∷◌, ◌++◌, append_assoc, append-nil,
  arith, length, take-length_append, drop-length_append, All, length-append, le→ltb, not, ◌==◌,
}
use skipper_db.Base.Utf8.{Bytes, Text, IsUtf8}
use skipper_db.Base.Words.{to_le, from_le-to_le}
use skipper_db.Errors.{ok}
use skipper_db.Types.{ColumnType}
use skipper_db.Catalog.Schema.{
  Column, Schema, IsColumn, column_bytes, push_columns, serialize, take_bytes, read_u8, read_u16,
  type_tag, type_of_tag, flag, as_text, read_column, read_columns, deserialize,
}

-- The columns one after the other.
abbrev pub columns_bytes : List Column → Bytes
columns_bytes [] = []
columns_bytes (c ∷ cs) = column_bytes c ++ columns_bytes cs

pub push_columns_lem :
    (buf : Bytes) (cs : List Column) → push_columns buf cs ≡ buf ++ columns_bytes cs
unfolding push_columns
push_columns_lem buf [] = sym (append-nil buf)
push_columns_lem buf (c ∷ cs) =
    push_columns_lem (buf ++ column_bytes c) cs
    ∙ append_assoc buf (column_bytes c) (columns_bytes cs)

pub take_bytes-append : (bs rest : Bytes) → take_bytes (length bs) (bs ++ rest) ≡ ok (bs, rest)
unfolding take_bytes
take_bytes-append bs rest =
    rw (le→ltb (length (bs ++ rest)) (length bs) (omega (arith, length-append bs rest)))
      (rw (take-length_append bs rest, drop-length_append bs rest))

pub read_u16-to_le :
    (v : ℕ) (rest : Bytes) → v < 65536 → read_u16 (to_le 2 v ++ rest) ≡ ok (v, rest)
unfolding read_u16
read_u16-to_le v rest h =
    rw (take_bytes-append (to_le 2 v) rest) (ap (λ n. ok (n, rest)) (from_le-to_le 2 v h))

pub read_u8-cons : (b : ℕ) (rest : Bytes) → read_u8 (b ∷ rest) ≡ ok (b, rest)
unfolding read_u8
read_u8-cons b rest = rw (take_bytes-append (b ∷ []) rest)

pub type_of_tag-type_tag : (t : ColumnType) → type_of_tag (type_tag t) ≡ ok t
unfolding type_of_tag
type_of_tag-type_tag ColumnType.int = refl
type_of_tag-type_tag ColumnType.text = refl

pub as_text_lem : (t : Text) → IsUtf8 t → as_text t ≡ ok t
unfolding as_text
as_text_lem t h = rw h

not-flag : (b : Bool) → not (flag b == 0) ≡ b
not-flag true = refl
not-flag false = refl

read_column-column_bytes :
    (c : Column) (rest : Bytes) → IsColumn c → read_column (column_bytes c ++ rest) ≡ ok (c, rest)
unfolding read_column column_bytes
read_column-column_bytes c rest h = rw (
  read_u8-cons (type_tag c.ty),
  type_of_tag-type_tag c.ty,
  read_u8-cons (flag c.nullable),
  read_u16-to_le (length c.name) (c.name ++ rest) h.short,
  take_bytes-append c.name rest,
  as_text_lem c.name h.text,
  not-flag c.nullable,
)

read_columns-columns_bytes :
    (cs : List Column) (rest : Bytes)
    → All IsColumn cs
    → read_columns (length cs) (columns_bytes cs ++ rest) ≡ ok (cs, rest)
unfolding read_columns
read_columns-columns_bytes [] rest h = refl
read_columns-columns_bytes (c ∷ cs) rest h = rw (
  append_assoc (column_bytes c) (columns_bytes cs) rest,
  read_column-column_bytes c (columns_bytes cs ++ rest) h.0,
  read_columns-columns_bytes cs rest h.1,
)

-- For a schema of fewer than 65536 columns, each with a UTF-8 name of fewer than 65536 bytes,
-- `deserialize` returns the schema from what `serialize` wrote, whatever bytes follow.
pub deserialize-serialize :
    (s : Schema) (rest : Bytes)
    → All IsColumn s.columns
    → length s.columns < 65536
    → deserialize (serialize s ++ rest) ≡ ok s
unfolding deserialize serialize
deserialize-serialize s rest h n =
    rw
      (
        push_columns_lem (to_le 2 (length s.columns)) s.columns,
        append_assoc (to_le 2 (length s.columns)) (columns_bytes s.columns) rest,
        read_u16-to_le (length s.columns) (columns_bytes s.columns ++ rest) n,
      )
      (rw (read_columns-columns_bytes s.columns rest h))

-- What the two readers of `deserialize` make of it.
pub serialize_parts :
    (s : Schema)
    → All IsColumn s.columns
    → length s.columns < 65536
    → (read_u16 (serialize s) ≡ ok (length s.columns, columns_bytes s.columns))
      × (read_columns (length s.columns) (columns_bytes s.columns) ≡ ok (s.columns, []))
unfolding serialize
serialize_parts s h n = (
  rw (push_columns_lem (to_le 2 (length s.columns)) s.columns)
      (read_u16-to_le (length s.columns) (columns_bytes s.columns) n),
  rw append-nil at (read_columns-columns_bytes s.columns [] h),
)
