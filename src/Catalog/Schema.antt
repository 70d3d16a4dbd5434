-- ===== src/Catalog/Schema.antt =====
-- src/catalog/schema.rs: the columns of a table, and their binary form.
pub mod RoundTrip
pub mod Total
pub mod Accepts
mod Tests
use skipper_db.Base.{
  ℕ, zero, suc, ◌+◌, Bool, true, false, List, [], ◌∷◌, ◌++◌, Option, some, none, ltb, ◌==◌, not,
  if◌then◌else◌, length, get_or, take, drop, ◌<◌,
}
use skipper_db.Base.Utf8.{Bytes, Text, is_utf8, IsUtf8, text_eq}
use skipper_db.Base.Words.{to_le, from_le}
use skipper_db.Errors.{Result, ok, err, malformed_schema, ◌>>=◌, ◌>>◌}
use skipper_db.Types.{ColumnType}

pub record Column : Type 0 where
  pub name : Text
  pub ty : ColumnType
  pub nullable : Bool

pub record Schema : Type 0 where
  pub columns : List Column

-- `Iterator::position`
unfoldable pub position {ℓ} : {A : Type ℓ} → (A → Bool) → List A → Option ℕ
position p [] = none
position p (x ∷ xs) =
    let later = position p xs in
    if p x then some 0 else elim later [ none ↦ none | some i ↦ some (suc i) ]

unfoldable pub column_index : Schema → Text → Option ℕ
unfolding position
column_index s name = position (λ c. text_eq c.name name) s.columns

abbrev pub type_tag : ColumnType → ℕ
type_tag ColumnType.int = 0
type_tag ColumnType.text = 1

-- `nullable as u8`
abbrev pub flag : Bool → ℕ
flag true = 1
flag false = 0

-- What `serialize` pushes for one column. `to_le 2` keeps the low 16 bits, as `as u16` does.
unfoldable pub column_bytes : Column → Bytes
column_bytes c = type_tag c.ty ∷ flag c.nullable ∷ (to_le 2 (length c.name) ++ c.name)

unfoldable pub push_columns : Bytes → List Column → Bytes
push_columns buf [] = buf
push_columns buf (c ∷ cs) = push_columns (buf ++ column_bytes c) cs

unfoldable pub serialize : Schema → Bytes
serialize s = push_columns (to_le 2 (length s.columns)) s.columns

-- A reader takes bytes off the front of the cursor and returns the rest.
abbrev pub Reader : Type 0 → Type 0
Reader A = Bytes → Result (A × Bytes)

unfoldable pub take_bytes : ℕ → Reader Bytes
take_bytes n cursor =
    if ltb (length cursor) n then err malformed_schema else ok (take n cursor, drop n cursor)

unfoldable pub read_u8 : Reader ℕ
read_u8 cursor = do (bs, rest) ← take_bytes 1 cursor; ok (get_or bs 0 0, rest)

unfoldable pub read_u16 : Reader ℕ
read_u16 cursor = do (bs, rest) ← take_bytes 2 cursor; ok (from_le bs, rest)

unfoldable pub type_of_tag : ℕ → Result ColumnType
type_of_tag zero = ok ColumnType.int
type_of_tag (suc zero) = ok ColumnType.text
type_of_tag (suc (suc t)) = err malformed_schema

-- `std::str::from_utf8`
unfoldable pub as_text : Bytes → Result Text
as_text bs = if is_utf8 bs then ok bs else err malformed_schema

-- The body of the loop of `deserialize`.
unfoldable pub read_column : Reader Column
read_column cursor = do
  (tag, r₁) ← read_u8 cursor
  ty ← type_of_tag tag
  (null, r₂) ← read_u8 r₁
  (name_len, r₃) ← read_u16 r₂
  (bs, r₄) ← take_bytes name_len r₃
  name ← as_text bs
  ok (record { name = name; ty = ty; nullable = not (null == 0) }, r₄)

unfoldable pub read_columns : ℕ → Reader (List Column)
read_columns zero cursor = ok ([], cursor)
read_columns (suc n) cursor = do
  (c, r) ← read_column cursor
  (cs, r') ← read_columns n r
  ok (c ∷ cs, r')

-- Bytes behind the last column are not looked at.
unfoldable pub deserialize : Bytes → Result Schema
deserialize bs = do
  (count, r) ← read_u16 bs
  (cs, r') ← read_columns count r
  ok (record { columns = cs })

-- A name that a `String` can hold and whose length the format can.
pub record IsColumn (c : Column) : Type 0 where
  pub text : IsUtf8 c.name
  pub short : length c.name < 65536
