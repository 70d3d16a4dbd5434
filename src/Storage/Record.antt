-- ===== src/Storage/Record.antt =====
-- src/storage/record.rs: one row in bytes, a bitmap of its NULLs and then its other values.
pub mod Encode
pub mod RoundTrip
pub mod Decode
mod Tests
use skipper_db.Base.{
  ℕ, zero, suc, ◌+◌, ◌/◌, Bool, List, [], ◌∷◌, ◌++◌, ltb, ◌==◌, ◌≡◌, if◌then◌else◌, length,
  replicate, take, drop,
}
use skipper_db.Base.Utf8.{Bytes, Text, is_utf8}
use skipper_db.Base.Words.{to_le, from_le}
use skipper_db.Base.Int.{i64_to_le, i64_from_le}
use skipper_db.Base.Bits.{set_bit, test_bit}
use skipper_db.Errors.{
  Result, ok, err, record_arity, type_mismatch, malformed_record, check, ◌>>=◌, ◌>>◌,
}
use skipper_db.Types.{ColumnType, Value, IsValue}
use skipper_db.Catalog.Schema.{Column, Schema}

-- `columns.len().div_ceil(8)`
abbrev pub bitmap_len : ℕ → ℕ
bitmap_len n = (n + 7) / 8

-- The body of the loop of `encode`: column `i`, with the bytes so far.
unfoldable pub encode_value : ℕ → Column → Value → Bytes → Result Bytes
encode_value i c Value.null buf = check (ltb (i / 8) (length buf)) >> ok (set_bit buf i)
encode_value i c (Value.int n) buf = elim c.ty [
  | ColumnType.int ↦ ok (buf ++ i64_to_le n)
  | ColumnType.text ↦ err (type_mismatch c.name)
]
encode_value i c (Value.text s) buf = elim c.ty [
  | ColumnType.int ↦ err (type_mismatch c.name)
  | ColumnType.text ↦ ok (buf ++ (to_le 4 (length s) ++ s))
]

unfoldable pub encode_loop : ℕ → List Column → List Value → Bytes → Result Bytes
encode_loop i (c ∷ cs) (v ∷ vs) buf = do
  buf' ← encode_value i c v buf
  encode_loop (suc i) cs vs buf'
encode_loop i [] vs buf = ok buf
encode_loop i (c ∷ cs) [] buf = ok buf

unfoldable pub encode : Schema → List Value → Result Bytes
encode s values =
    if length values == length s.columns
    then encode_loop 0 s.columns values (replicate (bitmap_len (length s.columns)) 0)
    else err (record_arity (length s.columns) (length values))

-- `payload.get(..n).ok_or(Error::MalformedRecord)`
unfoldable pub prefix : ℕ → Bytes → Result Bytes
prefix n bs = if ltb (length bs) n then err malformed_record else ok (take n bs)

unfoldable pub utf8_text : Bytes → Result Text
utf8_text bs = if is_utf8 bs then ok bs else err malformed_record

unfoldable pub decode_int : Bytes → Result (Value × Bytes)
decode_int payload = do raw ← prefix 8 payload; ok (Value.int (i64_from_le raw), drop 8 payload)

unfoldable pub decode_text : Bytes → Result (Value × Bytes)
decode_text payload = do
  len_raw ← prefix 4 payload
  let len = from_le len_raw
  let payload' = drop 4 payload
  text ← prefix len payload'
  s ← utf8_text text
  ok (Value.text s, drop len payload')

-- The body of the loop of `decode`: the value of column `i`, and the payload behind it.
unfoldable pub decode_value : ℕ → Column → Bytes → Bytes → Result (Value × Bytes)
decode_value i c bitmap payload =
    check (ltb (i / 8) (length bitmap))
    >> (if test_bit bitmap i then ok (Value.null, payload) else elim c.ty [
      | ColumnType.int ↦ decode_int payload
      | ColumnType.text ↦ decode_text payload
    ])

unfoldable pub decode_loop : ℕ → List Column → Bytes → Bytes → Result (List Value)
decode_loop i [] bitmap payload = ok []
decode_loop i (c ∷ cs) bitmap payload = do
  (v, payload') ← decode_value i c bitmap payload
  vs ← decode_loop (suc i) cs bitmap payload'
  ok (v ∷ vs)

unfoldable pub decode : Schema → Bytes → Result (List Value)
decode s bytes = do
  let n = bitmap_len (length s.columns)
  bitmap ← prefix n bytes
  decode_loop 0 s.columns bitmap (drop n bytes)

-- The value may stand in the column: NULL, or a value of the column's type.
abbrev pub Matches : Column → Value → Type 0
Matches c Value.null = Unit
Matches c (Value.int n) = c.ty ≡ ColumnType.int
Matches c (Value.text s) = c.ty ≡ ColumnType.text

-- One value for each column, of its type, and within what Rust and the format can hold.
abbrev pub IsRow : List Column → List Value → Type 0
IsRow [] [] = Unit
IsRow [] (v ∷ vs) = ⊥
IsRow (c ∷ cs) [] = ⊥
IsRow (c ∷ cs) (v ∷ vs) = Matches c v × IsValue v × IsRow cs vs
