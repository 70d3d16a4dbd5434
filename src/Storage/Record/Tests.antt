-- ===== src/Storage/Record/Tests.antt =====
-- A row in bytes, and the theorems about records at it.
use skipper_db.Base.{
  ◌≡◌, refl, true, false, [], ◌∷◌, ◌++◌, arith, List, ◌⊎◌, length, ◌==◌, if◌then◌else◌,
}
use skipper_db.Base.Utf8.{Bytes, ascii, is_utf8}
use skipper_db.Base.Int.{negsuc, pos, i64_to_le, i64_from_le}
use skipper_db.Base.Bits.{set_bit, test_bit, with_bit, has_bit}
use skipper_db.Errors.{ok, err, malformed_record, type_mismatch, record_arity}
use skipper_db.Types.{ColumnType, Value}
use skipper_db.Catalog.Schema.{Schema}
use skipper_db.Storage.Record.{
  encode, decode, encode_loop, encode_value, decode_loop, decode_value, decode_int, decode_text,
  prefix, utf8_text, IsRow,
}
use skipper_db.Storage.Record.Encode.{
  encode_lem, outcome, first_mismatch, null_bitmap, payload_bytes,
}
use skipper_db.Storage.Record.RoundTrip.{decode-encode}
use skipper_db.Storage.Record.Decode.{decode_total}

abbrev users : Schema
users = record {
  columns =
      record { name = ascii "id"; ty = ColumnType.int; nullable = false }
      ∷ record { name = ascii "name"; ty = ColumnType.text; nullable = true }
      ∷ record { name = ascii "age"; ty = ColumnType.int; nullable = true }
      ∷ [];
}

abbrev row : List Value
row = Value.int (negsuc 1) ∷ Value.text (ascii "al") ∷ Value.null ∷ []

abbrev row_coded : Bytes
row_coded = 4 ∷ 254 ∷ 255 ∷ 255 ∷ 255 ∷ 255 ∷ 255 ∷ 255 ∷ 255 ∷ 2 ∷ 0 ∷ 0 ∷ 0 ∷ 97 ∷ 108 ∷ []

encode-row : encode users row ≡ ok row_coded
unfolding encode encode_loop encode_value i64_to_le set_bit with_bit
encode-row = refl

decode-row : decode users row_coded ≡ ok row
unfolding decode decode_loop decode_value decode_int decode_text prefix utf8_text is_utf8
    i64_from_le test_bit has_bit
decode-row = refl

encode-mismatch :
    encode users (Value.int (pos 1) ∷ Value.int (pos 2) ∷ Value.null ∷ [])
    ≡ err (type_mismatch (ascii "name"))
unfolding encode encode_loop encode_value i64_to_le set_bit with_bit
encode-mismatch = refl

row-IsRow : IsRow users.columns row
unfolding is_utf8
row-IsRow = (refl, omega arith, (refl, (refl, omega arith), (tt, tt, tt)))

decode-encode_example :
    (bytes : Bytes) × (encode users row ≡ ok bytes) × (decode users bytes ≡ ok row)
decode-encode_example = decode-encode users row row-IsRow

encode_lem_example : encode users row ≡ (
    if length row == length users.columns
    then outcome (first_mismatch users.columns row) (null_bitmap row ++ payload_bytes row)
    else err (record_arity (length users.columns) (length row)))
encode_lem_example = encode_lem users row

decode_total_example :
    ((vs : List Value) × (decode users (4 ∷ 254 ∷ []) ≡ ok vs) × IsRow users.columns vs)
    ⊎ (decode users (4 ∷ 254 ∷ []) ≡ err malformed_record)
decode_total_example = decode_total users (4 ∷ 254 ∷ []) (omega arith)
