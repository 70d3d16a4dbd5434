-- ===== src/Catalog/Schema/Tests.antt =====
-- A schema of two columns in bytes, and the theorems about schemas at it.
use skipper_db.Base.{◌≡◌, refl, true, false, [], ◌∷◌, ◌++◌, arith, take, ◌⊎◌, some, All}
use skipper_db.Base.Utf8.{Bytes, ascii, is_utf8, text_eq}
use skipper_db.Errors.{ok, err, malformed_schema}
use skipper_db.Types.{ColumnType}
use skipper_db.Catalog.Schema.{
  Schema, IsColumn, serialize, deserialize, push_columns, column_bytes, column_index, take_bytes,
  read_u8, read_u16, type_of_tag, as_text, read_column, read_columns,
}
use skipper_db.Catalog.Schema.RoundTrip.{deserialize-serialize}
use skipper_db.Catalog.Schema.Total.{deserialize_truncated}
use skipper_db.Catalog.Schema.Accepts.{IsWritten, deserialize_lem}

abbrev sample : Schema
sample = record {
  columns =
      record { name = ascii "id"; ty = ColumnType.int; nullable = false }
      ∷ record { name = ascii "name"; ty = ColumnType.text; nullable = true }
      ∷ [];
}

abbrev sample_bytes : Bytes
sample_bytes = 2 ∷ 0 ∷ 0 ∷ 0 ∷ 2 ∷ 0 ∷ 105 ∷ 100 ∷ 1 ∷ 1 ∷ 4 ∷ 0 ∷ 110 ∷ 97 ∷ 109 ∷ 101 ∷ []

serialize-sample : serialize sample ≡ sample_bytes
unfolding serialize push_columns column_bytes
serialize-sample = refl

deserialize-sample : deserialize (sample_bytes ++ (7 ∷ [])) ≡ ok sample
unfolding deserialize read_u16 read_columns read_column take_bytes read_u8 type_of_tag as_text
    is_utf8
deserialize-sample = refl

column_index-sample : column_index sample (ascii "name") ≡ some 1
unfolding column_index text_eq
column_index-sample = refl

sample-IsColumn : All IsColumn sample.columns
unfolding is_utf8
sample-IsColumn =
    (record { text = refl; short = omega arith }, (record { text = refl; short = omega arith }, tt))

deserialize-serialize_example : deserialize (serialize sample ++ (7 ∷ [])) ≡ ok sample
deserialize-serialize_example = deserialize-serialize sample (7 ∷ []) sample-IsColumn (omega arith)

-- Three bytes with an unknown tag.
deserialize_lem_example :
    ((s : Schema) × (deserialize (1 ∷ 0 ∷ 9 ∷ []) ≡ ok s) × IsWritten s (1 ∷ 0 ∷ 9 ∷ []))
    ⊎ ((deserialize (1 ∷ 0 ∷ 9 ∷ []) ≡ err malformed_schema)
        × ((s : Schema) → ¬ IsWritten s (1 ∷ 0 ∷ 9 ∷ [])))
deserialize_lem_example =
    deserialize_lem (1 ∷ 0 ∷ 9 ∷ []) (omega arith, (omega arith, (omega arith, tt)))

deserialize_truncated_example : deserialize (take 15 sample_bytes) ≡ err malformed_schema
deserialize_truncated_example =
    deserialize_truncated sample (take 15 sample_bytes) [] 101 sample-IsColumn (omega arith)
      serialize-sample
