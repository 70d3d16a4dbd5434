-- ===== src/Storage/Record/RoundTrip.antt =====
-- `decode` reads back the row that `encode` wrote.
use skipper_db.Base.{
  ℕ, suc, ◌+◌, ◌*◌, ◌/◌, ◌<◌, ◌≤◌, ◌≡◌, ◌∙◌, refl, ap, List, [], ◌∷◌, ◌++◌, append_assoc, none,
  arith, lt→ltb, le→ltb, eq→==, length, subst, length-append, take-length_append,
  drop-length_append, drop,
}
use skipper_db.Base.Utf8.{Bytes, IsUtf8}
use skipper_db.Base.Words.{to_le, from_le-to_le}
use skipper_db.Base.Int.{ℤ, IsI64, i64_to_le, length-i64_to_le, i64_from_le-i64_to_le}
use skipper_db.Base.Bits.{test_bit}
use skipper_db.Errors.{ok}
use skipper_db.Types.{Value, IsValue}
use skipper_db.Catalog.Schema.{Column, Schema}
use skipper_db.Storage.Record.{
  bitmap_len, encode, prefix, utf8_text, decode_int, decode_text, decode_value, decode_loop, decode,
  Matches, IsRow,
}
use skipper_db.Storage.Record.Encode.{
  value_bytes, payload_bytes, is_null, first_mismatch, mismatch, null_bitmap, Marked, encode_lem,
  length-null_bitmap, null_bitmap-Marked,
}

pub prefix-append : (bs rest : Bytes) → prefix (length bs) (bs ++ rest) ≡ ok bs
unfolding prefix
prefix-append bs rest =
    rw (le→ltb (length (bs ++ rest)) (length bs) (omega (arith, length-append bs rest)))
      (rw (take-length_append bs rest))

decode_int-i64_to_le :
    (n : ℤ) (rest : Bytes) → IsI64 n → decode_int (i64_to_le n ++ rest) ≡ ok (Value.int n, rest)
unfolding decode_int
decode_int-i64_to_le n rest h =
    let size = length-i64_to_le n in
    rw (
      subst (λ k. prefix k (i64_to_le n ++ rest) ≡ ok (i64_to_le n)) size
          (prefix-append (i64_to_le n) rest),
      subst (λ k. drop k (i64_to_le n ++ rest) ≡ rest) size (drop-length_append (i64_to_le n) rest),
      i64_from_le-i64_to_le n h,
    )

decode_text-bytes :
    (s rest : Bytes)
    → IsUtf8 s
    → length s < 4294967296
    → decode_text ((to_le 4 (length s) ++ s) ++ rest) ≡ ok (Value.text s, rest)
unfolding decode_text utf8_text
decode_text-bytes s rest u h =
    rw (append_assoc (to_le 4 (length s)) s rest, prefix-append (to_le 4 (length s)) (s ++ rest))
      (rw (from_le-to_le 4 (length s) h, prefix-append s rest, u, drop-length_append s rest))

decode_value-value_bytes :
    (i : ℕ) (c : Column) (v : Value) (bm rest : Bytes)
    → Matches c v
    → IsValue v
    → test_bit bm i ≡ is_null v
    → i / 8 < length bm
    → decode_value i c bm (value_bytes v ++ rest) ≡ ok (v, rest)
unfolding decode_value
decode_value-value_bytes i c Value.null bm rest m f marked h =
    rw (lt→ltb (i / 8) (length bm) h, marked)
decode_value-value_bytes i c (Value.int n) bm rest m f marked h =
    rw (lt→ltb (i / 8) (length bm) h, marked) (rw (m, decode_value) (decode_int-i64_to_le n rest f))
decode_value-value_bytes i c (Value.text s) bm rest m f marked h =
    rw (lt→ltb (i / 8) (length bm) h, marked)
      (rw (m, decode_value) (decode_text-bytes s rest f.0 f.1))

decode_loop-payload_bytes :
    (i : ℕ) (cs : List Column) (vs : List Value) (bm : Bytes)
    → IsRow cs vs
    → Marked bm i vs
    → i + length cs ≤ 8 * length bm
    → decode_loop i cs bm (payload_bytes vs) ≡ ok vs
unfolding decode_loop
decode_loop-payload_bytes i [] [] bm r m h = refl
decode_loop-payload_bytes i [] (v ∷ vs) bm r m h = absurd r
decode_loop-payload_bytes i (c ∷ cs) [] bm r m h = absurd r
decode_loop-payload_bytes i (c ∷ cs) (v ∷ vs) bm r m h = rw (
  decode_value-value_bytes i c v bm (payload_bytes vs) r.0 r.1 m.0 (omega arith),
  decode_loop-payload_bytes (suc i) cs vs bm r.2 m.1 (omega arith),
)

pub IsRow-length : (cs : List Column) (vs : List Value) → IsRow cs vs → length vs ≡ length cs
IsRow-length [] [] r = refl
IsRow-length [] (v ∷ vs) r = absurd r
IsRow-length (c ∷ cs) [] r = absurd r
IsRow-length (c ∷ cs) (v ∷ vs) r = ap suc (IsRow-length cs vs r.2)

mismatch-Matches : (c : Column) (v : Value) → Matches c v → mismatch c v ≡ none
mismatch-Matches c Value.null m = refl
mismatch-Matches c (Value.int n) m = rw (m, mismatch)
mismatch-Matches c (Value.text s) m = rw (m, mismatch)

first_mismatch-IsRow :
    (cs : List Column) (vs : List Value) → IsRow cs vs → first_mismatch cs vs ≡ none
unfolding first_mismatch
first_mismatch-IsRow [] [] r = refl
first_mismatch-IsRow [] (v ∷ vs) r = refl
first_mismatch-IsRow (c ∷ cs) [] r = refl
first_mismatch-IsRow (c ∷ cs) (v ∷ vs) r =
    rw (mismatch-Matches c v r.0, first_mismatch) (first_mismatch-IsRow cs vs r.2)

-- The bytes of a row.
abbrev pub row_bytes : List Value → Bytes
row_bytes vs = null_bitmap vs ++ payload_bytes vs

pub encode-IsRow :
    (s : Schema) (vs : List Value) → IsRow s.columns vs → encode s vs ≡ ok (row_bytes vs)
encode-IsRow s vs r =
    encode_lem s vs
    ∙ rw (eq→== _ _ (IsRow-length s.columns vs r), first_mismatch-IsRow s.columns vs r)

-- A row with a value of its type, or NULL, for each column of the schema is encoded, and `decode`
-- returns the row from the bytes. (Texts are UTF-8 and shorter than 2 ^ 32 bytes, integers are i64.)
pub decode-encode :
    (s : Schema) (vs : List Value)
    → IsRow s.columns vs
    → (bytes : Bytes) × (encode s vs ≡ ok bytes) × (decode s bytes ≡ ok vs)
unfolding decode
decode-encode s vs r =
    let n = IsRow-length s.columns vs r in
    let size : length (null_bitmap vs) ≡ bitmap_len (length s.columns) =
      length-null_bitmap vs ∙ ap bitmap_len n in
    (
      row_bytes vs,
      encode-IsRow s vs r,
      rw
          (
            ← size,
            prefix-append (null_bitmap vs) (payload_bytes vs),
            drop-length_append (null_bitmap vs) (payload_bytes vs),
          )
          (decode_loop-payload_bytes 0 s.columns vs (null_bitmap vs) r (null_bitmap-Marked vs)
            (omega (arith, size))),
    )
