-- ===== src/Storage/Record/Decode.antt =====
-- `decode` of src/storage/record.rs on any bytes.
use skipper_db.Base.{
  ℕ, suc, ◌+◌, ◌*◌, ◌/◌, ◌^◌, ◌<◌, ◌≤◌, ◌≡◌, refl, ap, List, [], ◌∷◌, ◌⊎◌, inl, inr, arith, lt→ltb,
  le→ltb, le_or_lt, Bool-cases, length, drop, length-take, All, All-take, All-drop,
}
use skipper_db.Base.Utf8.{Bytes, IsUtf8, is_utf8}
use skipper_db.Base.Words.{from_le, IsByte, from_le_bound}
use skipper_db.Base.Int.{i64_from_le-IsI64}
use skipper_db.Base.Bits.{test_bit}
use skipper_db.Errors.{ok, err, malformed_record, Yields, value, failure, Yields-bind, Yields-cases}
use skipper_db.Types.{ColumnType, Value, IsValue}
use skipper_db.Catalog.Schema.{Column, Schema}
use skipper_db.Storage.Record.{
  bitmap_len, prefix, utf8_text, decode_int, decode_text, decode_value, decode_loop, decode,
  Matches, IsRow,
}
use skipper_db.Storage.Record.Encode.{ColumnType-cases}

prefix-Yields :
    (n : ℕ) (bs : Bytes)
    → All IsByte bs
    → Yields (λ a. All IsByte a × (length a ≡ n)) malformed_record (prefix n bs)
unfolding prefix
prefix-Yields n bs h = elim (le_or_lt n (length bs)) [
  | inl fits ↦
      rw (le→ltb (length bs) n fits)
        (value (All-take IsByte n bs h, omega (arith, length-take n bs)))
  | inr short ↦ rw (lt→ltb (length bs) n short) failure
]

utf8_text-Yields : (bs : Bytes) → Yields (λ t. IsUtf8 t × (t ≡ bs)) malformed_record (utf8_text bs)
unfolding utf8_text
utf8_text-Yields bs = elim (Bool-cases (is_utf8 bs)) [
  | inl h ↦ rw h (value (h, refl))
  | inr h ↦ rw h failure
]

-- A value for the column, with the rest of the payload.
abbrev Reads : Column → Value × Bytes → Type 0
Reads c (v, rest) = Matches c v × IsValue v × All IsByte rest

decode_int-Yields :
    (c : Column) (bs : Bytes)
    → c.ty ≡ ColumnType.int
    → All IsByte bs
    → Yields (Reads c) malformed_record (decode_int bs)
unfolding decode_int
decode_int-Yields c bs e h =
    Yields-bind (prefix-Yields 8 bs h)
      λ raw p. value (e, i64_from_le-IsI64 raw p.0 p.1, All-drop IsByte 8 bs h)

decode_text-Yields :
    (c : Column) (bs : Bytes)
    → c.ty ≡ ColumnType.text
    → All IsByte bs
    → Yields (Reads c) malformed_record (decode_text bs)
unfolding decode_text
decode_text-Yields c bs e h = Yields-bind (prefix-Yields 4 bs h) λ raw p.
    Yields-bind (prefix-Yields (from_le raw) (drop 4 bs) (All-drop IsByte 4 bs h)) λ text q.
      Yields-bind (utf8_text-Yields text) λ s u. value (
        e,
        (u.0, omega (arith, ap length u.1, q.1, from_le_bound raw p.0, ap (λ n. 256 ^ n) p.1)),
        All-drop IsByte (from_le raw) (drop 4 bs) (All-drop IsByte 4 bs h),
      )

decode_value-Yields :
    (i : ℕ) (c : Column) (bm bs : Bytes)
    → i / 8 < length bm
    → All IsByte bs
    → Yields (Reads c) malformed_record (decode_value i c bm bs)
unfolding decode_value
decode_value-Yields i c bm bs hi h =
    rw (lt→ltb (i / 8) (length bm) hi) (elim (Bool-cases (test_bit bm i)) [
      | inl e ↦ rw e (value (tt, tt, h))
      | inr e ↦ rw e (elim (ColumnType-cases c.ty) [
        | inl int ↦ simp int (decode_int-Yields c bs int h)
        | inr text ↦ simp text (decode_text-Yields c bs text h)
      ])
    ])

decode_loop-Yields :
    (i : ℕ) (cs : List Column) (bm bs : Bytes)
    → i + length cs ≤ 8 * length bm
    → All IsByte bs
    → Yields (IsRow cs) malformed_record (decode_loop i cs bm bs)
unfolding decode_loop
decode_loop-Yields i [] bm bs hi h = value tt
decode_loop-Yields i (c ∷ cs) bm bs hi h =
    Yields-bind (decode_value-Yields i c bm bs (omega arith) h) λ (v, rest) p.
      Yields-bind (decode_loop-Yields (suc i) cs bm rest (omega arith) p.2)
        λ vs q. value (p.0, p.1, q)

-- On any bytes `decode` returns `malformed_record` or a row of the schema: a value of its type, or
-- NULL, for each column, with UTF-8 texts. It does not panic and returns no other error.
pub decode_total :
    (s : Schema) (bytes : Bytes)
    → All IsByte bytes
    → ((vs : List Value) × (decode s bytes ≡ ok vs) × IsRow s.columns vs)
      ⊎ (decode s bytes ≡ err malformed_record)
unfolding decode
decode_total s bytes h = Yields-cases (
    Yields-bind (prefix-Yields (bitmap_len (length s.columns)) bytes h) λ bm p.
      decode_loop-Yields 0 s.columns bm (drop (bitmap_len (length s.columns)) bytes)
        (omega (arith, p.1)) (All-drop IsByte _ bytes h))
