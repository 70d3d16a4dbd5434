-- ===== src/Types.antt =====
-- src/types.rs: column types and values.
use skipper_db.Base.{Option, none, some, Bool, true, false}
use skipper_db.Base.Int.{ℤ, IsI64}
use skipper_db.Base.Utf8.{Text, IsUtf8}
use skipper_db.Base.Words.{IsU32}
use skipper_db.Base.{length}

pub data ColumnType : Type 0 where
  int text : ColumnType

abbrev pub column_type_eq : ColumnType → ColumnType → Bool
column_type_eq ColumnType.int ColumnType.int = true
column_type_eq ColumnType.text ColumnType.text = true
column_type_eq _ _ = false

pub data Value : Type 0 where
  int : ℤ → Value
  text : Text → Value
  null : Value

unfoldable pub type_of : Value → Option ColumnType
type_of (Value.int n) = some ColumnType.int
type_of (Value.text s) = some ColumnType.text
type_of null = none

-- A value that Rust can hold: an `i64`, or UTF-8 text shorter than 2 ^ 32 bytes.
abbrev pub IsValue : Value → Type 0
IsValue (Value.int n) = IsI64 n
IsValue (Value.text s) = IsUtf8 s × IsU32 (length s)
IsValue null = Unit
