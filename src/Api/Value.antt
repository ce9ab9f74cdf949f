-- ===== src/Api/Value.antt =====
-- `Value` of api/v0/expression.pb.go.
use capsule.Prelude.{ℕ, List, [], Bool, false, Option, none, some, ℕ_discrete}
use capsule.Prelude.Int.{ℤ, pos}

-- The bytes of a Go string.
abbrev pub Bytes : Type 0
Bytes = List ℕ

-- `ValueType`; `other` holds the numbers that name no constant.
pub data ValueType : Type 0 where
  unspecified string : ValueType
  sint8 sint16 sint32 sint64 : ValueType
  uint8 uint16 uint32 uint64 : ValueType
  bool double timestamp : ValueType
  other : ℕ → ValueType

unfoldable pub ValueType-discrete : Discrete ValueType
ValueType-discrete = hlevel ℕ_discrete

-- `google.protobuf.Timestamp`: an int64 and an int32.
pub record Timestamp : Type 0 where
  pub seconds : ℤ
  pub nanos : ℤ

-- The oneof `value`. A float64 is its IEEE 754 bit pattern; the pointer of `timestamp_value` may be
-- nil; `unset` is a oneof that holds nothing.
pub data Payload : Type 0 where
  unset : Payload
  signed_value : ℤ → Payload
  unsigned_value : ℕ → Payload
  string_value : Bytes → Payload
  bool_value : Bool → Payload
  double_value : ℕ → Payload
  timestamp_value : Option Timestamp → Payload

pub record Value : Type 0 where
  pub type : ValueType
  pub payload : Payload

abbrev pub get_signed_value : Payload → ℤ
get_signed_value (Payload.signed_value z) = z
get_signed_value _ = pos 0

abbrev pub get_unsigned_value : Payload → ℕ
get_unsigned_value (Payload.unsigned_value n) = n
get_unsigned_value _ = 0

abbrev pub get_string_value : Payload → Bytes
get_string_value (Payload.string_value s) = s
get_string_value _ = []

abbrev pub get_bool_value : Payload → Bool
get_bool_value (Payload.bool_value b) = b
get_bool_value _ = false

abbrev pub get_double_value : Payload → ℕ
get_double_value (Payload.double_value d) = d
get_double_value _ = 0

abbrev pub get_timestamp_value : Payload → Option Timestamp
get_timestamp_value (Payload.timestamp_value t) = t
get_timestamp_value _ = none

-- `GetType` on a pointer that may be nil.
abbrev pub get_type : Option Value → ValueType
get_type none = ValueType.unspecified
get_type (some v) = v.type
