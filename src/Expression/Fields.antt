-- ===== src/Expression/Fields.antt =====
-- The fields that an expression names: `FieldTypeMap` and `FieldValueMap` of
-- pkg/expression/expression.go, and `pushIdentifier` of evaluate.go.
use mathlib.Core.Bool.{decide}
use capsule.Prelude.{ℕ, ◌/◌, ◌%◌, Bool, false, Option, none, some}
use capsule.Prelude.Int.{pos}
use capsule.Prelude.Outcome.{Outcome, ok, err, panic, ◌>>=◌, ◌>>◌, guard}
use capsule.Api.Value.{Bytes, ValueType, Payload, Timestamp, Value}
use capsule.Expression.Types.{Error, undefined_identifier, data_type_mismatch}
use capsule.Expression.Value.{GoType, Native, second}

-- `FieldTypeMap` and `FieldValueMap`, by their lookups.
abbrev pub FieldTypeMap : Type 0
FieldTypeMap = Bytes → Option ValueType

abbrev pub FieldValueMap : Type 0
FieldValueMap = Bytes → Option Native

unfoldable pub GoType-discrete : Discrete GoType
GoType-discrete = hlevel

-- `reflect.TypeOf(v).String()`; the nil interface has no type.
unfoldable pub go_type : Native → Outcome Error GoType
go_type Native.nil = panic
go_type (Native.string _) = ok GoType.string
go_type (Native.int8 _) = ok GoType.int8
go_type (Native.int16 _) = ok GoType.int16
go_type (Native.int32 _) = ok GoType.int32
go_type (Native.int64 _) = ok GoType.int64
go_type (Native.uint8 _) = ok GoType.uint8
go_type (Native.uint16 _) = ok GoType.uint16
go_type (Native.uint32 _) = ok GoType.uint32
go_type (Native.uint64 _) = ok GoType.uint64
go_type (Native.bool _) = ok GoType.bool
go_type (Native.float64 _) = ok GoType.float64
go_type Native.named = ok GoType.named

-- `typeStrings`; a type with no entry gives the empty string, which names no Go type.
unfoldable pub type_strings : ValueType → Option GoType
type_strings ValueType.string = some GoType.string
type_strings ValueType.sint8 = some GoType.int8
type_strings ValueType.sint16 = some GoType.int16
type_strings ValueType.sint32 = some GoType.int32
type_strings ValueType.sint64 = some GoType.int64
type_strings ValueType.uint8 = some GoType.uint8
type_strings ValueType.uint16 = some GoType.uint16
type_strings ValueType.uint32 = some GoType.uint32
type_strings ValueType.uint64 = some GoType.uint64
type_strings ValueType.bool = some GoType.bool
type_strings ValueType.double = some GoType.float64
type_strings ValueType.timestamp = some GoType.uint64
type_strings _ = none

unfoldable pub same_go_type : GoType → Option GoType → Bool
unfolding GoType-discrete
same_go_type g none = false
same_go_type g (some h) = decide (GoType-discrete g h)

-- The nanoseconds of a `TIMESTAMP` field, split as `pushIdentifier` splits them. The quotient of a
-- uint64 fits an int64, and the remainder an int32.
abbrev pub split_stamp : ℕ → Timestamp
split_stamp ns = record { seconds = pos (ns / second); nanos = pos (ns % second) }

-- The second switch of `pushIdentifier`; a type assertion `v.(T)` that fails panics.
unfoldable pub field_payload : ValueType → Native → Outcome Error Payload
field_payload ValueType.string (Native.string s) = ok (Payload.string_value s)
field_payload ValueType.sint8 (Native.int8 z) = ok (Payload.signed_value z)
field_payload ValueType.sint16 (Native.int16 z) = ok (Payload.signed_value z)
field_payload ValueType.sint32 (Native.int32 z) = ok (Payload.signed_value z)
field_payload ValueType.sint64 (Native.int64 z) = ok (Payload.signed_value z)
field_payload ValueType.uint8 (Native.uint8 n) = ok (Payload.unsigned_value n)
field_payload ValueType.uint16 (Native.uint16 n) = ok (Payload.unsigned_value n)
field_payload ValueType.uint32 (Native.uint32 n) = ok (Payload.unsigned_value n)
field_payload ValueType.uint64 (Native.uint64 n) = ok (Payload.unsigned_value n)
field_payload ValueType.bool (Native.bool b) = ok (Payload.bool_value b)
field_payload ValueType.double (Native.float64 d) = ok (Payload.double_value d)
field_payload ValueType.timestamp (Native.uint64 n) =
    ok (Payload.timestamp_value (some (split_stamp n)))
field_payload ValueType.unspecified _ = ok Payload.unset
field_payload (ValueType.other _) _ = ok Payload.unset
field_payload _ _ = panic

-- The value that `pushIdentifier` pushes for a field of type `t`, or its error. A field with no
-- value is NULL, the unspecified type.
unfoldable pub field_value : Bytes → ValueType → Option Native → Outcome Error Value
unfolding go_type type_strings same_go_type field_payload
field_value ident t none = ok (record { type = ValueType.unspecified; payload = Payload.unset })
field_value ident t (some v) = do
  g ← go_type v
  guard (same_go_type g (type_strings t)) (data_type_mismatch ident)
  p ← field_payload t v
  ok (record { type = t; payload = p })

unfoldable pub lookup_identifier : FieldTypeMap → FieldValueMap → Bytes → Outcome Error Value
unfolding field_value
lookup_identifier types values ident = elim (types ident) [
  | none ↦ err (undefined_identifier ident)
  | some t ↦ field_value ident t (values ident)
]
