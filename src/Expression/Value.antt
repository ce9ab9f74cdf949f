-- ===== src/Expression/Value.antt =====
-- Values in pkg/expression/expression.go and evaluate.go: `NewValue`, `IsValueTrue` and
-- `timestampValue`.
use capsule.Prelude.{ℕ, ◌+◌, ◌*◌, ◌%◌, ◌^◌, [], ◌∷◌, Bool, false, not, Option, none, some, ◌==◌}
use capsule.Prelude.Int.{ℤ, pos, to_u64, eqb_ℤ}
use capsule.Prelude.Double.{double_eq}
use capsule.Prelude.Outcome.{Outcome, ok, panic, ◌>>=◌}
use capsule.Api.Value.{
  Bytes, ValueType, Payload, Timestamp, Value, get_signed_value, get_unsigned_value,
  get_string_value, get_bool_value, get_double_value, get_timestamp_value,
}
use capsule.Expression.Types.{Error}

-- The dynamic types that a Go `interface{}` is tested against; `named` is any other.
pub data GoType : Type 0 where
  string int8 int16 int32 int64 uint8 uint16 uint32 uint64 bool float64 named : GoType

-- What an `interface{}` holds.
pub data Native : Type 0 where
  nil : Native
  string : Bytes → Native
  int8 int16 int32 int64 : ℤ → Native
  uint8 uint16 uint32 uint64 : ℕ → Native
  bool : Bool → Native
  float64 : ℕ → Native
  named : Native

unfoldable pub new_value : Native → Option Value
new_value (Native.string s) =
    some (record { type = ValueType.string; payload = Payload.string_value s })
new_value (Native.int8 z) =
    some (record { type = ValueType.sint8; payload = Payload.signed_value z })
new_value (Native.int16 z) =
    some (record { type = ValueType.sint16; payload = Payload.signed_value z })
new_value (Native.int32 z) =
    some (record { type = ValueType.sint32; payload = Payload.signed_value z })
new_value (Native.int64 z) =
    some (record { type = ValueType.sint64; payload = Payload.signed_value z })
new_value (Native.uint8 n) =
    some (record { type = ValueType.uint8; payload = Payload.unsigned_value n })
new_value (Native.uint16 n) =
    some (record { type = ValueType.uint16; payload = Payload.unsigned_value n })
new_value (Native.uint32 n) =
    some (record { type = ValueType.uint32; payload = Payload.unsigned_value n })
new_value (Native.uint64 n) =
    some (record { type = ValueType.uint64; payload = Payload.unsigned_value n })
new_value (Native.bool b) = some (record { type = ValueType.bool; payload = Payload.bool_value b })
new_value (Native.float64 d) =
    some (record { type = ValueType.double; payload = Payload.double_value d })
new_value _ = none

-- `time.Second` in nanoseconds.
abbrev pub second : ℕ
second = 1_000_000_000

-- The product and the sum wrap at 64 bits.
abbrev pub nanoseconds : Timestamp → ℕ
nanoseconds t = (to_u64 t.seconds * second % 2 ^ 64 + to_u64 t.nanos) % 2 ^ 64

-- A nil stamp is a nil pointer read.
unfoldable pub timestamp_value : Option Timestamp → Outcome Error ℕ
timestamp_value none = panic
timestamp_value (some t) = ok (nanoseconds t)

-- The switch of `IsValueTrue` on the type, over the payload that the getters read.
unfoldable pub is_true : ValueType → Payload → Outcome Error Bool
unfolding timestamp_value double_eq
is_true ValueType.string p = ok (elim (get_string_value p) [ [] ↦ Bool.false | _ ∷ _ ↦ Bool.true ])
is_true ValueType.sint8 p = ok (not (eqb_ℤ (get_signed_value p) (pos 0)))
is_true ValueType.sint16 p = ok (not (eqb_ℤ (get_signed_value p) (pos 0)))
is_true ValueType.sint32 p = ok (not (eqb_ℤ (get_signed_value p) (pos 0)))
is_true ValueType.sint64 p = ok (not (eqb_ℤ (get_signed_value p) (pos 0)))
is_true ValueType.uint8 p = ok (not (get_unsigned_value p == 0))
is_true ValueType.uint16 p = ok (not (get_unsigned_value p == 0))
is_true ValueType.uint32 p = ok (not (get_unsigned_value p == 0))
is_true ValueType.uint64 p = ok (not (get_unsigned_value p == 0))
is_true ValueType.bool p = ok (get_bool_value p)
is_true ValueType.double p = ok (not (double_eq (get_double_value p) 0))
is_true ValueType.timestamp p = do n ← timestamp_value (get_timestamp_value p); ok (not (n == 0))
is_true _ p = ok false

unfoldable pub is_value_true : Value → Outcome Error Bool
unfolding is_true
is_value_true v = is_true v.type v.payload
