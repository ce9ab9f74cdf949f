-- ===== src/Expression/Operators.antt =====
-- What the comparison and `&` nodes of pkg/expression/evaluate.go compute from their two operands.
use mathlib.Core.Bool.{decide}
use capsule.Prelude.{bit_and, Bool, true, false, ◌||◌, if◌then◌else◌}
use capsule.Prelude.Int.{to_u64, of_u64}
use capsule.Prelude.Outcome.{Outcome, ok, err, ◌>>=◌}
use capsule.Api.Value.{
  ValueType, ValueType-discrete, Payload, Value, get_signed_value, get_unsigned_value,
}
use capsule.Api.Expression.{ExpressionType}
use capsule.Expression.Types.{Error, comparison_mismatch, bitwise_mismatch, bitwise_type}
use capsule.Expression.Compare.{
  Kind, kind, compare_equal, compare_not_equal, compare_less_than, compare_less_than_equal_to,
  compare_greater_than, compare_greater_than_equal_to, compare_like,
}

unfoldable pub is_null_type : ValueType → Bool
is_null_type ValueType.unspecified = true
is_null_type _ = false

abbrev pub bool_value : Bool → Value
bool_value b = record { type = ValueType.bool; payload = Payload.bool_value b }

-- The inner switch on the operator.
unfoldable pub compare_op : ExpressionType → Value → Value → Outcome Error Bool
unfolding compare_equal compare_not_equal compare_less_than compare_less_than_equal_to
    compare_greater_than compare_greater_than_equal_to compare_like
compare_op ExpressionType.eq l r = compare_equal l r
compare_op ExpressionType.ne l r = compare_not_equal l r
compare_op ExpressionType.lt l r = compare_less_than l r
compare_op ExpressionType.le l r = compare_less_than_equal_to l r
compare_op ExpressionType.gt l r = compare_greater_than l r
compare_op ExpressionType.ge l r = compare_greater_than_equal_to l r
compare_op ExpressionType.like l r = compare_like l r
compare_op _ l r = ok false

-- What a comparison node does with the two values that it has popped.
unfoldable pub comparison : ExpressionType → Value → Value → Outcome Error Value
unfolding is_null_type compare_op ValueType-discrete
comparison op l r =
    if is_null_type l.type || is_null_type r.type
    then ok (bool_value false)
    else (if decide (ValueType-discrete l.type r.type)
        then (do b ← compare_op op l r; ok (bool_value b))
        else err (comparison_mismatch l.type r.type))

-- The switch on the common type in the `BITWISE_AND` case.
unfoldable pub and_payload : Kind → ValueType → Payload → Payload → Outcome Error Payload
and_payload Kind.signed t l r = ok (
    Payload.signed_value
      (of_u64 (bit_and (to_u64 (get_signed_value l)) (to_u64 (get_signed_value r)))))
and_payload Kind.unsigned t l r =
    ok (Payload.unsigned_value (bit_and (get_unsigned_value l) (get_unsigned_value r)))
and_payload Kind.unknown t l r = ok Payload.unset
and_payload _ t l r = err (bitwise_type t)

-- What a `BITWISE_AND` node does with the two values that it has popped.
unfoldable pub bitwise : Value → Value → Outcome Error Value
unfolding and_payload ValueType-discrete kind
bitwise l r =
    if decide (ValueType-discrete l.type r.type)
    then (do
      p ← and_payload (kind l.type) l.type l.payload r.payload
      ok (record { type = l.type; payload = p }))
    else err (bitwise_mismatch l.type r.type)
