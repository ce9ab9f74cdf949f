-- ===== src/Expression/Types.antt =====
-- pkg/expression/types.go, and the errors that the package returns.
use capsule.Prelude.{Bool, true, false}
use capsule.Api.Value.{Bytes, ValueType}

unfoldable pub is_value_type_integer : ValueType → Bool
is_value_type_integer ValueType.sint8 = true
is_value_type_integer ValueType.sint16 = true
is_value_type_integer ValueType.sint32 = true
is_value_type_integer ValueType.sint64 = true
is_value_type_integer ValueType.uint8 = true
is_value_type_integer ValueType.uint16 = true
is_value_type_integer ValueType.uint32 = true
is_value_type_integer ValueType.uint64 = true
is_value_type_integer _ = false

unfoldable pub is_value_type_numeric : ValueType → Bool
is_value_type_numeric ValueType.sint8 = true
is_value_type_numeric ValueType.sint16 = true
is_value_type_numeric ValueType.sint32 = true
is_value_type_numeric ValueType.sint64 = true
is_value_type_numeric ValueType.uint8 = true
is_value_type_numeric ValueType.uint16 = true
is_value_type_numeric ValueType.uint32 = true
is_value_type_numeric ValueType.uint64 = true
is_value_type_numeric ValueType.double = true
is_value_type_numeric ValueType.timestamp = true
is_value_type_numeric _ = false

unfoldable pub is_value_type_string : ValueType → Bool
is_value_type_string ValueType.string = true
is_value_type_string _ = false

-- One constructor for each message, with the types or names that the message prints.
pub data Error : Type 0 where
  -- validateIdentifier and validateValue
  empty_identifier identifier_start identifier_char : Error
  no_string_value no_signed_value no_unsigned_value : Error
  no_bool_value no_double_value no_timestamp_value : Error
  unrecognized_value_type : Error
  -- validateNode
  identifier_missing value_missing unexpected_logical : Error
  logical_operands_missing comparison_operands_missing bitwise_operands_missing : Error
  lhs_missing rhs_missing unary_operand_missing unrecognized_expression_type : Error
  -- validateKernelFilterNode
  bitwise_lhs bitwise_rhs kernel_value_type : Error
  comparison_lhs comparison_rhs bitwise_compare_zero : Error
  comparison_rhs_integer comparison_rhs_string invalid_expression_type : Error
  -- validateTypes
  lhs_not_bool rhs_not_bool not_numeric not_string not_integer : ValueType → Error
  type_mismatch : ValueType → ValueType → Error
  -- both validateTypes and evaluateNode
  undefined_identifier : Bytes → Error
  -- evaluateNode
  data_type_mismatch : Bytes → Error
  unknown_value_type cannot_compare bitwise_type : ValueType → Error
  comparison_mismatch bitwise_mismatch : ValueType → ValueType → Error
  unreachable empty_stack extra_stack : Error
