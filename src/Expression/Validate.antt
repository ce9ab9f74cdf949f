-- ===== src/Expression/Validate.antt =====
-- The well-formedness check of pkg/expression/validate.go: `validateIdentifier`, `validateValue`,
-- `validateNode` and `validateTree`. Each returns no value, or an error.
use capsule.Prelude.{
  ℕ, List, [], ◌∷◌, Bool, true, false, ◌||◌, ◌==◌, Option, none, some, if◌then◌else◌,
}
use capsule.Prelude.Outcome.{Outcome, ok, err, ◌>>◌, guard}
use capsule.Prelude.Unicode.{Unicode, runes}
use capsule.Api.Value.{Bytes, ValueType, Payload, Value}
use capsule.Api.Expression.{ExpressionType, Expression}
use capsule.Expression.Types.{
  Error, empty_identifier, identifier_start, identifier_char, no_string_value, no_signed_value,
  no_unsigned_value, no_bool_value, no_double_value, no_timestamp_value, unrecognized_value_type,
  identifier_missing, value_missing, unexpected_logical, logical_operands_missing,
  comparison_operands_missing, bitwise_operands_missing, lhs_missing, rhs_missing,
  unary_operand_missing, unrecognized_expression_type,
}

abbrev pub Check : Type 0
Check = Outcome Error (Unit {0})

-- The test that each `case` of `validateValue` makes of the oneof's variant.
unfoldable pub validate_payload : ValueType → Payload → Check
validate_payload ValueType.string (Payload.string_value _) = ok tt
validate_payload ValueType.string _ = err no_string_value
validate_payload ValueType.sint8 (Payload.signed_value _) = ok tt
validate_payload ValueType.sint8 _ = err no_signed_value
validate_payload ValueType.sint16 (Payload.signed_value _) = ok tt
validate_payload ValueType.sint16 _ = err no_signed_value
validate_payload ValueType.sint32 (Payload.signed_value _) = ok tt
validate_payload ValueType.sint32 _ = err no_signed_value
validate_payload ValueType.sint64 (Payload.signed_value _) = ok tt
validate_payload ValueType.sint64 _ = err no_signed_value
validate_payload ValueType.uint8 (Payload.unsigned_value _) = ok tt
validate_payload ValueType.uint8 _ = err no_unsigned_value
validate_payload ValueType.uint16 (Payload.unsigned_value _) = ok tt
validate_payload ValueType.uint16 _ = err no_unsigned_value
validate_payload ValueType.uint32 (Payload.unsigned_value _) = ok tt
validate_payload ValueType.uint32 _ = err no_unsigned_value
validate_payload ValueType.uint64 (Payload.unsigned_value _) = ok tt
validate_payload ValueType.uint64 _ = err no_unsigned_value
validate_payload ValueType.bool (Payload.bool_value _) = ok tt
validate_payload ValueType.bool _ = err no_bool_value
validate_payload ValueType.double (Payload.double_value _) = ok tt
validate_payload ValueType.double _ = err no_double_value
validate_payload ValueType.timestamp (Payload.timestamp_value _) = ok tt
validate_payload ValueType.timestamp _ = err no_timestamp_value
validate_payload ValueType.unspecified _ = err unrecognized_value_type
validate_payload (ValueType.other _) _ = err unrecognized_value_type

unfoldable pub validate_value : Value → Check
unfolding validate_payload
validate_value v = validate_payload v.type v.payload

module _ (u : Unicode) where
  -- The test of the loop over the runes.
  abbrev pub is_word : ℕ → Bool
  is_word r = u.is_digit r || u.is_letter r || r == b'_'

  unfoldable pub validate_runes : List ℕ → Check
  validate_runes [] = ok tt
  validate_runes (r ∷ rs) =
      let rest = validate_runes rs in if is_word r then rest else err identifier_char

  -- The first test reads one byte as a rune; the loop decodes UTF-8.
  unfoldable pub validate_identifier : Bytes → Check
  unfolding validate_runes runes
  validate_identifier [] = err empty_identifier
  validate_identifier (c ∷ s) =
      if u.is_letter c || c == b'_' then validate_runes (runes (c ∷ s)) else err identifier_start

  -- An operand: the node, for the test against nil, and its check at a value of `logical`.
  abbrev pub Operand : Type 0
  Operand = Expression × (Bool → Check)

  abbrev pub require : Expression → Error → Check
  require Expression.nil e = err e
  require _ e = ok tt

  -- The five statements that every binary case shares; `missing` is its own error.
  unfoldable pub validate_binary : Option (Operand × Operand) → Error → Bool → Check
  validate_binary none missing logical = err missing
  validate_binary (some (l, r)) missing logical = do
    require l.0 lhs_missing
    require r.0 rhs_missing
    l.1 logical
    r.1 logical

  unfoldable pub validate_op :
      ExpressionType → Bytes → Option Value → Operand → Option (Operand × Operand) → Bool → Check
  unfolding validate_identifier validate_value validate_binary
  validate_op ExpressionType.identifier ident value unary ops logical = elim ident [
    | [] ↦ err identifier_missing
    | c ∷ s ↦ validate_identifier (c ∷ s)
  ]
  validate_op ExpressionType.value ident none unary ops logical = err value_missing
  validate_op ExpressionType.value ident (some v) unary ops logical = validate_value v
  validate_op ExpressionType.logical_and ident value unary ops logical =
      guard logical unexpected_logical >> validate_binary ops logical_operands_missing true
  validate_op ExpressionType.logical_or ident value unary ops logical =
      guard logical unexpected_logical >> validate_binary ops logical_operands_missing true
  validate_op ExpressionType.eq ident value unary ops logical =
      validate_binary ops comparison_operands_missing false
  validate_op ExpressionType.ne ident value unary ops logical =
      validate_binary ops comparison_operands_missing false
  validate_op ExpressionType.lt ident value unary ops logical =
      validate_binary ops comparison_operands_missing false
  validate_op ExpressionType.le ident value unary ops logical =
      validate_binary ops comparison_operands_missing false
  validate_op ExpressionType.gt ident value unary ops logical =
      validate_binary ops comparison_operands_missing false
  validate_op ExpressionType.ge ident value unary ops logical =
      validate_binary ops comparison_operands_missing false
  validate_op ExpressionType.like ident value unary ops logical =
      validate_binary ops comparison_operands_missing false
  validate_op ExpressionType.is_null ident value unary ops logical =
      require unary.0 unary_operand_missing >> unary.1 false
  validate_op ExpressionType.is_not_null ident value unary ops logical =
      require unary.0 unary_operand_missing >> unary.1 false
  validate_op ExpressionType.bitwise_and ident value unary ops logical =
      validate_binary ops bitwise_operands_missing false
  validate_op ExpressionType.unspecified ident value unary ops logical =
      err unrecognized_expression_type
  validate_op (ExpressionType.other _) ident value unary ops logical =
      err unrecognized_expression_type

  -- What `GetUnaryOp` gives where no unary operand is set.
  abbrev pub no_operand : Operand
  no_operand = (Expression.nil, λ _. err unrecognized_expression_type)

  unfoldable pub validate_node : Expression → Bool → Check
  unfolding validate_op
  validate_node Expression.nil = validate_op ExpressionType.unspecified [] none no_operand none
  validate_node (Expression.unset t) = validate_op t [] none no_operand none
  validate_node (Expression.identifier t ident) = validate_op t ident none no_operand none
  validate_node (Expression.value t v) = validate_op t [] v no_operand none
  validate_node (Expression.unary_op t e) = validate_op t [] none (e, validate_node e) none
  validate_node (Expression.binary_op t l r) =
      validate_op t [] none no_operand (some ((l, validate_node l), (r, validate_node r)))

  unfoldable pub validate_tree : Expression → Check
  unfolding validate_node
  validate_tree e = validate_node e true
