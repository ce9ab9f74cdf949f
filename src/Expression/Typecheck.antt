-- ===== src/Expression/Typecheck.antt =====
-- `validateTypes` of pkg/expression/validate.go: the type of an expression over the declared
-- fields, or why it has none.
use mathlib.Core.Bool.{decide}
use capsule.Prelude.{[], Bool, Option, none, some}
use capsule.Prelude.Outcome.{Outcome, ok, err, panic, ◌>>=◌, ◌>>◌, guard}
use capsule.Api.Value.{Bytes, ValueType, ValueType-discrete, Value, get_type}
use capsule.Api.Expression.{ExpressionType, Expression}
use capsule.Expression.Types.{
  Error, is_value_type_integer, is_value_type_numeric, is_value_type_string, lhs_not_bool,
  rhs_not_bool, not_numeric, not_string, not_integer, type_mismatch, undefined_identifier,
}
use capsule.Expression.Fields.{FieldTypeMap}

abbrev pub Typing : Type 0
Typing = Outcome Error ValueType

abbrev pub same_type : ValueType → ValueType → Bool
same_type a b = decide (ValueType-discrete a b)

-- The `AND`/`OR` case.
unfoldable pub type_logical : Typing → Typing → Typing
unfolding ValueType-discrete
type_logical lhs rhs = do
  l ← lhs
  guard (same_type l ValueType.bool) (lhs_not_bool l)
  r ← rhs
  guard (same_type r ValueType.bool) (rhs_not_bool r)
  ok ValueType.bool

-- The other binary cases: a test of the left type before the right operand is typed, then the
-- comparison of the two types.
unfoldable pub type_binary :
    (ValueType → Bool) → (ValueType → Error) → (ValueType → ValueType) → Typing → Typing → Typing
unfolding ValueType-discrete
type_binary test fail result lhs rhs = do
  l ← lhs
  guard (test l) (fail l)
  r ← rhs
  guard (same_type l r) (type_mismatch l r)
  ok (result l)

abbrev pub to_bool : ValueType → ValueType
to_bool _ = ValueType.bool

-- `EQ` and `NE` take any type.
abbrev pub any_type : ValueType → Bool
any_type _ = Bool.true

unfoldable pub type_operands : Option (Typing × Typing) → (Typing → Typing → Typing) → Typing
type_operands none f = panic
type_operands (some (l, r)) f = f l r

unfoldable pub type_identifier : FieldTypeMap → Bytes → Typing
type_identifier types ident = elim (types ident) [
  | none ↦ err (undefined_identifier ident)
  | some t ↦ ok t
]

module _ (types : FieldTypeMap) where
  unfoldable pub type_op :
      ExpressionType → Bytes → Option Value → Typing → Option (Typing × Typing) → Typing
  unfolding type_logical type_binary type_operands type_identifier is_value_type_numeric
      is_value_type_string is_value_type_integer
  type_op ExpressionType.identifier ident value unary ops = type_identifier types ident
  type_op ExpressionType.value ident value unary ops = ok (get_type value)
  type_op ExpressionType.logical_and ident value unary ops = type_operands ops type_logical
  type_op ExpressionType.logical_or ident value unary ops = type_operands ops type_logical
  type_op ExpressionType.eq ident value unary ops =
      type_operands ops (type_binary any_type not_numeric to_bool)
  type_op ExpressionType.ne ident value unary ops =
      type_operands ops (type_binary any_type not_numeric to_bool)
  type_op ExpressionType.lt ident value unary ops =
      type_operands ops (type_binary is_value_type_numeric not_numeric to_bool)
  type_op ExpressionType.le ident value unary ops =
      type_operands ops (type_binary is_value_type_numeric not_numeric to_bool)
  type_op ExpressionType.gt ident value unary ops =
      type_operands ops (type_binary is_value_type_numeric not_numeric to_bool)
  type_op ExpressionType.ge ident value unary ops =
      type_operands ops (type_binary is_value_type_numeric not_numeric to_bool)
  type_op ExpressionType.like ident value unary ops =
      type_operands ops (type_binary is_value_type_string not_string to_bool)
  type_op ExpressionType.is_null ident value unary ops = do _ ← unary; ok ValueType.bool
  type_op ExpressionType.is_not_null ident value unary ops = do _ ← unary; ok ValueType.bool
  type_op ExpressionType.bitwise_and ident value unary ops =
      type_operands ops (type_binary is_value_type_integer not_integer (λ t. t))
  type_op ExpressionType.unspecified ident value unary ops = ok ValueType.unspecified
  type_op (ExpressionType.other _) ident value unary ops = ok ValueType.unspecified

  -- An expression of no known type is given the unspecified type, without an error.
  unfoldable pub validate_types : Expression → Typing
  unfolding type_op
  validate_types Expression.nil = ok ValueType.unspecified
  validate_types (Expression.unset t) = type_op t [] none (ok ValueType.unspecified) none
  validate_types (Expression.identifier t ident) =
      type_op t ident none (ok ValueType.unspecified) none
  validate_types (Expression.value t v) = type_op t [] v (ok ValueType.unspecified) none
  validate_types (Expression.unary_op t e) = type_op t [] none (validate_types e) none
  validate_types (Expression.binary_op t l r) =
      type_op t [] none (ok ValueType.unspecified) (some (validate_types l, validate_types r))
