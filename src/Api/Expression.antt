-- ===== src/Api/Expression.antt =====
-- `Expression` and `BinaryOp` of api/v0/expression.pb.go.
use capsule.Prelude.{ℕ, [], Option, none, some}
use capsule.Api.Value.{Bytes, Value}

-- `Expression_ExpressionType`; `other` holds the numbers that name no constant.
pub data ExpressionType : Type 0 where
  unspecified identifier value : ExpressionType
  logical_and logical_or : ExpressionType
  eq ne lt le gt ge like : ExpressionType
  is_null is_not_null : ExpressionType
  bitwise_and : ExpressionType
  other : ℕ → ExpressionType

-- A `*Expression`. Beside `nil` there is one constructor for each variant of the oneof `expr`, and
-- each carries the field `Type`, which the sender sets independently of the variant. A wrapper that
-- holds a nil pointer to a `BinaryOp` reads like `unset`.
pub data Expression : Type 0 where
  nil : Expression
  unset : ExpressionType → Expression
  identifier : ExpressionType → Bytes → Expression
  value : ExpressionType → Option Value → Expression
  unary_op : ExpressionType → Expression → Expression
  binary_op : ExpressionType → Expression → Expression → Expression

abbrev pub get_type : Expression → ExpressionType
get_type Expression.nil = ExpressionType.unspecified
get_type (Expression.unset t) = t
get_type (Expression.identifier t _) = t
get_type (Expression.value t _) = t
get_type (Expression.unary_op t _) = t
get_type (Expression.binary_op t _ _) = t

abbrev pub get_identifier : Expression → Bytes
get_identifier (Expression.identifier _ s) = s
get_identifier _ = []

abbrev pub get_value : Expression → Option Value
get_value (Expression.value _ v) = v
get_value _ = none

abbrev pub get_unary_op : Expression → Expression
get_unary_op (Expression.unary_op _ e) = e
get_unary_op _ = Expression.nil

abbrev pub get_binary_op : Expression → Option (Expression × Expression)
get_binary_op (Expression.binary_op _ l r) = some (l, r)
get_binary_op _ = none
