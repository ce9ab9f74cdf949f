-- ===== src/Expression/Build.antt =====
-- The constructors of pkg/expression/expression.go.
use capsule.Api.Value.{Bytes}
use capsule.Api.Expression.{ExpressionType, Expression}
use capsule.Expression.Value.{Native, new_value}

unfoldable pub identifier : Bytes → Expression
identifier name = Expression.identifier ExpressionType.identifier name

unfoldable pub value : Native → Expression
unfolding new_value
value i = Expression.value ExpressionType.value (new_value i)

unfoldable pub is_null : Expression → Expression
is_null e = Expression.unary_op ExpressionType.is_null e

unfoldable pub is_not_null : Expression → Expression
is_not_null e = Expression.unary_op ExpressionType.is_not_null e

unfoldable pub new_binary_expr : ExpressionType → Expression → Expression → Expression
new_binary_expr op lhs rhs = Expression.binary_op op lhs rhs

-- If either side is nil, the other is returned.
join : ExpressionType → Expression → Expression → Expression
unfolding new_binary_expr
join op Expression.nil rhs = rhs
join op lhs Expression.nil = lhs
join op lhs rhs = new_binary_expr op lhs rhs

unfoldable pub logical_and : Expression → Expression → Expression
unfolding join
logical_and = join ExpressionType.logical_and

unfoldable pub logical_or : Expression → Expression → Expression
unfolding join
logical_or = join ExpressionType.logical_or

unfoldable pub bitwise_and : Expression → Expression → Expression
unfolding new_binary_expr
bitwise_and = new_binary_expr ExpressionType.bitwise_and

unfoldable pub equal : Expression → Expression → Expression
unfolding new_binary_expr
equal = new_binary_expr ExpressionType.eq

unfoldable pub not_equal : Expression → Expression → Expression
unfolding new_binary_expr
not_equal = new_binary_expr ExpressionType.ne

unfoldable pub less_than : Expression → Expression → Expression
unfolding new_binary_expr
less_than = new_binary_expr ExpressionType.lt

unfoldable pub less_than_equal_to : Expression → Expression → Expression
unfolding new_binary_expr
less_than_equal_to = new_binary_expr ExpressionType.le

unfoldable pub greater_than : Expression → Expression → Expression
unfolding new_binary_expr
greater_than = new_binary_expr ExpressionType.gt

unfoldable pub greater_than_equal_to : Expression → Expression → Expression
unfolding new_binary_expr
greater_than_equal_to = new_binary_expr ExpressionType.ge

unfoldable pub like : Expression → Expression → Expression
unfolding new_binary_expr
like = new_binary_expr ExpressionType.like
