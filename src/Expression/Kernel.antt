-- ===== src/Expression/Kernel.antt =====
-- The kernel filter check of pkg/expression/validate.go: `validateBitwiseAnd`,
-- `validateKernelFilterNode` and `validateKernelFilterTree`.
use capsule.Prelude.{Bool, true, false, ◌&&◌, Option, none, some, ◌==◌, if◌then◌else◌}
use capsule.Prelude.Int.{pos, eqb_ℤ}
use capsule.Prelude.Outcome.{ok, err, panic, ◌>>◌, guard}
use capsule.Api.Value.{ValueType, Value, get_type, get_signed_value, get_unsigned_value}
use capsule.Api.Expression.{ExpressionType, Expression, get_value, get_type as node_type}
use capsule.Expression.Types.{
  Error, is_value_type_integer, is_value_type_string, bitwise_lhs, bitwise_rhs, kernel_value_type,
  comparison_lhs, comparison_rhs, bitwise_compare_zero, comparison_rhs_integer,
  comparison_rhs_string, invalid_expression_type,
}
use capsule.Expression.Validate.{Check}

abbrev pub is_identifier_type : ExpressionType → Bool
is_identifier_type ExpressionType.identifier = true
is_identifier_type _ = false

abbrev pub is_value_node : ExpressionType → Bool
is_value_node ExpressionType.value = true
is_value_node _ = false

abbrev pub is_bitwise_type : ExpressionType → Bool
is_bitwise_type ExpressionType.bitwise_and = true
is_bitwise_type _ = false

-- The type of the value that a node holds, the unspecified one for a nil value.
abbrev pub held_type : Expression → ValueType
held_type e = get_type (get_value e)

-- The types that the `VALUE` case lets through.
unfoldable pub validate_kernel_value : ValueType → Check
unfolding is_value_type_integer is_value_type_string
validate_kernel_value t =
    if is_value_type_string t
    then ok tt
    else if is_value_type_integer t
    then ok tt
    else err kernel_value_type

-- A node, with its own results: of `validateKernelFilterNode` and of `validateBitwiseAnd`.
abbrev pub Operand : Type 0
Operand = record { node : Expression; filter : Check; bitwise : Check }

-- `validateBitwiseAnd` over the operands.
unfoldable pub bitwise_check : Operand → Operand → Check
unfolding is_value_type_integer
bitwise_check l r = do
  guard (is_identifier_type (node_type l.node)) bitwise_lhs
  guard (is_value_node (node_type r.node) && is_value_type_integer (held_type r.node)) bitwise_rhs
  l.filter
  r.filter

-- `validateKernelFilterTree` of an operand.
unfoldable pub tree_check : Operand → Check
tree_check e = if is_bitwise_type (node_type e.node) then e.bitwise else e.filter

-- A comparison of an identifier with a value whose type passes `test`.
unfoldable pub compare_check : (ValueType → Bool) → Error → Operand → Operand → Check
compare_check test fail l r = do
  guard (is_identifier_type (node_type l.node)) comparison_lhs
  guard (is_value_node (node_type r.node) && test (held_type r.node)) fail
  l.filter
  r.filter

-- The switch on the right value's type in the `NE` case.
unfoldable pub is_integer_zero : Option Value → Bool
is_integer_zero none = false
is_integer_zero (some v) = zero_of v.type
  where
    zero_of : ValueType → Bool
    zero_of ValueType.sint8 = eqb_ℤ (get_signed_value v.payload) (pos 0)
    zero_of ValueType.sint16 = eqb_ℤ (get_signed_value v.payload) (pos 0)
    zero_of ValueType.sint32 = eqb_ℤ (get_signed_value v.payload) (pos 0)
    zero_of ValueType.sint64 = eqb_ℤ (get_signed_value v.payload) (pos 0)
    zero_of ValueType.uint8 = get_unsigned_value v.payload == 0
    zero_of ValueType.uint16 = get_unsigned_value v.payload == 0
    zero_of ValueType.uint32 = get_unsigned_value v.payload == 0
    zero_of ValueType.uint64 = get_unsigned_value v.payload == 0
    zero_of _ = false

unfoldable pub not_equal_check : Operand → Operand → Check
unfolding compare_check is_integer_zero
not_equal_check l r =
    if is_bitwise_type (node_type l.node)
    then (do
      l.bitwise
      guard (is_value_node (node_type r.node)) bitwise_compare_zero
      guard (is_integer_zero (get_value r.node)) bitwise_compare_zero)
    else compare_check (λ _. true) comparison_rhs l r

unfoldable pub kernel_operands : Option (Operand × Operand) → (Operand → Operand → Check) → Check
kernel_operands none f = panic
kernel_operands (some (l, r)) f = f l r

unfoldable pub kernel_op : ExpressionType → Option Value → Option (Operand × Operand) → Check
unfolding validate_kernel_value kernel_operands tree_check compare_check not_equal_check
    is_value_type_integer is_value_type_string
kernel_op ExpressionType.identifier value ops = ok tt
kernel_op ExpressionType.value value ops = validate_kernel_value (get_type value)
kernel_op ExpressionType.logical_and value ops =
    kernel_operands ops (λ l r. tree_check l >> tree_check r)
kernel_op ExpressionType.logical_or value ops =
    kernel_operands ops (λ l r. tree_check l >> tree_check r)
kernel_op ExpressionType.eq value ops =
    kernel_operands ops (compare_check (λ _. true) comparison_rhs)
kernel_op ExpressionType.ne value ops = kernel_operands ops not_equal_check
kernel_op ExpressionType.lt value ops =
    kernel_operands ops (compare_check is_value_type_integer comparison_rhs_integer)
kernel_op ExpressionType.le value ops =
    kernel_operands ops (compare_check is_value_type_integer comparison_rhs_integer)
kernel_op ExpressionType.gt value ops =
    kernel_operands ops (compare_check is_value_type_integer comparison_rhs_integer)
kernel_op ExpressionType.ge value ops =
    kernel_operands ops (compare_check is_value_type_integer comparison_rhs_integer)
kernel_op ExpressionType.like value ops =
    kernel_operands ops (compare_check is_value_type_string comparison_rhs_string)
kernel_op _ value ops = err invalid_expression_type

-- Both checks of a node. `validateBitwiseAnd` reads the operands of whatever node it is given.
unfoldable pub kernel_node : Expression → Operand
unfolding kernel_op bitwise_check kernel_operands
kernel_node (Expression.binary_op t l r) =
    let ops = some (kernel_node l, kernel_node r) in
    record {
      node = Expression.binary_op t l r;
      filter = kernel_op t none ops;
      bitwise = kernel_operands ops bitwise_check;
    }
kernel_node (Expression.value t v) = record {
  node = Expression.value t v;
  filter = kernel_op t v none;
  bitwise = panic;
}
kernel_node e = record { node = e; filter = kernel_op (node_type e) none none; bitwise = panic }

unfoldable pub validate_kernel_filter_node : Expression → Check
unfolding kernel_node
validate_kernel_filter_node e = (kernel_node e).filter

unfoldable pub validate_bitwise_and : Expression → Check
unfolding kernel_node
validate_bitwise_and e = (kernel_node e).bitwise

unfoldable pub validate_kernel_filter_tree : Expression → Check
unfolding kernel_node tree_check
validate_kernel_filter_tree e = tree_check (kernel_node e)
