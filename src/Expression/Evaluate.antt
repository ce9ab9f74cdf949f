-- ===== src/Expression/Evaluate.antt =====
-- pkg/expression/evaluate.go: `evalContext` and the stack machine of `evaluateNode`.
pub mod Denote
use capsule.Prelude.{List, [], ◌∷◌, Bool, true, false, not, Option, none, some, if◌then◌else◌}
use capsule.Prelude.Outcome.{Outcome, ok, err, panic, ◌>>=◌}
use capsule.Api.Value.{Bytes, Value}
use capsule.Api.Expression.{ExpressionType, Expression}
use capsule.Expression.Types.{Error, unreachable, empty_stack, extra_stack}
use capsule.Expression.Value.{is_value_true}
use capsule.Expression.Fields.{FieldTypeMap, FieldValueMap, lookup_identifier}
use capsule.Expression.Operators.{is_null_type, bool_value, comparison, bitwise}

-- The stack of `evalContext`, its last element first.
abbrev pub Stack : Type 0
Stack = List Value

abbrev pub Machine : Type 0
Machine = Stack → Outcome Error Stack

-- `c.stack[len(c.stack)-1]`, with the rest of the stack.
abbrev pub pop : Stack → Outcome Error (Value × Stack)
pop [] = panic
pop (v ∷ s) = ok (v, s)

-- A comparison or a `&` node: both operands are evaluated, then two values are popped.
unfoldable pub binary : (Value → Value → Outcome Error Value) → Machine → Machine → Machine
binary f lhs rhs s = do
  s₁ ← lhs s
  s₂ ← rhs s₁
  (r, s₃) ← pop s₂
  (l, s₄) ← pop s₃
  v ← f l r
  ok (v ∷ s₄)

-- Whether a logical node with the stopping value `stop` ends at a left value of truth `b`.
unfoldable pub stops : Bool → Bool → Bool
stops true b = b
stops false b = not b

-- `LOGICAL_AND` stops at a left value that is false, `LOGICAL_OR` at one that is true; the value
-- stays on the stack. Otherwise it is popped, and the right operand's value is the result.
unfoldable pub logical : Bool → Machine → Machine → Machine
unfolding is_value_true stops
logical stop lhs rhs s = do
  s₁ ← lhs s
  (v, rest) ← pop s₁
  b ← is_value_true v
  if stops stop b then ok s₁ else rhs rest

-- `IS_NULL` and `IS_NOT_NULL` overwrite the operand's value by a truth value.
unfoldable pub null_test : (Bool → Bool) → Machine → Machine
unfolding is_null_type
null_test f operand s = do
  s₁ ← operand s
  (v, rest) ← pop s₁
  ok (bool_value (f (is_null_type v.type)) ∷ rest)

-- `operands.Lhs` and `operands.Rhs`: a nil pointer is read where there is no `BinaryOp`.
unfoldable pub operands : Option (Machine × Machine) → (Machine → Machine → Machine) → Machine
operands none f s = panic
operands (some (l, r)) f s = f l r s

-- The switch of `evaluateNode` on the node's type, over what its getters return: the identifier,
-- the value, the machine of the unary operand and those of the binary operands.
unfoldable pub evaluate_op :
    FieldTypeMap
    → FieldValueMap
    → ExpressionType
    → Bytes
    → Option Value
    → Machine
    → Option (Machine × Machine)
    → Machine
unfolding lookup_identifier binary logical null_test operands comparison bitwise
evaluate_op types values ExpressionType.identifier ident value unary ops s = do
  v ← lookup_identifier types values ident
  ok (v ∷ s)
evaluate_op types values ExpressionType.value ident none unary ops s = panic
evaluate_op types values ExpressionType.value ident (some v) unary ops s = ok (v ∷ s)
evaluate_op types values ExpressionType.logical_and ident value unary ops s =
    operands ops (logical false) s
evaluate_op types values ExpressionType.logical_or ident value unary ops s =
    operands ops (logical true) s
evaluate_op types values ExpressionType.eq ident value unary ops s =
    operands ops (binary (comparison ExpressionType.eq)) s
evaluate_op types values ExpressionType.ne ident value unary ops s =
    operands ops (binary (comparison ExpressionType.ne)) s
evaluate_op types values ExpressionType.lt ident value unary ops s =
    operands ops (binary (comparison ExpressionType.lt)) s
evaluate_op types values ExpressionType.le ident value unary ops s =
    operands ops (binary (comparison ExpressionType.le)) s
evaluate_op types values ExpressionType.gt ident value unary ops s =
    operands ops (binary (comparison ExpressionType.gt)) s
evaluate_op types values ExpressionType.ge ident value unary ops s =
    operands ops (binary (comparison ExpressionType.ge)) s
evaluate_op types values ExpressionType.like ident value unary ops s =
    operands ops (binary (comparison ExpressionType.like)) s
evaluate_op types values ExpressionType.is_null ident value unary ops s = null_test (λ b. b) unary s
evaluate_op types values ExpressionType.is_not_null ident value unary ops s = null_test not unary s
evaluate_op types values ExpressionType.bitwise_and ident value unary ops s =
    operands ops (binary bitwise) s
evaluate_op types values ExpressionType.unspecified ident value unary ops s = err unreachable
evaluate_op types values (ExpressionType.other _) ident value unary ops s = err unreachable

-- A nil node has the unspecified type, which no case takes.
abbrev pub evaluate_nil : Machine
evaluate_nil s = err unreachable

unfoldable pub evaluate_node : FieldTypeMap → FieldValueMap → Expression → Machine
unfolding evaluate_op
evaluate_node types values Expression.nil = evaluate_nil
evaluate_node types values (Expression.unset t) =
    evaluate_op types values t [] none evaluate_nil none
evaluate_node types values (Expression.identifier t ident) =
    evaluate_op types values t ident none evaluate_nil none
evaluate_node types values (Expression.value t v) =
    evaluate_op types values t [] v evaluate_nil none
evaluate_node types values (Expression.unary_op t e) =
    evaluate_op types values t [] none (evaluate_node types values e) none
evaluate_node types values (Expression.binary_op t l r) =
    evaluate_op types values t [] none evaluate_nil
      (some (evaluate_node types values l, evaluate_node types values r))

-- The checks on the final stack.
unfoldable pub final_value : Stack → Outcome Error Value
final_value [] = err empty_stack
final_value (v ∷ []) = ok v
final_value (v ∷ _ ∷ _) = err extra_stack

unfoldable pub evaluate_expression : Expression → FieldTypeMap → FieldValueMap → Outcome Error Value
unfolding evaluate_node final_value
evaluate_expression e types values = do s ← evaluate_node types values e []; final_value s
