-- ===== src/Expression/WellFormed.antt =====
-- The grammar of the trees that `validateTree` of pkg/expression/validate.go accepts.
pub mod Decides
use capsule.Prelude.{
  [], ◌∷◌, ◌≡◌, refl, ◌↔◌, ◌⊎◌, inl, inr, Bool, true, false, Option, none, some, arith,
}
use capsule.Prelude.Outcome.{ok, err, ◌>>=◌, ◌>>◌, >>-eq-ok}
use capsule.Prelude.Unicode.{Unicode}
use capsule.Api.Value.{Bytes, Value}
use capsule.Api.Expression.{ExpressionType, Expression}
use capsule.Expression.Types.{
  Error, lhs_missing, rhs_missing, unary_operand_missing, logical_operands_missing,
  comparison_operands_missing, bitwise_operands_missing,
}
use capsule.Expression.Validate.{
  Check, Operand, require, validate_identifier, validate_value, validate_binary, validate_op,
  validate_node, validate_tree, no_operand,
}

unfoldable pub is_logical : ExpressionType → Bool
is_logical ExpressionType.logical_and = true
is_logical ExpressionType.logical_or = true
is_logical _ = false

unfoldable pub is_comparison : ExpressionType → Bool
is_comparison ExpressionType.eq = true
is_comparison ExpressionType.ne = true
is_comparison ExpressionType.lt = true
is_comparison ExpressionType.le = true
is_comparison ExpressionType.gt = true
is_comparison ExpressionType.ge = true
is_comparison ExpressionType.like = true
is_comparison _ = false

unfoldable pub is_null_test : ExpressionType → Bool
is_null_test ExpressionType.is_null = true
is_null_test ExpressionType.is_not_null = true
is_null_test _ = false

-- The trees with every operand in place, whose logical nodes stand under logical nodes only. The
-- index says whether a logical node may stand here.
pub data WellFormed (u : Unicode) : Bool → Expression → Type 0 where
  identifier :
      {b : Bool} {ident : Bytes}
      → validate_identifier u ident ≡ ok tt
      → WellFormed u b (Expression.identifier ExpressionType.identifier ident)
  value :
      {b : Bool} {v : Value}
      → validate_value v ≡ ok tt
      → WellFormed u b (Expression.value ExpressionType.value (some v))
  logical :
      {b : Bool} {op : ExpressionType} {l r : Expression}
      → is_logical op ≡ true
      → b ≡ true
      → WellFormed u true l
      → WellFormed u true r
      → WellFormed u b (Expression.binary_op op l r)
  comparison :
      {b : Bool} {op : ExpressionType} {l r : Expression}
      → is_comparison op ≡ true
      → WellFormed u false l
      → WellFormed u false r
      → WellFormed u b (Expression.binary_op op l r)
  null_test :
      {b : Bool} {op : ExpressionType} {e : Expression}
      → is_null_test op ≡ true
      → WellFormed u false e
      → WellFormed u b (Expression.unary_op op e)
  bitwise :
      {b : Bool} {l r : Expression}
      → WellFormed u false l
      → WellFormed u false r
      → WellFormed u b (Expression.binary_op ExpressionType.bitwise_and l r)
