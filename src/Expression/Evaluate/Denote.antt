-- ===== src/Expression/Evaluate/Denote.antt =====
-- What a node of an expression means, with no stack: a specification of `evaluateNode`, and the
-- proof that the stack machine computes it.
use capsule.Prelude.{
  [], ◌∷◌, ◌≡◌, refl, Bool, true, false, not, Option, none, some, if◌then◌else◌, Bool-cases, inl,
  inr,
}
use capsule.Prelude.Outcome.{Outcome, ok, err, panic, ◌>>=◌}
use capsule.Api.Value.{Bytes, Value}
use capsule.Api.Expression.{ExpressionType, Expression}
use capsule.Expression.Types.{Error, unreachable}
use capsule.Expression.Value.{is_value_true}
use capsule.Expression.Fields.{FieldTypeMap, FieldValueMap, lookup_identifier}
use capsule.Expression.Operators.{is_null_type, bool_value, comparison, bitwise}
use capsule.Expression.Evaluate.{
  Stack, Machine, stops, binary, logical, null_test, operands, evaluate_op, evaluate_node,
  evaluate_nil, final_value, evaluate_expression,
}

-- The value of a node, or why it has none.
abbrev pub Meaning : Type 0
Meaning = Outcome Error Value

abbrev pub mean_binary : (Value → Value → Meaning) → Meaning → Meaning → Meaning
mean_binary f lhs rhs = do l ← lhs; r ← rhs; f l r

-- The left value decides, unless it does not stop.
abbrev pub mean_logical : Bool → Meaning → Meaning → Meaning
mean_logical stop lhs rhs = do v ← lhs; b ← is_value_true v; if stops stop b then ok v else rhs

abbrev pub mean_null : (Bool → Bool) → Meaning → Meaning
mean_null f operand = do v ← operand; ok (bool_value (f (is_null_type v.type)))

abbrev pub mean_operands : Option (Meaning × Meaning) → (Meaning → Meaning → Meaning) → Meaning
mean_operands none f = panic
mean_operands (some (l, r)) f = f l r

abbrev pub mean_value : Option Value → Meaning
mean_value none = panic
mean_value (some v) = ok v

module _ (types : FieldTypeMap) (values : FieldValueMap) where
  unfoldable pub mean_op :
      ExpressionType → Bytes → Option Value → Meaning → Option (Meaning × Meaning) → Meaning
  mean_op ExpressionType.identifier ident value unary ops = lookup_identifier types values ident
  mean_op ExpressionType.value ident value unary ops = mean_value value
  mean_op ExpressionType.logical_and ident value unary ops = mean_operands ops (mean_logical false)
  mean_op ExpressionType.logical_or ident value unary ops = mean_operands ops (mean_logical true)
  mean_op ExpressionType.is_null ident value unary ops = mean_null (λ b. b) unary
  mean_op ExpressionType.is_not_null ident value unary ops = mean_null not unary
  mean_op ExpressionType.bitwise_and ident value unary ops = mean_operands ops (mean_binary bitwise)
  mean_op ExpressionType.unspecified ident value unary ops = err unreachable
  mean_op (ExpressionType.other _) ident value unary ops = err unreachable
  mean_op op ident value unary ops = mean_operands ops (mean_binary (comparison op))

  unfoldable pub meaning : Expression → Meaning
  unfolding mean_op
  meaning Expression.nil = err unreachable
  meaning (Expression.unset t) = mean_op t [] none (err unreachable) none
  meaning (Expression.identifier t ident) = mean_op t ident none (err unreachable) none
  meaning (Expression.value t v) = mean_op t [] v (err unreachable) none
  meaning (Expression.unary_op t e) = mean_op t [] none (meaning e) none
  meaning (Expression.binary_op t l r) =
      mean_op t [] none (err unreachable) (some (meaning l, meaning r))

-- `m` puts the value `d` on top of any stack and leaves what is below it.
abbrev Runs : Machine → Meaning → Type 0
Runs m d = (s : Stack) → m s ≡ (d >>= λ v. ok (v ∷ s))

binary-Runs :
    (f : Value → Value → Meaning) (ml mr : Machine) (dl dr : Meaning)
    → Runs ml dl
    → Runs mr dr
    → Runs (binary f ml mr) (mean_binary f dl dr)
unfolding binary
binary-Runs f ml mr (ok l) (ok r) hl hr s = rw (hl s, hr (l ∷ s))
binary-Runs f ml mr (ok l) (err e) hl hr s = rw (hl s, hr (l ∷ s))
binary-Runs f ml mr (ok l) panic hl hr s = rw (hl s, hr (l ∷ s))
binary-Runs f ml mr (err e) dr hl hr s = rw (hl s)
binary-Runs f ml mr panic dr hl hr s = rw (hl s)

logical-Runs :
    (stop : Bool) (ml mr : Machine) (dl dr : Meaning)
    → Runs ml dl
    → Runs mr dr
    → Runs (logical stop ml mr) (mean_logical stop dl dr)
unfolding logical
logical-Runs stop ml mr (ok v) dr hl hr s = rw (hl s) (go (is_value_true v))
  where
    go :
        (t : Outcome Error Bool)
        → (t >>= λ b. if stops stop b then ok (v ∷ s) else mr s)
          ≡ ((t >>= λ b. if stops stop b then ok v else dr) >>= λ w. ok (w ∷ s))
    go (ok b) = elim (Bool-cases (stops stop b)) [ inl e ↦ rw e | inr e ↦ rw e (hr s) ]
    go (err e) = refl
    go panic = refl
logical-Runs stop ml mr (err e) dr hl hr s = rw (hl s)
logical-Runs stop ml mr panic dr hl hr s = rw (hl s)

null_test-Runs :
    (f : Bool → Bool) (m : Machine) (d : Meaning) → Runs m d → Runs (null_test f m) (mean_null f d)
unfolding null_test
null_test-Runs f m (ok v) h s = rw (h s)
null_test-Runs f m (err e) h s = rw (h s)
null_test-Runs f m panic h s = rw (h s)

module _ (types : FieldTypeMap) (values : FieldValueMap) where
  -- A node with no `BinaryOp` runs as it means, if its unary operand does.
  leaf-Runs :
      (t : ExpressionType) (ident : Bytes) (v : Option Value) (m : Machine) (d : Meaning)
      → Runs m d
      → Runs (evaluate_op types values t ident v m none) (mean_op types values t ident v d none)
  unfolding evaluate_op mean_op operands
  leaf-Runs ExpressionType.value ident none m d h s = refl
  leaf-Runs ExpressionType.value ident (some v) m d h s = refl
  leaf-Runs ExpressionType.is_null ident v m d h s = null_test-Runs (λ b. b) m d h s
  leaf-Runs ExpressionType.is_not_null ident v m d h s = null_test-Runs not m d h s
  leaf-Runs t ident v m d h s = refl

  node-Runs :
      (t : ExpressionType) (ml mr : Machine) (dl dr : Meaning)
      → Runs ml dl
      → Runs mr dr
      → Runs
          (evaluate_op types values t [] none evaluate_nil (some (ml, mr)))
          (mean_op types values t [] none (err unreachable) (some (dl, dr)))
  unfolding evaluate_op mean_op operands
  node-Runs ExpressionType.logical_and ml mr dl dr hl hr s = logical-Runs false ml mr dl dr hl hr s
  node-Runs ExpressionType.logical_or ml mr dl dr hl hr s = logical-Runs true ml mr dl dr hl hr s
  node-Runs ExpressionType.bitwise_and ml mr dl dr hl hr s = binary-Runs bitwise ml mr dl dr hl hr s
  node-Runs ExpressionType.is_null ml mr dl dr hl hr s =
      null_test-Runs (λ b. b) evaluate_nil (err unreachable) (λ _. refl) s
  node-Runs ExpressionType.is_not_null ml mr dl dr hl hr s =
      null_test-Runs not evaluate_nil (err unreachable) (λ _. refl) s
  node-Runs ExpressionType.identifier ml mr dl dr hl hr s = refl
  node-Runs ExpressionType.value ml mr dl dr hl hr s = refl
  node-Runs ExpressionType.unspecified ml mr dl dr hl hr s = refl
  node-Runs (ExpressionType.other _) ml mr dl dr hl hr s = refl
  node-Runs t ml mr dl dr hl hr s = binary-Runs (comparison t) ml mr dl dr hl hr s

  -- For every expression and every stack, `evaluateNode` fails as the meaning of the expression
  -- fails, and otherwise pushes exactly its value and leaves the rest of the stack unchanged.
  pub evaluate_node_refines :
      (e : Expression) (s : Stack)
      → evaluate_node types values e s ≡ (meaning types values e >>= λ v. ok (v ∷ s))
  unfolding evaluate_node meaning
  evaluate_node_refines Expression.nil s = refl
  evaluate_node_refines (Expression.unset t) s = leaf-Runs t [] none _ _ (λ _. refl) s
  evaluate_node_refines (Expression.identifier t ident) s = leaf-Runs t ident none _ _ (λ _. refl) s
  evaluate_node_refines (Expression.value t v) s = leaf-Runs t [] v _ _ (λ _. refl) s
  evaluate_node_refines (Expression.unary_op t e) s =
      leaf-Runs t [] none _ _ (evaluate_node_refines e) s
  evaluate_node_refines (Expression.binary_op t l r) s =
      node-Runs t _ _ _ _ (evaluate_node_refines l) (evaluate_node_refines r) s

  -- For every expression, `evaluateExpression` returns what the expression means, with
  -- its value or its failure.
  pub evaluate_expression_refines :
      (e : Expression) → evaluate_expression e types values ≡ meaning types values e
  unfolding evaluate_expression final_value
  evaluate_expression_refines e = rw (evaluate_node_refines e []) (single (meaning types values e))
    where
      single : (d : Meaning) → ((d >>= λ v. ok (v ∷ [])) >>= final_value) ≡ d
      single (ok v) = refl
      single (err e) = refl
      single panic = refl
