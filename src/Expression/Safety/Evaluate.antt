-- ===== src/Expression/Safety/Evaluate.antt =====
-- The safety of `Evaluate` on an expression that `NewExpression` and `Validate` accept.
use mathlib.Core.Bool.{false≢true}
use capsule.Prelude.{◌≡◌, ◌≢◌, refl, sym, ◌∙◌, ap, ◌⊎◌, Bool, true, false, ◌||◌, none, some}
use capsule.Prelude.Outcome.{Outcome, ok, err, panic, Post, returns, fails, panics, ◌⟫◌}
use capsule.Prelude.Unicode.{Unicode}
use capsule.Api.Value.{Bytes, ValueType, Value}
use capsule.Api.Expression.{ExpressionType, Expression}
use capsule.Expression.Types.{Error, is_value_type_integer, not_integer, bitwise_mismatch}
use capsule.Expression.Validate.{validate_tree}
use capsule.Expression.Typecheck.{type_operands, type_op, validate_types}
use capsule.Expression.Fields.{FieldTypeMap, FieldValueMap}
use capsule.Expression.Evaluate.{evaluate_expression}
use capsule.Expression.Evaluate.Denote.{mean_op, meaning, evaluate_expression_refines}
use capsule.Expression.WellFormed.{
  WellFormed, identifier, value, logical, comparison, null_test, bitwise,
}
use capsule.Expression.WellFormed.Decides.{validate_tree_iff}
use capsule.Expression.Safety.Values.{HasType, Agrees}
use capsule.Expression.Safety.Nodes.{Safe, comparison-Safe, bitwise-Safe, logical_Safe, null_Safe}
use capsule.Expression.Safety.Typing.{type_binary_inv, HasStamp, literal_HasType, field_Safe}
use capsule.Expression.Safety.Inversion.{
  comparison_type, logical_type, null_type, identifier_type, ok_injective, null_meaning,
  comparison_meaning, logical_meaning,
}

-- Whether some node of the tree has a type that `test` accepts.
unfoldable pub uses : (ExpressionType → Bool) → Expression → Bool
uses test Expression.nil = false
uses test (Expression.unset t) = test t
uses test (Expression.identifier t _) = test t
uses test (Expression.value t _) = test t
uses test (Expression.unary_op t e) = test t || uses test e
uses test (Expression.binary_op t l r) = test t || (uses test l || uses test r)

abbrev pub is_like : ExpressionType → Bool
is_like ExpressionType.like = true
is_like _ = false

abbrev pub is_bitwise : ExpressionType → Bool
is_bitwise ExpressionType.bitwise_and = true
is_bitwise _ = false

-- Every literal timestamp of the tree has its pointer set.
abbrev pub Stamped : Expression → Type 0
Stamped (Expression.value _ (some v)) = HasStamp v.payload
Stamped (Expression.unary_op _ e) = Stamped e
Stamped (Expression.binary_op _ l r) = Stamped l × Stamped r
Stamped _ = Unit

or_left : (a b : Bool) → a ≡ true → (a || b) ≡ true
or_left a b e = rw e

or_right : (a b : Bool) → b ≡ true → (a || b) ≡ true
or_right true b e = refl
or_right false b e = e

-- The rules of a tree that has the failures `Q` and `R` at its `&` and `LIKE` nodes only.
module _ (Null : Type 0) (Q : Error → Type 0) (R : Type 0) (u : Unicode) (types : FieldTypeMap)
    (values : FieldValueMap) (agree : Agrees types values)
    (absent : (ident : Bytes) (t : ValueType)
      → types ident ≡ some t
      → values ident ≡ none
      → Null) where
  -- What the nodes of a tree allow to go wrong.
  abbrev Allows : Expression → Type 0
  Allows e =
      (uses is_like e ≡ true → R)
      × (uses is_bitwise e ≡ true
          → Null
          → (a b : ValueType) → (a ≡ ValueType.unspecified) ⊎ (b ≡ ValueType.unspecified)
          → Q (bitwise_mismatch a b))

  left : (t : ExpressionType) (l r : Expression) → Allows (Expression.binary_op t l r) → Allows l
  unfolding uses
  left t l r h = (
    (λ p. h.0 (or_right _ _ (or_left _ (uses is_like r) p))),
    (λ p. h.1 (or_right (is_bitwise t) _ (or_left _ (uses is_bitwise r) p))),
  )

  right : (t : ExpressionType) (l r : Expression) → Allows (Expression.binary_op t l r) → Allows r
  unfolding uses
  right t l r h = (
    (λ p. h.0 (or_right (is_like t) _ (or_right (uses is_like l) _ p))),
    (λ p. h.1 (or_right (is_bitwise t) _ (or_right (uses is_bitwise l) _ p))),
  )

  under : (t : ExpressionType) (e : Expression) → Allows (Expression.unary_op t e) → Allows e
  unfolding uses
  under t e h = ((λ p. h.0 (or_right (is_like t) _ p)), (λ p. h.1 (or_right (is_bitwise t) _ p)))

  safe :
      {b : Bool} {e : Expression} {t : ValueType}
      → WellFormed u b e
      → Stamped e
      → Allows e
      → validate_types types e ≡ ok t
      → Safe Null Q R t (meaning types values e)
  unfolding validate_types meaning type_op mean_op type_operands uses
  safe (identifier {ident} _) s a h =
      let q = identifier_type types ident h in
      field_Safe Null Q R types values ident _ agree (absent ident _ q) q
  safe (value {v} p) s a h = rw (ok_injective (sym h)) (returns (literal_HasType Null Q R v p s))
  safe (logical {op} {l} {r} p q wl wr) s a h =
      let (hl, hr, e) = logical_type types op _ _ p h in
      let (stop, m) =
        logical_meaning types values (meaning types values l) (meaning types values r) op p in
      rw (e, m)
        (logical_Safe Null Q R stop _ _ (safe wl s.0 (left op l r a) hl)
          (safe wr s.1 (right op l r a) hr))
  safe (comparison {op} {l} {r} c wl wr) s a h =
      let (k, hl, hr, c', e) = comparison_type types op _ _ c h in
      rw (e, comparison_meaning types values (meaning types values l) (meaning types values r) op c)
        (safe wl s.0 (left op l r a) hl ⟫ λ v hv. safe wr s.1 (right op l r a) hr ⟫ λ w hw.
          comparison-Safe Null Q R op k v w c' (λ p. a.0 (or_left _ _ (ap is_like p))) hv hw)
  safe (null_test {op} {e = d} p w) s a h =
      let (k, hd, e) = null_type types op _ p h in
      let (f, m) = null_meaning types values (meaning types values d) op p in
      rw (e, m) (null_Safe Null Q R f k _ (safe w s (under op d a) hd))
  safe (bitwise {l} {r} wl wr) s a h =
      let (k, hl, hr, i, e) = type_binary_inv is_value_type_integer not_integer (λ t. t) _ _ h in
      rw e (
        safe wl s.0 (left ExpressionType.bitwise_and l r a) hl ⟫ λ v hv.
        safe wr s.1 (right ExpressionType.bitwise_and l r a) hr ⟫ λ w hw.
        bitwise-Safe Null Q R k v w i (a.1 refl) hv hw)

module _ (u : Unicode) (e : Expression) (types : FieldTypeMap) (values : FieldValueMap)
    (t : ValueType) (accepted : validate_tree u e ≡ ok tt) (typed : validate_types types e ≡ ok t)
    (stamped : Stamped e) (agree : Agrees types values) where
  -- `Evaluate` on an expression that `NewExpression` accepts and `Validate` gives the type `t`, where
  -- each field's value has the field's Go type and literal timestamps are set: the result is a value
  -- of type `t` or NULL; or the error of a `&` node with a NULL operand, in an expression that uses
  -- `&`; or a panic, in one that uses LIKE.
  pub evaluate_expression_outcome :
      Post
        (HasType (Unit {0}) t)
        (λ x.
          (uses is_bitwise e ≡ true)
          × (a : ValueType) × (b : ValueType) × (x ≡ bitwise_mismatch a b)
          × ((a ≡ ValueType.unspecified) ⊎ (b ≡ ValueType.unspecified)))
        (uses is_like e ≡ true)
        (evaluate_expression e types values)
  evaluate_expression_outcome = rw (evaluate_expression_refines types values e) (
      safe Unit _ _ u types values agree (λ _ _ _ _. tt) ((validate_tree_iff u e).0 accepted)
        stamped ((λ p. p), (λ p _ a b q. (p, a, b, refl, q))) typed)

  -- `Evaluate` on an expression that `NewExpression` accepts and `Validate` gives the type `t`,
  -- where each field's value has the field's Go type, literal timestamps are set, no LIKE is
  -- used and every declared field has a value, returns a value, and its type is `t`.
  pub evaluate_expression_total :
      uses is_like e ≡ false
      → ((ident : Bytes) (s : ValueType) → types ident ≡ some s → values ident ≢ none)
      → (v : Value) × (evaluate_expression e types values ≡ ok v) × (v.type ≡ t)
  evaluate_expression_total no_like present = result (evaluate_expression e types values) (
      rw (evaluate_expression_refines types values e) (
        safe ⊥ (λ _. ⊥) ⊥ u types values agree present ((validate_tree_iff u e).0 accepted) stamped
          ((λ p. false≢true (sym no_like ∙ p)), (λ _ n. absurd n)) typed))
    where
      result :
          (d : Outcome Error Value)
          → Post (HasType ⊥ t) (λ _. ⊥) ⊥ d
          → (v : Value) × (d ≡ ok v) × (v.type ≡ t)
      result (ok v) (returns (HasType.typed q k s)) = (v, refl, q)
      result (ok v) (returns (HasType.null n q)) = absurd n
      result (err e) (fails q) = absurd q
      result panic (panics q) = absurd q
