-- ===== src/Expression/Safety/Nodes.antt =====
-- Each operator keeps the types of its operands: the rules from which the safety of a whole
-- expression is put together. A section's parameters say what may go wrong: `Null` that a field has
-- no value, `R` that a panic occurs, `Q` which errors occur.
use mathlib.Core.Bool.{decide}
use capsule.Prelude.{◌≡◌, refl, sym, ◌≢◌, ◌⊎◌, Bool, true, false, Bool-cases, inl, inr, ◌∙◌, ap}
use capsule.Prelude.Outcome.{ok, Post, returns, fails, ◌⟫◌}
use capsule.Api.Value.{ValueType, ValueType-discrete, Payload, Value}
use capsule.Api.Expression.{ExpressionType}
use capsule.Expression.Types.{Error, is_value_type_integer, bitwise_mismatch}
use capsule.Expression.Value.{is_value_true}
use capsule.Expression.Compare.{Kind, kind}
use capsule.Expression.Operators.{is_null_type, bool_value, comparison, bitwise, and_payload}
use capsule.Expression.Evaluate.{stops}
use capsule.Expression.Evaluate.Denote.{Meaning, mean_logical, mean_null}
use capsule.Expression.Safety.Values.{
  Readable, HasType, typed, null, same_type_eq, eq_of_same_type, not_null, is_value_true_total,
}
use capsule.Expression.Safety.Comparisons.{allows, if_Post, compare_op-Post}

-- The types of two values agree.
abbrev same : Value → Value → Bool
same l r = decide (ValueType-discrete l.type r.type)

unspecified_kind : kind ValueType.unspecified ≡ Kind.unknown
unfolding kind
unspecified_kind = refl

module _ (Null : Type 0) (Q : Error → Type 0) (R : Type 0) where
  -- A meaning that has a value of type `t`, but for the failures allowed.
  abbrev pub Safe : ValueType → Meaning → Type 0
  Safe t d = Post (HasType Null t) Q R d

  bool_HasType : (b : Bool) → HasType Null ValueType.bool (bool_value b)
  unfolding kind
  bool_HasType b = typed refl (λ e. cc) (λ e. cc)

  null_left :
      (op : ExpressionType) (l r : Value)
      → l.type ≡ ValueType.unspecified
      → Safe ValueType.bool (comparison op l r)
  unfolding comparison is_null_type
  null_left op l r e = rw e (returns (bool_HasType false))

  null_right :
      (op : ExpressionType) (l r : Value)
      → r.type ≡ ValueType.unspecified
      → Safe ValueType.bool (comparison op l r)
  unfolding comparison is_null_type
  null_right op l r e = elim (Bool-cases (is_null_type l.type)) [
    | inl n ↦ rw n (returns (bool_HasType false))
    | inr n ↦ rw (n, e) (returns (bool_HasType false))
  ]

  both_typed :
      (op : ExpressionType) (l r : Value)
      → allows op l.type ≡ true
      → kind l.type ≢ Kind.unknown
      → l.type ≡ r.type
      → Readable l
      → Readable r
      → (op ≡ ExpressionType.like → R)
      → Safe ValueType.bool (comparison op l r)
  unfolding comparison
  both_typed op l r a k e sl sr h =
      rw (not_null l.type k, not_null r.type (λ p. k (ap kind e ∙ p)), same_type_eq l.type r.type e)
        (compare_op-Post op l r a k e sl sr h ⟫ λ b _. returns (bool_HasType b))

  -- A comparison of two operands of a type that it allows.
  pub comparison-Safe :
      (op : ExpressionType) (t : ValueType) (l r : Value)
      → allows op t ≡ true
      → (op ≡ ExpressionType.like → R)
      → HasType Null t l
      → HasType Null t r
      → Safe ValueType.bool (comparison op l r)
  comparison-Safe op t l r a h (null _ e) q = null_left op l r e
  comparison-Safe op t l r a h (typed e k s) (null _ e') = null_right op l r e'
  comparison-Safe op t l r a h (typed e k s) (typed e' k' s') =
      both_typed op l r (rw e a) (λ p. k (ap kind (sym e) ∙ p)) (e ∙ sym e') s s' h

  and_total :
      (t u : ValueType) (l r : Payload)
      → is_value_type_integer t ≡ true
      → (p : Payload) × (and_payload (kind t) u l r ≡ ok p)
  unfolding and_payload kind is_value_type_integer
  and_total ValueType.unspecified u l r h = cc
  and_total ValueType.string u l r h = cc
  and_total ValueType.bool u l r h = cc
  and_total ValueType.double u l r h = cc
  and_total ValueType.timestamp u l r h = cc
  and_total (ValueType.other _) u l r h = cc
  and_total t u l r h = (_, refl)

  integer_not_stamp : (t : ValueType) → is_value_type_integer t ≡ true → kind t ≢ Kind.stamp
  unfolding kind is_value_type_integer
  integer_not_stamp ValueType.timestamp h e = cc
  integer_not_stamp t h e = cc

  bitwise_mismatch_Safe :
      (t : ValueType) (l r : Value)
      → decide (ValueType-discrete l.type r.type) ≡ false
      → Q (bitwise_mismatch l.type r.type)
      → Safe t (bitwise l r)
  unfolding bitwise
  bitwise_mismatch_Safe t l r e q = rw e (fails q)

  bitwise_null :
      (t : ValueType) (l r : Value)
      → decide (ValueType-discrete l.type r.type) ≡ true
      → Null
      → l.type ≡ ValueType.unspecified
      → Safe t (bitwise l r)
  unfolding bitwise and_payload kind
  bitwise_null t l r e n p = rw e (rw p (returns (null n refl)))

  bitwise_typed :
      (t : ValueType) (l r : Value)
      → is_value_type_integer t ≡ true
      → l.type ≡ t
      → r.type ≡ t
      → kind t ≢ Kind.unknown
      → Safe t (bitwise l r)
  unfolding bitwise
  bitwise_typed t l r i e e' k =
      let (p, q) = and_total l.type l.type l.payload r.payload (rw e i) in
      rw (same_type_eq l.type r.type (e ∙ sym e'), q)
        (returns (typed e k (λ s. absurd (integer_not_stamp l.type (rw e i) s))))

  -- `&` on two operands of an integer type.
  pub bitwise-Safe :
      (t : ValueType) (l r : Value)
      → is_value_type_integer t ≡ true
      → (Null
          → (a b : ValueType) → (a ≡ ValueType.unspecified) ⊎ (b ≡ ValueType.unspecified)
          → Q (bitwise_mismatch a b))
      → HasType Null t l
      → HasType Null t r
      → Safe t (bitwise l r)
  bitwise-Safe t l r i h (typed e k s) (typed e' k' s') = bitwise_typed t l r i e e' k
  bitwise-Safe t l r i h (typed e k s) (null n p) = elim (Bool-cases (same l r)) [
    | inl q ↦ absurd (k (ap kind (sym e ∙ eq_of_same_type l.type r.type q ∙ p) ∙ unspecified_kind))
    | inr q ↦ bitwise_mismatch_Safe t l r q (h n l.type r.type (inr p))
  ]
  bitwise-Safe t l r i h (null n p) q = elim (Bool-cases (same l r)) [
    | inl q ↦ bitwise_null t l r q n p
    | inr q ↦ bitwise_mismatch_Safe t l r q (h n l.type r.type (inl p))
  ]

  -- A truth value or NULL has a truth value.
  truth_total : (v : Value) → HasType Null ValueType.bool v → (b : Bool) × (is_value_true v ≡ ok b)
  truth_total v (typed e k s) = is_value_true_total v s
  truth_total v (null n e) = is_value_true_total v (λ p. cc (p, ap kind e, unspecified_kind))

  -- A logical node over operands of type BOOL.
  pub logical_Safe :
      (stop : Bool) (l r : Meaning)
      → Safe ValueType.bool l
      → Safe ValueType.bool r
      → Safe ValueType.bool (mean_logical stop l r)
  logical_Safe stop l r hl hr =
      hl ⟫ λ v hv. let (b, e) = truth_total v hv in rw e (if_Post (stops stop b) (returns hv) hr)

  pub null_Safe :
      (f : Bool → Bool) (t : ValueType) (d : Meaning)
      → Safe t d
      → Safe ValueType.bool (mean_null f d)
  null_Safe f t d h = h ⟫ λ v _. returns (bool_HasType (f (is_null_type v.type)))
