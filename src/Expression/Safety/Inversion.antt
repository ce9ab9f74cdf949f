-- ===== src/Expression/Safety/Inversion.antt =====
-- What the acceptance of a node by `validateTypes` says of its operands, and what the node then means.
use capsule.Prelude.{◌≡◌, refl, Bool, true, false, not, none, some, arith, []}
use capsule.Prelude.Outcome.{ok, err, panic}
use capsule.Api.Value.{Bytes, ValueType}
use capsule.Api.Expression.{ExpressionType}
use capsule.Expression.Types.{
  is_value_type_numeric, is_value_type_string, not_numeric, not_string, unreachable,
}
use capsule.Expression.Operators
use capsule.Expression.Typecheck.{
  Typing, any_type, to_bool, type_operands, type_identifier, type_op,
}
use capsule.Expression.Fields.{FieldTypeMap, FieldValueMap}
use capsule.Expression.Evaluate.Denote.{Meaning, mean_op, mean_binary, mean_logical, mean_null}
use capsule.Expression.WellFormed.{is_comparison, is_logical, is_null_test}
use capsule.Expression.Safety.Comparisons.{allows}
use capsule.Expression.Safety.Typing.{type_binary_inv, type_logical_inv}

-- `validateTypes` on an accepted comparison: both operands have one type, which it allows.
pub comparison_type :
    (types : FieldTypeMap) (op : ExpressionType) (l r : Typing) {t : ValueType}
    → is_comparison op ≡ true
    → type_op types op [] none (ok ValueType.unspecified) (some (l, r)) ≡ ok t
    → (s : ValueType) × (l ≡ ok s) × (r ≡ ok s) × (allows op s ≡ true) × (t ≡ ValueType.bool)
unfolding type_op type_operands is_comparison allows
comparison_type types ExpressionType.eq l r c h = type_binary_inv any_type not_numeric to_bool l r h
comparison_type types ExpressionType.ne l r c h = type_binary_inv any_type not_numeric to_bool l r h
comparison_type types ExpressionType.lt l r c h =
    type_binary_inv is_value_type_numeric not_numeric to_bool l r h
comparison_type types ExpressionType.le l r c h =
    type_binary_inv is_value_type_numeric not_numeric to_bool l r h
comparison_type types ExpressionType.gt l r c h =
    type_binary_inv is_value_type_numeric not_numeric to_bool l r h
comparison_type types ExpressionType.ge l r c h =
    type_binary_inv is_value_type_numeric not_numeric to_bool l r h
comparison_type types ExpressionType.like l r c h =
    type_binary_inv is_value_type_string not_string to_bool l r h
comparison_type types op l r c h = cc

pub logical_type :
    (types : FieldTypeMap) (op : ExpressionType) (l r : Typing) {t : ValueType}
    → is_logical op ≡ true
    → type_op types op [] none (ok ValueType.unspecified) (some (l, r)) ≡ ok t
    → (l ≡ ok ValueType.bool) × (r ≡ ok ValueType.bool) × (t ≡ ValueType.bool)
unfolding type_op type_operands is_logical
logical_type types ExpressionType.logical_and l r c h = type_logical_inv l r h
logical_type types ExpressionType.logical_or l r c h = type_logical_inv l r h
logical_type types op l r c h = cc

pub null_type :
    (types : FieldTypeMap) (op : ExpressionType) (d : Typing) {t : ValueType}
    → is_null_test op ≡ true
    → type_op types op [] none d none ≡ ok t
    → (s : ValueType) × (d ≡ ok s) × (t ≡ ValueType.bool)
unfolding type_op is_null_test
null_type types ExpressionType.is_null (ok s) p h = (s, refl, ground arith)
null_type types ExpressionType.is_null (err s) p h = cc
null_type types ExpressionType.is_null panic p h = cc
null_type types ExpressionType.is_not_null (ok s) p h = (s, refl, ground arith)
null_type types ExpressionType.is_not_null (err s) p h = cc
null_type types ExpressionType.is_not_null panic p h = cc
null_type types op d p h = cc

pub identifier_type :
    (types : FieldTypeMap) (ident : Bytes) {t : ValueType}
    → type_identifier types ident ≡ ok t
    → types ident ≡ some t
unfolding type_identifier
identifier_type types ident h = ground arith

pub ok_injective : {a b : ValueType} → ◌≡◌ {A = Typing} (ok a) (ok b) → a ≡ b
ok_injective h = cc

module _ (types : FieldTypeMap) (values : FieldValueMap) (l r : Meaning) where
  pub comparison_meaning :
      (op : ExpressionType)
      → is_comparison op ≡ true
      → mean_op types values op [] none (err unreachable) (some (l, r))
        ≡ mean_binary (Operators.comparison op) l r
  unfolding mean_op is_comparison
  comparison_meaning ExpressionType.eq c = refl
  comparison_meaning ExpressionType.ne c = refl
  comparison_meaning ExpressionType.lt c = refl
  comparison_meaning ExpressionType.le c = refl
  comparison_meaning ExpressionType.gt c = refl
  comparison_meaning ExpressionType.ge c = refl
  comparison_meaning ExpressionType.like c = refl
  comparison_meaning op c = cc

  pub logical_meaning :
      (op : ExpressionType)
      → is_logical op ≡ true
      → (stop : Bool) × (mean_op types values op [] none (err unreachable) (some (l, r))
          ≡ mean_logical stop l r)
  unfolding mean_op is_logical
  logical_meaning ExpressionType.logical_and c = (false, refl)
  logical_meaning ExpressionType.logical_or c = (true, refl)
  logical_meaning op c = cc

pub null_meaning :
    (types : FieldTypeMap) (values : FieldValueMap) (d : Meaning) (op : ExpressionType)
    → is_null_test op ≡ true
    → (f : Bool → Bool) × (mean_op types values op [] none d none ≡ mean_null f d)
unfolding mean_op is_null_test
null_meaning types values d ExpressionType.is_null c = ((λ b. b), refl)
null_meaning types values d ExpressionType.is_not_null c = (not, refl)
null_meaning types values d op c = cc
