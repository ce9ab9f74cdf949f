-- ===== src/Expression/WellFormed/Decides.antt =====
-- `validateTree` of pkg/expression/validate.go decides the grammar.
use capsule.Prelude.{
  [], ◌∷◌, ◌≡◌, refl, ◌↔◌, ◌⊎◌, inl, inr, Bool, true, false, Option, none, some, arith,
}
use capsule.Prelude.Outcome.{ok, >>-eq-ok}
use capsule.Prelude.Unicode.{Unicode}
use capsule.Api.Value.{Bytes, Value}
use capsule.Api.Expression.{ExpressionType, Expression}
use capsule.Expression.Types.{
  Error, unary_operand_missing, logical_operands_missing, comparison_operands_missing,
  bitwise_operands_missing,
}
use capsule.Expression.Validate.{
  Operand, require, validate_identifier, validate_value, validate_binary, validate_op,
  validate_node, validate_tree, no_operand,
}
use capsule.Expression.WellFormed.{
  WellFormed, identifier, value, logical, comparison, null_test, bitwise, is_logical, is_comparison,
  is_null_test,
}

module _ (u : Unicode) where
  require-WellFormed :
      {b : Bool} {e : Expression} (fail : Error) → WellFormed u b e → require u e fail ≡ ok tt
  require-WellFormed fail (identifier _) = refl
  require-WellFormed fail (value _) = refl
  require-WellFormed fail (logical _ _ _ _) = refl
  require-WellFormed fail (comparison _ _ _) = refl
  require-WellFormed fail (null_test _ _) = refl
  require-WellFormed fail (bitwise _ _) = refl

  -- What an accepted pair of operands satisfies.
  binary_inv :
      (l r : Operand u) (missing : Error) (b : Bool)
      → validate_binary u (some (l, r)) missing b ≡ ok tt
      → (l.1 b ≡ ok tt) × (r.1 b ≡ ok tt)
  unfolding validate_binary
  binary_inv l r missing b h = ground arith

  binary_intro :
      {l r : Expression} (missing : Error) (b : Bool)
      → WellFormed u b l
      → WellFormed u b r
      → validate_node u l b ≡ ok tt
      → validate_node u r b ≡ ok tt
      → validate_binary u (some ((l, validate_node u l), (r, validate_node u r))) missing b ≡ ok tt
  unfolding validate_binary
  binary_intro missing b wl wr hl hr = rw (require-WellFormed _ wl, require-WellFormed _ wr, hl) hr

  leaf_inv :
      (b : Bool) (t : ExpressionType) (ident : Bytes) (v : Option Value)
      → validate_op u t ident v (no_operand u) none b ≡ ok tt
      → ((t ≡ ExpressionType.identifier) × (validate_identifier u ident ≡ ok tt))
        ⊎ ((t ≡ ExpressionType.value) × (w : Value) × (v ≡ some w) × (validate_value w ≡ ok tt))
  unfolding validate_op validate_binary
  leaf_inv b ExpressionType.identifier [] v h = cc
  leaf_inv b ExpressionType.identifier (c ∷ s) v h = inl (refl, h)
  leaf_inv b ExpressionType.value ident none h = cc
  leaf_inv b ExpressionType.value ident (some w) h = inr (refl, w, refl, h)
  leaf_inv true t ident v h = cc
  leaf_inv false t ident v h = cc

  unary_inv :
      (b : Bool) (t : ExpressionType) (e : Expression)
      → validate_op u t [] none (e, validate_node u e) none b ≡ ok tt
      → (is_null_test t ≡ true) × (validate_node u e false ≡ ok tt)
  unfolding validate_op validate_binary is_null_test
  unary_inv b ExpressionType.is_null e h =
      (refl, (>>-eq-ok (require u e unary_operand_missing) (validate_node u e false) h).1)
  unary_inv b ExpressionType.is_not_null e h =
      (refl, (>>-eq-ok (require u e unary_operand_missing) (validate_node u e false) h).1)
  unary_inv true t e h = cc
  unary_inv false t e h = cc

  pair_inv :
      (b : Bool) (t : ExpressionType) (l r : Operand u)
      → validate_op u t [] none (no_operand u) (some (l, r)) b ≡ ok tt
      → ((is_logical t ≡ true) × (b ≡ true) × (l.1 true ≡ ok tt) × (r.1 true ≡ ok tt))
        ⊎ ((is_comparison t ≡ true) × (l.1 false ≡ ok tt) × (r.1 false ≡ ok tt))
        ⊎ ((t ≡ ExpressionType.bitwise_and) × (l.1 false ≡ ok tt) × (r.1 false ≡ ok tt))
  unfolding validate_op is_logical is_comparison
  pair_inv true ExpressionType.logical_and l r h = inl (
    refl,
    refl,
    (binary_inv l r logical_operands_missing true h).0,
    (binary_inv l r logical_operands_missing true h).1,
  )
  pair_inv false ExpressionType.logical_and l r h = cc
  pair_inv true ExpressionType.logical_or l r h = inl (
    refl,
    refl,
    (binary_inv l r logical_operands_missing true h).0,
    (binary_inv l r logical_operands_missing true h).1,
  )
  pair_inv false ExpressionType.logical_or l r h = cc
  pair_inv b ExpressionType.bitwise_and l r h = inr (
      inr (
        refl,
        (binary_inv l r bitwise_operands_missing false h).0,
        (binary_inv l r bitwise_operands_missing false h).1,
      ))
  pair_inv b ExpressionType.identifier l r h = cc
  pair_inv b ExpressionType.value l r h = cc
  pair_inv b ExpressionType.is_null l r h = cc
  pair_inv b ExpressionType.is_not_null l r h = cc
  pair_inv b ExpressionType.unspecified l r h = cc
  pair_inv b (ExpressionType.other _) l r h = cc
  pair_inv b t l r h = inr (
      inl (
        refl,
        (binary_inv l r comparison_operands_missing false h).0,
        (binary_inv l r comparison_operands_missing false h).1,
      ))

  sound : (e : Expression) (b : Bool) → validate_node u e b ≡ ok tt → WellFormed u b e
  unfolding validate_node validate_op
  sound Expression.nil b h = cc
  sound (Expression.unset t) b h = elim (leaf_inv b t [] none h) [
    | inl (e, p) ↦ cc
    | inr (e, w, q, p) ↦ cc
  ]
  sound (Expression.identifier t ident) b h = elim (leaf_inv b t ident none h) [
    | inl (e, p) ↦ rw e (identifier p)
    | inr (e, w, q, p) ↦ cc
  ]
  sound (Expression.value t v) b h = elim (leaf_inv b t [] v h) [
    | inl (e, p) ↦ cc
    | inr (e, w, q, p) ↦ rw (e, q) (value p)
  ]
  sound (Expression.unary_op t e) b h =
      let (p, q) = unary_inv b t e h in null_test p (sound e false q)
  sound (Expression.binary_op t l r) b h =
      elim (pair_inv b t (l, validate_node u l) (r, validate_node u r) h) [
        | inl (p, q, hl, hr) ↦ logical p q (sound l true hl) (sound r true hr)
        | inr (inl (p, hl, hr)) ↦ comparison p (sound l false hl) (sound r false hr)
        | inr (inr (p, hl, hr)) ↦ rw p (bitwise (sound l false hl) (sound r false hr))
      ]

  module _ (ops : Option (Operand u × Operand u)) where
    logical_op :
        (t : ExpressionType)
        → is_logical t ≡ true
        → validate_binary u ops logical_operands_missing true ≡ ok tt
        → validate_op u t [] none (no_operand u) ops true ≡ ok tt
    unfolding validate_op is_logical
    logical_op ExpressionType.logical_and p h = h
    logical_op ExpressionType.logical_or p h = h
    logical_op t p h = cc

    comparison_op :
        (b : Bool) (t : ExpressionType)
        → is_comparison t ≡ true
        → validate_binary u ops comparison_operands_missing false ≡ ok tt
        → validate_op u t [] none (no_operand u) ops b ≡ ok tt
    unfolding validate_op is_comparison
    comparison_op b ExpressionType.eq p h = h
    comparison_op b ExpressionType.ne p h = h
    comparison_op b ExpressionType.lt p h = h
    comparison_op b ExpressionType.le p h = h
    comparison_op b ExpressionType.gt p h = h
    comparison_op b ExpressionType.ge p h = h
    comparison_op b ExpressionType.like p h = h
    comparison_op b t p h = cc

  null_op :
      {e : Expression} (b : Bool) (t : ExpressionType)
      → is_null_test t ≡ true
      → WellFormed u false e
      → validate_node u e false ≡ ok tt
      → validate_op u t [] none (e, validate_node u e) none b ≡ ok tt
  unfolding validate_op is_null_test
  null_op b ExpressionType.is_null p w h = rw (require-WellFormed _ w) h
  null_op b ExpressionType.is_not_null p w h = rw (require-WellFormed _ w) h
  null_op b t p w h = cc

  identifier_op :
      (b : Bool) (ident : Bytes)
      → validate_identifier u ident ≡ ok tt
      → validate_op u ExpressionType.identifier ident none (no_operand u) none b ≡ ok tt
  unfolding validate_op validate_identifier
  identifier_op b [] h = cc
  identifier_op b (c ∷ s) h = h

  complete : {e : Expression} {b : Bool} → WellFormed u b e → validate_node u e b ≡ ok tt
  unfolding validate_node
  complete {b} (identifier {ident} h) = identifier_op b ident h
  complete (value h) = unfold validate_op in h
  complete (logical {op} p q l r) =
      rw q (
        logical_op _ op p
          (binary_intro logical_operands_missing true l r (complete l) (complete r)))
  complete {b} (comparison {op} p l r) =
      comparison_op _ b op p
        (binary_intro comparison_operands_missing false l r (complete l) (complete r))
  complete {b} (null_test {op} p w) = null_op b op p w (complete w)
  complete (bitwise l r) =
      unfold validate_op in
      binary_intro bitwise_operands_missing false l r (complete l) (complete r)

  -- `validateTree` accepts a tree exactly when the grammar does.
  pub validate_tree_iff : (e : Expression) → (validate_tree u e ≡ ok tt) ↔ WellFormed u true e
  unfolding validate_tree
  validate_tree_iff e = (sound e true, complete)
