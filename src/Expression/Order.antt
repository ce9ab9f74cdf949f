-- ===== src/Expression/Order.antt =====
-- How the six comparison functions of pkg/expression/evaluate.go fit together, and what
-- `pushIdentifier` makes of a field's value.
use capsule.Prelude.{
  ℕ, ◌^◌, ◌<◌, Bool, true, false, ◌||◌, ◌&&◌, not, ltb, leb, ◌==◌, Option, none, some, ◌≡◌, ◌≢◌,
  refl, arith, ◌∙◌, ap,
}
use capsule.Prelude.Int.{ℤ, ltb_ℤ, leb_ℤ, eqb_ℤ}
use capsule.Prelude.Double.{ordered, is_nan, rank, double_eq, double_lt, double_le}
use capsule.Prelude.Outcome.{Outcome, ok, ◌>>=◌, >>=-eq-ok, >>-eq-ok, guard}
use capsule.Api.Value.{
  Bytes, ValueType, Payload, Timestamp, Value, get_signed_value, get_unsigned_value,
  get_double_value, get_timestamp_value,
}
use capsule.Expression.Types.{Error, data_type_mismatch}
use capsule.Expression.Value.{timestamp_value, nanoseconds, GoType, Native, new_value}
use capsule.Expression.Compare.{
  Kind, kind, stamps, ordering, equality, compare_equal, compare_less_than,
  compare_less_than_equal_to, compare_greater_than, compare_greater_than_equal_to,
}
use capsule.Expression.Fields.{
  split_stamp, field_value, field_payload, type_strings, same_go_type, go_type,
}

-- The disjunction of two results.
abbrev pub either : Outcome Error Bool → Outcome Error Bool → Outcome Error Bool
either x y = do a ← x; b ← y; ok (a || b)

leb_ℤ_split : (a b : ℤ) → leb_ℤ a b ≡ (ltb_ℤ a b || eqb_ℤ a b)
leb_ℤ_split a b = ground arith

leb_split : (a b : ℕ) → leb a b ≡ (ltb a b || a == b)
leb_split a b = ground arith

le_split : (a b : ℕ) → double_le a b ≡ (double_lt a b || double_eq a b)
unfolding double_le double_lt double_eq
le_split a b = go (ordered a b) (rank a) (rank b)
  where
    go : (o : Bool) (x y : ℤ) → (o && leb_ℤ x y) ≡ (o && ltb_ℤ x y || o && eqb_ℤ x y)
    go true x y = leb_ℤ_split x y
    go false x y = refl

double_eq_comm : (a b : ℕ) → double_eq a b ≡ double_eq b a
unfolding double_eq
double_eq_comm a b = go (is_nan a) (is_nan b) (rank a) (rank b)
  where
    go : (m n : Bool) (x y : ℤ) → ((not m && not n) && eqb_ℤ x y) ≡ ((not n && not m) && eqb_ℤ y x)
    go true true x y = refl
    go true false x y = refl
    go false true x y = refl
    go false false x y = ground arith

module _ (l r : Value) where
  stamps_split :
      (f g h : ℕ → ℕ → Bool)
      → ((a b : ℕ) → f a b ≡ (g a b || h a b))
      → stamps f l r ≡ either (stamps g l r) (stamps h l r)
  unfolding stamps timestamp_value
  stamps_split f g h e = go (get_timestamp_value l.payload) (get_timestamp_value r.payload)
    where
      at_stamps : (ℕ → ℕ → Bool) → Option Timestamp → Option Timestamp → Outcome Error Bool
      at_stamps f s t = do a ← timestamp_value s; b ← timestamp_value t; ok (f a b)

      go : (s t : Option Timestamp) → at_stamps f s t ≡ either (at_stamps g s t) (at_stamps h s t)
      go none t = refl
      go (some s) none = refl
      go (some s) (some t) = rw (e (nanoseconds s) (nanoseconds t))

  split_at :
      (s s' : ℤ → ℤ → Bool) (u u' d d' : ℕ → ℕ → Bool)
      → ((a b : ℤ) → s a b ≡ (s' a b || eqb_ℤ a b))
      → ((a b : ℕ) → u a b ≡ (u' a b || a == b))
      → ((a b : ℕ) → d a b ≡ (d' a b || double_eq a b))
      → (k : Kind)
      → ordering s u d k l r ≡ either (ordering s' u' d' k l r) (equality (λ b. b) k l r)
  unfolding ordering equality
  split_at s s' u u' d d' es eu ed Kind.text = refl
  split_at s s' u u' d d' es eu ed Kind.truth = refl
  split_at s s' u u' d d' es eu ed Kind.unknown = refl
  split_at s s' u u' d d' es eu ed Kind.signed =
      ap ok (es (get_signed_value l.payload) (get_signed_value r.payload))
  split_at s s' u u' d d' es eu ed Kind.unsigned =
      ap ok (eu (get_unsigned_value l.payload) (get_unsigned_value r.payload))
  split_at s s' u u' d d' es eu ed Kind.double =
      ap ok (ed (get_double_value l.payload) (get_double_value r.payload))
  split_at s s' u u' d d' es eu ed Kind.stamp = stamps_split u u' (λ a b. a == b) eu

-- Of every two values, `<=` says what `<` or `=` says, and `>=` what `>` or `=` says, on NaN and on
-- the types that have no order too, where both sides return the same error or panic.
pub compare_less_than_equal_to_lem :
    (l r : Value)
    → (compare_less_than_equal_to l r ≡ either (compare_less_than l r) (compare_equal l r))
      × (compare_greater_than_equal_to l r ≡ either (compare_greater_than l r) (compare_equal l r))
unfolding compare_less_than_equal_to compare_less_than compare_equal compare_greater_than
    compare_greater_than_equal_to
compare_less_than_equal_to_lem l r = (
  split_at l r leb_ℤ ltb_ℤ leb ltb double_le double_lt leb_ℤ_split leb_split le_split (kind l.type),
  split_at l r (λ a b. leb_ℤ b a) (λ a b. ltb_ℤ b a) (λ a b. leb b a) (λ a b. ltb b a)
      (λ a b. double_le b a) (λ a b. double_lt b a) (λ a b. ground arith) (λ a b. ground arith)
      (λ a b. le_split b a ∙ ap (λ t. double_lt b a || t) (double_eq_comm b a)) (kind l.type),
)

-- The nanoseconds of a TIMESTAMP field, a uint64, come back from the seconds and nanoseconds that
-- `pushIdentifier` splits them into.
pub nanoseconds-split_stamp : (ns : ℕ) → ns < 2 ^ 64 → nanoseconds (split_stamp ns) ≡ ns
nanoseconds-split_stamp ns h = omega arith

wrapped :
    (t : ValueType) (v : Native) (p : Payload) (g : GoType)
    → t ≢ ValueType.timestamp
    → type_strings t ≡ some g
    → field_payload t v ≡ ok p
    → new_value v ≡ some (record { type = t; payload = p })
unfolding field_payload new_value type_strings
wrapped ValueType.string (Native.string x) p g h e q = cc
wrapped ValueType.sint8 (Native.int8 x) p g h e q = cc
wrapped ValueType.sint16 (Native.int16 x) p g h e q = cc
wrapped ValueType.sint32 (Native.int32 x) p g h e q = cc
wrapped ValueType.sint64 (Native.int64 x) p g h e q = cc
wrapped ValueType.uint8 (Native.uint8 x) p g h e q = cc
wrapped ValueType.uint16 (Native.uint16 x) p g h e q = cc
wrapped ValueType.uint32 (Native.uint32 x) p g h e q = cc
wrapped ValueType.uint64 (Native.uint64 x) p g h e q = cc
wrapped ValueType.bool (Native.bool x) p g h e q = cc
wrapped ValueType.double (Native.float64 x) p g h e q = cc
wrapped ValueType.timestamp v p g h e q = absurd (h refl)
wrapped t v p g h e q = cc

listed : (g : GoType) (o : Option GoType) → same_go_type g o ≡ true → (h : GoType) × (o ≡ some h)
unfolding same_go_type
listed g none e = cc
listed g (some h) e = (h, refl)

-- For every declared type but TIMESTAMP, a field whose value `pushIdentifier` pushes is pushed as
-- the value that `NewValue` makes of it.
pub field_value-new_value :
    (ident : Bytes) (t : ValueType) (v : Native) {w : Value}
    → t ≢ ValueType.timestamp
    → field_value ident t (some v) ≡ ok w
    → new_value v ≡ some w
unfolding field_value
field_value-new_value ident t v {w} h e =
    let (g, _, e₁) = >>=-eq-ok (go_type v) _ e in
    let (e₂, e₃) =
      >>-eq-ok (guard (same_go_type g (type_strings t)) (data_type_mismatch ident)) _ e₁ in
    let (p, q, e₄) = >>=-eq-ok (field_payload t v) _ e₃ in
    let (g', i) = listed g (type_strings t) (guard_true _ e₂) in wrapped t v p g' h i q ∙ cc
  where
    guard_true : (b : Bool) → guard b (data_type_mismatch ident) ≡ ok tt → b ≡ true
    guard_true true i = refl
    guard_true false i = cc
