-- ===== src/Expression/Safety/Values.antt =====
-- Which values a field or a node of a given type may have, and what the operations on values need.
use mathlib.Core.Bool.{decide}
use capsule.Prelude.{ℕ, ◌≡◌, refl, ◌≢◌, ◌==◌, not, Bool, true, false, some, arith}
use capsule.Prelude.Int.{ℤ}
use capsule.Prelude.Outcome.{ok}
use capsule.Api.Value.{
  Bytes, ValueType, ValueType-discrete, Payload, Timestamp, Value, get_timestamp_value,
}
use capsule.Expression.Types.{is_value_type_numeric}
use capsule.Expression.Value.{GoType, Native, timestamp_value, nanoseconds, is_true, is_value_true}
use capsule.Expression.Compare.{Kind, kind, stamps, equality, ordering}
use capsule.Expression.Fields.{FieldTypeMap, FieldValueMap, go_type, type_strings}
use capsule.Expression.Operators.{is_null_type}

-- A timestamp's pointer is set.
abbrev pub Readable : Value → Type 0
Readable v = kind v.type ≡ Kind.stamp → (s : Timestamp) × (get_timestamp_value v.payload ≡ some s)

-- A value of type `t`, or NULL where `Null` allows it.
pub data HasType (Null : Type 0) (t : ValueType) (v : Value) : Type 0 where
  typed : v.type ≡ t → kind t ≢ Kind.unknown → Readable v → HasType Null t v
  null : Null → v.type ≡ ValueType.unspecified → HasType Null t v

-- Every field that has a value holds one of the Go type that its declared type calls for.
abbrev pub Agrees : FieldTypeMap → FieldValueMap → Type 0
Agrees types values =
    (ident : Bytes) (t : ValueType) (v : Native)
    → types ident ≡ some t
    → values ident ≡ some v
    → (g : GoType) × (go_type v ≡ ok g) × (type_strings t ≡ some g)

pub same_type_eq : (a b : ValueType) → a ≡ b → decide (ValueType-discrete a b) ≡ true
unfolding decide
same_type_eq a b e = ground arith

pub eq_of_same_type : (a b : ValueType) → decide (ValueType-discrete a b) ≡ true → a ≡ b
unfolding decide
eq_of_same_type a b e = ground arith

pub not_null : (t : ValueType) → kind t ≢ Kind.unknown → is_null_type t ≡ false
unfolding kind is_null_type
not_null ValueType.unspecified h = absurd (h refl)
not_null t h = refl

is_true_total :
    (t : ValueType) (p : Payload)
    → (kind t ≡ Kind.stamp → (s : Timestamp) × (get_timestamp_value p ≡ some s))
    → (b : Bool) × (is_true t p ≡ ok b)
unfolding is_true kind timestamp_value
is_true_total ValueType.timestamp p h = let (s, e) = h refl in (not (nanoseconds s == 0), rw e)
is_true_total t p h = (_, refl)

-- The truth of a readable value is defined.
pub is_value_true_total : (v : Value) → Readable v → (b : Bool) × (is_value_true v ≡ ok b)
unfolding is_value_true
is_value_true_total v h = is_true_total v.type v.payload h

stamps_total :
    (f : ℕ → ℕ → Bool) (l r : Value) (s t : Timestamp)
    → get_timestamp_value l.payload ≡ some s
    → get_timestamp_value r.payload ≡ some t
    → (b : Bool) × (stamps f l r ≡ ok b)
unfolding stamps timestamp_value
stamps_total f l r s t p q = (f (nanoseconds s) (nanoseconds t), rw (p, q))

-- The pointer of a value is set, if its kind is a timestamp.
abbrev Stamped : Kind → Value → Type 0
Stamped k v = k ≡ Kind.stamp → (s : Timestamp) × (get_timestamp_value v.payload ≡ some s)

-- Equality is defined on values of each known kind.
pub equality_total :
    (neg : Bool → Bool) (k : Kind) (l r : Value)
    → k ≢ Kind.unknown
    → Stamped k l
    → Stamped k r
    → (b : Bool) × (equality neg k l r ≡ ok b)
unfolding equality
equality_total neg Kind.stamp l r h sl sr =
    let (s, p) = sl refl in let (t, q) = sr refl in stamps_total _ l r s t p q
equality_total neg Kind.unknown l r h sl sr = absurd (h refl)
equality_total neg k l r h sl sr = (_, refl)

-- The order is defined on numbers and timestamps.
pub ordering_total :
    (s : ℤ → ℤ → Bool) (u d : ℕ → ℕ → Bool) (t : ValueType) (l r : Value)
    → is_value_type_numeric t ≡ true
    → Stamped (kind t) l
    → Stamped (kind t) r
    → (b : Bool) × (ordering s u d (kind t) l r ≡ ok b)
unfolding ordering kind is_value_type_numeric
ordering_total s u d ValueType.timestamp l r h sl sr =
    let (a, p) = sl refl in let (b, q) = sr refl in stamps_total u l r a b p q
ordering_total s u d ValueType.string l r h sl sr = cc
ordering_total s u d ValueType.bool l r h sl sr = cc
ordering_total s u d ValueType.unspecified l r h sl sr = cc
ordering_total s u d (ValueType.other _) l r h sl sr = cc
ordering_total s u d t l r h sl sr = (_, refl)
