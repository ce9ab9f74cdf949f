-- ===== src/Expression/Safety/Typing.antt =====
-- What an accepted node of `validateTypes` says of its operands, and what an identifier or a value
-- node evaluates to.
use mathlib.Core.Bool.{decide}
use capsule.Prelude.{◌≡◌, refl, ◌≢◌, Bool, true, Option, none, some, arith}
use capsule.Prelude.Outcome.{ok, err, panic, returns}
use capsule.Api.Value.{Bytes, ValueType, Payload, Timestamp, Value, get_timestamp_value}
use capsule.Expression.Types.{Error}
use capsule.Expression.Value.{GoType, Native}
use capsule.Expression.Validate.{validate_payload, validate_value}
use capsule.Expression.Typecheck.{Typing, type_logical, type_binary}
use capsule.Expression.Fields.{
  FieldTypeMap, FieldValueMap, go_type, type_strings, same_go_type, field_payload, field_value,
  lookup_identifier,
}
use capsule.Expression.Compare.{Kind, kind}
use capsule.Expression.Safety.Values.{HasType, typed, null, Agrees, eq_of_same_type}
use capsule.Expression.Safety.Nodes.{Safe}

pub type_binary_inv :
    (test : ValueType → Bool) (fail : ValueType → Error) (result : ValueType → ValueType)
    (l r : Typing) {t : ValueType}
    → type_binary test fail result l r ≡ ok t
    → (s : ValueType) × (l ≡ ok s) × (r ≡ ok s) × (test s ≡ true) × (t ≡ result s)
unfolding type_binary
type_binary_inv test fail result (ok s) (ok s') h =
    (s, refl, ground (arith, eq_of_same_type s s'), ground arith, ground arith)
type_binary_inv test fail result (ok s) (err e) h = ground arith
type_binary_inv test fail result (ok s) panic h = ground arith
type_binary_inv test fail result (err e) r h = cc
type_binary_inv test fail result panic r h = cc

pub type_logical_inv :
    (l r : Typing) {t : ValueType}
    → type_logical l r ≡ ok t
    → (l ≡ ok ValueType.bool) × (r ≡ ok ValueType.bool) × (t ≡ ValueType.bool)
unfolding type_logical
type_logical_inv (ok s) (ok s') h =
    ground (arith, eq_of_same_type s ValueType.bool, eq_of_same_type s' ValueType.bool)
type_logical_inv (ok s) (err e) h = ground arith
type_logical_inv (ok s) panic h = ground arith
type_logical_inv (err e) r h = cc
type_logical_inv panic r h = cc

-- A literal timestamp has its pointer set, as every decoded message has.
abbrev pub HasStamp : Payload → Type 0
HasStamp (Payload.timestamp_value none) = ⊥
HasStamp _ = Unit

literal_kind : (t : ValueType) (p : Payload) → validate_payload t p ≡ ok tt → kind t ≢ Kind.unknown
unfolding validate_payload kind
literal_kind ValueType.unspecified p h e = cc
literal_kind (ValueType.other _) p h e = cc
literal_kind t p h e = cc

literal_stamp :
    (t : ValueType) (p : Payload)
    → validate_payload t p ≡ ok tt
    → HasStamp p
    → kind t ≡ Kind.stamp
    → (s : Timestamp) × (get_timestamp_value p ≡ some s)
unfolding validate_payload kind
literal_stamp ValueType.timestamp (Payload.timestamp_value (some s)) h w e = (s, refl)
literal_stamp ValueType.timestamp (Payload.timestamp_value none) h w e = absurd w
literal_stamp ValueType.timestamp p h w e = cc
literal_stamp t p h w e = cc

-- What a field of type `t` that holds `v` is wrapped in.
field_total :
    (t : ValueType) (v : Native) (g : GoType)
    → go_type v ≡ ok g
    → type_strings t ≡ some g
    → (p : Payload) × (field_payload t v ≡ ok p)
      × (kind t ≢ Kind.unknown)
      × (kind t ≡ Kind.stamp → (s : Timestamp) × (get_timestamp_value p ≡ some s))
unfolding go_type type_strings field_payload kind
field_total ValueType.string (Native.string s) g h e = (_, refl, (λ p. cc), (λ p. cc))
field_total ValueType.sint8 (Native.int8 s) g h e = (_, refl, (λ p. cc), (λ p. cc))
field_total ValueType.sint16 (Native.int16 s) g h e = (_, refl, (λ p. cc), (λ p. cc))
field_total ValueType.sint32 (Native.int32 s) g h e = (_, refl, (λ p. cc), (λ p. cc))
field_total ValueType.sint64 (Native.int64 s) g h e = (_, refl, (λ p. cc), (λ p. cc))
field_total ValueType.uint8 (Native.uint8 s) g h e = (_, refl, (λ p. cc), (λ p. cc))
field_total ValueType.uint16 (Native.uint16 s) g h e = (_, refl, (λ p. cc), (λ p. cc))
field_total ValueType.uint32 (Native.uint32 s) g h e = (_, refl, (λ p. cc), (λ p. cc))
field_total ValueType.uint64 (Native.uint64 s) g h e = (_, refl, (λ p. cc), (λ p. cc))
field_total ValueType.bool (Native.bool s) g h e = (_, refl, (λ p. cc), (λ p. cc))
field_total ValueType.double (Native.float64 s) g h e = (_, refl, (λ p. cc), (λ p. cc))
field_total ValueType.timestamp (Native.uint64 s) g h e = (_, refl, (λ p. cc), (λ p. (_, refl)))
field_total t v g h e = absurd (cc)

same_go_type_self : (g : GoType) → same_go_type g (some g) ≡ true
unfolding same_go_type decide
same_go_type_self g = ground arith

module _ (Null : Type 0) (Q : Error → Type 0) (R : Type 0) where
  -- A literal that `validateValue` accepts has the type that it states.
  pub literal_HasType :
      (v : Value) → validate_value v ≡ ok tt → HasStamp v.payload → HasType Null v.type v
  unfolding validate_value
  literal_HasType v h w =
      typed refl (literal_kind v.type v.payload h) (literal_stamp v.type v.payload h w)

  typed_field :
      (ident : Bytes) (t : ValueType) (v : Native) (g : GoType)
      → go_type v ≡ ok g
      → type_strings t ≡ some g
      → Safe Null Q R t (field_value ident t (some v))
  unfolding field_value
  typed_field ident t v g e q =
      let (p, h, k, s) = field_total t v g e q in
      rw (e, q, same_go_type_self g, h) (returns (typed refl k s))

  pub field_Safe :
      (types : FieldTypeMap) (values : FieldValueMap) (ident : Bytes) (t : ValueType)
      → Agrees types values
      → (values ident ≡ none → Null)
      → types ident ≡ some t
      → Safe Null Q R t (lookup_identifier types values ident)
  unfolding lookup_identifier field_value
  field_Safe types values ident t agree absent e =
      rw (e, lookup_identifier) (go (values ident) refl)
    where
      go : (v : Option Native) → values ident ≡ v → Safe Null Q R t (field_value ident t v)
      go none p = returns (null (absent p) refl)
      go (some v) p = let (g, q, r) = agree ident t v e p in typed_field ident t v g q r
