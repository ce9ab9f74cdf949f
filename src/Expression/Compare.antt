-- ===== src/Expression/Compare.antt =====
-- The comparisons of pkg/expression/evaluate.go: `compareEqual` to `compareLike`. Each is a switch
-- on the type of the left value and reads the same variant of both.
use capsule.Prelude.{ℕ, ◌-◌, [], ◌∷◌, Bool, not, ◌==◌, ltb, leb, length, if◌then◌else◌}
use capsule.Prelude.Int.{ℤ, eqb_ℤ, ltb_ℤ, leb_ℤ}
use capsule.Prelude.Bytes.{bytes_eq, has_prefix, has_suffix, contains, slice}
use capsule.Prelude.Double.{double_eq, double_lt, double_le}
use capsule.Prelude.Outcome.{Outcome, ok, err, ◌>>=◌}
use capsule.Api.Value.{
  Bytes, ValueType, Value, get_signed_value, get_unsigned_value, get_string_value, get_bool_value,
  get_double_value, get_timestamp_value,
}
use capsule.Expression.Types.{Error, unknown_value_type, cannot_compare}
use capsule.Expression.Value.{timestamp_value}

-- Which kind of data the types of one `case` share. The source lists the types in each switch.
pub data Kind : Type 0 where
  text signed unsigned truth double stamp unknown : Kind

unfoldable pub kind : ValueType → Kind
kind ValueType.string = Kind.text
kind ValueType.sint8 = Kind.signed
kind ValueType.sint16 = Kind.signed
kind ValueType.sint32 = Kind.signed
kind ValueType.sint64 = Kind.signed
kind ValueType.uint8 = Kind.unsigned
kind ValueType.uint16 = Kind.unsigned
kind ValueType.uint32 = Kind.unsigned
kind ValueType.uint64 = Kind.unsigned
kind ValueType.bool = Kind.truth
kind ValueType.double = Kind.double
kind ValueType.timestamp = Kind.stamp
kind _ = Kind.unknown

unfoldable pub bool_eq : Bool → Bool → Bool
bool_eq Bool.true b = b
bool_eq Bool.false b = not b

-- A comparison of two timestamps by their nanoseconds.
unfoldable pub stamps : (ℕ → ℕ → Bool) → Value → Value → Outcome Error Bool
unfolding timestamp_value
stamps f l r = do
  a ← timestamp_value (get_timestamp_value l.payload)
  b ← timestamp_value (get_timestamp_value r.payload)
  ok (f a b)

-- The switch of `compareEqual` (`negate` is the identity) and of `compareNotEqual`, whose operator
-- `!=` is the negation of `==` in each case.
unfoldable pub equality : (Bool → Bool) → Kind → Value → Value → Outcome Error Bool
unfolding bytes_eq bool_eq double_eq stamps
equality neg Kind.text l r =
    ok (neg (bytes_eq (get_string_value l.payload) (get_string_value r.payload)))
equality neg Kind.signed l r =
    ok (neg (eqb_ℤ (get_signed_value l.payload) (get_signed_value r.payload)))
equality neg Kind.unsigned l r =
    ok (neg (get_unsigned_value l.payload == get_unsigned_value r.payload))
equality neg Kind.truth l r =
    ok (neg (bool_eq (get_bool_value l.payload) (get_bool_value r.payload)))
equality neg Kind.double l r =
    ok (neg (double_eq (get_double_value l.payload) (get_double_value r.payload)))
equality neg Kind.stamp l r = stamps (λ a b. neg (a == b)) l r
equality neg Kind.unknown l r = err (unknown_value_type l.type)

unfoldable pub compare_equal : Value → Value → Outcome Error Bool
unfolding equality kind
compare_equal l r = equality (λ b. b) (kind l.type) l r

unfoldable pub compare_not_equal : Value → Value → Outcome Error Bool
unfolding equality kind
compare_not_equal l r = equality not (kind l.type) l r

-- The switch that the four order comparisons share, over the operator at each kind of number.
unfoldable pub ordering :
    (ℤ → ℤ → Bool) → (ℕ → ℕ → Bool) → (ℕ → ℕ → Bool) → Kind → Value → Value → Outcome Error Bool
unfolding stamps
ordering s u d Kind.text l r = err (cannot_compare l.type)
ordering s u d Kind.truth l r = err (cannot_compare l.type)
ordering s u d Kind.signed l r = ok (s (get_signed_value l.payload) (get_signed_value r.payload))
ordering s u d Kind.unsigned l r =
    ok (u (get_unsigned_value l.payload) (get_unsigned_value r.payload))
ordering s u d Kind.double l r = ok (d (get_double_value l.payload) (get_double_value r.payload))
ordering s u d Kind.stamp l r = stamps u l r
ordering s u d Kind.unknown l r = err (unknown_value_type l.type)

unfoldable pub compare_less_than : Value → Value → Outcome Error Bool
unfolding ordering kind double_lt
compare_less_than l r = ordering ltb_ℤ ltb double_lt (kind l.type) l r

unfoldable pub compare_less_than_equal_to : Value → Value → Outcome Error Bool
unfolding ordering kind double_le
compare_less_than_equal_to l r = ordering leb_ℤ leb double_le (kind l.type) l r

-- `a > b` is `b < a`, on floats too.
unfoldable pub compare_greater_than : Value → Value → Outcome Error Bool
unfolding ordering kind double_lt
compare_greater_than l r =
    ordering (λ a b. ltb_ℤ b a) (λ a b. ltb b a) (λ a b. double_lt b a) (kind l.type) l r

unfoldable pub compare_greater_than_equal_to : Value → Value → Outcome Error Bool
unfolding ordering kind double_le
compare_greater_than_equal_to l r =
    ordering (λ a b. leb_ℤ b a) (λ a b. leb b a) (λ a b. double_le b a) (kind l.type) l r

abbrev pub star : Bytes
star = b'*' ∷ []

-- The string case of `compareLike`, with the bounds of the two slice expressions.
unfoldable pub like : Bytes → Bytes → Outcome Error Bool
unfolding has_prefix has_suffix contains slice bytes_eq
like s pattern =
    if has_prefix pattern star
    then (if has_suffix pattern star
        then (do m ← slice pattern 1 (length pattern - 1); ok (contains s m))
        else (do m ← slice pattern 1 (length pattern); ok (has_suffix s m)))
    else (if has_suffix pattern star
        then (do m ← slice pattern 0 (length pattern - 1); ok (has_prefix s m))
        else ok (bytes_eq s pattern))

unfoldable pub like_of_kind : Kind → Value → Value → Outcome Error Bool
unfolding like
like_of_kind Kind.text l r = like (get_string_value l.payload) (get_string_value r.payload)
like_of_kind Kind.unknown l r = err (unknown_value_type l.type)
like_of_kind _ l r = err (cannot_compare l.type)

unfoldable pub compare_like : Value → Value → Outcome Error Bool
unfolding like_of_kind kind
compare_like l r = like_of_kind (kind l.type) l r
