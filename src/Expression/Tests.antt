-- ===== src/Expression/Tests.antt =====
-- Sample expressions of pkg/expression, what the code computes on them, and the theorems at them.
use mathlib.Core.Bool.{decide}
use capsule.Prelude.{
  [], ◌∷◌, ◌++◌, ◌≡◌, ◌≢◌, refl, ◌↔◌, ◌⊎◌, Bool, true, false, none, some, ◌||◌, ◌&&◌, leb,
  if◌then◌else◌, Bool-cases, inl, inr, arith,
}
use capsule.Prelude.Bytes.{bytes_eq}
use capsule.Prelude.Outcome.{ok, panic, ◌>>=◌, Post}
use capsule.Prelude.Unicode.{Unicode}
use capsule.Api.Value.{Bytes, ValueType, Payload, Value}
use capsule.Api.Expression.{Expression}
use capsule.Expression.Types.{bitwise_mismatch}
use capsule.Expression.Value.{GoType, Native, nanoseconds, new_value}
use capsule.Expression.Build
use capsule.Expression.Compare.{
  like, star, compare_equal, compare_less_than, compare_less_than_equal_to, compare_greater_than,
  compare_greater_than_equal_to,
}
use capsule.Expression.Fields.{
  FieldTypeMap, FieldValueMap, go_type, type_strings, split_stamp, field_value,
}
use capsule.Expression.Operators.{bool_value}
use capsule.Expression.Validate.{validate_tree}
use capsule.Expression.Typecheck.{validate_types}
use capsule.Expression.Evaluate.{evaluate_node, evaluate_expression}
use capsule.Expression.Evaluate.Denote.{meaning, evaluate_node_refines, evaluate_expression_refines}
use capsule.Expression.WellFormed.{WellFormed}
use capsule.Expression.WellFormed.Decides.{validate_tree_iff}
use capsule.Expression.Safety.Values.{HasType, Agrees}
use capsule.Expression.Safety.Evaluate.{
  uses, is_like, is_bitwise, Stamped, evaluate_expression_outcome, evaluate_expression_total,
}
use capsule.Expression.Order.{
  either, compare_less_than_equal_to_lem, nanoseconds-split_stamp, field_value-new_value,
}
use capsule.Expression.Like.{Like, like_lem, like-panic_iff}

-- The letters and digits of ASCII.
abbrev ascii : Unicode
ascii = record {
  is_letter = λ c. (leb b'a' c && leb c b'z') || (leb b'A' c && leb c b'Z');
  is_digit = λ c. leb b'0' c && leb c b'9';
}

abbrev name_field : Bytes
name_field = b'n' ∷ []

abbrev port_field : Bytes
port_field = b'p' ∷ []

abbrev ls : Bytes
ls = b'l' ∷ b's' ∷ []

-- n = "ls" AND p > 2
abbrev sample : Expression
unfolding Build.logical_and Build.equal Build.greater_than Build.identifier Build.value
sample =
    Build.logical_and (Build.equal (Build.identifier name_field) (Build.value (Native.string ls)))
      (Build.greater_than (Build.identifier port_field) (Build.value (Native.uint32 2)))

abbrev uint32_seven : Value
uint32_seven = record { type = ValueType.uint32; payload = Payload.unsigned_value 7 }

-- The field `n` is a STRING and `p` a UINT32.
types : FieldTypeMap
unfolding bytes_eq
types ident =
    if bytes_eq ident name_field
    then some ValueType.string
    else if bytes_eq ident port_field
    then some ValueType.uint32
    else none

values : FieldValueMap
unfolding bytes_eq
values ident =
    if bytes_eq ident name_field
    then some (Native.string ls)
    else if bytes_eq ident port_field
    then some (Native.uint32 3)
    else none

types-agree : Agrees types values
unfolding types values go_type type_strings
types-agree ident t v e q = elim (Bool-cases (bytes_eq ident name_field)) [
  | inl h ↦ (GoType.string, ground arith, ground arith)
  | inr h ↦ (GoType.uint32, ground arith, ground arith)
]

types-present : (ident : Bytes) (s : ValueType) → types ident ≡ some s → values ident ≢ none
unfolding types values
types-present ident s e = ground arith

sample-accepted : validate_tree ascii sample ≡ ok tt
unfolding validate_tree sample
sample-accepted = refl

sample-typed : validate_types types sample ≡ ok ValueType.bool
unfolding validate_types types sample decide
sample-typed = refl

sample-runs : evaluate_expression sample types values ≡ ok (bool_value true)
unfolding evaluate_expression types values sample decide
sample-runs = refl

sample-Stamped : Stamped sample
unfolding sample
sample-Stamped = ((tt, tt), (tt, tt))

sample-no_like : uses is_like sample ≡ false
unfolding uses sample
sample-no_like = refl

evaluate_node_refines_example :
    evaluate_node types values sample (bool_value false ∷ [])
    ≡ (meaning types values sample >>= λ v. ok (v ∷ bool_value false ∷ []))
evaluate_node_refines_example = evaluate_node_refines types values sample (bool_value false ∷ [])

evaluate_expression_refines_example :
    evaluate_expression sample types values ≡ meaning types values sample
evaluate_expression_refines_example = evaluate_expression_refines types values sample

validate_tree_iff_example : (validate_tree ascii sample ≡ ok tt) ↔ WellFormed ascii true sample
validate_tree_iff_example = validate_tree_iff ascii sample

evaluate_expression_outcome_example :
    Post
      (HasType (Unit {0}) ValueType.bool)
      (λ x.
        (uses is_bitwise sample ≡ true)
        × (a : ValueType) × (b : ValueType) × (x ≡ bitwise_mismatch a b)
        × ((a ≡ ValueType.unspecified) ⊎ (b ≡ ValueType.unspecified)))
      (uses is_like sample ≡ true)
      (evaluate_expression sample types values)
evaluate_expression_outcome_example =
    evaluate_expression_outcome ascii sample types values ValueType.bool sample-accepted
      sample-typed sample-Stamped types-agree

evaluate_expression_total_example :
    (v : Value) × (evaluate_expression sample types values ≡ ok v) × (v.type ≡ ValueType.bool)
evaluate_expression_total_example =
    evaluate_expression_total ascii sample types values ValueType.bool sample-accepted sample-typed
      sample-Stamped types-agree sample-no_like types-present

-- *s, s
like_lem_example :
    ((b : Bool) × (like ls (star ++ b's' ∷ []) ≡ ok b))
    × ((like ls (star ++ b's' ∷ []) ≡ ok true) ↔ Like ls (star ++ b's' ∷ []))
like_lem_example = like_lem ls (star ++ b's' ∷ []) (λ e. cc)

like-panic_iff_example : (like ls star ≡ panic) ↔ (star ≡ star)
like-panic_iff_example = like-panic_iff ls star

compare_less_than_equal_to_lem_example :
    (compare_less_than_equal_to (bool_value true) (bool_value false)
      ≡ either
          (compare_less_than (bool_value true) (bool_value false))
          (compare_equal (bool_value true) (bool_value false)))
    × (compare_greater_than_equal_to (bool_value true) (bool_value false)
        ≡ either
            (compare_greater_than (bool_value true) (bool_value false))
            (compare_equal (bool_value true) (bool_value false)))
compare_less_than_equal_to_lem_example =
    compare_less_than_equal_to_lem (bool_value true) (bool_value false)

nanoseconds-split_stamp_example : nanoseconds (split_stamp 1_500_000_000) ≡ 1_500_000_000
nanoseconds-split_stamp_example = nanoseconds-split_stamp 1_500_000_000 (omega arith)

pushed : field_value port_field ValueType.uint32 (some (Native.uint32 7)) ≡ ok uint32_seven
unfolding field_value decide
pushed = refl

field_value-new_value_example : new_value (Native.uint32 7) ≡ some uint32_seven
field_value-new_value_example =
    field_value-new_value port_field ValueType.uint32 (Native.uint32 7) (λ e. cc) pushed
