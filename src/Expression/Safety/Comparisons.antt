-- ===== src/Expression/Safety/Comparisons.antt =====
-- The comparison functions of evaluate.go on operands of types that `validateTypes` lets through:
-- only `compareLike` can panic, and none returns an error.
use capsule.Prelude.{
  ℕ, ◌-◌, ◌&&◌, ltb, leb, length, ◌≡◌, refl, sym, ◌≢◌, Bool, true, false, not, if◌then◌else◌,
  Bool-cases, inl, inr, ◌∙◌, ap,
}
use capsule.Prelude.Int.{ltb_ℤ, leb_ℤ}
use capsule.Prelude.Double.{double_lt, double_le}
use capsule.Prelude.Bytes.{slice, has_prefix, has_suffix, contains}
use capsule.Prelude.Outcome.{Outcome, ok, ◌>>=◌, Post, returns, panics}
use capsule.Api.Value.{Bytes, ValueType, Value, get_string_value}
use capsule.Api.Expression.{ExpressionType}
use capsule.Expression.Types.{Error, is_value_type_numeric, is_value_type_string}
use capsule.Expression.Compare.{Kind, kind, like, compare_like, like_of_kind, star}
use capsule.Expression.Operators.{compare_op}
use capsule.Expression.Safety.Values.{Readable, equality_total, ordering_total}

-- The types that `validateTypes` lets a comparison have.
unfoldable pub allows : ExpressionType → ValueType → Bool
allows ExpressionType.lt t = is_value_type_numeric t
allows ExpressionType.le t = is_value_type_numeric t
allows ExpressionType.gt t = is_value_type_numeric t
allows ExpressionType.ge t = is_value_type_numeric t
allows ExpressionType.like t = is_value_type_string t
allows _ t = true

module _ {Q : Error → Type 0} {R : Type 0} where
  pub if_Post :
      {A : Type 0} {P : A → Type 0} {x y : Outcome Error A} (b : Bool)
      → Post P Q R x
      → Post P Q R y
      → Post P Q R (if b then x else y)
  if_Post true p q = p
  if_Post false p q = q

  -- A slice of a string, and a test of it.
  slice-Post :
      (s : Bytes) (i j : ℕ) (f : Bytes → Bool)
      → R
      → Post (λ _. Unit {0}) Q R (slice s i j >>= λ m. ok (f m))
  unfolding slice
  slice-Post s i j f h = elim (Bool-cases (leb i j && leb j (length s))) [
    | inl e ↦ rw e (returns tt)
    | inr e ↦ rw e (panics h)
  ]

  like-Post : (s p : Bytes) → R → Post (λ _. Unit {0}) Q R (like s p)
  unfolding like
  like-Post s p h = elim (Bool-cases (has_prefix p star)) [
    | inl e ↦ rw e (
        if_Post (has_suffix p star) (slice-Post p 1 (length p - 1) (contains s) h)
          (slice-Post p 1 (length p) (has_suffix s) h))
    | inr e ↦
        rw e (
          if_Post (has_suffix p star) (slice-Post p 0 (length p - 1) (has_prefix s) h) (returns tt))
  ]

  total_Post : {x : Outcome Error Bool} → (b : Bool) × (x ≡ ok b) → Post (λ _. Unit {0}) Q R x
  total_Post (b, e) = rw e (returns tt)

  like_of_kind-Post :
      (t : ValueType) (l r : Value)
      → is_value_type_string t ≡ true
      → R
      → Post (λ _. Unit {0}) Q R (like_of_kind (kind t) l r)
  unfolding like_of_kind kind is_value_type_string
  like_of_kind-Post ValueType.string l r h p =
      like-Post (get_string_value l.payload) (get_string_value r.payload) p
  like_of_kind-Post t l r h p = cc

  compare_like-Post :
      (l r : Value)
      → is_value_type_string l.type ≡ true
      → R
      → Post (λ _. Unit {0}) Q R (compare_like l r)
  unfolding compare_like
  compare_like-Post l r h p = like_of_kind-Post l.type l r h p

  pub compare_op-Post :
      (op : ExpressionType) (l r : Value)
      → allows op l.type ≡ true
      → kind l.type ≢ Kind.unknown
      → l.type ≡ r.type
      → Readable l
      → Readable r
      → (op ≡ ExpressionType.like → R)
      → Post (λ _. Unit {0}) Q R (compare_op op l r)
  unfolding compare_op allows
  compare_op-Post ExpressionType.eq l r a k e sl sr h =
      total_Post (equality_total (λ b. b) (kind l.type) l r k sl (λ p. sr (ap kind (sym e) ∙ p)))
  compare_op-Post ExpressionType.ne l r a k e sl sr h =
      total_Post (equality_total not (kind l.type) l r k sl (λ p. sr (ap kind (sym e) ∙ p)))
  compare_op-Post ExpressionType.lt l r a k e sl sr h =
      total_Post
        (ordering_total ltb_ℤ ltb double_lt l.type l r a sl (λ p. sr (ap kind (sym e) ∙ p)))
  compare_op-Post ExpressionType.le l r a k e sl sr h =
      total_Post
        (ordering_total leb_ℤ leb double_le l.type l r a sl (λ p. sr (ap kind (sym e) ∙ p)))
  compare_op-Post ExpressionType.gt l r a k e sl sr h = total_Post (
      ordering_total (λ a b. ltb_ℤ b a) (λ a b. ltb b a) (λ a b. double_lt b a) l.type l r a sl
        (λ p. sr (ap kind (sym e) ∙ p)))
  compare_op-Post ExpressionType.ge l r a k e sl sr h = total_Post (
      ordering_total (λ a b. leb_ℤ b a) (λ a b. leb b a) (λ a b. double_le b a) l.type l r a sl
        (λ p. sr (ap kind (sym e) ∙ p)))
  compare_op-Post ExpressionType.like l r a k e sl sr h = compare_like-Post l r a (h refl)
  compare_op-Post _ l r a k e sl sr h = returns tt
