-- ===== src/Expression/Like.antt =====
-- The patterns of `compareLike`: a `*` at either end of the pattern stands for any text.
use mathlib.Core.Bool.{false≢true}
use capsule.Prelude.{
  suc, ◌-◌, [], ◌∷◌, ◌++◌, Bool, true, false, ◌≡◌, ◌≢◌, refl, sym, ap, ◌∙◌, ◌↔◌, inl, inr, arith,
  length, length-append, Bool-cases,
}
use capsule.Prelude.Bytes.{has_prefix, has_suffix, contains, slice, bytes_eq}
use capsule.Prelude.Bytes.Laws.{
  bytes_eq_iff, has_prefix_iff, has_suffix_iff, contains_iff, has_prefix-append, has_suffix-append,
  slice_part, slice_tail,
}
use capsule.Prelude.Outcome.{Outcome, ok, panic}
use capsule.Api.Value.{Bytes}
use capsule.Expression.Types.{Error}
use capsule.Expression.Compare.{like, star}

-- The texts that a pattern describes. A `*` inside the pattern is an ordinary character.
pub data Like (s p : Bytes) : Type 0 where
  within : (m a b : Bytes) → p ≡ star ++ (m ++ star) → s ≡ a ++ (m ++ b) → Like s p
  ends : (m a : Bytes) → p ≡ star ++ m → has_suffix p star ≡ false → s ≡ a ++ m → Like s p
  starts : (m b : Bytes) → p ≡ m ++ star → has_prefix p star ≡ false → s ≡ m ++ b → Like s p
  exact : has_prefix p star ≡ false → has_suffix p star ≡ false → s ≡ p → Like s p

no_prefix : (x : Bytes) → has_prefix x [] ≡ true
no_prefix x = has_prefix-append [] x

module _ (s : Bytes) where
  like_within : (m : Bytes) → like s (star ++ (m ++ star)) ≡ ok (contains s m)
  unfolding like has_prefix
  like_within m = rw (
    has_suffix-append (star ++ m) star,
    slice_part star m star 1 (suc (length (m ++ star)) - 1) refl
        (omega (arith, length-append m star)),
  )

  like_ends :
      (m : Bytes) → has_suffix (star ++ m) star ≡ false → like s (star ++ m) ≡ ok (has_suffix s m)
  unfolding like has_prefix
  like_ends m e = rw (e, slice_tail star m 1 (suc (length m)) refl (omega arith))

  like_starts :
      (m : Bytes) → has_prefix (m ++ star) star ≡ false → like s (m ++ star) ≡ ok (has_prefix s m)
  unfolding like
  like_starts m e = rw (
    e,
    has_suffix-append m star,
    slice_part [] m star 0 (length (m ++ star) - 1) refl (omega (arith, length-append m star)),
  )

  like_exact :
      (p : Bytes)
      → has_prefix p star ≡ false
      → has_suffix p star ≡ false
      → like s p ≡ ok (bytes_eq s p)
  unfolding like
  like_exact p e e' = rw (e, e')

-- A pattern with a star at both ends, of two bytes at least, is a text between two stars.
both_ends :
    (p q r : Bytes)
    → p ≢ star
    → p ≡ star ++ r
    → p ≡ q ++ star
    → (m : Bytes) × (p ≡ star ++ (m ++ star))
both_ends p [] r h e e' = absurd (h e')
both_ends p (x ∷ q) r h e e' = (q, ground arith)

-- What `like` decides where its pattern is not a lone star.
sound : (s p : Bytes) → p ≢ star → (b : Bool) × (like s p ≡ ok b) × (b ≡ true → Like s p)
sound s p h = elim (Bool-cases (has_prefix p star)) [
  | inl e ↦ elim (Bool-cases (has_suffix p star)) [
    | inl e' ↦ both ((has_prefix_iff p star).0 e) ((has_suffix_iff p star).0 e')
    | inr e' ↦ front ((has_prefix_iff p star).0 e) e'
  ]
  | inr e ↦ elim (Bool-cases (has_suffix p star)) [
    | inl e' ↦ back ((has_suffix_iff p star).0 e') e
    | inr e' ↦ (bytes_eq s p, like_exact s p e e', λ q. exact e e' ((bytes_eq_iff s p).0 q))
  ]
]
  where
    Claim : Type 0
    Claim = (b : Bool) × (like s p ≡ ok b) × (b ≡ true → Like s p)

    both : (r : Bytes) × (p ≡ star ++ r) → (q : Bytes) × (p ≡ q ++ star) → Claim
    both (r, e) (q, e') =
        let (m, k) = both_ends p q r h e e' in
        (
          contains s m,
          rw k (like_within s m),
          λ c. let (a, b, i) = (contains_iff s m).0 c in within m a b k i,
        )

    front : (r : Bytes) × (p ≡ star ++ r) → has_suffix p star ≡ false → Claim
    front (m, k) e = (
      has_suffix s m,
      rw k (like_ends s m (rw k at e)),
      λ c. let (a, i) = (has_suffix_iff s m).0 c in ends m a k e i,
    )

    back : (q : Bytes) × (p ≡ q ++ star) → has_prefix p star ≡ false → Claim
    back (m, k) e = (
      has_prefix s m,
      rw k (like_starts s m (rw k at e)),
      λ c. let (b, i) = (has_prefix_iff s m).0 c in starts m b k e i,
    )

complete : {s p : Bytes} → Like s p → like s p ≡ ok true
complete {s} (within m a b e i) = rw e (like_within s m ∙ ap ok ((contains_iff s m).1 (a, b, i)))
complete {s} (ends m a e n i) =
    rw e (like_ends s m (rw e at n) ∙ ap ok ((has_suffix_iff s m).1 (a, i)))
complete {s} (starts m b e n i) =
    rw e (like_starts s m (rw e at n) ∙ ap ok ((has_prefix_iff s m).1 (b, i)))
complete {s} {p} (exact e n i) = like_exact s p e n ∙ ap ok ((bytes_eq_iff s p).1 i)

-- For every pattern but a lone star, `compareLike` on strings returns a truth value, and it is true
-- exactly when the pattern describes the text.
pub like_lem :
    (s p : Bytes) → p ≢ star → ((b : Bool) × (like s p ≡ ok b)) × ((like s p ≡ ok true) ↔ Like s p)
like_lem s p h =
    let (b, e, f) = sound s p h in ((b, e), (λ q. f (ok_injective (sym e ∙ q)), complete))
  where
    ok_injective : {b c : Bool} → ◌≡◌ {A = Outcome Error Bool} (ok b) (ok c) → b ≡ c
    ok_injective i = cc

like-star : (s : Bytes) → like s star ≡ panic
unfolding like has_prefix has_suffix slice bytes_eq
like-star s = refl

-- `compareLike` on strings panics exactly on the pattern that is a lone star: its two slice bounds
-- cross.
pub like-panic_iff : (s p : Bytes) → (like s p ≡ panic) ↔ (p ≡ star)
like-panic_iff s p = (forward, λ e. rw e (like-star s))
  where
    forward : like s p ≡ panic → p ≡ star
    forward e = elim (Bool-cases (bytes_eq p star)) [
      | inl q ↦ (bytes_eq_iff p star).0 q
      | inr q ↦ absurd (
          let (b, i, _) = sound s p (λ r. false≢true (sym q ∙ (bytes_eq_iff p star).1 r)) in
          ne b (sym i ∙ e))
    ]
      where
        ne : (b : Bool) → ◌≡◌ {A = Outcome Error Bool} (ok b) panic → ⊥
        ne b i = cc
