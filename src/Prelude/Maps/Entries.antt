-- ===== src/Prelude/Maps/Entries.antt =====
-- Where an entry of a changed Go map comes from.
use capsule.Prelude.{
  List, [], ◌∷◌, Bool, true, false, Option, none, some, ◌≡◌, ◌⊎◌, inl, inr, refl, sym, ap, ◌∙◌,
  ◌||◌, if◌then◌else◌,
}
use capsule.Prelude.Maps.{Key, GoMap, lookup, insert, delete, put_all, delete_all}
use capsule.Prelude.Maps.Laws.{
  same_self, names, lookup-insert, lookup-delete, lookup-delete_all, or_else,
}

module _ {V : Type 0} where
  pub none_not_some : {R : Type 0} (v : V) → none ≡ some v → R
  none_not_some v h = cc

  pub some_eq : (v w : V) → some v ≡ some w → v ≡ w
  some_eq v w h = cc

  -- A chosen entry: it was chosen, or it was there.
  pub of_if :
      (b : Bool) (o p : Option V) (v : V)
      → (if b then o else p) ≡ some v
      → ((b ≡ true) × (o ≡ some v)) ⊎ ((b ≡ false) × (p ≡ some v))
  of_if true o p v h = inl (refl, h)
  of_if false o p v h = inr (refl, h)

  pub of_if_none :
      (b : Bool) (p : Option V) (v : V)
      → (if b then none else p) ≡ some v
      → (b ≡ false) × (p ≡ some v)
  of_if_none true p v h = none_not_some v h
  of_if_none false p v h = (refl, h)

  pub of_or_else : (o p : Option V) (v : V) → or_else o p ≡ some v → (o ≡ some v) ⊎ (p ≡ some v)
  of_or_else none p v h = inr h
  of_or_else (some w) p v h = inl h

  pub or_none : (o : Option V) → or_else o none ≡ o
  or_none none = refl
  or_none (some v) = refl

module _ {K V : Type 0} ⦃key : Key K⦄ where
  pub of_delete :
      (k j : K) (m : GoMap K V) (v : V)
      → lookup j (delete k m) ≡ some v
      → (key.same k j ≡ false) × (lookup j m ≡ some v)
  of_delete k j m v h = of_if_none (key.same k j) (lookup j m) v (sym (lookup-delete k j m) ∙ h)

  pub not_deleted :
      (k j : K) (m : GoMap K V) → key.same k j ≡ false → lookup j (delete k m) ≡ lookup j m
  not_deleted k j m e = lookup-delete k j m ∙ ap (λ b. if b then none else lookup j m) e

  pub of_insert :
      (k j : K) (w : V) (m : GoMap K V) (v : V)
      → lookup j (insert k w m) ≡ some v
      → ((k ≡ j) × (w ≡ v)) ⊎ ((key.same k j ≡ false) × (lookup j m ≡ some v))
  of_insert k j w m v h =
      elim (of_if (key.same k j) (some w) (lookup j m) v (sym (lookup-insert k j w m) ∙ h)) [
        | inl (e, i) ↦ inl ((key.same_iff k j).0 e, some_eq w v i)
        | inr p ↦ inr p
      ]

  pub inserted : (k : K) (w : V) (m : GoMap K V) → lookup k (insert k w m) ≡ some w
  inserted k w m = lookup-insert k k w m ∙ ap (λ b. if b then some w else lookup k m) (same_self k)

  pub not_inserted :
      (k j : K) (w : V) (m : GoMap K V)
      → key.same k j ≡ false
      → lookup j (insert k w m) ≡ lookup j m
  not_inserted k j w m e = lookup-insert k j w m ∙ ap (λ b. if b then some w else lookup j m) e

  pub of_delete_all :
      (ks : List K) (j : K) (m : GoMap K V) (v : V)
      → lookup j (delete_all ks m) ≡ some v
      → (names ks j ≡ false) × (lookup j m ≡ some v)
  of_delete_all ks j m v h =
      of_if_none (names ks j) (lookup j m) v (sym (lookup-delete_all j ks m) ∙ h)

  abbrev pub keys : GoMap K V → List K
  keys [] = []
  keys ((k, v) ∷ m) = k ∷ keys m

  -- An entry of the result comes from the entries that were put, or was there and its key is not put.
  pub of_put_all :
      (from : GoMap K V) (j : K) (to : GoMap K V) (v : V)
      → lookup j (put_all from to) ≡ some v
      → (names (keys from) j ≡ true) ⊎ ((names (keys from) j ≡ false) × (lookup j to ≡ some v))
  unfolding put_all names
  of_put_all [] j to v h = inr (refl, h)
  of_put_all ((k, w) ∷ from) j to v h = elim (of_put_all from j (insert k w to) v h) [
    | inl e ↦ inl (rw e (or_true (key.same k j)))
    | inr (e, i) ↦ elim (of_insert k j w to v i) [
      | inl (f, g) ↦ inl (rw (f, same_self j) refl)
      | inr (f, g) ↦ inr (rw (f, e) refl, g)
    ]
  ]
    where
      or_true : (b : Bool) → (b || true) ≡ true
      or_true true = refl
      or_true false = refl

  pub not_put :
      (from : GoMap K V) (j : K) (to : GoMap K V)
      → names (keys from) j ≡ false
      → lookup j (put_all from to) ≡ lookup j to
  unfolding put_all names
  not_put [] j to h = refl
  not_put ((k, w) ∷ from) j to h =
      let (e, f) = parts (key.same k j) (names (keys from) j) h in
      not_put from j (insert k w to) f ∙ not_inserted k j w to e
    where
      parts : (a b : Bool) → (a || b) ≡ false → (a ≡ false) × (b ≡ false)
      parts true b h = cc
      parts false b h = (refl, h)
