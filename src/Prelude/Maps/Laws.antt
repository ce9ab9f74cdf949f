-- ===== src/Prelude/Maps/Laws.antt =====
-- What a map holds after an operation on it.
use capsule.Prelude.{
  List, [], ◌∷◌, Bool, true, false, Option, none, some, ◌||◌, ◌≡◌, refl, sym, ◌∙◌, arith, inl, inr,
  if◌then◌else◌, Bool-cases,
}
use capsule.Prelude.Maps.{Key, GoMap, lookup, delete, insert, put_all, delete_all, Unique}

abbrev pub or_else : {V : Type 0} → Option V → Option V → Option V
or_else none y = y
or_else (some v) y = some v

module _ {K : Type 0} ⦃key : Key K⦄ where
  pub same_self : (k : K) → key.same k k ≡ true
  same_self k = (key.same_iff k k).1 refl

  -- Does the list name the key?
  unfoldable pub names : List K → K → Bool
  names [] k = false
  names (j ∷ js) k = key.same j k || names js k

  pub same_via : (i j k : K) → key.same i j ≡ true → key.same k j ≡ true → key.same i k ≡ true
  same_via i j k e f = rw ((key.same_iff i j).0 e, (key.same_iff k j).0 f) (same_self j)

  pub same_comm : (i j : K) → key.same i j ≡ true → key.same j i ≡ true
  same_comm i j e = rw ((key.same_iff i j).0 e) (same_self j)

module _ {K V : Type 0} ⦃key : Key K⦄ where
  pub lookup-delete :
      (k j : K) (m : GoMap K V)
      → lookup j (delete k m) ≡ (if key.same k j then none else lookup j m)
  unfolding lookup delete
  lookup-delete k j [] = ground arith
  lookup-delete k j ((i, v) ∷ m) = elim (Bool-cases (key.same i k)) [
    | inl e ↦ rw (e, lookup-delete k j m, (key.same_iff i k).0 e) ground arith
    | inr e ↦
        rw (e, lookup-delete k j m)
          elim (Bool-cases (key.same i j)) [
            | inl f ↦ elim (Bool-cases (key.same k j)) [
              | inl g ↦ cc (same_via i j k f g)
              | inr g ↦ rw (f, g)
            ]
            | inr f ↦ rw f
          ]
  ]

  pub lookup-insert :
      (k j : K) (v : V) (m : GoMap K V)
      → lookup j (insert k v m) ≡ (if key.same k j then some v else lookup j m)
  unfolding lookup insert
  lookup-insert k j v m = rw (lookup-delete k j m) ground arith

  pub delete-Unique : (k : K) (m : GoMap K V) → Unique m → Unique (delete k m)
  unfolding Unique delete
  delete-Unique k [] u = tt
  delete-Unique k ((i, v) ∷ m) (h, u) = elim (Bool-cases (key.same i k)) [
    | inl e ↦ rw e (delete-Unique k m u)
    | inr e ↦ rw e (lookup-delete k i m ∙ ground arith, delete-Unique k m u)
  ]

  pub insert-Unique : (k : K) (v : V) (m : GoMap K V) → Unique m → Unique (insert k v m)
  unfolding Unique insert
  insert-Unique k v m u = (lookup-delete k k m ∙ rw (same_self k), delete-Unique k m u)

  pub put_all-Unique : (from to : GoMap K V) → Unique to → Unique (put_all from to)
  unfolding put_all
  put_all-Unique [] to u = u
  put_all-Unique ((k, v) ∷ from) to u = put_all-Unique from (insert k v to) (insert-Unique k v to u)

  pub delete_all-Unique : (ks : List K) (m : GoMap K V) → Unique m → Unique (delete_all ks m)
  unfolding delete_all
  delete_all-Unique [] m u = u
  delete_all-Unique (k ∷ ks) m u = delete_all-Unique ks (delete k m) (delete-Unique k m u)

  -- What was there before, where the entries written do not name the key.
  pub lookup-put_all :
      (j : K) (from to : GoMap K V)
      → Unique from
      → lookup j (put_all from to) ≡ or_else (lookup j from) (lookup j to)
  unfolding lookup put_all Unique
  lookup-put_all j [] to u = refl
  lookup-put_all j ((k, v) ∷ from) to (h, u) =
      rw (lookup-put_all j from (insert k v to) u, lookup-insert k j v to)
        elim (Bool-cases (key.same k j)) [
          | inl e ↦ rw (e, sym ((key.same_iff k j).0 e), h)
          | inr e ↦ rw e
        ]

  pub lookup-delete_all :
      (j : K) (ks : List K) (m : GoMap K V)
      → lookup j (delete_all ks m) ≡ (if names ks j then none else lookup j m)
  unfolding delete_all names
  lookup-delete_all j [] m = refl
  lookup-delete_all j (k ∷ ks) m =
      rw (lookup-delete_all j ks (delete k m), lookup-delete k j m) ground arith
