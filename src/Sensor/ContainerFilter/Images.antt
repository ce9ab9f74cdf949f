-- ===== src/Sensor/ContainerFilter/Images.antt =====
-- The images of a container filter: the map of globs against the list of patterns it was made of.
use capsule.Prelude.{
  List, [], ◌∷◌, Bool, false, Option, none, some, ◌||◌, ◌≡◌, refl, sym, ◌∙◌, ap, inl, inr,
  Bool-cases, arith,
}
use capsule.Prelude.Bytes.{bytes_eq}
use capsule.Prelude.Maps.{bytes_key, GoMap, lookup, insert, delete}
use capsule.Prelude.Maps.Entries.{some_eq}
use capsule.Api.Value.{Bytes}
use capsule.Sensor.ContainerFilter.{
  Glob, add_compiled, add_absent, add_image_name, add_image_names, any_glob,
}

module _ (glob : Glob) where
  abbrev compiled_matches : Option glob.G → Bytes → Bool
  compiled_matches none name = false
  compiled_matches (some g) name = glob.match_name g name

  -- Is the name of an image one that the pattern matches? No name is one that the empty pattern does.
  abbrev pub pattern_matches : Bytes → Bytes → Bool
  pattern_matches [] name = false
  pattern_matches (b ∷ s) name = compiled_matches (glob.compile (b ∷ s)) name

  unfoldable pub any_pattern : List Bytes → Bytes → Bool
  any_pattern [] name = false
  any_pattern (p ∷ ps) name = pattern_matches p name || any_pattern ps name

  -- Each glob of the map is that of its key.
  unfoldable Compiled : GoMap Bytes glob.G → Type 0
  Compiled [] = Unit
  Compiled ((k, g) ∷ m) = (glob.compile k ≡ some g) × Compiled m

  delete_absent : (k : Bytes) (m : GoMap Bytes glob.G) → lookup k m ≡ none → delete k m ≡ m
  unfolding lookup delete
  delete_absent k [] e = refl
  delete_absent k ((j, g) ∷ m) e = elim (Bool-cases (bytes_eq j k)) [
    | inl f ↦ absurd (let z : some g ≡ none = sym (rw f refl) ∙ e in cc)
    | inr f ↦ rw f (ap (λ r. (j, g) ∷ r) (delete_absent k m (sym (rw f refl) ∙ e)))
  ]

  Compiled-here :
      (k : Bytes) (g : glob.G) (m : GoMap Bytes glob.G)
      → Compiled m
      → lookup k m ≡ some g
      → glob.compile k ≡ some g
  unfolding lookup Compiled
  Compiled-here k g [] c e = absurd (let z : none ≡ some g = e in cc)
  Compiled-here k g ((j, h) ∷ m) (c, cs) e = elim (Bool-cases (bytes_eq j k)) [
    | inl f ↦ sym (ap glob.compile ((bytes_key.same_iff j k).0 f)) ∙ c ∙ (sym (rw f refl) ∙ e)
    | inr f ↦ Compiled-here k g m cs (sym (rw f refl) ∙ e)
  ]

  -- A glob of the map that matches is one that the loop meets.
  any_glob_here :
      (name k : Bytes) (g : glob.G) (m : GoMap Bytes glob.G)
      → lookup k m ≡ some g
      → any_glob glob name m ≡ (glob.match_name g name || any_glob glob name m)
  unfolding lookup any_glob
  any_glob_here name k g [] e = absurd (let z : none ≡ some g = e in cc)
  any_glob_here name k g ((j, h) ∷ m) e = elim (Bool-cases (bytes_eq j k)) [
    | inl f ↦ let z : some h ≡ some g = sym (rw f refl) ∙ e in rw (some_eq h g z) ground arith
    | inr f ↦ let z = any_glob_here name k g m (sym (rw f refl) ∙ e) in ground arith
  ]

  unfoldable Adds : Bytes → Option glob.G → GoMap Bytes glob.G → GoMap Bytes glob.G → Type 0
  Adds name g m m' =
      Compiled m' × (any_glob glob name m' ≡ (compiled_matches g name || any_glob glob name m))

  Adds-Compiled :
      (name k : Bytes) (g : Option glob.G) (m : GoMap Bytes glob.G)
      → glob.compile k ≡ g
      → lookup k m ≡ none
      → Compiled m
      → Adds name g m (add_compiled glob k g m)
  unfolding Adds Compiled insert any_glob
  Adds-Compiled name k none m e absent c = (c, refl)
  Adds-Compiled name k (some g) m e absent c = rw (delete_absent k m absent) ((e, c), refl)

  -- A pattern that the map has is not compiled again.
  Adds-absent :
      (name k : Bytes) (o : Option glob.G) (m : GoMap Bytes glob.G)
      → lookup k m ≡ o
      → Compiled m
      → Adds name (glob.compile k) m (add_absent glob k o m)
  unfolding Adds
  Adds-absent name k none m e c = Adds-Compiled name k (glob.compile k) m refl e c
  Adds-absent name k (some g) m e c = rw (Compiled-here k g m c e) (c, any_glob_here name k g m e)

  any_glob-add_image_name :
      (name k : Bytes) (m : GoMap Bytes glob.G)
      → Compiled m
      → Compiled (add_image_name glob k m)
        × (any_glob glob name (add_image_name glob k m)
            ≡ (pattern_matches k name || any_glob glob name m))
  unfolding add_image_name Adds
  any_glob-add_image_name name [] m c = (c, refl)
  any_glob-add_image_name name (b ∷ s) m c = Adds-absent name (b ∷ s) (lookup (b ∷ s) m) m refl c

  any_glob-add_image_names :
      (name : Bytes) (ks : List Bytes) (m : GoMap Bytes glob.G)
      → Compiled m
      → any_glob glob name (add_image_names glob ks m)
        ≡ (any_pattern ks name || any_glob glob name m)
  unfolding add_image_names any_pattern
  any_glob-add_image_names name [] m c = refl
  any_glob-add_image_names name (k ∷ ks) m c =
      let (c', e) = any_glob-add_image_name name k m c in
      let z = any_glob-add_image_names name ks (add_image_name glob k m) c' in ground arith

  -- The globs of a new filter match what one of its patterns does.
  pub any_glob_new :
      (name : Bytes) (ks : List Bytes)
      → any_glob glob name (add_image_names glob ks []) ≡ any_pattern ks name
  unfolding Compiled any_glob
  any_glob_new name ks = any_glob-add_image_names name ks [] tt ∙ ground arith
