-- ===== src/Sensor/ContainerFilter/Sets.antt =====
-- The sets of a container filter: the map against the list of strings it was made of.
use capsule.Prelude.{
  List, [], ◌∷◌, Bool, true, false, none, some, if◌then◌else◌, ◌&&◌, ◌||◌, not, ◌≡◌, refl, ◌∙◌, ap,
  arith,
}
use capsule.Prelude.Bytes.{bytes_eq}
use capsule.Prelude.Maps.{bytes_key, GoMap, lookup, delete}
use capsule.Prelude.Maps.Laws.{lookup-insert, lookup-delete}
use capsule.Api.Value.{Bytes}
use capsule.Sensor.ContainerFilter.{is_empty, or_false, is_set, set_nonempty, set_all}

-- Does the list have the string? None has the empty one.
unfoldable pub listed : List Bytes → Bytes → Bool
listed [] c = false
listed (k ∷ ks) c = (not (is_empty k) && bytes_eq k c) || listed ks c

pub is_set-set_nonempty :
    (k c : Bytes) (m : GoMap Bytes Bool)
    → is_set c (set_nonempty k m) ≡ ((not (is_empty k) && bytes_eq k c) || is_set c m)
unfolding is_set set_nonempty
is_set-set_nonempty [] c m = refl
is_set-set_nonempty (b ∷ s) c m =
    ap or_false (lookup-insert (b ∷ s) c true m) ∙ go (bytes_eq (b ∷ s) c)
  where
    go :
        (same : Bool)
        → or_false (if same then some true else lookup c m) ≡ (same || or_false (lookup c m))
    go true = refl
    go false = refl

pub is_set-delete :
    (k c : Bytes) (m : GoMap Bytes Bool)
    → is_set c (delete k m) ≡ (not (bytes_eq k c) && is_set c m)
unfolding is_set
is_set-delete k c m = ap or_false (lookup-delete k c m) ∙ go (bytes_eq k c)
  where
    go :
        (same : Bool)
        → or_false (if same then none else lookup c m) ≡ (not same && or_false (lookup c m))
    go true = refl
    go false = refl

pub is_set-set_all :
    (ks : List Bytes) (c : Bytes) (m : GoMap Bytes Bool)
    → is_set c (set_all ks m) ≡ (listed ks c || is_set c m)
unfolding set_all listed
is_set-set_all [] c m = refl
is_set-set_all (k ∷ ks) c m =
    let e = is_set-set_all ks c (set_nonempty k m) in
    let f = is_set-set_nonempty k c m in ground arith

pub is_set_new : (ks : List Bytes) (c : Bytes) → is_set c (set_all ks []) ≡ listed ks c
unfolding is_set lookup
is_set_new ks c = is_set-set_all ks c [] ∙ ground arith
