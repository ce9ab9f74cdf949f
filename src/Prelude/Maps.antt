-- ===== src/Prelude/Maps.antt =====
-- Go's maps: a list of entries, with the operations of the language on them. A `range` loop visits
-- the entries in the list's order; a Go program may see any other.
pub mod Laws
pub mod Entries
use capsule.Prelude.{
  ℕ, List, [], ◌∷◌, Bool, true, false, Option, none, some, ◌≡◌, ◌↔◌, ◌==◌, if◌then◌else◌, ==_iff,
}
use capsule.Prelude.Bytes.{bytes_eq}
use capsule.Prelude.Bytes.Laws.{bytes_eq_iff}

-- What a key type offers.
pub record Key (K : Type 0) : Type 0 where
  pub same : K → K → Bool
  pub same_iff : (a b : K) → (same a b ≡ true) ↔ (a ≡ b)

instance abbrev pub number_key : Key ℕ
number_key = record { same = λ a b. a == b; same_iff = ==_iff }

instance abbrev pub bytes_key : Key (List ℕ)
bytes_key = record { same = bytes_eq; same_iff = bytes_eq_iff }

abbrev pub GoMap : Type 0 → Type 0 → Type 0
GoMap K V = List (K × V)

module _ {K V : Type 0} ⦃key : Key K⦄ where
  -- `v, ok := m[k]`
  unfoldable pub lookup : K → GoMap K V → Option V
  lookup k [] = none
  lookup k ((j, v) ∷ m) = if key.same j k then some v else lookup k m

  -- `delete(m, k)`
  unfoldable pub delete : K → GoMap K V → GoMap K V
  delete k [] = []
  delete k ((j, v) ∷ m) = let rest = delete k m in if key.same j k then rest else (j, v) ∷ rest

  -- `m[k] = v`
  unfoldable pub insert : K → V → GoMap K V → GoMap K V
  unfolding delete
  insert k v m = (k, v) ∷ delete k m

  -- `for k, v := range from { to[k] = v }`
  unfoldable pub put_all : GoMap K V → GoMap K V → GoMap K V
  unfolding insert
  put_all [] to = to
  put_all ((k, v) ∷ from) to = put_all from (insert k v to)

  -- `for _, k := range ks { delete(m, k) }`
  unfoldable pub delete_all : List K → GoMap K V → GoMap K V
  unfolding delete
  delete_all [] m = m
  delete_all (k ∷ ks) m = delete_all ks (delete k m)

  -- A list that stands for a map: no key occurs twice.
  unfoldable pub Unique : GoMap K V → Type 0
  unfolding lookup
  Unique [] = Unit
  Unique ((k, v) ∷ m) = (lookup k m ≡ none) × Unique m
