-- ===== src/Perf/Sample/Identifier.antt =====
-- The cache of `getSize` of pkg/sys/perf/types.go, over sequences of calls.
use capsule.Prelude.{
  ℕ, zero, suc, List, [], ◌∷◌, Bool, Option, none, some, ◌≡◌, refl, sym, ap, ◌∙◌, inl, inr,
  Bool-cases, if◌then◌else◌,
}
use capsule.Prelude.Maps.{number_key, GoMap, lookup, insert}
use capsule.Prelude.Maps.Laws.{lookup-insert}
use capsule.Perf.Sample.{size_or, get_size}

-- The cache after some calls, each by its sample type and whether all records have identifiers.
unfoldable pub sizes_after : List (ℕ × Bool) → GoMap ℕ ℕ → GoMap ℕ ℕ
unfolding get_size
sizes_after [] sizes = sizes
sizes_after ((t, all) ∷ calls) sizes = sizes_after calls (get_size t all sizes).1

inserted : (t v : ℕ) (sizes : GoMap ℕ ℕ) → lookup t (insert t v sizes) ≡ some v
inserted t v sizes =
    lookup-insert t t v sizes
    ∙ ap (λ b. if b then some v else lookup t sizes) ((number_key.same_iff t t).1 refl)

-- A positive size that is returned is in the cache.
returned_cached :
    (t n : ℕ) (all : Bool) (sizes : GoMap ℕ ℕ)
    → (get_size t all sizes).0 ≡ suc n
    → lookup t (get_size t all sizes).1 ≡ some (suc n)
unfolding get_size
returned_cached t n all sizes h = go (lookup t sizes) refl h
  where
    go :
        (o : Option ℕ)
        → lookup t sizes ≡ o
        → (size_or o t all sizes).0 ≡ suc n
        → lookup t (size_or o t all sizes).1 ≡ some (suc n)
    go (some (suc m)) e h = e ∙ ap some h
    go (some zero) e h = inserted t _ sizes ∙ ap some h
    go none e h = inserted t _ sizes ∙ ap some h

-- A write under another sample type.
written_beside :
    (t u v n : ℕ) (o : Option ℕ) (sizes : GoMap ℕ ℕ)
    → lookup u sizes ≡ o
    → (o ≡ some (suc n) → ⊥)
    → lookup t sizes ≡ some (suc n)
    → lookup t (insert u v sizes) ≡ some (suc n)
written_beside t u v n o sizes e differs h =
    lookup-insert u t v sizes ∙ elim (Bool-cases (number_key.same u t)) [
      | inl s ↦
          absurd (differs (sym e ∙ ap (λ k. lookup k sizes) ((number_key.same_iff u t).0 s) ∙ h))
      | inr s ↦ rw s h
    ]

-- No call changes a positive size that is in the cache.
cached_kept :
    (t u n : ℕ) (all : Bool) (sizes : GoMap ℕ ℕ)
    → lookup t sizes ≡ some (suc n)
    → lookup t (get_size u all sizes).1 ≡ some (suc n)
unfolding get_size
cached_kept t u n all sizes h = go (lookup u sizes) refl
  where
    go : (o : Option ℕ) → lookup u sizes ≡ o → lookup t (size_or o u all sizes).1 ≡ some (suc n)
    go (some (suc m)) e = h
    go (some zero) e = written_beside t u _ n (some zero) sizes e (λ z. cc) h
    go none e = written_beside t u _ n none sizes e (λ z. cc) h

all_kept :
    (t n : ℕ) (calls : List (ℕ × Bool)) (sizes : GoMap ℕ ℕ)
    → lookup t sizes ≡ some (suc n)
    → lookup t (sizes_after calls sizes) ≡ some (suc n)
unfolding sizes_after
all_kept t n [] sizes h = h
all_kept t n ((u, all) ∷ calls) sizes h =
    all_kept t n calls (get_size u all sizes).1 (cached_kept t u n all sizes h)

cached_returned :
    (t n : ℕ) (all : Bool) (sizes : GoMap ℕ ℕ)
    → lookup t sizes ≡ some (suc n)
    → (get_size t all sizes).0 ≡ suc n
unfolding get_size size_or
cached_returned t n all sizes h = rw (get_size, h) refl

-- A positive size that `getSize` has returned for a sample type is what it returns for that type after
-- any sequence of further calls, whether the event has identifiers on all records or not.
pub get_size-sizes_after :
    (t n : ℕ) (a b : Bool) (calls : List (ℕ × Bool)) (sizes : GoMap ℕ ℕ)
    → (get_size t a sizes).0 ≡ suc n
    → (get_size t b (sizes_after calls (get_size t a sizes).1)).0 ≡ suc n
get_size-sizes_after t n a b calls sizes h =
    cached_returned t n b _ (all_kept t n calls _ (returned_cached t n a sizes h))
