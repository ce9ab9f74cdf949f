-- ===== src/Perf/Monitor/Recorded.antt =====
-- What is recorded of a descriptor by a registration in pkg/sys/perf/monitor.go, and what is kept of it.
use capsule.Prelude.{
  ℕ, suc, List, [], ◌∷◌, Bool, true, false, ◌||◌, Option, none, some, ◌≡◌, inl, inr, refl, sym, ap,
  ◌∙◌, Bool-cases, Option-cases,
}
use capsule.Prelude.Maps.{number_key, GoMap, lookup, insert, delete, put_all}
use capsule.Prelude.Maps.Laws.{names, same_self}
use capsule.Prelude.Maps.Entries.{
  none_not_some, some_eq, of_if, of_insert, inserted, of_delete, keys, not_put,
}
use capsule.Perf.Monitor.{stream_ids, with_id, all_to, places, ids_of}
use capsule.Perf.Monitor.Invariant.{or_false, or_first, or_second}
use capsule.Perf.Monitor.Register.{Absent, not_recorded}

-- A test that comes out both ways.
pub both_ways : {R : Type 0} (b : Bool) → b ≡ true → b ≡ false → R
both_ways b h k = let z : true ≡ false = sym h ∙ k in cc

pub not_new :
    (fds : List ℕ) (eventids : GoMap ℕ ℕ) (fd id : ℕ)
    → Absent fds eventids
    → lookup fd eventids ≡ some id
    → names fds fd ≡ false
not_new fds eventids fd id a h = elim (Bool-cases (names fds fd)) [
  | inl n ↦ none_not_some id (sym (not_recorded fds eventids fd a n) ∙ h)
  | inr n ↦ n
]

-- A key that is put is there, and what is put under each key alike is there under it.
pub put_there :
    {V : Type 0} (from : GoMap ℕ V) (j : ℕ) (to : GoMap ℕ V)
    → names (keys from) j ≡ true
    → (v : V) × (lookup j (put_all from to) ≡ some v)
unfolding names put_all
put_there [] j to h = cc
put_there ((k, w) ∷ from) j to h = elim (Bool-cases (names (keys from) j)) [
  | inl n ↦ put_there from j (insert k w to) n
  | inr n ↦ elim (Bool-cases (number_key.same k j)) [
    | inl s ↦ (
      w,
      not_put from j (insert k w to) n
          ∙ ap (λ k. lookup j (insert k w to)) ((number_key.same_iff k j).0 s)
          ∙ inserted j w to,
    )
    | inr s ↦ both_ways (names (keys from) j) (or_false _ _ h s) n
  ]
]

put_alike :
    {V : Type 0} (v w : V) (ids : GoMap ℕ ℕ) (j : ℕ) (to : GoMap ℕ V)
    → ((u : V) → lookup j to ≡ some u → v ≡ u)
    → lookup j (put_all (all_to v ids) to) ≡ some w
    → v ≡ w
unfolding put_all all_to
put_alike v w [] j to a h = a w h
put_alike v w ((g, id) ∷ ids) j to a h =
    put_alike v w ids j (insert id v to)
      (λ u k. elim (of_insert id j v to u k) [ inl (e, i) ↦ i | inr (e, i) ↦ a u i ]) h

names-all_to :
    {V : Type 0} (v : V) (ids : GoMap ℕ ℕ) (fd id : ℕ)
    → lookup fd ids ≡ some id
    → names (keys (all_to v ids)) id ≡ true
unfolding names all_to lookup
names-all_to v [] fd id h = cc
names-all_to v ((g, j) ∷ ids) fd id h =
    elim (of_if (number_key.same g fd) (some j) (lookup fd ids) id h) [
      | inl (s, e) ↦ or_first _ _ ((number_key.same_iff j id).1 (some_eq j id e))
      | inr (s, e) ↦ or_second _ _ (names-all_to v ids fd id e)
    ]

-- Under the identifier of each descriptor stands the value put.
pub put_under :
    {V : Type 0} (v : V) (ids : GoMap ℕ ℕ) (fd id : ℕ)
    → lookup fd ids ≡ some id
    → lookup id (put_all (all_to v ids) []) ≡ some v
unfolding lookup
put_under v ids fd id h =
    let (w, e) = put_there (all_to v ids) id [] (names-all_to v ids fd id h) in
    e ∙ ap some (sym (put_alike v w ids id [] (λ u k. none_not_some u k) e))

-- Where each identifier is read, each descriptor has the one that the kernel gives it.
pub read_all :
    (stream_id : ℕ → Option ℕ) (fds : List ℕ) (fd : ℕ)
    → (stream_ids stream_id fds).1 ≡ true
    → names fds fd ≡ true
    → (id : ℕ) × (lookup fd (stream_ids stream_id fds).0 ≡ some id)
unfolding names stream_ids with_id lookup
read_all stream_id [] fd a h = cc
read_all stream_id (g ∷ fds) fd a h = go (stream_id g) (read_all stream_id fds fd) a
  where
    rest : GoMap ℕ ℕ × Bool
    rest = stream_ids stream_id fds

    go :
        (o : Option ℕ)
        → (rest.1 ≡ true → names fds fd ≡ true → (id : ℕ) × (lookup fd rest.0 ≡ some id))
        → (with_id g o rest).1 ≡ true
        → (id : ℕ) × (lookup fd (with_id g o rest).0 ≡ some id)
    go none ih k = cc
    go (some j) ih k = elim (Bool-cases (number_key.same g fd)) [
      | inl s ↦ (j, rw s refl)
      | inr s ↦ let (id, e) = ih k (or_false _ _ h s) in (id, rw s e)
    ]

pub read_from :
    (stream_id : ℕ → Option ℕ) (fds : List ℕ) (fd id : ℕ)
    → lookup fd (stream_ids stream_id fds).0 ≡ some id
    → stream_id fd ≡ some id
unfolding stream_ids with_id lookup
read_from stream_id [] fd id h = cc
read_from stream_id (g ∷ fds) fd id h = go (stream_id g) refl (read_from stream_id fds fd id) h
  where
    rest : GoMap ℕ ℕ × Bool
    rest = stream_ids stream_id fds

    go :
        (o : Option ℕ)
        → stream_id g ≡ o
        → (lookup fd rest.0 ≡ some id → stream_id fd ≡ some id)
        → lookup fd (with_id g o rest).0 ≡ some id
        → stream_id fd ≡ some id
    go none e ih k = cc
    go (some j) e ih k = elim (of_if (number_key.same g fd) (some j) (lookup fd rest.0) id k) [
      | inl (s, i) ↦ ap stream_id (sym ((number_key.same_iff g fd).0 s)) ∙ e ∙ i
      | inr (s, i) ↦ ih i
    ]

pub placed :
    (i : ℕ) (fds : List ℕ) (fd : ℕ) → names fds fd ≡ true → names (keys (places i fds)) fd ≡ true
unfolding places names
placed i [] fd h = h
placed i (g ∷ fds) fd h = elim (Bool-cases (number_key.same g fd)) [
  | inl s ↦ or_first _ _ s
  | inr s ↦ or_second _ _ (placed (suc i) fds fd (or_false _ _ h s))
]

-- `removeRegisteredEvent` collects no identifier but those of the descriptors given.
pub of_ids_of :
    (fds : List ℕ) (eventids : GoMap ℕ ℕ) (id : ℕ)
    → names (ids_of fds eventids) id ≡ true
    → (fd : ℕ) × (names fds fd ≡ true) × (lookup fd eventids ≡ some id)
unfolding names ids_of
of_ids_of [] eventids id h = cc
of_ids_of (g ∷ fds) eventids id h = elim (Option-cases (lookup g eventids)) [
  | inl e ↦
      let (fd, n, k) = of_ids_of fds eventids id (rw (ids_of, e) at h) in (fd, or_second _ _ n, k)
  | inr (j, e) ↦ found j e (of_ids_of fds (delete g eventids) id) (rw (ids_of, e) at h)
]
  where
    later :
        (fd : ℕ) × (names fds fd ≡ true) × (lookup fd (delete g eventids) ≡ some id)
        → (fd : ℕ) × (names (g ∷ fds) fd ≡ true) × (lookup fd eventids ≡ some id)
    later (fd, n, k) = (fd, or_second _ _ n, (of_delete g fd eventids id k).1)

    found :
        (j : ℕ)
        → lookup g eventids ≡ some j
        → (names (ids_of fds (delete g eventids)) id ≡ true
            → (fd : ℕ) × (names fds fd ≡ true) × (lookup fd (delete g eventids) ≡ some id))
        → (number_key.same j id || names (ids_of fds (delete g eventids)) id) ≡ true
        → (fd : ℕ) × (names (g ∷ fds) fd ≡ true) × (lookup fd eventids ≡ some id)
    found j e ih n = elim (Bool-cases (number_key.same j id)) [
      | inl s ↦ (g, or_first _ _ (same_self g), e ∙ ap some ((number_key.same_iff j id).0 s))
      | inr s ↦ later (ih (or_false _ _ n s))
    ]
