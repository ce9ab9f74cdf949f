-- ===== src/Perf/SafeMap/Laws.antt =====
-- What the operations of pkg/sys/perf/maps.go do to the map that a reader finds, and to a map that
-- a reader has loaded before.
use capsule.Prelude.{
  ℕ, zero, suc, ◌<◌, List, [], ◌∷◌, ◌++◌, Option, none, some, ◌≡◌, refl, ◌∙◌, ap, arith, length,
  get_elem?, set, if◌then◌else◌, get_elem?-set_self, length-append, length-set,
}
use capsule.Prelude.Maps.{number_key, GoMap, lookup, delete_all, put_all, Unique}
use capsule.Prelude.Maps.Laws.{
  or_else, names, lookup-put_all, lookup-delete_all, put_all-Unique, delete_all-Unique,
}
use capsule.Perf.SafeMap.{
  SafeMap, contents, get_map, store, remove_in_place, remove, update_in_place, update, find,
}

-- The operations of maps.go, by name.
pub data Op (V : Type 0) : Type 0 where
  update_op update_in_place_op : GoMap ℕ V → Op V
  remove_op remove_in_place_op : List ℕ → Op V

empty-Unique : (V : Type 0) → Unique {K = ℕ} {V = V} []
unfolding Unique
empty-Unique V = tt

-- A reference, where there is one, is below the heap's length.
abbrev pub Allocated : Option ℕ → ℕ → Type 0
Allocated none n = Unit
Allocated (some ref) n = ref < n

module _ {V : Type 0} where
  -- The active reference is one of the heap's, and each map holds a key once.
  pub record IsValid (m : SafeMap V) : Type 0 where
    pub allocated : Allocated m.active (length m.heap)
    pub keyed : Unique (contents m.heap m.active)

  unfoldable pub run : Op V → SafeMap V → SafeMap V
  unfolding update update_in_place remove remove_in_place
  run (Op.update_op from) m = update from m
  run (Op.update_in_place_op from) m = update_in_place from m
  run (Op.remove_op ids) m = remove ids m
  run (Op.remove_in_place_op ids) m = remove_in_place ids m

  -- What the operation does to a map seen as a function.
  unfoldable pub effect : Op V → (ℕ → Option V) → ℕ → Option V
  unfolding names lookup
  effect (Op.update_op from) f id = or_else (lookup id from) (f id)
  effect (Op.update_in_place_op from) f id = or_else (lookup id from) (f id)
  effect (Op.remove_op ids) f id = if names ids id then none else f id
  effect (Op.remove_in_place_op ids) f id = if names ids id then none else f id

  -- The maps an operation is given hold a key once.
  abbrev pub Given : Op V → Type 0
  Given (Op.update_op from) = Unique from
  Given (Op.update_in_place_op from) = Unique from
  Given (Op.remove_op ids) = Unit
  Given (Op.remove_in_place_op ids) = Unit

  last-append :
      (h : List (GoMap ℕ V)) (e : GoMap ℕ V) → get_elem? (h ++ (e ∷ [])) (length h) ≡ some e
  last-append [] e = refl
  last-append (x ∷ h) e = last-append h e

  kept-append :
      (h : List (GoMap ℕ V)) (e : GoMap ℕ V) (i : ℕ)
      → i < length h
      → get_elem? (h ++ (e ∷ [])) i ≡ get_elem? h i
  kept-append [] e i l = absurd (omega arith)
  kept-append (x ∷ h) e zero l = refl
  kept-append (x ∷ h) e (suc i) l = kept-append h e i (omega arith)

  contents-append :
      (h : List (GoMap ℕ V)) (e : GoMap ℕ V) → contents (h ++ (e ∷ [])) (some (length h)) ≡ e
  unfolding contents
  contents-append h e = rw (contents, last-append h e)

  pub contents-kept :
      (h : List (GoMap ℕ V)) (e : GoMap ℕ V) (i : ℕ)
      → i < length h
      → contents (h ++ (e ∷ [])) (some i) ≡ contents h (some i)
  unfolding contents
  contents-kept h e i l = rw (contents, kept-append h e i l)

  contents-set :
      (h : List (GoMap ℕ V)) (i : ℕ) (e : GoMap ℕ V)
      → i < length h
      → contents (set h i e) (some i) ≡ e
  unfolding contents
  contents-set h i e l = rw (contents, get_elem?-set_self h i e l)

  or_none : (o : Option V) → or_else o none ≡ o
  or_none none = refl
  or_none (some v) = refl

  copied : (m : GoMap ℕ V) (id : ℕ) → Unique m → lookup id (put_all m []) ≡ lookup id m
  unfolding lookup
  copied m id u = lookup-put_all id m [] u ∙ or_none (lookup id m)

  -- A step that stores a fresh map, or that writes in place, leaves its entries active.
  stored :
      (e : GoMap ℕ V) (m : SafeMap V)
      → Unique e
      → IsValid (store e m) × ((id : ℕ) → find (store e m) id ≡ lookup id e)
  unfolding store find get_map
  stored e m u = (
    record {
      allocated = omega (arith, length-append m.heap (e ∷ []));
      keyed = rw (contents-append m.heap e) u;
    },
    λ id. rw (contents-append m.heap e),
  )

  written :
      (e : GoMap ℕ V) (m : SafeMap V) (ref : ℕ)
      → m.active ≡ some ref
      → ref < length m.heap
      → Unique e
      → let m' : SafeMap V = record m { heap = set m.heap ref e } in
        IsValid m' × ((id : ℕ) → find m' id ≡ lookup id e)
  unfolding find get_map
  written e m ref a l u = (
    record {
      allocated = rw (a, length-set m.heap ref e) l;
      keyed = rw (a, contents-set m.heap ref e l) u;
    },
    λ id. rw (a, contents-set m.heap ref e l),
  )

  copy-Unique : (h : GoMap ℕ V) → Unique (put_all h [])
  copy-Unique h = put_all-Unique h [] (empty-Unique V)

  -- A map as its two parts, for a split on the reference.
  abbrev made : List (GoMap ℕ V) → Option ℕ → SafeMap V
  made h a = record { heap = h; active = a }

  in_place_update :
      (from : GoMap ℕ V) (h : List (GoMap ℕ V)) (a : Option ℕ)
      → Unique from
      → IsValid (made h a)
      → IsValid (update_in_place from (made h a))
        × ((id : ℕ)
            → find (update_in_place from (made h a)) id
              ≡ or_else (lookup id from) (find (made h a) id))
  unfolding update_in_place find get_map contents lookup
  in_place_update from h none g v =
      let (v', f) = stored (put_all from []) (made h none) (copy-Unique from) in
      (v', λ id. f id ∙ lookup-put_all id from [] g)
  in_place_update from h (some ref) g v =
      let old : GoMap ℕ V = contents h (some ref) in
      let (v', f) =
        written (put_all from old) (made h (some ref)) ref refl v.allocated
          (put_all-Unique from old v.keyed) in
      (v', λ id. f id ∙ lookup-put_all id from old g)

  in_place_remove :
      (ids : List ℕ) (h : List (GoMap ℕ V)) (a : Option ℕ)
      → IsValid (made h a)
      → IsValid (remove_in_place ids (made h a))
        × ((id : ℕ)
            → find (remove_in_place ids (made h a)) id
              ≡ (if names ids id then none else find (made h a) id))
  unfolding remove_in_place find get_map contents lookup
  in_place_remove ids h none v = (v, λ id. ground arith)
  in_place_remove ids h (some ref) v =
      let old : GoMap ℕ V = contents h (some ref) in
      let (v', f) =
        written (delete_all ids old) (made h (some ref)) ref refl v.allocated
          (delete_all-Unique ids old v.keyed) in
      (v', λ id. f id ∙ lookup-delete_all id ids old)

  -- Every operation, on a copy or in place, keeps the map well formed, and a reader then finds what
  -- the operation says: an update's entry before an older one, and no id that was removed.
  pub run_lem :
      (op : Op V) (m : SafeMap V)
      → Given op
      → IsValid m
      → IsValid (run op m) × ((id : ℕ) → find (run op m) id ≡ effect op (find m) id)
  unfolding run effect update remove find get_map
  run_lem (Op.update_op from) m g v =
      let old : GoMap ℕ V = contents m.heap m.active in
      let (v', f) =
        stored (put_all from (put_all old [])) m
          (put_all-Unique from (put_all old []) (copy-Unique old)) in
      (
        v',
        λ id.
            f id
            ∙ lookup-put_all id from (put_all old []) g
            ∙ ap (or_else (lookup id from)) (copied old id v.keyed),
      )
  run_lem (Op.update_in_place_op from) m g v = in_place_update from m.heap m.active g v
  run_lem (Op.remove_op ids) m g v =
      let old : GoMap ℕ V = contents m.heap m.active in
      let (v', f) =
        stored (delete_all ids (put_all old [])) m
          (delete_all-Unique ids (put_all old []) (copy-Unique old)) in
      (
        v',
        λ id.
            f id
            ∙ lookup-delete_all id ids (put_all old [])
            ∙ ap (λ o. if names ids id then none else o) (copied old id v.keyed),
      )
  run_lem (Op.remove_in_place_op ids) m g v = in_place_remove ids m.heap m.active v
