-- ===== src/Perf/SafeMap/Traces.antt =====
-- Sequences of writes to a map of pkg/sys/perf/maps.go, and the readers that loaded it before.
use capsule.Prelude.{
  ℕ, ◌<◌, List, [], ◌∷◌, Option, none, some, ◌≡◌, refl, ◌∙◌, ap, length, if◌then◌else◌,
}
use capsule.Prelude.Maps.{number_key, lookup}
use capsule.Prelude.Maps.Laws.{or_else, names}
use capsule.Perf.SafeMap.{SafeMap, contents, store, remove, update, find}
use capsule.Perf.SafeMap.Laws.{IsValid, Op, run, effect, Given, contents-kept, run_lem}

module _ {V : Type 0} where
  -- The operations that change a copy.
  abbrev pub Copies : Op V → Type 0
  Copies (Op.update_op from) = Unit
  Copies (Op.remove_op ids) = Unit
  Copies op = ⊥

  -- `update` and `remove` leave every map that a reader may have loaded as it was.
  pub copy_on_write :
      (op : Op V) (m : SafeMap V) (ref : ℕ)
      → Copies op
      → ref < length m.heap
      → contents (run op m).heap (some ref) ≡ contents m.heap (some ref)
  unfolding run update remove store
  copy_on_write (Op.update_op from) m ref c l = contents-kept m.heap _ ref l
  copy_on_write (Op.remove_op ids) m ref c l = contents-kept m.heap _ ref l
  copy_on_write op m ref c l = absurd c

  -- A sequence of writes, and what it does to a map seen as a function.
  unfoldable pub run_all : List (Op V) → SafeMap V → SafeMap V
  unfolding run
  run_all [] m = m
  run_all (op ∷ ops) m = run_all ops (run op m)

  unfoldable pub effects : List (Op V) → (ℕ → Option V) → ℕ → Option V
  unfolding effect
  effects [] f = f
  effects (op ∷ ops) f = effects ops (effect op f)

  abbrev pub AllGiven : List (Op V) → Type 0
  AllGiven [] = Unit
  AllGiven (op ∷ ops) = Given op × AllGiven ops

  effect_at :
      (op : Op V) (f g : ℕ → Option V)
      → ((id : ℕ) → f id ≡ g id)
      → (id : ℕ) → effect op f id ≡ effect op g id
  unfolding effect
  effect_at (Op.update_op from) f g h id = ap (or_else (lookup id from)) (h id)
  effect_at (Op.update_in_place_op from) f g h id = ap (or_else (lookup id from)) (h id)
  effect_at (Op.remove_op ids) f g h id = ap (λ o. if names ids id then none else o) (h id)
  effect_at (Op.remove_in_place_op ids) f g h id = ap (λ o. if names ids id then none else o) (h id)

  effects_at :
      (ops : List (Op V)) (f g : ℕ → Option V)
      → ((id : ℕ) → f id ≡ g id)
      → (id : ℕ) → effects ops f id ≡ effects ops g id
  unfolding effects
  effects_at [] f g h id = h id
  effects_at (op ∷ ops) f g h id =
      effects_at ops (effect op f) (effect op g) (effect_at op f g h) id

  -- From a well-formed map, every sequence of writes, on copies or in place, leaves a well-formed map
  -- in which a reader finds what the same sequence makes of the map as a function.
  pub run_all_refines :
      (ops : List (Op V)) (m : SafeMap V)
      → AllGiven ops
      → IsValid m
      → IsValid (run_all ops m) × ((id : ℕ) → find (run_all ops m) id ≡ effects ops (find m) id)
  unfolding run_all effects
  run_all_refines [] m g v = (v, λ id. refl)
  run_all_refines (op ∷ ops) m (g, gs) v =
      let (v', f) = run_lem op m g v in
      let (v'', f') = run_all_refines ops (run op m) gs v' in
      (v'', λ id. f' id ∙ effects_at ops (find (run op m)) (effect op (find m)) f id)
