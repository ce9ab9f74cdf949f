-- ===== src/Perf/Monitor/Invariant.antt =====
-- What the event monitor of pkg/sys/perf/monitor.go keeps track of: nothing is recorded that does not
-- belong to a registered event.
use capsule.Prelude.{
  ℕ, List, [], ◌∷◌, Bool, true, false, ◌||◌, Option, none, some, if◌then◌else◌, ◌≡◌, inl, inr, refl,
  sym, ap, ◌∙◌, Bool-cases,
}
use capsule.Prelude.Maps.{number_key, GoMap, Unique, lookup, delete, delete_all}
use capsule.Prelude.Maps.Laws.{names, same_self, or_else, lookup-delete_all}
use capsule.Prelude.Maps.Entries.{not_deleted, of_delete_all, of_if_none}
use capsule.Perf.Attr.{EventAttr}
use capsule.Perf.SafeMap.{SafeMap, find}
use capsule.Perf.SafeMap.Laws.{IsValid, Op, run_lem, run, effect}
use capsule.Perf.Monitor.{
  RegisteredEvent, EventMonitor, ids_of, updated, removed, remove_registered_event,
}

module _ {V : Type 0} where
  pub updated_lem :
      (b : Bool) (new : GoMap ℕ V) (m : SafeMap V)
      → Unique new
      → IsValid m
      → IsValid (updated b new m)
        × ((id : ℕ) → find (updated b new m) id ≡ or_else (lookup id new) (find m id))
  unfolding updated run effect
  updated_lem true new m u v = run_lem (Op.update_op new) m u v
  updated_lem false new m u v = run_lem (Op.update_in_place_op new) m u v

  pub removed_lem :
      (b : Bool) (ids : List ℕ) (m : SafeMap V)
      → IsValid m
      → IsValid (removed b ids m)
        × ((id : ℕ) → find (removed b ids m) id ≡ (if names ids id then none else find m id))
  unfolding removed run effect
  removed_lem true ids m v = run_lem (Op.remove_op ids) m tt v
  removed_lem false ids m v = run_lem (Op.remove_in_place_op ids) m tt v

-- A descriptor of one of the events.
unfoldable pub Owned : ℕ → GoMap ℕ RegisteredEvent → Type 0
unfolding names lookup
Owned fd events =
    (i : ℕ) × (event : RegisteredEvent) × (lookup i events ≡ some event)
    × (names event.fds fd ≡ true)

-- The descriptors recorded, and those open, are those of the events; and the identifiers in the two
-- maps are those of descriptors.
pub record Tracked {F : Type 0} (events : GoMap ℕ RegisteredEvent) (m : EventMonitor F)
    : Type 0 where
  pub fds : (fd i : ℕ) → lookup fd m.eventfds ≡ some i → Owned fd events
  pub opened : (fd : ℕ) (u : Unit {0}) → lookup fd m.open_fds ≡ some u → Owned fd events
  pub ids : (fd id : ℕ) → lookup fd m.eventids ≡ some id → Owned fd events
  pub attrs_valid : IsValid m.event_attr_map
  pub streams_valid : IsValid m.event_id_map
  pub attrs :
      (id : ℕ) (a : EventAttr)
      → find m.event_attr_map id ≡ some a
      → (fd : ℕ) × (lookup fd m.eventids ≡ some id)
  pub streams :
      (id e : ℕ) → find m.event_id_map id ≡ some e → (fd : ℕ) × (lookup fd m.eventids ≡ some id)

pub or_false : (a b : Bool) → (a || b) ≡ true → a ≡ false → b ≡ true
or_false true b h e = cc
or_false false b h e = h

pub or_first : (a b : Bool) → a ≡ true → (a || b) ≡ true
or_first true b h = refl
or_first false b h = cc

pub or_second : (a b : Bool) → b ≡ true → (a || b) ≡ true
or_second true b h = refl
or_second false b h = h

-- The identifier of each descriptor given is among those that `removeRegisteredEvent` collects.
pub ids_of-names :
    (fds : List ℕ) (eventids : GoMap ℕ ℕ) (fd id : ℕ)
    → names fds fd ≡ true
    → lookup fd eventids ≡ some id
    → names (ids_of fds eventids) id ≡ true
unfolding names ids_of
ids_of-names [] eventids fd id h e = cc
ids_of-names (g ∷ fds) eventids fd id h e = elim (Bool-cases (number_key.same g fd)) [
  | inl s ↦
      let g' : g ≡ fd = (number_key.same_iff g fd).0 s in
      let e' : lookup g eventids ≡ some id = ap (λ k. lookup k eventids) g' ∙ e in
      rw (ids_of, e') (or_first _ _ (same_self id))
  | inr s ↦
      let n : names fds fd ≡ true = or_false _ _ h s in
      there (lookup g eventids) refl (ids_of-names fds eventids fd id n e)
        (ids_of-names fds (delete g eventids) fd id n (not_deleted g fd eventids s ∙ e))
]
  where
    there :
        (o : Option ℕ)
        → lookup g eventids ≡ o
        → names (ids_of fds eventids) id ≡ true
        → names (ids_of fds (delete g eventids)) id ≡ true
        → names (ids_of (g ∷ fds) eventids) id ≡ true
    there none o n d = rw (ids_of, o) n
    there (some j) o n d = rw (ids_of, o) (or_second _ _ d)

module _ {F : Type 0} where
  -- Without an event, the rest belongs to the other events.
  pub remove_registered_event-Tracked :
      (events rest : GoMap ℕ RegisteredEvent) (event : RegisteredEvent) (m : EventMonitor F)
      → ((fd : ℕ) → Owned fd events → names event.fds fd ≡ false → Owned fd rest)
      → Tracked events m
      → Tracked rest (remove_registered_event event m)
  unfolding remove_registered_event
  remove_registered_event-Tracked events rest event m o t =
      let ids : List ℕ = ids_of event.fds m.eventids in
      let (v, f) = removed_lem m.is_running ids m.event_attr_map t.attrs_valid in
      let (w, g) = removed_lem m.is_running ids m.event_id_map t.streams_valid in
      record {
        fds = λ fd i h.
            let (n, k) = of_delete_all event.fds fd m.eventfds i h in o fd (t.fds fd i k) n;
        opened = λ fd u h.
            let (n, k) = of_delete_all event.fds fd m.open_fds u h in o fd (t.opened fd u k) n;
        ids = λ fd id h.
            let (n, k) = of_delete_all event.fds fd m.eventids id h in o fd (t.ids fd id k) n;
        attrs_valid = v;
        streams_valid = w;
        attrs = λ id a h.
            let (n, k) = of_if_none (names ids id) (find m.event_attr_map id) a (sym (f id) ∙ h) in
            kept id n (t.attrs id a k);
        streams = λ id e h.
            let (n, k) = of_if_none (names ids id) (find m.event_id_map id) e (sym (g id) ∙ h) in
            kept id n (t.streams id e k);
      }
    where
      kept :
          (id : ℕ)
          → names (ids_of event.fds m.eventids) id ≡ false
          → (fd : ℕ) × (lookup fd m.eventids ≡ some id)
          → (fd : ℕ) × (lookup fd (delete_all event.fds m.eventids) ≡ some id)
      kept id n (fd, h) = elim (Bool-cases (names event.fds fd)) [
        | inl b ↦ let z : true ≡ false = sym (ids_of-names event.fds m.eventids fd id b h) ∙ n in cc
        | inr b ↦ (
          fd,
          lookup-delete_all fd event.fds m.eventids
              ∙ ap (λ b. if b then none else lookup fd m.eventids) b
              ∙ h,
        )
      ]
