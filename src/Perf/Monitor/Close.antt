-- ===== src/Perf/Monitor/Close.antt =====
-- `Close` and `UnregisterEvent` of pkg/sys/perf/monitor.go leave nothing behind.
use capsule.Prelude.{
  ℕ, [], ◌∷◌, Bool, true, false, Option, none, some, if◌then◌else◌, ◌≡◌, inl, inr, refl, sym, ap,
  ◌∙◌, Bool-cases,
}
use capsule.Prelude.Outcome.{ok}
use capsule.Prelude.Maps.{number_key, GoMap, lookup, delete}
use capsule.Prelude.Maps.Laws.{names, same_self}
use capsule.Prelude.Maps.Entries.{none_not_some, some_eq, of_if, not_deleted}
use capsule.Perf.SafeMap.{contents, get_map, find}
use capsule.Perf.DecoderMap.{DecoderMap}
use capsule.Perf.Monitor.{
  RegisteredEvent, EventMonitor, remove_registered_event, remove_events, close, unregister_event,
  unregister_found,
}
use capsule.Perf.Monitor.Invariant.{Owned, Tracked, remove_registered_event-Tracked}

-- A map in which no key is found is empty.
none_left : {V : Type 0} (m : GoMap ℕ V) → ((k : ℕ) (v : V) → lookup k m ≡ some v → ⊥) → m ≡ []
unfolding lookup
none_left [] h = refl
none_left ((k, v) ∷ m) h = absurd (h k v (ap (λ b. if b then some v else lookup k m) (same_self k)))

not_owned : (fd : ℕ) → Owned fd [] → ⊥
unfolding Owned lookup
not_owned fd (i, e, h, n) = none_not_some e h

both_names :
    (e e' : RegisteredEvent) (fd : ℕ) {R : Type 0}
    → e ≡ e'
    → names e'.fds fd ≡ true
    → names e.fds fd ≡ false
    → R
both_names e e' fd h n n' =
    let z : true ≡ false = sym n ∙ ap (λ e. names e.fds fd) (sym h) ∙ n' in cc

others :
    (id : ℕ) (event : RegisteredEvent) (rest : GoMap ℕ RegisteredEvent) (fd : ℕ)
    → Owned fd ((id, event) ∷ rest)
    → names event.fds fd ≡ false
    → Owned fd rest
unfolding Owned lookup
others id event rest fd (i, e, h, n) n' =
    elim (of_if (number_key.same id i) (some event) (lookup i rest) e h) [
      | inl (s, g) ↦ both_names event e fd (some_eq event e g) n n'
      | inr (s, g) ↦ (i, e, g, n)
    ]

-- An event's descriptors apart, those of the other events remain.
undeleted :
    (id : ℕ) (event : RegisteredEvent) (events : GoMap ℕ RegisteredEvent) (fd : ℕ)
    → lookup id events ≡ some event
    → Owned fd events
    → names event.fds fd ≡ false
    → Owned fd (delete id events)
unfolding Owned
undeleted id event events fd h (i, e, g, n) n' = elim (Bool-cases (number_key.same id i)) [
  | inl s ↦
      let s' : id ≡ i = (number_key.same_iff id i).0 s in
      both_names event e fd (some_eq event e (sym h ∙ ap (λ k. lookup k events) s' ∙ g)) n n'
  | inr s ↦ (i, e, not_deleted id i events s ∙ g, n)
]

module _ {F : Type 0} where
  remove_events-Tracked :
      (events : GoMap ℕ RegisteredEvent) (m : EventMonitor F)
      → Tracked events m
      → Tracked [] (remove_events events m)
  unfolding remove_events
  remove_events-Tracked [] m t = t
  remove_events-Tracked ((id, event) ∷ events) m t =
      remove_events-Tracked events (remove_registered_event event m)
        (remove_registered_event-Tracked _ events event m (others id event events) t)

  -- Of a monitor that keeps track of its events, `Close` does not panic, and leaves no descriptor of an
  -- event open.
  pub close_lem :
      (m : EventMonitor F)
      → Tracked m.events m
      → (m' : EventMonitor F) × (close m ≡ ok m') × (m'.open_fds ≡ [])
  unfolding close find get_map
  close_lem m t =
      let n : EventMonitor F = remove_events m.events m in
      let t' : Tracked [] n = remove_events-Tracked m.events m t in
      let e₁ = none_left n.eventfds λ fd i h. not_owned fd (t'.fds fd i h) in
      let e₂ = none_left n.eventids λ fd i h. not_owned fd (t'.ids fd i h) in
      let e₃ =
        none_left (contents n.event_attr_map.heap n.event_attr_map.active)
          λ id a h. let (fd, k) = t'.attrs id a h in not_owned fd (t'.ids fd id k) in
      let e₄ =
        none_left (contents n.event_id_map.heap n.event_id_map.active)
          λ id a h. let (fd, k) = t'.streams id a h in not_owned fd (t'.ids fd id k) in
      (
        record n { events = [] },
        rw (close, e₁, e₂, e₃, e₄) refl,
        none_left n.open_fds λ fd u h. not_owned fd (t'.opened fd u h),
      )

  -- The names, the counters and the table of events are not tracked.
  pub same_fields :
      (events : GoMap ℕ RegisteredEvent) (m : EventMonitor F) (next : ℕ)
      (table : GoMap ℕ RegisteredEvent) (decoders : Option (DecoderMap F)) (running : Bool)
      → Tracked events m
      → Tracked events (record m {
        next_event_id = next;
        events = table;
        decoders = decoders;
        is_running = running;
      })
  same_fields events m next table decoders running t = record {
    fds = t.fds;
    opened = t.opened;
    ids = t.ids;
    attrs_valid = t.attrs_valid;
    streams_valid = t.streams_valid;
    attrs = t.attrs;
    streams = t.streams;
  }

  pub unregister_event-Tracked :
      (id : ℕ) (m : EventMonitor F)
      → Tracked m.events m
      → Tracked (unregister_event id m).1.events (unregister_event id m).1
  unfolding unregister_event unregister_found remove_registered_event
  unregister_event-Tracked id m t = go (lookup id m.events) refl
    where
      go :
          (o : Option RegisteredEvent)
          → lookup id m.events ≡ o
          → Tracked (unregister_found o id m).1.events (unregister_found o id m).1
      go none e = t
      go (some event) e =
          remove_registered_event-Tracked m.events (delete id m.events) event
            (record m { events = delete id m.events }) (λ fd. undeleted id event m.events fd e)
            (same_fields m.events m m.next_event_id (delete id m.events) m.decoders m.is_running t)
