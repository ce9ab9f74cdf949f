-- ===== src/Perf/Monitor/Complete.antt =====
-- The operations on the event monitor of pkg/sys/perf/monitor.go keep what is recorded of each
-- registered event.
use capsule.Prelude.{
  ℕ, List, [], ◌∷◌, Bool, true, false, Option, none, some, ◌≡◌, inl, inr, refl, sym, ap, ◌∙◌,
  Bool-cases, if◌then◌else◌,
}
use capsule.Prelude.Maps.{number_key, GoMap, lookup}
use capsule.Prelude.Maps.Laws.{names, lookup-delete_all}
use capsule.Prelude.Maps.Entries.{some_eq, of_delete}
use capsule.Perf.Attr.{EventAttr}
use capsule.Perf.SafeMap.{SafeMap, find}
use capsule.Perf.DecoderMap.{DecoderMap}
use capsule.Perf.Monitor.{
  EventMonitor, RegisteredEvent, ids_of, remove_registered_event, unregister_event,
  unregister_found,
}
use capsule.Perf.Monitor.Invariant.{removed_lem}
use capsule.Perf.Monitor.Register.{Absent}
use capsule.Perf.Monitor.Consistent.{IsConsistent, with_open}
use capsule.Perf.Monitor.Recorded.{both_ways, not_new, of_ids_of}
use capsule.Perf.Monitor.Opening.{Stays}

-- What the monitor holds of a descriptor of the event `i`: its place, its stream identifier, the event
-- and the attributes under that identifier; and it is open.
pub record Recorded {F : Type 0} (m : EventMonitor F) (i fd : ℕ) : Type 0 where
  pub id : ℕ
  pub place : ℕ
  pub attr : EventAttr
  pub stream : lookup fd m.eventids ≡ some id
  pub event : find m.event_id_map id ≡ some i
  pub attributes : find m.event_attr_map id ≡ some attr
  pub at_place : lookup fd m.eventfds ≡ some place
  pub is_open : lookup fd m.open_fds ≡ some tt

-- Each descriptor of each event is recorded.
pub record IsComplete {F : Type 0} (m : EventMonitor F) : Type 0 where
  pub recorded :
      (i : ℕ) (e : RegisteredEvent) (fd : ℕ)
      → lookup i m.events ≡ some e
      → names e.fds fd ≡ true
      → Recorded m i fd

-- The identifiers of the streams of these descriptors are those of no event.
abbrev pub NewStreams : {V : Type 0} → (ℕ → Option ℕ) → List ℕ → SafeMap V → Type 0
NewStreams stream_id [] streams = Unit
NewStreams stream_id (fd ∷ fds) streams =
    (elim (stream_id fd) [ none ↦ Unit | some id ↦ find streams id ≡ none ])
    × NewStreams stream_id fds streams

pub new_stream :
    {V : Type 0} (stream_id : ℕ → Option ℕ) (fds : List ℕ) (streams : SafeMap V) (fd id : ℕ)
    → NewStreams stream_id fds streams
    → names fds fd ≡ true
    → stream_id fd ≡ some id
    → find streams id ≡ none
unfolding names
new_stream stream_id [] streams fd id a n e = cc
new_stream stream_id (g ∷ fds) streams fd id (h, a) n e = elim (Bool-cases (number_key.same g fd)) [
  | inl s ↦
      (let e' : stream_id g ≡ some id = ap stream_id ((number_key.same_iff g fd).0 s) ∙ e in
        rw e' at h)
  | inr s ↦ new_stream stream_id fds streams fd id a (rw s at n) e
]

kept_if :
    {V : Type 0} (b : Bool) (o : Option V) (v : V)
    → b ≡ false
    → o ≡ some v
    → (if b then none else o) ≡ some v
kept_if b o v e h = rw e h

module _ {F : Type 0} where
  -- An event's descriptors are no other event's.
  apart :
      (m : EventMonitor F) (i j fd fd' : ℕ) (e e' : RegisteredEvent) (id : ℕ)
      → IsComplete m
      → lookup i m.events ≡ some e
      → lookup j m.events ≡ some e'
      → names e.fds fd ≡ true
      → names e'.fds fd' ≡ true
      → lookup fd m.eventids ≡ some id
      → lookup fd' m.eventids ≡ some id
      → i ≡ j
  apart m i j fd fd' e e' id c h h' n n' s s' =
      let r = c.recorded i e fd h n in
      let r' = c.recorded j e' fd' h' n' in
      let p : r.id ≡ id = some_eq r.id id (sym r.stream ∙ s) in
      let p' : r'.id ≡ id = some_eq r'.id id (sym r'.stream ∙ s') in
      some_eq i j (sym r.event ∙ ap (find m.event_id_map) (p ∙ sym p') ∙ r'.event)

  pub unregister_event-IsComplete :
      (id : ℕ) (m : EventMonitor F)
      → IsConsistent m
      → IsComplete m
      → IsComplete (unregister_event id m).1
  unfolding unregister_event unregister_found remove_registered_event
  unregister_event-IsComplete id m k c = go (lookup id m.events) refl
    where
      go :
          (o : Option RegisteredEvent)
          → lookup id m.events ≡ o
          → IsComplete (unregister_found o id m).1
      go none h = c
      go (some event) h = record {
        recorded = λ i e fd g n.
            let ids : List ℕ = ids_of event.fds m.eventids in
            let (s, g') = of_delete id i m.events e g in
            let r = c.recorded i e fd g' n in
            let other : (id ≡ i → ⊥) =
              λ z. both_ways (number_key.same id i) ((number_key.same_iff id i).1 z) s in
            let a : names event.fds fd ≡ false = elim (Bool-cases (names event.fds fd)) [
              | inl b ↦
                  absurd (other (apart m id i fd fd event e r.id c h g' b n r.stream r.stream))
              | inr b ↦ b
            ] in
            let b : names ids r.id ≡ false = elim (Bool-cases (names ids r.id)) [
              | inl b ↦
                  let (fd', n', s') = of_ids_of event.fds m.eventids r.id b in
                  absurd (other (apart m id i fd' fd event e r.id c h g' n' n s' r.stream))
              | inr b ↦ b
            ] in
            record {
              id = r.id;
              place = r.place;
              attr = r.attr;
              stream = lookup-delete_all fd event.fds m.eventids ∙ kept_if _ _ _ a r.stream;
              event =
                  (removed_lem m.is_running ids m.event_id_map k.tracked.streams_valid).1 r.id
                  ∙ kept_if _ _ _ b r.event;
              attributes =
                  (removed_lem m.is_running ids m.event_attr_map k.tracked.attrs_valid).1 r.id
                  ∙ kept_if _ _ _ b r.attributes;
              at_place = lookup-delete_all fd event.fds m.eventfds ∙ kept_if _ _ _ a r.at_place;
              is_open = lookup-delete_all fd event.fds m.open_fds ∙ kept_if _ _ _ a r.is_open;
            };
      }

  -- Whether the monitor runs is not recorded.
  pub run_or_stop-IsComplete :
      (running : Bool) (m : EventMonitor F)
      → IsComplete m
      → IsComplete (record m { is_running = running })
  run_or_stop-IsComplete running m c = record {
    recorded = λ i e fd h n.
        let r = c.recorded i e fd h n in
        record {
          id = r.id;
          place = r.place;
          attr = r.attr;
          stream = r.stream;
          event = r.event;
          attributes = r.attributes;
          at_place = r.at_place;
          is_open = r.is_open;
        };
  }

  -- Descriptors that no event has were opened, and perhaps closed.
  pub unopened-IsComplete :
      (m : EventMonitor F) (fds : List ℕ) (now : GoMap ℕ (Unit {0}))
      (decoders : Option (DecoderMap F))
      → Stays fds m.open_fds now
      → Absent fds m.eventids
      → IsComplete m
      → IsComplete (with_open now decoders m)
  unfolding Stays
  unopened-IsComplete m fds now decoders o a c = record {
    recorded = λ i e fd h n.
        let r = c.recorded i e fd h n in
        record {
          id = r.id;
          place = r.place;
          attr = r.attr;
          stream = r.stream;
          event = r.event;
          attributes = r.attributes;
          at_place = r.at_place;
          is_open = o fd (not_new fds m.eventids fd r.id a r.stream) r.is_open;
        };
  }
