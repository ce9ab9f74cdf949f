-- ===== src/Perf/Monitor/Consistent.antt =====
-- One registration with the event monitor of pkg/sys/perf/monitor.go, or one removal, leaves it
-- consistent.
use capsule.Prelude.{
  ℕ, ◌<◌, List, [], Bool, true, false, Option, none, some, ◌≡◌, inl, inr, refl, sym, ◌∙◌, arith,
}
use capsule.Prelude.Maps.{number_key, GoMap, Unique, lookup, put_all}
use capsule.Prelude.Maps.Laws.{names, put_all-Unique}
use capsule.Prelude.Maps.Entries.{of_insert, of_delete, of_or_else, of_put_all}
use capsule.Api.Value.{Bytes}
use capsule.Perf.Attr.{EventAttr}
use capsule.Perf.SafeMap.{find, get_map, contents}
use capsule.Perf.DecoderMap.{DecoderMap}
use capsule.Perf.Monitor.{
  RegisteredEvent, EventMonitor, EventType, new_event_monitor, stream_ids, all_to, places, commit,
  abandon, after_streams, unregister_event, unregister_found, remove_registered_event,
}
use capsule.Perf.Monitor.Invariant.{Tracked, updated_lem}
use capsule.Perf.Monitor.Register.{
  Distinct, Absent, Opens, names-stream_ids, stream_ids-Unique, names-places, own, still,
}
use capsule.Perf.Monitor.Streams.{
  new_one, old_one, before_ids, after_ids, none_named, closes, nothing,
}

-- The monitor keeps track of its events, whose identifiers have all been given out.
pub record IsConsistent {F : Type 0} (m : EventMonitor F) : Type 0 where
  pub tracked : Tracked m.events m
  pub below : (i : ℕ) (e : RegisteredEvent) → lookup i m.events ≡ some e → i < m.next_event_id

module _ {F : Type 0} where
  -- The monitor once descriptors were opened, or not.
  abbrev pub with_open :
      GoMap ℕ (Unit {0}) → Option (DecoderMap F) → EventMonitor F → EventMonitor F
  with_open now decoders m = record m { open_fds = now; decoders = decoders }

  pub unopened :
      (m : EventMonitor F) (now : GoMap ℕ (Unit {0})) (decoders : Option (DecoderMap F))
      → Opens [] m.open_fds now
      → IsConsistent m
      → IsConsistent (with_open now decoders m)
  unfolding Opens names
  unopened m now decoders o c =
      let t = c.tracked in
      record {
        tracked = record {
          fds = t.fds;
          opened = λ fd u h. elim (o fd u h) [ inl e ↦ cc | inr k ↦ t.opened fd u k ];
          ids = t.ids;
          attrs_valid = t.attrs_valid;
          streams_valid = t.streams_valid;
          attrs = t.attrs;
          streams = t.streams;
        };
        below = c.below;
      }

  unused : (m : EventMonitor F) → IsConsistent m → lookup m.next_event_id m.events ≡ none
  unused m c = go (lookup m.next_event_id m.events) refl
    where
      go : (o : Option RegisteredEvent) → lookup m.next_event_id m.events ≡ o → o ≡ none
      go none h = refl
      go (some e) h = absurd (omega (arith, c.below m.next_event_id e h))

  commit-IsConsistent :
      (name : Bytes) (event_type : EventType) (attr : EventAttr) (newfds : List ℕ)
      (stream_id : ℕ → Option ℕ) (m : EventMonitor F) (now : GoMap ℕ (Unit {0}))
      (decoders : Option (DecoderMap F))
      → Opens newfds m.open_fds now
      → Distinct newfds
      → Absent newfds m.eventids
      → IsConsistent m
      → IsConsistent (
          commit name event_type attr newfds
            (stream_ids stream_id newfds).0
            (with_open now decoders m))
  unfolding commit Opens Unique
  commit-IsConsistent name event_type attr newfds stream_id m now decoders o d a c =
      let t = c.tracked in
      let ids : GoMap ℕ ℕ = (stream_ids stream_id newfds).0 in
      let event : RegisteredEvent = record { name = name; fds = newfds; event_type = event_type } in
      let u = stream_ids-Unique stream_id newfds d in
      let (v, f) =
        updated_lem m.is_running _ m.event_attr_map (put_all-Unique (all_to attr ids) [] tt)
          t.attrs_valid in
      let (w, g) =
        updated_lem m.is_running _ m.event_id_map
          (put_all-Unique (all_to m.next_event_id ids) [] tt) t.streams_valid in
      record {
        tracked = record {
          fds = λ fd i h. elim (of_put_all (places 0 newfds) fd m.eventfds i h) [
            | inl n ↦ own m.next_event_id event m.events fd (names-places 0 newfds fd n)
            | inr (n, k) ↦ still m.next_event_id event m.events fd (unused m c) (t.fds fd i k)
          ];
          opened = λ fd u h. elim (o fd u h) [
            | inl n ↦ own m.next_event_id event m.events fd n
            | inr k ↦ still m.next_event_id event m.events fd (unused m c) (t.opened fd u k)
          ];
          ids = λ fd id h. elim (of_put_all ids fd m.eventids id h) [
            | inl n ↦ own m.next_event_id event m.events fd (names-stream_ids stream_id newfds fd n)
            | inr (n, k) ↦ still m.next_event_id event m.events fd (unused m c) (t.ids fd id k)
          ];
          attrs_valid = v;
          streams_valid = w;
          attrs = λ id x h.
              elim (of_or_else (lookup id (put_all (all_to attr ids) [])) (find m.event_attr_map id)
                x (sym (f id) ∙ h)) [
                  | inl k ↦ new_one newfds stream_id m.eventids attr id x d k
                  | inr k ↦ old_one newfds stream_id m.eventids id a (t.attrs id x k)
                ];
          streams = λ id x h.
              elim (of_or_else (lookup id (put_all (all_to m.next_event_id ids) []))
                (find m.event_id_map id) x (sym (g id) ∙ h)) [
                  | inl k ↦ new_one newfds stream_id m.eventids m.next_event_id id x d k
                  | inr k ↦ old_one newfds stream_id m.eventids id a (t.streams id x k)
                ];
        };
        below = λ i e h. elim (of_insert m.next_event_id i event m.events e h) [
          | inl (z, k) ↦ omega arith
          | inr (z, k) ↦ omega (arith, c.below i e k)
        ];
      }

  abandon-IsConsistent :
      (name : Bytes) (newfds : List ℕ) (stream_id : ℕ → Option ℕ) (m : EventMonitor F)
      (now : GoMap ℕ (Unit {0})) (decoders : Option (DecoderMap F))
      → Opens newfds m.open_fds now
      → Absent newfds m.eventids
      → IsConsistent m
      → IsConsistent
          (abandon name newfds (stream_ids stream_id newfds).0 (with_open now decoders m))
  unfolding abandon
  abandon-IsConsistent name newfds stream_id m now decoders o a c =
      let t = c.tracked in
      record {
        tracked = record {
          fds = t.fds;
          opened = λ fd u h. elim (closes newfds m.open_fds now o fd u h) [
            | inl e ↦ none_named fd e
            | inr k ↦ t.opened fd u k
          ];
          ids = λ fd id h. t.ids fd id (before_ids newfds stream_id m.eventids fd id h);
          attrs_valid = t.attrs_valid;
          streams_valid = t.streams_valid;
          attrs = λ id x h. after_ids newfds stream_id m.eventids id a (t.attrs id x h);
          streams = λ id x h. after_ids newfds stream_id m.eventids id a (t.streams id x h);
        };
        below = c.below;
      }

  pub after_streams-IsConsistent :
      (E : Type 0) (name : Bytes) (event_type : EventType) (attr : EventAttr) (newfds : List ℕ)
      (stream_id : ℕ → Option ℕ) (all : Bool) (m : EventMonitor F) (now : GoMap ℕ (Unit {0}))
      (decoders : Option (DecoderMap F))
      → Opens newfds m.open_fds now
      → Distinct newfds
      → Absent newfds m.eventids
      → IsConsistent m
      → IsConsistent
          (after_streams {E = E} name event_type attr newfds
            (stream_ids stream_id newfds).0
            all
            (with_open now decoders m)).1
  unfolding after_streams
  after_streams-IsConsistent E name event_type attr newfds stream_id true m now decoders o d a c =
      commit-IsConsistent name event_type attr newfds stream_id m now decoders o d a c
  after_streams-IsConsistent E name event_type attr newfds stream_id false m now decoders o d a c =
      abandon-IsConsistent name newfds stream_id m now decoders o a c

  pub below_rest :
      (id : ℕ) (m : EventMonitor F)
      → IsConsistent m
      → (i : ℕ) (e : RegisteredEvent) → lookup i (unregister_event id m).1.events ≡ some e
      → i < (unregister_event id m).1.next_event_id
  unfolding unregister_event unregister_found remove_registered_event
  below_rest id m c i e h = go (lookup id m.events) h
    where
      go :
          (o : Option RegisteredEvent)
          → lookup i (unregister_found o id m).1.events ≡ some e
          → i < (unregister_found o id m).1.next_event_id
      go none h = c.below i e h
      go (some event) h = let (z, k) = of_delete id i m.events e h in c.below i e k

  pub new-IsConsistent : (attr : EventAttr) → IsConsistent {F = F} (new_event_monitor attr)
  unfolding find get_map contents Unique
  new-IsConsistent attr = record {
    tracked = record {
      fds = λ fd i h. nothing fd i h;
      opened = λ fd u h. nothing fd u h;
      ids = λ fd id h. nothing fd id h;
      attrs_valid = record { allocated = tt; keyed = tt };
      streams_valid = record { allocated = tt; keyed = tt };
      attrs = λ id a h. nothing id a h;
      streams = λ id e h. nothing id e h;
    };
    below = λ i e h. nothing i e h;
  }
