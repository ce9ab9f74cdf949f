-- ===== src/Perf/Monitor/Committed.antt =====
-- The two ends of a registration in pkg/sys/perf/monitor.go: once it is committed its descriptors are
-- recorded too, and once it is abandoned those of the other events still are.
use capsule.Prelude.{
  ℕ, List, [], ◌∷◌, true, false, Option, none, some, ◌≡◌, inl, inr, refl, sym, ap, ◌∙◌, Bool-cases,
  Option-cases, if◌then◌else◌,
}
use capsule.Prelude.Maps.{number_key, GoMap, Unique, lookup, put_all}
use capsule.Prelude.Maps.Laws.{names, or_else, lookup-put_all, lookup-delete_all, put_all-Unique}
use capsule.Prelude.Maps.Entries.{none_not_some, of_if, of_insert, of_put_all, not_put, keys}
use capsule.Api.Value.{Bytes}
use capsule.Perf.Attr.{EventAttr}
use capsule.Perf.SafeMap.{SafeMap, find}
use capsule.Perf.DecoderMap.{DecoderMap}
use capsule.Perf.Monitor.{
  EventMonitor, EventType, RegisteredEvent, stream_ids, all_to, places, commit, abandon,
}
use capsule.Perf.Monitor.Invariant.{or_first, or_second, updated_lem}
use capsule.Perf.Monitor.Register.{
  Distinct, Absent, names-stream_ids, stream_ids-Unique, of_all_to, names-places,
}
use capsule.Perf.Monitor.Streams.{nothing}
use capsule.Perf.Monitor.Consistent.{IsConsistent, with_open}
use capsule.Perf.Monitor.Recorded.{
  both_ways, not_new, put_there, put_under, read_all, read_from, placed,
}
use capsule.Perf.Monitor.Opening.{AllOpen, Stays}
use capsule.Perf.Monitor.Complete.{IsComplete, NewStreams, new_stream}

key_of : (ids : GoMap ℕ ℕ) (fd id : ℕ) → lookup fd ids ≡ some id → names (keys ids) fd ≡ true
unfolding lookup names
key_of [] fd id h = cc
key_of ((g, j) ∷ ids) fd id h = elim (of_if (number_key.same g fd) (some j) (lookup fd ids) id h) [
  | inl (s, e) ↦ or_first _ _ s
  | inr (s, e) ↦ or_second _ _ (key_of ids fd id e)
]

-- Only what is named among the first is named among the second.
unnamed :
    (xs ys : List ℕ) (fd : ℕ)
    → (names xs fd ≡ true → names ys fd ≡ true)
    → names ys fd ≡ false
    → names xs fd ≡ false
unnamed xs ys fd within n = elim (Bool-cases (names xs fd)) [
  | inl b ↦ both_ways (names ys fd) (within b) n
  | inr b ↦ b
]

or_there : {V : Type 0} (o p : Option V) (v : V) → o ≡ some v → or_else o p ≡ some v
or_there o p v h = rw h refl

or_second_one : {V : Type 0} (o p : Option V) (v : V) → o ≡ none → p ≡ some v → or_else o p ≡ some v
or_second_one o p v h k = rw h k

-- Under the identifier of an event's stream nothing is put for streams that are new.
not_under :
    {V : Type 0} (x : V) (stream_id : ℕ → Option ℕ) (newfds : List ℕ) (streams : SafeMap ℕ)
    (id i : ℕ)
    → Distinct newfds
    → NewStreams stream_id newfds streams
    → find streams id ≡ some i
    → lookup id (put_all (all_to x (stream_ids stream_id newfds).0) []) ≡ none
not_under x stream_id newfds streams id i d a h =
    let ids : GoMap ℕ ℕ = (stream_ids stream_id newfds).0 in
    elim (Option-cases (lookup id (put_all (all_to x ids) []))) [
      | inl e ↦ e
      | inr (y, e) ↦ elim (of_put_all (all_to x ids) id [] y e) [
        | inl n ↦
            let (fd, s) = of_all_to x ids id (stream_ids-Unique stream_id newfds d) n in
            let n' = names-stream_ids stream_id newfds fd (key_of ids fd id s) in
            let s' = read_from stream_id newfds fd id s in
            none_not_some i (sym (new_stream stream_id newfds streams fd id a n' s') ∙ h)
        | inr (n, k) ↦ nothing id y k
      ]
    ]

module _ {F : Type 0} (name : Bytes) (newfds : List ℕ) (stream_id : ℕ → Option ℕ)
    (m : EventMonitor F) (now : GoMap ℕ (Unit {0})) (decoders : Option (DecoderMap F))
    (stays : Stays newfds m.open_fds now) (absent : Absent newfds m.eventids)
    (complete : IsComplete m) where
  pub abandon-IsComplete :
      IsComplete (abandon name newfds (stream_ids stream_id newfds).0 (with_open now decoders m))
  unfolding abandon Stays
  abandon-IsComplete = record {
    recorded = λ i e fd h n.
        let ids : GoMap ℕ ℕ = (stream_ids stream_id newfds).0 in
        let r = complete.recorded i e fd h n in
        let a = not_new newfds m.eventids fd r.id absent r.stream in
        let b = unnamed (keys ids) newfds fd (names-stream_ids stream_id newfds fd) a in
        record {
          id = r.id;
          place = r.place;
          attr = r.attr;
          stream =
              lookup-delete_all fd newfds (put_all ids m.eventids)
              ∙ ap (λ b. if b then none else lookup fd (put_all ids m.eventids)) a
              ∙ not_put ids fd m.eventids b
              ∙ r.stream;
          event = r.event;
          attributes = r.attributes;
          at_place = r.at_place;
          is_open =
              lookup-delete_all fd newfds now
              ∙ ap (λ b. if b then none else lookup fd now) a
              ∙ stays fd a r.is_open;
        };
  }

  module _ (event_type : EventType) (attr : EventAttr) (opened : AllOpen newfds now)
      (distinct : Distinct newfds) (new : NewStreams stream_id newfds m.event_id_map)
      (all : (stream_ids stream_id newfds).1 ≡ true) (consistent : IsConsistent m) where
    pub commit-IsComplete : IsComplete (
        commit name event_type attr newfds
          (stream_ids stream_id newfds).0
          (with_open now decoders m))
    unfolding commit Stays AllOpen Unique
    commit-IsComplete =
        let ids : GoMap ℕ ℕ = (stream_ids stream_id newfds).0 in
        let u = stream_ids-Unique stream_id newfds distinct in
        let f =
          (updated_lem m.is_running _ m.event_attr_map (put_all-Unique (all_to attr ids) [] tt)
            consistent.tracked.attrs_valid).1 in
        let g =
          (updated_lem m.is_running _ m.event_id_map
            (put_all-Unique (all_to m.next_event_id ids) [] tt)
            consistent.tracked.streams_valid).1 in
        record {
          recorded = λ i e fd h n. elim (of_insert m.next_event_id i _ m.events e h) [
            | inl (z, k) ↦
                let n' : names newfds fd ≡ true =
                  ap (λ (e : RegisteredEvent). names e.fds fd) k ∙ n in
                let (id, s) = read_all stream_id newfds fd all n' in
                let (p, q) = put_there (places 0 newfds) fd m.eventfds (placed 0 newfds fd n') in
                record {
                  id = id;
                  place = p;
                  attr = attr;
                  stream = lookup-put_all fd ids m.eventids u ∙ or_there _ _ id s;
                  event =
                      g id
                      ∙ or_there _ (find m.event_id_map id) m.next_event_id
                          (put_under m.next_event_id ids fd id s)
                      ∙ ap some z;
                  attributes =
                      f id
                      ∙ or_there _ (find m.event_attr_map id) attr (put_under attr ids fd id s);
                  at_place = q;
                  is_open = opened fd n';
                }
            | inr (z, k) ↦
                let r = complete.recorded i e fd k n in
                let a = not_new newfds m.eventids fd r.id absent r.stream in
                let b = unnamed (keys ids) newfds fd (names-stream_ids stream_id newfds fd) a in
                let c = unnamed (keys (places 0 newfds)) newfds fd (names-places 0 newfds fd) a in
                record {
                  id = r.id;
                  place = r.place;
                  attr = r.attr;
                  stream = not_put ids fd m.eventids b ∙ r.stream;
                  event =
                      g r.id
                      ∙ or_second_one _ (find m.event_id_map r.id) i
                          (not_under m.next_event_id stream_id newfds m.event_id_map r.id i distinct
                            new r.event)
                          r.event;
                  attributes =
                      f r.id
                      ∙ or_second_one _ (find m.event_attr_map r.id) r.attr
                          (not_under attr stream_id newfds m.event_id_map r.id i distinct new
                            r.event)
                          r.attributes;
                  at_place = not_put (places 0 newfds) fd m.eventfds c ∙ r.at_place;
                  is_open = stays fd a r.is_open;
                }
          ];
        }
