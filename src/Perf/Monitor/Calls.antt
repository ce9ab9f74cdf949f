-- ===== src/Perf/Monitor/Calls.antt =====
-- The invariant of the event monitor of pkg/sys/perf/monitor.go, over sequences of registrations and
-- removals of events.
pub mod Complete
use mathlib.Core.Path.{subst}
use capsule.Prelude.{ℕ, List, [], ◌∷◌, Bool, Option, ◌≡◌, inr, sym}
use capsule.Prelude.Outcome.{Outcome, ok, err, panic}
use capsule.Prelude.Maps.{number_key, GoMap}
use capsule.Api.Value.{Bytes}
use capsule.Perf.Attr.{EventAttr}
use capsule.Perf.DecoderMap.{DecoderMap, Formats, remove_decoder}
use capsule.Perf.Monitor.{
  EventMonitor, EventType, Kernel, MonitorError, RegisterEventOptions, new_event_monitor,
  stream_ids, after_open, after_add, new_registered_event, unregister_event, close,
}
use capsule.Perf.Monitor.Close.{same_fields, unregister_event-Tracked, close_lem}
use capsule.Perf.Monitor.Register.{answered, Distinct, Absent, Opens, Opened, perf_event_open_lem}
use capsule.Perf.Monitor.Consistent.{
  IsConsistent, with_open, unopened, after_streams-IsConsistent, below_rest, new-IsConsistent,
}

-- One operation of the monitor's clients.
pub data Call (F : Type 0) : Type 0 where
  register : Kernel → Bytes → F → RegisterEventOptions → EventType → Call F
  unregister : ℕ → Call F
  run_or_stop : Bool → Call F

module _ {F : Type 0} where
  -- The kernel opens descriptors that differ, and that no event has.
  unfoldable pub Fresh : Call F → EventMonitor F → Type 0
  Fresh (Call.register kernel name fn opts event_type) m =
      Distinct (answered kernel.answers) × Absent (answered kernel.answers) m.eventids
  Fresh (Call.unregister id) m = Unit
  Fresh (Call.run_or_stop running) m = Unit

module _ {F E : Type 0} where
  unfoldable pub call : Formats E → Call F → EventMonitor F → EventMonitor F
  unfolding new_registered_event unregister_event
  call format (Call.register kernel name fn opts event_type) m =
      (new_registered_event format kernel name fn opts event_type m).1
  call format (Call.unregister id) m = (unregister_event id m).1
  call format (Call.run_or_stop running) m = record m { is_running = running }

  unfoldable pub call_all : Formats E → List (Call F) → EventMonitor F → EventMonitor F
  unfolding call
  call_all format [] m = m
  call_all format (c ∷ calls) m = call_all format calls (call format c m)

  unfoldable pub AllFresh : Formats E → List (Call F) → EventMonitor F → Type 0
  unfolding Fresh call
  AllFresh format [] m = Unit
  AllFresh format (c ∷ calls) m = Fresh c m × AllFresh format calls (call format c m)

  after_open-IsConsistent :
      (name : Bytes) (event_type : EventType) (attr : EventAttr) (fds : List ℕ)
      (stream_id : ℕ → Option ℕ) (r : Outcome (MonitorError E) (List ℕ)) (m : EventMonitor F)
      (now : GoMap ℕ (Unit {0})) (decoders : Option (DecoderMap F))
      → Opened fds m.open_fds r now
      → Distinct fds
      → Absent fds m.eventids
      → IsConsistent m
      → IsConsistent (after_open name event_type attr stream_id r (with_open now decoders m)).1
  unfolding after_open Opened
  after_open-IsConsistent name event_type attr fds stream_id (ok l) m now decoders (e, o) d a c =
      after_streams-IsConsistent E name event_type attr l stream_id (stream_ids stream_id l).1 m now
        decoders (subst (λ k. Opens k m.open_fds now) (sym e) o) (subst Distinct (sym e) d)
        (subst (λ k. Absent k m.eventids) (sym e) a) c
  after_open-IsConsistent name event_type attr fds stream_id (err x) m now decoders o d a c =
      unopened m now (remove_decoder name decoders) o c
  after_open-IsConsistent name event_type attr fds stream_id panic m now decoders o d a c =
      unopened m now decoders o c

  after_add-IsConsistent :
      (kernel : Kernel) (name : Bytes) (opts : RegisterEventOptions) (event_type : EventType)
      (r : Outcome E ℕ) (m : EventMonitor F) (decoders : Option (DecoderMap F))
      → Distinct (answered kernel.answers)
      → Absent (answered kernel.answers) m.eventids
      → IsConsistent m
      → IsConsistent (after_add kernel name opts event_type r (record m { decoders = decoders })).1
  unfolding after_add Opens
  after_add-IsConsistent kernel name opts event_type (ok id) m decoders d a c =
      after_open-IsConsistent name event_type _ (answered kernel.answers) kernel.stream_id _ m _
        decoders
        (perf_event_open_lem E opts.filter kernel.answers [] m.open_fds m.open_fds (λ k u h. inr h))
        d a c
  after_add-IsConsistent kernel name opts event_type (err e) m decoders d a c =
      unopened m m.open_fds decoders (λ k u h. inr h) c
  after_add-IsConsistent kernel name opts event_type panic m decoders d a c =
      unopened m m.open_fds decoders (λ k u h. inr h) c

  pub call-IsConsistent :
      (format : Formats E) (c : Call F) (m : EventMonitor F)
      → Fresh c m
      → IsConsistent m
      → IsConsistent (call format c m)
  unfolding call Fresh new_registered_event
  call-IsConsistent format (Call.register kernel name fn opts event_type) m (d, a) c =
      after_add-IsConsistent kernel name opts event_type _ m _ d a c
  call-IsConsistent format (Call.unregister id) m f c = record {
    tracked = unregister_event-Tracked id m c.tracked;
    below = below_rest id m c;
  }
  call-IsConsistent format (Call.run_or_stop running) m f c = record {
    tracked = same_fields m.events m m.next_event_id m.events m.decoders running c.tracked;
    below = c.below;
  }

  run_from :
      (format : Formats E) (calls : List (Call F)) (m : EventMonitor F)
      → AllFresh format calls m
      → IsConsistent m
      → IsConsistent (call_all format calls m)
  unfolding call_all AllFresh
  run_from format [] m f c = c
  run_from format (x ∷ calls) m (f, fs) c =
      run_from format calls (call format x m) fs (call-IsConsistent format x m f c)

  -- After every sequence of registrations, those that fail included, removals, starts and stops, the
  -- monitor's maps, and the descriptors open, hold nothing that does not belong to a registered event,
  -- where the kernel opens descriptors that no event has.
  pub call_all-IsConsistent :
      (format : Formats E) (calls : List (Call F)) (attr : EventAttr)
      → AllFresh format calls (new_event_monitor attr)
      → IsConsistent (call_all format calls (new_event_monitor attr))
  call_all-IsConsistent format calls attr f =
      run_from format calls (new_event_monitor attr) f (new-IsConsistent attr)

  -- After every sequence of registrations, those that fail included, removals, starts and stops,
  -- `Close` does not panic and leaves no descriptor of an event open, where the kernel opens
  -- descriptors that no event has.
  pub close-call_all :
      (format : Formats E) (calls : List (Call F)) (attr : EventAttr)
      → AllFresh format calls (new_event_monitor attr)
      → (m : EventMonitor F) × (close (call_all format calls (new_event_monitor attr)) ≡ ok m)
        × (m.open_fds ≡ [])
  close-call_all format calls attr f =
      close_lem (call_all format calls (new_event_monitor attr))
        (call_all-IsConsistent format calls attr f).tracked
