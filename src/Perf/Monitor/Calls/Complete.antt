-- ===== src/Perf/Monitor/Calls/Complete.antt =====
-- Over sequences of registrations and removals of events, the event monitor of pkg/sys/perf/monitor.go
-- holds all that belongs to its events.
use capsule.Prelude.{List, [], ◌∷◌}
use capsule.Prelude.Outcome.{Outcome}
use capsule.Prelude.Maps.{number_key}
use capsule.Perf.DecoderMap.{DecoderMap, Formats}
use capsule.Perf.Monitor.{EventMonitor}
use capsule.Perf.Monitor.Register.{answered}
use capsule.Perf.Monitor.Complete.{NewStreams}
use capsule.Perf.Monitor.Calls.{Call, call}

module _ {F : Type 0} where
  -- The kernel gives the streams of new descriptors identifiers that no event's stream has.
  unfoldable pub FreshStreams : Call F → EventMonitor F → Type 0
  FreshStreams (Call.register kernel name fn opts event_type) m =
      NewStreams kernel.stream_id (answered kernel.answers) m.event_id_map
  FreshStreams (Call.unregister id) m = Unit
  FreshStreams (Call.run_or_stop running) m = Unit

module _ {F E : Type 0} where
  unfoldable pub AllFreshStreams : Formats E → List (Call F) → EventMonitor F → Type 0
  unfolding FreshStreams call
  AllFreshStreams format [] m = Unit
  AllFreshStreams format (c ∷ calls) m =
      FreshStreams c m × AllFreshStreams format calls (call format c m)
