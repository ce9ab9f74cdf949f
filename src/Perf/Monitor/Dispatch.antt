-- ===== src/Perf/Monitor/Dispatch.antt =====
-- `dispatchSortedSamples` of pkg/sys/perf/monitor.go: each sample goes to the event of its stream. The
-- function that decodes and handles a sample is the client's, so the model stops at what it is given.
pub mod Ordered
pub mod Sifted
use capsule.Prelude.{ℕ, List, [], ◌∷◌, Option, none, some}
use capsule.Perf.Monitor.Rounds.{DecodedSample}

-- A map of events that was loaded: the event of a stream.
abbrev pub EventIds : Type 0
EventIds = ℕ → Option ℕ

-- The map after a miss: the next one that a load finds, or the same if there was no change.
unfoldable pub refreshed : EventIds → List EventIds → EventIds × List EventIds
refreshed current [] = (current, [])
refreshed current (next ∷ later) = (next, later)

-- What is given to the client for a sample.
unfoldable pub given :
    Option ℕ → DecodedSample → List (ℕ × DecodedSample) → List (ℕ × DecodedSample)
given none s rest = rest
given (some event_id) s rest = (event_id, s) ∷ rest

-- The samples in order, each with its event; on a miss the map is loaded again, and a sample whose
-- stream is still not known is passed over.
unfoldable pub dispatch_sorted_samples :
    EventIds → List EventIds → List DecodedSample → List (ℕ × DecodedSample)
unfolding refreshed given
dispatch_sorted_samples current later [] = []
dispatch_sorted_samples current later (s ∷ samples) =
    let stream = s.0.id.stream_id in
    let (next, rest) = refreshed current later in
    let hit = dispatch_sorted_samples current later samples in
    let missed = dispatch_sorted_samples next rest samples in
    elim (current stream) [
      | some event_id ↦ given (some event_id) s hit
      | none ↦ given (next stream) s missed
    ]
