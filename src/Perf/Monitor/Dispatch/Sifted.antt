-- ===== src/Perf/Monitor/Dispatch/Sifted.antt =====
-- Which samples `dispatchSortedSamples` of pkg/sys/perf/monitor.go gives to which event, and which it
-- passes over.
use capsule.Prelude.{ℕ, List, [], ◌∷◌, Option, none, some, Option-cases, ◌≡◌, ◌⊎◌, inl, inr, refl}
use capsule.Perf.Monitor.Rounds.{DecodedSample}
use capsule.Perf.Monitor.Dispatch.{EventIds, refreshed, given, dispatch_sorted_samples}

-- One of the maps has the event `e` for the stream.
abbrev pub Registered : List EventIds → ℕ → ℕ → Type 0
Registered [] stream e = ⊥
Registered (m ∷ maps) stream e = (m stream ≡ some e) ⊎ Registered maps stream e

-- Two maps in succession have no event for the stream, or the last has none.
abbrev pub Missed : List EventIds → ℕ → Type 0
Missed [] stream = ⊥
Missed (m ∷ []) stream = m stream ≡ none
Missed (m ∷ n ∷ maps) stream = ((m stream ≡ none) × (n stream ≡ none)) ⊎ Missed (n ∷ maps) stream

-- Of the samples, in their order, each is sent once to the event that one of the maps has for its
-- stream, or is passed over where two maps in succession, or the last, have none.
pub data Sifted (maps : List EventIds)
    : List DecodedSample → List (ℕ × DecodedSample) → Type 0 where
  finished : Sifted maps [] []
  sent :
      {e : ℕ} {s : DecodedSample} {samples : List DecodedSample} {out : List (ℕ × DecodedSample)}
      → Registered maps s.0.id.stream_id e
      → Sifted maps samples out
      → Sifted maps (s ∷ samples) ((e, s) ∷ out)
  passed_over :
      {s : DecodedSample} {samples : List DecodedSample} {out : List (ℕ × DecodedSample)}
      → Missed maps s.0.id.stream_id
      → Sifted maps samples out
      → Sifted maps (s ∷ samples) out

-- A map loaded before the others adds to both.
Missed-after :
    (m : EventIds) (maps : List EventIds) (stream : ℕ)
    → Missed maps stream
    → Missed (m ∷ maps) stream
Missed-after m [] stream h = absurd h
Missed-after m (n ∷ maps) stream h = inr h

Sifted-after :
    (m : EventIds) {maps : List EventIds} {samples : List DecodedSample}
    {out : List (ℕ × DecodedSample)}
    → Sifted maps samples out
    → Sifted (m ∷ maps) samples out
Sifted-after m finished = finished
Sifted-after m (sent r rest) = sent (inr r) (Sifted-after m rest)
Sifted-after m {maps} (passed_over h rest) =
    passed_over (Missed-after m maps _ h) (Sifted-after m rest)

-- After a miss in the first map: the sample goes by the next one, or by the same if there is no other.
after_miss :
    (current : EventIds) (later : List EventIds) (s : DecodedSample) (samples : List DecodedSample)
    (out : List (ℕ × DecodedSample))
    → current s.0.id.stream_id ≡ none
    → Sifted ((refreshed current later).0 ∷ (refreshed current later).1) samples out
    → Sifted
        (current ∷ later)
        (s ∷ samples)
        (given ((refreshed current later).0 s.0.id.stream_id) s out)
unfolding refreshed given
after_miss current [] s samples out e rest = rw e (passed_over e rest)
after_miss current (next ∷ later) s samples out e rest = go (next s.0.id.stream_id) refl
  where
    go :
        (o : Option ℕ)
        → next s.0.id.stream_id ≡ o
        → Sifted (current ∷ next ∷ later) (s ∷ samples) (given o s out)
    go none m = passed_over (inl (e, m)) (Sifted-after current rest)
    go (some i) m = sent (inr (inl m)) (Sifted-after current rest)

-- Of the samples, in their order, each is dispatched once, to the event that a map loaded has for its
-- stream; or it is passed over, and then two maps loaded in succession, or the last one loaded, have no
-- event for the stream. The maps are any.
pub dispatch_sorted_samples-Sifted :
    (current : EventIds) (later : List EventIds) (samples : List DecodedSample)
    → Sifted (current ∷ later) samples (dispatch_sorted_samples current later samples)
unfolding dispatch_sorted_samples given
dispatch_sorted_samples-Sifted current later [] = finished
dispatch_sorted_samples-Sifted current later (s ∷ samples) =
    elim (Option-cases (current s.0.id.stream_id)) [
      | inl e ↦
          let (next, rest) = refreshed current later in
          rw (dispatch_sorted_samples, e)
            (after_miss current later s samples _ e
              (dispatch_sorted_samples-Sifted next rest samples))
      | inr (i, e) ↦
          rw (dispatch_sorted_samples, e)
            (sent (inl e) (dispatch_sorted_samples-Sifted current later samples))
    ]
