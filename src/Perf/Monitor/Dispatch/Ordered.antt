-- ===== src/Perf/Monitor/Dispatch/Ordered.antt =====
-- The order in which samples are dispatched by pkg/sys/perf/monitor.go.
use capsule.Prelude.{ℕ, ◌≤◌, List, [], ◌∷◌, Option, none, some, Option-cases, inl, inr}
use capsule.Perf.Monitor.Rounds.{DecodedSample, time_of}
use capsule.Perf.Monitor.Dispatch.{EventIds, refreshed, given, dispatch_sorted_samples}

abbrev pub NotBefore : ℕ → List DecodedSample → Type 0
NotBefore t [] = Unit
NotBefore t (s ∷ samples) = (t ≤ time_of s) × NotBefore t samples

-- Each sample is no later than those behind it.
abbrev pub Sorted : List DecodedSample → Type 0
Sorted [] = Unit
Sorted (s ∷ samples) = NotBefore (time_of s) samples × Sorted samples

abbrev pub samples_of : List (ℕ × DecodedSample) → List DecodedSample
samples_of [] = []
samples_of ((e, s) ∷ rest) = s ∷ samples_of rest

given-NotBefore :
    (t : ℕ) (o : Option ℕ) (s : DecodedSample) (rest : List (ℕ × DecodedSample))
    → t ≤ time_of s
    → NotBefore t (samples_of rest)
    → NotBefore t (samples_of (given o s rest))
unfolding given
given-NotBefore t none s rest h n = n
given-NotBefore t (some e) s rest h n = (h, n)

dispatch-NotBefore :
    (t : ℕ) (current : EventIds) (later : List EventIds) (samples : List DecodedSample)
    → NotBefore t samples
    → NotBefore t (samples_of (dispatch_sorted_samples current later samples))
unfolding dispatch_sorted_samples
dispatch-NotBefore t current later [] n = tt
dispatch-NotBefore t current later (s ∷ samples) (h, n) =
    let (next, rest) = refreshed current later in
    let hit = dispatch-NotBefore t current later samples n in
    let missed = dispatch-NotBefore t next rest samples n in
    elim (Option-cases (current s.0.id.stream_id)) [
      | inl e ↦ rw (dispatch_sorted_samples, e) (given-NotBefore t _ s _ h missed)
      | inr (i, e) ↦ rw (dispatch_sorted_samples, e) (given-NotBefore t (some i) s _ h hit)
    ]

given-Sorted :
    (o : Option ℕ) (s : DecodedSample) (rest : List (ℕ × DecodedSample))
    → NotBefore (time_of s) (samples_of rest)
    → Sorted (samples_of rest)
    → Sorted (samples_of (given o s rest))
unfolding given
given-Sorted none s rest n h = h
given-Sorted (some e) s rest n h = (n, h)

-- Samples in the order of their times are dispatched in that order, whatever events come and go
-- meanwhile.
pub dispatch_sorted_samples-Sorted :
    (current : EventIds) (later : List EventIds) (samples : List DecodedSample)
    → Sorted samples
    → Sorted (samples_of (dispatch_sorted_samples current later samples))
unfolding dispatch_sorted_samples
dispatch_sorted_samples-Sorted current later [] n = tt
dispatch_sorted_samples-Sorted current later (s ∷ samples) (n, h) =
    let (next, rest) = refreshed current later in
    let hit = dispatch_sorted_samples-Sorted current later samples h in
    let missed = dispatch_sorted_samples-Sorted next rest samples h in
    elim (Option-cases (current s.0.id.stream_id)) [
      | inl e ↦
          rw (dispatch_sorted_samples, e)
            (given-Sorted _ s _ (dispatch-NotBefore (time_of s) next rest samples n) missed)
      | inr (i, e) ↦
          rw (dispatch_sorted_samples, e)
            (given-Sorted (some i) s _ (dispatch-NotBefore (time_of s) current later samples n) hit)
    ]
