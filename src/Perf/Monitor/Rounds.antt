-- ===== src/Perf/Monitor/Rounds.antt =====
-- `readRingBuffers` and `flushPendingSamples` of pkg/sys/perf/monitor.go: the samples of the ring
-- buffers that are ready are collected, and sent to the dispatcher or kept for the next round.
pub mod Conserved
use capsule.Prelude.{
  ℕ, zero, suc, ◌+◌, ◌-◌, ◌%◌, ◌^◌, List, [], ◌∷◌, ◌++◌, map, Bool, true, false, ltb, ◌==◌, Option,
  none, some, if◌then◌else◌, length, take, drop,
}
use capsule.Perf.Reader.{ReadError}
use capsule.Perf.Sample.{Sample}

abbrev pub DecodedSample : Type 0
DecodedSample = Sample × Option ReadError

abbrev pub time_of : DecodedSample → ℕ
time_of s = s.0.id.time

-- A ring buffer that is ready: the times of its group, and what `group.rb.read` hands over.
pub record GroupRead : Type 0 where
  pub time_base : ℕ
  pub time_offset : ℕ
  pub read : List DecodedSample

-- The time of a sample in 64 bits, made consistent across CPUs.
unfoldable pub normalize : GroupRead → DecodedSample → DecodedSample
normalize group s =
    let sample : Sample = s.0 in
    let time = (group.time_base + (time_of s + 2 ^ 64 - group.time_offset)) % 2 ^ 64 in
    (record sample { id = record (sample.id) { time = time } }, s.1)

-- The lists of the monitor, with the local variables of the loop.
pub record Round : Type 0 where
  pub samples : List DecodedSample
  pub pending_samples : List DecodedSample
  pub last_timestamp : ℕ
  pub last_index : ℕ

-- `samples[i].sample.Time > lastTimestamp`
unfoldable pub is_late : ℕ → DecodedSample → Bool
is_late last s = ltb last (time_of s)

unfoldable pub count_late : ℕ → List DecodedSample → ℕ
unfolding is_late
count_late last [] = 0
count_late last (s ∷ samples) =
    let rest = count_late last samples in if is_late last s then suc rest else rest

-- The time of the last sample, or else the variable keeps its value.
unfoldable pub last_time : ℕ → List DecodedSample → ℕ
last_time t [] = t
last_time t (s ∷ samples) = last_time (time_of s) samples

-- The samples from `x` on are kept for the next round.
unfoldable pub cut : ℕ → List DecodedSample → Round → Round
cut x samples round = record round {
  samples = take x samples;
  pending_samples = round.pending_samples ++ drop x samples;
  last_index = length (take x samples);
}

-- The samples that were read go behind those of the other buffers. As many as are late among those
-- behind the index are taken off the end; the sample at the index is not looked at.
unfoldable pub add_read : List DecodedSample → List DecodedSample → Round → Round
unfolding count_late last_time cut
add_read [] new round = record round {
  samples = new;
  last_timestamp = last_time round.last_timestamp new;
  last_index = length new;
}
add_read (s ∷ old) new round =
    let samples = (s ∷ old) ++ new in
    cut (length samples - count_late round.last_timestamp (drop (suc round.last_index) samples))
      samples round

unfoldable pub read_groups : List GroupRead → Round → Round
unfolding add_read normalize
read_groups [] round = round
read_groups (group ∷ groups) round =
    read_groups groups (add_read round.samples (map (normalize group) group.read) round)

-- What is sent, and what stays: the pending samples go with the others, if there are any.
unfoldable pub send :
    List DecodedSample → List DecodedSample → List DecodedSample × List DecodedSample
send [] pending = ([], pending)
send (s ∷ samples) pending = ((s ∷ samples) ++ pending, [])

unfoldable pub read_ring_buffers :
    List GroupRead → List DecodedSample → List DecodedSample × List DecodedSample
unfolding read_groups send
read_ring_buffers groups pending =
    let round =
      read_groups groups
        (record { samples = []; pending_samples = pending; last_timestamp = 0; last_index = 0 }) in
    send round.samples round.pending_samples

unfoldable pub flush_pending_samples : List DecodedSample → List DecodedSample × List DecodedSample
flush_pending_samples pending = (pending, [])
