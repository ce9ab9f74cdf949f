-- ===== src/Perf/Record/Counters.antt =====
-- What `CounterGroup.read` of pkg/sys/perf/types.go reads back of the counters that the kernel lays out.
use mathlib.Core.Path.{subst}
use capsule.Prelude.{
  ℕ, ◌<◌, List, [], ◌∷◌, ◌++◌, false, length, if◌then◌else◌, ◌≡◌, sym, inl, inr, Bool-cases,
}
use capsule.Prelude.Outcome.{ok}
use capsule.Perf.Decode.RoundTrip.{bytes_of, bound}
use capsule.Perf.Attr.{has}
use capsule.Perf.Reader.{Reader, left, skip, times}
use capsule.Perf.Reader.Reads.{Reads, pure-Reads, present-Reads, >>=-Reads, finish, uint-Reads}
use capsule.Perf.Record.{
  CounterValue, CounterGroup, format_time_enabled, format_time_running, format_id, format_group,
  read_counter, read_group, read_single, read_counters,
}
use capsule.Perf.Record.Reads.{when}

-- A counter is in range, and has no identifier where the format has none.
pub record CounterFits (format : ℕ) (v : CounterValue) : Type 0 where
  pub value : v.value < bound 8
  pub id : v.id < bound 8
  pub no_id : has format format_id ≡ false → v.id ≡ 0

abbrev pub AllFit : ℕ → List CounterValue → Type 0
AllFit format [] = Unit
AllFit format (v ∷ vs) = CounterFits format v × AllFit format vs

-- The counters are in range, and a time that the format does not have is 0.
pub record CountersFit (format : ℕ) (g : CounterGroup) : Type 0 where
  pub enabled : g.time_enabled < bound 8
  pub running : g.time_running < bound 8
  pub no_enabled : has format format_time_enabled ≡ false → g.time_enabled ≡ 0
  pub no_running : has format format_time_running ≡ false → g.time_running ≡ 0
  pub values : AllFit format g.values
  pub values_length : length g.values < bound 8

unfoldable pub encode_counter : ℕ → CounterValue → List ℕ
encode_counter format v = bytes_of 8 v.value ++ when (has format format_id) (bytes_of 8 v.id)

abbrev pub encode_values : ℕ → List CounterValue → List ℕ
encode_values format [] = []
encode_values format (v ∷ vs) = encode_counter format v ++ encode_values format vs

abbrev pub encode_times : ℕ → CounterGroup → List ℕ → List ℕ
encode_times format g rest =
    when (has format format_time_enabled) (bytes_of 8 g.time_enabled)
    ++ (when (has format format_time_running) (bytes_of 8 g.time_running) ++ rest)

-- The kernel's layout of a group: the number of counters, the times, and the counters.
unfoldable pub encode_group : ℕ → CounterGroup → List ℕ
unfolding encode_counter
encode_group format g =
    bytes_of 8 (length g.values) ++ encode_times format g (encode_values format g.values)

-- Of one counter: its value, the times, and its identifier.
unfoldable pub encode_single : ℕ → CounterGroup → CounterValue → List ℕ
encode_single format g v =
    bytes_of 8 v.value ++ encode_times format g (when (has format format_id) (bytes_of 8 v.id))

counter-Reads :
    (format : ℕ) (v : CounterValue)
    → CounterFits format v
    → Reads (read_counter format) (encode_counter format v) v
unfolding read_counter encode_counter
counter-Reads format v f =
    >>=-Reads _ (uint-Reads 8 v.value f.value)
      (finish _ (present-Reads (has format format_id) 0 (uint-Reads 8 v.id f.id) f.no_id))

values-Reads :
    (format : ℕ) (vs : List CounterValue)
    → AllFit format vs
    → Reads (times (length vs) (read_counter format)) (encode_values format vs) vs
unfolding times
values-Reads format [] f = pure-Reads []
values-Reads format (v ∷ vs) (f, fs) =
    >>=-Reads _ (counter-Reads format v f) (finish _ (values-Reads format vs fs))

group-Reads :
    (format : ℕ) (g : CounterGroup)
    → CountersFit format g
    → Reads (read_group format) (encode_group format g) (record g { values = [] })
unfolding read_group encode_group
group-Reads format g f = >>=-Reads _ (uint-Reads 8 (length g.values) f.values_length) (
    >>=-Reads _
      (present-Reads (has format format_time_enabled) 0 (uint-Reads 8 g.time_enabled f.enabled)
        f.no_enabled)
      (>>=-Reads _
        (present-Reads (has format format_time_running) 0 (uint-Reads 8 g.time_running f.running)
          f.no_running)
        (finish _ (values-Reads format g.values f.values))))

single-Reads :
    (format : ℕ) (g : CounterGroup) (v : CounterValue)
    → CountersFit format (record g { values = v ∷ [] })
    → Reads (read_single format) (encode_single format g v) (record g { values = v ∷ [] })
unfolding read_single encode_single
single-Reads format g v f = >>=-Reads _ (uint-Reads 8 v.value f.values.0.value) (
    >>=-Reads _
      (present-Reads (has format format_time_enabled) 0 (uint-Reads 8 g.time_enabled f.enabled)
        f.no_enabled)
      (>>=-Reads _
        (present-Reads (has format format_time_running) 0 (uint-Reads 8 g.time_running f.running)
          f.no_running)
        (finish _ (
          present-Reads (has format format_id) 0 (uint-Reads 8 v.id f.values.0.id)
            f.values.0.no_id))))

-- The counters laid out: all of them in the group format, or else the one.
abbrev pub encode_one : ℕ → CounterGroup → List CounterValue → List ℕ
encode_one format g [] = []
encode_one format g (v ∷ vs) = encode_single format g v

abbrev pub encode_counters : ℕ → CounterGroup → List ℕ
encode_counters format g =
    if has format format_group then encode_group format g else encode_one format g g.values

-- In the format of a single counter there is one.
abbrev pub IsSingle : ℕ → CounterGroup → Type 0
IsSingle format g = has format format_group ≡ false → (v : CounterValue) × (g.values ≡ v ∷ [])

one-Reads :
    (format : ℕ) (g : CounterGroup) (v : CounterValue)
    → g.values ≡ v ∷ []
    → CountersFit format g
    → Reads (read_single format) (encode_one format g g.values) g
one-Reads format g v h f =
    subst (λ l. Reads (read_single format) (encode_one format g l) (record g { values = l }))
      (sym h)
      (single-Reads format g v (subst (λ l. CountersFit format (record g { values = l })) h f))

pub counters-Reads :
    (format : ℕ) (g : CounterGroup)
    → CountersFit format g
    → IsSingle format g
    → Reads
        (read_counters format)
        (encode_counters format g)
        (if has format format_group then record g { values = [] } else g)
unfolding read_counters
counters-Reads format g f one = elim (Bool-cases (has format format_group)) [
  | inl e ↦ rw (read_counters, e) (group-Reads format g f)
  | inr e ↦ let (v, h) = one e in rw (read_counters, e) (one-Reads format g v h f)
]

-- From the bytes that the kernel lays out, `CounterGroup.read` returns the times and the counter of the
-- format of a single counter. Of the group format it returns the times without the counters. In both
-- it leaves the reader behind the bytes.
pub read_counters-encode_counters :
    (format : ℕ) (g : CounterGroup) (r : Reader) (rest : List ℕ)
    → CountersFit format g
    → IsSingle format g
    → left r ≡ encode_counters format g ++ rest
    → read_counters format r ≡ (
      ok (if has format format_group then record g { values = [] } else g),
      skip (length (encode_counters format g)) r,
    )
read_counters-encode_counters format g r rest f one e =
    (counters-Reads format g f one).runs r rest e
