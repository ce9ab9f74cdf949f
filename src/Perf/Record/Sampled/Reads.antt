-- ===== src/Perf/Record/Sampled/Reads.antt =====
-- A `SampleRecord` of pkg/sys/perf/types.go is read from the bytes that the kernel lays it out in.
use mathlib.Core.Path.{subst}
use capsule.Prelude.{
  ℕ, ◌<◌, List, [], ◌∷◌, ◌++◌, true, false, length, ◌≡◌, refl, sym, ap, Bool, if◌then◌else◌, arith,
  Option, none, some,
}
use capsule.Perf.Decode.RoundTrip.{bytes_of, bound}
use capsule.Perf.Attr.{EventAttr, has}
use capsule.Perf.Reader.{pure, present, times, or_keep, kept}
use capsule.Perf.Reader.Reads.{
  Reads, pure-Reads, present-Reads, or_keep-Reads, absent-Reads, >>=-Reads, ends, finish,
  uint-Reads, full-Reads,
}
use capsule.Perf.Record.{
  CounterValue, CounterGroup, format_group, read_counters, sample_ip, sample_tid, sample_time,
  sample_addr, sample_read, sample_callchain, sample_identity, sample_cpu, sample_period,
  sample_stream_id, sample_raw, sample_branch_stack, sample_identifier,
}
use capsule.Perf.Record.Reads.{when}
use capsule.Perf.Record.Counters.{CountersFit, encode_counters, counters-Reads}
use capsule.Perf.Record.Sampled.{
  SampleRecord, FormatMap, number, no_counters, zeros, read_identifier, has_unsupported, read_raw,
  read_callchain, read_two, reject_dumps, read_branches, keep_counters, read_sampled,
}

number-Reads : (count n : ℕ) → n < bound count → Reads (number count) (bytes_of count n) n
number-Reads count n l = or_keep-Reads 0 (uint-Reads count n l)

abbrev pub all_bytes : List ℕ → List ℕ
all_bytes [] = []
all_bytes (n ∷ ns) = bytes_of 8 n ++ all_bytes ns

abbrev pub AllBelow : List ℕ → Type 0
AllBelow [] = Unit
AllBelow (n ∷ ns) = (n < bound 8) × AllBelow ns

numbers-Reads : (ns : List ℕ) → AllBelow ns → Reads (times (length ns) (number 8)) (all_bytes ns) ns
unfolding times
numbers-Reads [] l = pure-Reads []
numbers-Reads (n ∷ ns) (l, ls) = >>=-Reads _ (number-Reads 8 n l) (finish _ (numbers-Reads ns ls))

callchain-Reads :
    (ns : List ℕ)
    → length ns < bound 8
    → AllBelow ns
    → Reads read_callchain (bytes_of 8 (length ns) ++ all_bytes ns) ns
unfolding read_callchain
callchain-Reads ns h l = >>=-Reads _ (number-Reads 8 (length ns) h) (numbers-Reads ns l)

raw-Reads : (bs : List ℕ) → length bs < bound 4 → Reads read_raw (bytes_of 4 (length bs) ++ bs) bs
unfolding read_raw
raw-Reads bs h =
    >>=-Reads _ (number-Reads 4 (length bs) h) (or_keep-Reads (zeros (length bs)) (full-Reads bs))

two-Reads :
    (a b : ℕ) → a < bound 4 → b < bound 4 → Reads read_two (bytes_of 4 a ++ bytes_of 4 b) (a, b)
unfolding read_two
two-Reads a b l m = >>=-Reads _ (number-Reads 4 a l) (finish _ (number-Reads 4 b m))

-- The counter of a sample, in the format of a single one.
pub record CounterOf (format : ℕ) (g : CounterGroup) : Type 0 where
  pub counter : CounterValue
  pub single : g.values ≡ counter ∷ []
  pub no_group : has format format_group ≡ false
  pub fits : CountersFit format g

-- The sample is of the sample type `t` and the read format: its fields are in range, and those left out
-- are empty. There is no group of counters, and there are no branches or dumps.
pub record SampleFits (t format : ℕ) (s : SampleRecord) : Type 0 where
  pub no_branch : has t sample_branch_stack ≡ false
  pub no_dump : has_unsupported t ≡ false
  pub counters : has t sample_read ≡ true → CounterOf format s.v
  pub no_counter : has t sample_read ≡ false → s.v ≡ no_counters
  pub branches : s.branches ≡ []
  pub sample_id : s.sample_id < bound 8
  pub ip : s.ip < bound 8
  pub pid : s.pid < bound 4
  pub tid : s.tid < bound 4
  pub time : s.time < bound 8
  pub addr : s.addr < bound 8
  pub id : s.id < bound 8
  pub stream_id : s.stream_id < bound 8
  pub cpu : s.cpu < bound 4
  pub period : s.period < bound 8
  pub chain_length : length s.ips < bound 8
  pub chain : AllBelow s.ips
  pub raw_length : length s.raw_data < bound 4
  pub no_sample_id : has t sample_identifier ≡ false → s.sample_id ≡ 0
  pub no_ip : has t sample_ip ≡ false → s.ip ≡ 0
  pub no_tid : has t sample_tid ≡ false → (s.pid ≡ 0) × (s.tid ≡ 0)
  pub no_time : has t sample_time ≡ false → s.time ≡ 0
  pub no_addr : has t sample_addr ≡ false → s.addr ≡ 0
  pub no_id : has t sample_identity ≡ false → s.id ≡ 0
  pub no_stream_id : has t sample_stream_id ≡ false → s.stream_id ≡ 0
  pub no_cpu : has t sample_cpu ≡ false → s.cpu ≡ 0
  pub no_period : has t sample_period ≡ false → s.period ≡ 0
  pub no_chain : has t sample_callchain ≡ false → s.ips ≡ []
  pub no_raw : has t sample_raw ≡ false → s.raw_data ≡ []

-- The fields after the identifier, in the order of the kernel's struct.
unfoldable pub encode_fields : ℕ → ℕ → SampleRecord → List ℕ
encode_fields t format s =
    when (has t sample_ip) (bytes_of 8 s.ip)
    ++ (when (has t sample_tid) (bytes_of 4 s.pid ++ bytes_of 4 s.tid)
        ++ (when (has t sample_time) (bytes_of 8 s.time)
            ++ (when (has t sample_addr) (bytes_of 8 s.addr)
                ++ (when (has t sample_identity) (bytes_of 8 s.id)
                    ++ (when (has t sample_stream_id) (bytes_of 8 s.stream_id)
                        ++ (when (has t sample_cpu) (bytes_of 4 s.cpu ++ bytes_of 4 0)
                            ++ (when (has t sample_period) (bytes_of 8 s.period)
                                ++ (when (has t sample_read) (encode_counters format s.v)
                                    ++ (when (has t sample_callchain)
                                          (bytes_of 8 (length s.ips) ++ all_bytes s.ips)
                                        ++ when (has t sample_raw)
                                            (bytes_of 4 (length s.raw_data) ++ s.raw_data))))))))))

unfoldable pub encode_sampled : ℕ → ℕ → SampleRecord → List ℕ
encode_sampled t format s =
    when (has t sample_identifier) (bytes_of 8 s.sample_id) ++ encode_fields t format s

keep-Reads :
    (format : ℕ) (g : CounterGroup)
    → CounterOf format g
    → Reads (keep_counters format) (encode_counters format g) g
unfolding keep_counters or_keep kept
keep-Reads format g c =
    let read : Reads (read_counters format) (encode_counters format g) g =
      subst (λ v. Reads (read_counters format) (encode_counters format g) v)
        (ap (λ b. if b then record g { values = [] } else g) c.no_group)
        (counters-Reads format g c.fits (λ e. (c.counter, c.single))) in
    record { runs = λ r rest e. rw (read.runs r rest e) }

counters_part :
    (b : Bool) (format : ℕ) (g : CounterGroup)
    → (b ≡ true → CounterOf format g)
    → (b ≡ false → g ≡ no_counters)
    → Reads (present b no_counters (keep_counters format)) (when b (encode_counters format g)) g
unfolding present
counters_part true format g c n = keep-Reads format g (c refl)
counters_part false format g c n = rw (n refl) (pure-Reads no_counters)

-- The attributes are those given, or those of the identifier, which the sample type then has.
abbrev pub Known : Option EventAttr → FormatMap → EventAttr → ℕ → Type 0
Known (some given) formats attr i = given ≡ attr
Known none formats attr i =
    (formats i ≡ some attr) × (has attr.sample_type sample_identifier ≡ true)

identifier-Reads :
    (given : Option EventAttr) (formats : FormatMap) (attr : EventAttr) (i : ℕ)
    → Known given formats attr i
    → i < bound 8
    → (has attr.sample_type sample_identifier ≡ false → i ≡ 0)
    → Reads
        (read_identifier given formats)
        (when (has attr.sample_type sample_identifier) (bytes_of 8 i))
        (attr, i)
unfolding read_identifier
identifier-Reads (some given) formats attr i k l z =
    rw k
      (finish _ (present-Reads (has attr.sample_type sample_identifier) 0 (number-Reads 8 i l) z))
identifier-Reads none formats attr i (k, h) l z =
    rw h (ends _ (number-Reads 8 i l) (rw (k, h) (pure-Reads (attr, i))))

both : (a b : ℕ) → (a ≡ 0) × (b ≡ 0) → ◌≡◌ {A = ℕ × ℕ} (a, b) (0, 0)
both a b (h, i) = rw (h, i)

dumps-Reads : (t : ℕ) → has_unsupported t ≡ false → Reads (reject_dumps t) [] tt
unfolding reject_dumps
dumps-Reads t h = rw h (pure-Reads tt)

abbrev bare_of : SampleRecord → SampleRecord
bare_of s = record s { branches = [] }

bare : (s : SampleRecord) → s.branches ≡ [] → bare_of s ≡ s
bare s g = ap (λ b. record s { branches = b }) (sym g)

-- A sample is read back from its bytes, by the attributes given or by those of its identifier.
pub sampled-Reads :
    (given : Option EventAttr) (formats : FormatMap) (attr : EventAttr) (s : SampleRecord)
    → Known given formats attr s.sample_id
    → SampleFits attr.sample_type attr.read_format s
    → Reads (read_sampled given formats) (encode_sampled attr.sample_type attr.read_format s) s
unfolding read_sampled encode_sampled encode_fields
sampled-Reads given formats attr s k f =
    let t : ℕ = attr.sample_type in
    >>=-Reads _ (identifier-Reads given formats attr s.sample_id k f.sample_id f.no_sample_id) (
      >>=-Reads _ (present-Reads (has t sample_ip) 0 (number-Reads 8 s.ip f.ip) f.no_ip) (
        >>=-Reads _
          (present-Reads (has t sample_tid) (0, 0) (two-Reads s.pid s.tid f.pid f.tid)
            (λ e. both s.pid s.tid (f.no_tid e)))
          (>>=-Reads _
            (present-Reads (has t sample_time) 0 (number-Reads 8 s.time f.time) f.no_time)
            (>>=-Reads _
              (present-Reads (has t sample_addr) 0 (number-Reads 8 s.addr f.addr) f.no_addr)
              (>>=-Reads _
                (present-Reads (has t sample_identity) 0 (number-Reads 8 s.id f.id) f.no_id)
                (>>=-Reads _
                  (present-Reads (has t sample_stream_id) 0 (number-Reads 8 s.stream_id f.stream_id)
                    f.no_stream_id)
                  (>>=-Reads _
                    (present-Reads (has t sample_cpu) (0, 0) (two-Reads s.cpu 0 f.cpu (omega arith))
                      (λ e. both s.cpu 0 (f.no_cpu e, refl)))
                    (>>=-Reads _
                      (present-Reads (has t sample_period) 0 (number-Reads 8 s.period f.period)
                        f.no_period)
                      (>>=-Reads _
                        (counters_part (has t sample_read) attr.read_format s.v f.counters
                          f.no_counter)
                        (>>=-Reads _
                          (present-Reads (has t sample_callchain) []
                            (callchain-Reads s.ips f.chain_length f.chain) f.no_chain)
                          (ends _
                            (present-Reads (has t sample_raw) [] (raw-Reads s.raw_data f.raw_length)
                              f.no_raw)
                            (ends _
                              (absent-Reads (has t sample_branch_stack) [] read_branches
                                f.no_branch)
                              (ends _ (dumps-Reads t f.no_dump) (
                                subst (Reads (pure (bare_of s)) []) (bare s f.branches)
                                  (pure-Reads (bare_of s))))))))))))))))
