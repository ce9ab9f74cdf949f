-- ===== src/Perf/Record/Sampled.antt =====
-- `SampleRecord` of pkg/sys/perf/types.go. Most of its reads ignore their errors: a field that cannot
-- be read keeps its zero value.
pub mod Reads
use capsule.Prelude.{
  ℕ, zero, suc, ◌/◌, ◌^◌, List, [], ◌∷◌, Bool, true, false, ◌||◌, ◌==◌, bit_and, if◌then◌else◌,
  Option, none, some,
}
use capsule.Prelude.Outcome.{Outcome, ok, err}
use capsule.Perf.Attr.{EventAttr, has}
use capsule.Perf.Reader.{
  ReadError, Reading, ◌>>=◌, ◌>>◌, pure, fail, crash, or_keep, present, times, full, uint,
}
use capsule.Perf.Record.{
  CounterGroup, sample_ip, sample_tid, sample_time, sample_addr, sample_read, sample_callchain,
  sample_identity, sample_cpu, sample_period, sample_stream_id, sample_raw, sample_branch_stack,
  sample_identifier, format_time_enabled, format_time_running, read_counters,
}

pub record BranchEntry : Type 0 where
  pub from : ℕ
  pub to : ℕ
  pub mispred : Bool
  pub predicted : Bool
  pub in_tx : Bool
  pub abort : Bool
  pub cycles : ℕ

-- The fields that are read; those of register and stack dumps stay empty.
pub record SampleRecord : Type 0 where
  pub sample_id : ℕ
  pub ip : ℕ
  pub pid : ℕ
  pub tid : ℕ
  pub time : ℕ
  pub addr : ℕ
  pub id : ℕ
  pub stream_id : ℕ
  pub cpu : ℕ
  pub period : ℕ
  pub v : CounterGroup
  pub ips : List ℕ
  pub raw_data : List ℕ
  pub branches : List BranchEntry

-- The map from sample identifiers to the attributes of their events.
abbrev pub FormatMap : Type 0
FormatMap = ℕ → Option EventAttr

-- A number whose read errors are ignored.
abbrev pub number : ℕ → Reading ℕ
number count = or_keep 0 (uint count)

-- The attributes, with the identifier that is read to find them, or beside them.
unfoldable pub read_identifier : Option EventAttr → FormatMap → Reading (EventAttr × ℕ)
unfolding ◌>>=◌ pure fail crash or_keep present uint has
read_identifier none formats = do
  i ← number 8
  elim (formats i) [
    | none ↦ fail (ReadError.unknown_sample_id i)
    | some attr ↦ if has attr.sample_type sample_identifier then pure (attr, i) else crash
  ]
read_identifier (some attr) formats = do
  i ← present (has attr.sample_type sample_identifier) 0 (number 8)
  pure (attr, i)

abbrev pub no_counters : CounterGroup
no_counters = record { time_enabled = 0; time_running = 0; values = [] }

-- A branch: `binary.Read` cannot set the unexported fields of the struct that it is given, and panics,
-- once the bytes are there; where they are not, the error is ignored and the entry is empty.
unfoldable pub read_branch : Reading BranchEntry
unfolding ◌>>=◌ or_keep full crash
read_branch =
    or_keep
      (record {
        from = 0;
        to = 0;
        mispred = false;
        predicted = false;
        in_tx = false;
        abort = false;
        cycles = 0;
      })
      (do bytes ← full 24; crash)

-- The kinds of data that are not implemented.
unfoldable pub has_unsupported : ℕ → Bool
unfolding has
has_unsupported t =
    has t (2 ^ 12)
    || has t (2 ^ 13)
    || has t (2 ^ 14)
    || has t (2 ^ 15)
    || has t (2 ^ 17)
    || has t (2 ^ 18)

abbrev pub zeros : ℕ → List ℕ
zeros zero = []
zeros (suc n) = 0 ∷ zeros n

unfoldable pub reject_dumps : ℕ → Reading (Unit {0})
unfolding has_unsupported pure crash
reject_dumps t = if has_unsupported t then crash else pure tt

unfoldable pub read_raw : Reading (List ℕ)
unfolding ◌>>=◌ or_keep full uint
read_raw = do size ← number 4; or_keep (zeros size) (full size)

unfoldable pub read_callchain : Reading (List ℕ)
unfolding ◌>>=◌ or_keep times uint
read_callchain = do nr ← number 8; times nr (number 8)

unfoldable pub read_branches : Reading (List BranchEntry)
unfolding ◌>>=◌ or_keep times uint read_branch
read_branches = do nr ← number 8; times nr read_branch

unfoldable pub read_two : Reading (ℕ × ℕ)
unfolding ◌>>=◌ pure or_keep uint
read_two = do a ← number 4; b ← number 4; pure (a, b)

-- The times that `CounterGroup.read` has assigned where it fails later on.
unfoldable pub read_times : ℕ → Reading (ℕ × ℕ)
unfolding ◌>>=◌ ◌>>◌ pure or_keep present uint has
read_times format = do
  number 8
  enabled ← present (has format format_time_enabled) 0 (number 8)
  running ← present (has format format_time_running) 0 (number 8)
  pure (enabled, running)

times_kept : Outcome ReadError (ℕ × ℕ) → CounterGroup
times_kept (ok (enabled, running)) = record {
  time_enabled = enabled;
  time_running = running;
  values = [];
}
times_kept r = no_counters

-- `s.V.read(...)`, whose error is ignored.
unfoldable pub keep_counters : ℕ → Reading CounterGroup
unfolding times_kept read_times read_counters or_keep
keep_counters format r = or_keep (times_kept (read_times format r).0) (read_counters format) r

unfoldable pub read_sampled : Option EventAttr → FormatMap → Reading SampleRecord
unfolding ◌>>=◌ ◌>>◌ pure crash or_keep present uint has read_identifier keep_counters read_raw
    read_callchain read_branches read_two reject_dumps
read_sampled event_attr formats = do
  (attr, identifier) ← read_identifier event_attr formats
  let t : ℕ = attr.sample_type
  ip ← present (has t sample_ip) 0 (number 8)
  task ← present (has t sample_tid) (0, 0) read_two
  time ← present (has t sample_time) 0 (number 8)
  addr ← present (has t sample_addr) 0 (number 8)
  i ← present (has t sample_identity) 0 (number 8)
  stream ← present (has t sample_stream_id) 0 (number 8)
  cpu ← present (has t sample_cpu) (0, 0) read_two
  period ← present (has t sample_period) 0 (number 8)
  group ← present (has t sample_read) no_counters (keep_counters attr.read_format)
  chain ← present (has t sample_callchain) [] read_callchain
  raw ← present (has t sample_raw) [] read_raw
  stack ← present (has t sample_branch_stack) [] read_branches
  reject_dumps t
  pure (record {
    sample_id = identifier;
    ip = ip;
    pid = task.0;
    tid = task.1;
    time = time;
    addr = addr;
    id = i;
    stream_id = stream;
    cpu = cpu.0;
    period = period;
    v = group;
    ips = chain;
    raw_data = raw;
    branches = stack;
  })
