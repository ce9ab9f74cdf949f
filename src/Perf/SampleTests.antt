-- ===== src/Perf/SampleTests.antt =====
-- Sample records of pkg/sys/perf/types.go, and the theorems at them.
use capsule.Prelude.{
  ℕ, zero, suc, [], ◌∷◌, ◌++◌, length, if◌then◌else◌, true, false, none, some, ◌≡◌, refl, arith,
}
use capsule.Prelude.Int.{pos}
use capsule.Prelude.Outcome.{ok}
use capsule.Perf.Attr.{EventAttr, layout, write, has}
use capsule.Perf.Attr.Write.{Writable, InRange, write_lem}
use capsule.Perf.Reader.{Reader, skip}
use capsule.Perf.Record.{CounterGroup, format_group, read_counters}
use capsule.Perf.Record.Counters.{CountersFit, encode_counters, read_counters-encode_counters}
use capsule.Perf.Record.Reads.{HeaderFits}
use capsule.Perf.Record.Sampled.{SampleRecord, FormatMap, has_unsupported}
use capsule.Perf.Record.Sampled.Reads.{SampleFits}
use capsule.Perf.Sample.{Record, id_of, id_size, size_or, get_size, read_sample, read_samples}
use capsule.Perf.Sample.Reads.{
  Laid, sample_of, encode, WellFormed, samples_of, read_sample-encode, read_samples-encode_all,
}
use capsule.Perf.Sample.Identifier.{sizes_after, get_size-sizes_after}

-- Attributes of the sample type of identifier, task, time and a counter with the time that it was
-- enabled for.
abbrev attr : EventAttr
attr = record {
  type = 2;
  size = 112;
  config = 300;
  sample_period = 1;
  sample_freq = 0;
  sample_type = 65558;
  read_format = 1;
  disabled = true;
  inherit = false;
  pinned = false;
  exclusive = false;
  exclusive_user = false;
  exclusive_kernel = false;
  exclusive_hv = false;
  exclusive_idle = false;
  mmap = false;
  comm = false;
  freq = false;
  inherit_stat = false;
  enable_on_exec = false;
  task = false;
  watermark = false;
  precise_ip = 0;
  mmap_data = false;
  sample_id_all = true;
  exclude_host = false;
  exclude_guest = false;
  exclude_callchain_kernel = false;
  exclude_callchain_user = false;
  mmap2 = false;
  comm_exec = false;
  use_clock_id = true;
  context_switch = false;
  wakeup_events = 1;
  wakeup_watermark = 0;
  bp_type = 0;
  bp_addr = 0;
  config1 = 0;
  bp_len = 0;
  config2 = 0;
  branch_sample_type = 0;
  sample_regs_user = 0;
  sample_stack_user = 0;
  clock_id = pos 1;
  sample_regs_intr = 0;
  aux_watermark = 0;
  sample_max_stack = 0;
}

attr-Writable : Writable attr
attr-Writable = record {
  period = λ e. cc;
  frequency = λ e. refl;
  precise = omega arith;
  events = λ e. cc;
  level = λ e. refl;
}

attr-InRange : InRange attr
attr-InRange = record {
  type = omega arith;
  size = omega arith;
  config = omega arith;
  sample_period = omega arith;
  sample_freq = omega arith;
  sample_type = omega arith;
  read_format = omega arith;
  wakeup_events = omega arith;
  wakeup_watermark = omega arith;
  bp_type = omega arith;
  bp_addr = omega arith;
  config1 = omega arith;
  bp_len = omega arith;
  config2 = omega arith;
  branch_sample_type = omega arith;
  sample_regs_user = omega arith;
  sample_stack_user = omega arith;
  sample_regs_intr = omega arith;
  aux_watermark = omega arith;
  sample_max_stack = omega arith;
}

written : write attr ≡ ok (layout attr)
written = (write_lem attr (layout attr) attr-InRange).0.1 (attr-Writable, refl)

abbrev formats : FormatMap
formats (suc (suc (suc zero))) = some attr
formats _ = none

abbrev switched : SampleRecord
switched = record {
  sample_id = 3;
  ip = 0;
  pid = 41;
  tid = 42;
  time = 1000;
  addr = 0;
  id = 0;
  stream_id = 0;
  cpu = 0;
  period = 0;
  v = record { time_enabled = 900; time_running = 0; values = record { id = 0; value = 77 } ∷ [] };
  ips = [];
  raw_data = [];
  branches = [];
}

switched-Fits : SampleFits 65558 1 switched
unfolding has has_unsupported
switched-Fits = record {
  no_branch = refl;
  no_dump = refl;
  counters = λ e. record {
    counter = record { id = 0; value = 77 };
    single = refl;
    no_group = refl;
    fits = record {
      enabled = omega arith;
      running = omega arith;
      no_enabled = λ e. cc;
      no_running = λ e. refl;
      values = (record { value = omega arith; id = omega arith; no_id = λ e. refl }, tt);
      values_length = omega arith;
    };
  };
  no_counter = λ e. cc;
  branches = refl;
  sample_id = omega arith;
  ip = omega arith;
  pid = omega arith;
  tid = omega arith;
  time = omega arith;
  addr = omega arith;
  id = omega arith;
  stream_id = omega arith;
  cpu = omega arith;
  period = omega arith;
  chain_length = omega arith;
  chain = tt;
  raw_length = omega arith;
  no_sample_id = λ e. cc;
  no_ip = λ e. refl;
  no_tid = λ e. cc;
  no_time = λ e. cc;
  no_addr = λ e. refl;
  no_id = λ e. refl;
  no_stream_id = λ e. refl;
  no_cpu = λ e. refl;
  no_period = λ e. refl;
  no_chain = λ e. refl;
  no_raw = λ e. refl;
}

abbrev laid : Laid
laid = record {
  attr = attr;
  header = record { type = 9; misc = 2; size = 48 };
  content = Record.sampled switched;
  id = id_of switched;
}

laid-HeaderFits : HeaderFits laid.header
laid-HeaderFits = record { type = omega arith; misc = omega arith; size = omega arith }

laid-WellFormed : WellFormed none formats attr laid.header laid.content laid.id
unfolding WellFormed has
laid-WellFormed = (refl, (refl, refl), switched-Fits, refl)

abbrev buffer : Reader
buffer = record { data_bytes = encode laid ++ (encode laid ++ []); pos = 0; sizes = [] }

read_sample-encode_example :
    read_sample none formats buffer ≡ (ok (sample_of laid), skip (length (encode laid)) buffer)
read_sample-encode_example =
    read_sample-encode none formats laid buffer (encode laid ++ []) laid-HeaderFits laid-WellFormed
      refl

read_samples-encode_all_example :
    (r' : Reader) × (read_samples 3 formats buffer
      ≡ (ok (some (samples_of (laid ∷ laid ∷ []))), r'))
read_samples-encode_all_example =
    read_samples-encode_all formats (laid ∷ laid ∷ []) 3 buffer
      ((laid-HeaderFits, laid-WellFormed), ((laid-HeaderFits, laid-WellFormed), tt)) refl
      (omega arith)

-- Between the two calls the sizes of other types, and of the same one, are asked for.
get_size-sizes_after_example :
    (get_size 65542 false
      (sizes_after ((2, true) ∷ (65542, false) ∷ (2, false) ∷ []) (get_size 65542 true []).1)).0
    ≡ 24
unfolding get_size size_or id_size has
get_size-sizes_after_example =
    get_size-sizes_after 65542 23 true false ((2, true) ∷ (65542, false) ∷ (2, false) ∷ []) [] refl

-- A group of two counters with their identifiers and the time that they were enabled for.
abbrev two_counters : CounterGroup
two_counters = record {
  time_enabled = 700;
  time_running = 0;
  values = record { id = 3; value = 500 } ∷ record { id = 4; value = 600 } ∷ [];
}

abbrev group_with_ids : ℕ
group_with_ids = 13

two_counters-Fit : CountersFit group_with_ids two_counters
unfolding has
two_counters-Fit = record {
  enabled = omega arith;
  running = omega arith;
  no_enabled = λ e. cc;
  no_running = λ e. refl;
  values = (
    record { value = omega arith; id = omega arith; no_id = λ e. cc },
    (record { value = omega arith; id = omega arith; no_id = λ e. cc }, tt),
  );
  values_length = omega arith;
}

abbrev counters_buffer : Reader
counters_buffer = record {
  data_bytes = encode_counters group_with_ids two_counters ++ (7 ∷ []);
  pos = 0;
  sizes = [];
}

read_counters-encode_counters_example : read_counters group_with_ids counters_buffer ≡ (
  ok (
      if has group_with_ids format_group
      then record two_counters { values = [] }
      else two_counters),
  skip (length (encode_counters group_with_ids two_counters)) counters_buffer,
)
unfolding has
read_counters-encode_counters_example =
    read_counters-encode_counters group_with_ids two_counters counters_buffer (7 ∷ [])
      two_counters-Fit (λ e. cc) refl
