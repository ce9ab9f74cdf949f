-- ===== src/Perf/MonitorTests.antt =====
-- A registration with the event monitor of pkg/sys/perf/monitor.go, and the theorems at it.
use capsule.Prelude.{
  zero, suc, arith, ◌++◌, ℕ, ◌≤◌, List, [], ◌∷◌, Bool, true, false, none, some, ◌≡◌, ◌↔◌, refl, sym,
  ◌∙◌, if◌then◌else◌,
}
use capsule.Prelude.Int.{pos}
use capsule.Prelude.Outcome.{Outcome, ok, err}
use capsule.Prelude.Bytes.{bytes_eq}
use capsule.Prelude.Maps.{number_key, bytes_key, GoMap, lookup, insert, put_all}
use capsule.Prelude.Maps.Laws.{names}
use capsule.Api.Value.{Bytes}
use capsule.Perf.TraceField.{TraceEventField}
use capsule.Perf.Attr.{EventAttr, layout, write}
use capsule.Perf.DecoderMap.{Formats, get_decoder, add_decoder}
use capsule.Perf.DecoderMap.Laws.{Op, Distinct, run_all, latest, get_decoder-run_all}
use capsule.Perf.Monitor.{
  EventMonitor, EventType, Kernel, RegisterEventOptions, new_event_monitor, fixup_event_attr, close,
  perf_event_open, stream_ids, after_add,
}
use capsule.Perf.Monitor.Calls.{Call, call, call_all, AllFresh, Fresh, close-call_all}
use mathlib.Core.List.{Perm}
use capsule.Perf.Monitor.Rounds.{DecodedSample, Round, add_read}
use capsule.Perf.Monitor.Rounds.Conserved.{Turn, turns, read_of, turns-Perm, add_read_single}
use capsule.Perf.Monitor.Dispatch.{EventIds, dispatch_sorted_samples}
use capsule.Perf.Monitor.Dispatch.Ordered.{Sorted, samples_of, dispatch_sorted_samples-Sorted}
use capsule.Perf.Monitor.Dispatch.Sifted.{Sifted, dispatch_sorted_samples-Sifted}
use capsule.Perf.Monitor.Attributes.{write-fixup_event_attr}

abbrev name : Bytes
name = 116 ∷ 112 ∷ []

-- One event has a format.
abbrev format : Formats ℕ
format n = if bytes_eq n name then ok (7, []) else err 2

one_format :
    (b : Bool) (i : ℕ) (fs : GoMap Bytes TraceEventField)
    → ◌≡◌ {A = Outcome ℕ (ℕ × GoMap Bytes TraceEventField)}
        (if b then ok (7, []) else err 2)
        (ok (i, fs))
    → b ≡ true
one_format true i fs h = refl
one_format false i fs h = cc

format-Distinct : Distinct format
format-Distinct = record {
  apart = λ a b i fs gs h k.
      (bytes_key.same_iff a name).0 (one_format (bytes_eq a name) i fs h)
      ∙ sym ((bytes_key.same_iff b name).0 (one_format (bytes_eq b name) i gs k));
}

abbrev ops : List (Op ℕ)
ops = Op.add_op name 1 ∷ Op.add_op name 2 ∷ Op.remove_op name ∷ []

-- The name was added twice, and one removal takes its decoder away.
get_decoder-run_all_example : get_decoder 7 (run_all format ops none) ≡ none
unfolding latest bytes_eq
get_decoder-run_all_example = get_decoder-run_all format ops name 7 [] format-Distinct refl

abbrev attributes : EventAttr
attributes = record {
  type = 2;
  size = 64;
  config = 0;
  sample_period = 1;
  sample_freq = 0;
  sample_type = 65542;
  read_format = 0;
  disabled = true;
  inherit = false;
  pinned = false;
  exclusive = false;
  exclusive_user = false;
  exclusive_kernel = false;
  exclusive_hv = false;
  exclusive_idle = false;
  mmap = false;
  comm = false;
  freq = false;
  inherit_stat = false;
  enable_on_exec = false;
  task = false;
  watermark = true;
  precise_ip = 0;
  mmap_data = false;
  sample_id_all = true;
  exclude_host = false;
  exclude_guest = false;
  exclude_callchain_kernel = false;
  exclude_callchain_user = false;
  mmap2 = false;
  comm_exec = false;
  use_clock_id = false;
  context_switch = false;
  wakeup_events = 0;
  wakeup_watermark = 1;
  bp_type = 0;
  bp_addr = 0;
  config1 = 0;
  bp_len = 0;
  config2 = 0;
  branch_sample_type = 0;
  sample_regs_user = 0;
  sample_stack_user = 0;
  clock_id = pos 0;
  sample_regs_intr = 0;
  aux_watermark = 0;
  sample_max_stack = 0;
}

write-fixup_event_attr_example :
    (write (fixup_event_attr attributes) ≡ ok (layout (fixup_event_attr attributes)))
    ↔ ((attributes.sample_freq ≡ 0) × (0 ≤ 3) × (attributes.wakeup_events ≡ 0))
write-fixup_event_attr_example = write-fixup_event_attr attributes

-- Two groups of events; the second registration finds no identifier for its second descriptor.
abbrev kernel : Kernel
kernel = record {
  answers =
      record { fd = some 10; accepts_filter = true }
      ∷ record { fd = some 11; accepts_filter = true }
      ∷ [];
  stream_id = λ fd. some fd;
}

abbrev failing : Kernel
failing = record {
  answers =
      record { fd = some 20; accepts_filter = true }
      ∷ record { fd = some 21; accepts_filter = true }
      ∷ [];
  stream_id = λ fd. none;
}

abbrev options : RegisterEventOptions
options = record { disabled = false; event_attr = none; filter = [] }

abbrev calls : List (Call ℕ)
calls =
    Call.register kernel name 1 options EventType.tracepoint
    ∷ Call.run_or_stop true
    ∷ Call.register failing name 2 options EventType.tracepoint
    ∷ []

calls-Fresh : AllFresh format calls (new_event_monitor attributes)
unfolding AllFresh Fresh names call add_decoder after_add perf_event_open stream_ids lookup insert
    put_all bytes_eq
calls-Fresh =
    (((refl, (refl, tt)), (refl, (refl, tt))), (tt, (((refl, (refl, tt)), (refl, (refl, tt))), tt)))

close-call_all_example :
    (m : EventMonitor ℕ) × (close (call_all format calls (new_event_monitor attributes)) ≡ ok m)
    × (m.open_fds ≡ [])
close-call_all_example = close-call_all format calls attributes calls-Fresh

-- Two buffers, the second with one sample that is later than those of the first.
abbrev at_time : ℕ → DecodedSample
at_time t = (
  record {
    header = record { type = 9; misc = 0; size = 8 };
    content = none;
    id = record { pid = 0; tid = 0; time = t; id = 0; stream_id = 0; cpu = 0 };
  },
  none,
)

abbrev two_turns : List Turn
two_turns =
    Turn.read_turn (
      record { time_base = 0; time_offset = 0; read = at_time 5 ∷ [] }
      ∷ record { time_base = 10; time_offset = 3; read = at_time 6 ∷ at_time 7 ∷ [] }
      ∷ [])
    ∷ Turn.flush_turn
    ∷ []

turns-Perm_example :
    Perm ((turns two_turns []).0 ++ (turns two_turns []).1) ([] ++ read_of two_turns)
turns-Perm_example = turns-Perm two_turns []

abbrev after_first : Round
after_first = record {
  samples = at_time 5 ∷ [];
  pending_samples = [];
  last_timestamp = 5;
  last_index = 1;
}

add_read_single_example :
    ((add_read (at_time 5 ∷ []) (at_time 9 ∷ []) after_first).samples
      ≡ at_time 5 ∷ ([] ++ (at_time 9 ∷ [])))
    × ((add_read (at_time 5 ∷ []) (at_time 9 ∷ []) after_first).pending_samples
        ≡ after_first.pending_samples)
add_read_single_example = add_read_single (at_time 5) (at_time 9) [] after_first refl

-- The stream 0 belongs to the event 1.
abbrev event_ids : EventIds
event_ids zero = some 1
event_ids (suc n) = none

abbrev in_order : List DecodedSample
in_order = at_time 5 ∷ at_time 9 ∷ []

dispatch_sorted_samples-Sorted_example :
    Sorted (samples_of (dispatch_sorted_samples event_ids [] in_order))
dispatch_sorted_samples-Sorted_example =
    dispatch_sorted_samples-Sorted event_ids [] in_order ((omega arith, tt), (tt, tt))

-- The stream 1 belongs to the event 2 once the map is loaded again, and the stream 2 to none.
abbrev of_stream : ℕ → DecodedSample
of_stream stream = (
  record {
    header = record { type = 9; misc = 0; size = 8 };
    content = none;
    id = record { pid = 0; tid = 0; time = 5; id = 0; stream_id = stream; cpu = 0 };
  },
  none,
)

abbrev event_ids' : EventIds
event_ids' zero = some 1
event_ids' (suc zero) = some 2
event_ids' (suc (suc n)) = none

abbrev mixed : List DecodedSample
mixed = of_stream 0 ∷ of_stream 1 ∷ of_stream 2 ∷ of_stream 0 ∷ []

dispatch_sorted_samples-Sifted_example :
    Sifted
      (event_ids ∷ event_ids' ∷ [])
      mixed
      (dispatch_sorted_samples event_ids (event_ids' ∷ []) mixed)
dispatch_sorted_samples-Sifted_example =
    dispatch_sorted_samples-Sifted event_ids (event_ids' ∷ []) mixed

dispatched_mixed :
    dispatch_sorted_samples event_ids (event_ids' ∷ []) mixed
    ≡ (1, of_stream 0) ∷ (2, of_stream 1) ∷ (1, of_stream 0) ∷ []
unfolding dispatch_sorted_samples
dispatched_mixed = refl
