-- ===== src/Perf/Attr/Write.antt =====
-- What `EventAttr.write` of pkg/sys/perf/types.go writes, and when it refuses.
use capsule.Prelude.{
  ℕ, ◌%◌, ◌^◌, ◌<◌, ◌≤◌, List, Bool, true, false, ◌==◌, if◌then◌else◌, ◌≡◌, ◌↔◌, refl, sym, ap, ◌∙◌,
  arith, length, take, drop,
}
use capsule.Prelude.Int.{to_u64}
use capsule.Prelude.Outcome.{ok}
use capsule.Perf.Decode.RoundTrip.{bytes_of, bound}
use capsule.Perf.Reader.{le_value}
use capsule.Perf.Reader.Reads.{le_value-bytes_of}
use capsule.Perf.Attr.{EventAttr, layout, write}
use capsule.Perf.Attr.Flags.{number_of, number_below, flags_of, high_flags-low_flags}

-- The conditions of `write`: a field of a union's member that is not written is 0, and the precision is
-- at most 3.
pub record Writable (ea : EventAttr) : Type 0 where
  pub period : ea.freq ≡ true → ea.sample_period ≡ 0
  pub frequency : ea.freq ≡ false → ea.sample_freq ≡ 0
  pub precise : ea.precise_ip ≤ 3
  pub events : ea.watermark ≡ true → ea.wakeup_events ≡ 0
  pub level : ea.watermark ≡ false → ea.wakeup_watermark ≡ 0

-- The fields are in the ranges of their Go types.
pub record InRange (ea : EventAttr) : Type 0 where
  pub type : ea.type < bound 4
  pub size : ea.size < bound 4
  pub config : ea.config < bound 8
  pub sample_period : ea.sample_period < bound 8
  pub sample_freq : ea.sample_freq < bound 8
  pub sample_type : ea.sample_type < bound 8
  pub read_format : ea.read_format < bound 8
  pub wakeup_events : ea.wakeup_events < bound 4
  pub wakeup_watermark : ea.wakeup_watermark < bound 4
  pub bp_type : ea.bp_type < bound 4
  pub bp_addr : ea.bp_addr < bound 8
  pub config1 : ea.config1 < bound 8
  pub bp_len : ea.bp_len < bound 8
  pub config2 : ea.config2 < bound 8
  pub branch_sample_type : ea.branch_sample_type < bound 8
  pub sample_regs_user : ea.sample_regs_user < bound 8
  pub sample_stack_user : ea.sample_stack_user < bound 4
  pub sample_regs_intr : ea.sample_regs_intr < bound 8
  pub aux_watermark : ea.aux_watermark < bound 4
  pub sample_max_stack : ea.sample_max_stack < bound 2

-- The number in `count` bytes from an offset on, the lowest byte first.
abbrev pub field : ℕ → ℕ → List ℕ → ℕ
field offset count bytes = le_value (take count (drop offset bytes))

-- The bytes are a `struct perf_event_attr` of these attributes: 112 bytes with each field at the offset
-- that it has in the kernel's struct.
pub record Encodes (ea : EventAttr) (bytes : List ℕ) : Type 0 where
  pub long : length bytes ≡ 112
  pub type : field 0 4 bytes ≡ ea.type
  pub size : field 4 4 bytes ≡ ea.size
  pub config : field 8 8 bytes ≡ ea.config
  pub period : field 16 8 bytes ≡ (if ea.freq then ea.sample_freq else ea.sample_period)
  pub sample_type : field 24 8 bytes ≡ ea.sample_type
  pub read_format : field 32 8 bytes ≡ ea.read_format
  pub flags : field 40 8 bytes ≡ number_of (flags_of ea)
  pub wakeup : field 48 4 bytes ≡ (if ea.watermark then ea.wakeup_watermark else ea.wakeup_events)
  pub bp_type : field 52 4 bytes ≡ ea.bp_type
  pub config1 : field 56 8 bytes ≡ (if ea.config1 == 0 then ea.bp_addr else ea.config1)
  pub config2 : field 64 8 bytes ≡ (if ea.config2 == 0 then ea.bp_len else ea.config2)
  pub branch_sample_type : field 72 8 bytes ≡ ea.branch_sample_type
  pub sample_regs_user : field 80 8 bytes ≡ ea.sample_regs_user
  pub sample_stack_user : field 88 4 bytes ≡ ea.sample_stack_user
  pub clock_id : field 92 4 bytes ≡ to_u64 ea.clock_id % 2 ^ 32
  pub sample_regs_intr : field 96 8 bytes ≡ ea.sample_regs_intr
  pub aux_watermark : field 104 4 bytes ≡ ea.aux_watermark
  pub sample_max_stack : field 108 2 bytes ≡ ea.sample_max_stack
  pub reserved : field 110 2 bytes ≡ 0

to_Writable :
    (ea : EventAttr) (bytes : List ℕ) → write ea ≡ ok bytes → Writable ea × (bytes ≡ layout ea)
unfolding write
to_Writable ea bytes h = ground arith

of_Writable : (ea : EventAttr) → Writable ea → write ea ≡ ok (layout ea)
unfolding write
of_Writable ea w = ground arith

pub write-Writable :
    (ea : EventAttr) (bytes : List ℕ) → (write ea ≡ ok bytes) ↔ (Writable ea × (bytes ≡ layout ea))
write-Writable ea bytes = (to_Writable ea bytes, λ w. of_Writable ea w.0 ∙ ap ok (sym w.1))

flags_below : (ea : EventAttr) → number_of (flags_of ea) < bound 8
flags_below ea = let n = number_below (flags_of ea) in omega arith

low_word : (n : ℕ) → le_value (bytes_of 4 n) ≡ n % 2 ^ 32
unfolding le_value bytes_of
low_word n = omega arith

layout-Encodes : (ea : EventAttr) → InRange ea → Encodes ea (layout ea)
unfolding layout bytes_of
layout-Encodes ea f = record {
  long = refl;
  type = le_value-bytes_of 4 ea.type f.type;
  size = le_value-bytes_of 4 ea.size f.size;
  config = le_value-bytes_of 8 ea.config f.config;
  period = le_value-bytes_of 8 _ (either ea.freq f.sample_freq f.sample_period);
  sample_type = le_value-bytes_of 8 ea.sample_type f.sample_type;
  read_format = le_value-bytes_of 8 ea.read_format f.read_format;
  flags =
      ap (λ n. le_value (bytes_of 8 n)) (high_flags-low_flags ea)
      ∙ le_value-bytes_of 8 (number_of (flags_of ea)) (flags_below ea);
  wakeup = le_value-bytes_of 4 _ (either ea.watermark f.wakeup_watermark f.wakeup_events);
  bp_type = le_value-bytes_of 4 ea.bp_type f.bp_type;
  config1 = le_value-bytes_of 8 _ (either (ea.config1 == 0) f.bp_addr f.config1);
  config2 = le_value-bytes_of 8 _ (either (ea.config2 == 0) f.bp_len f.config2);
  branch_sample_type = le_value-bytes_of 8 ea.branch_sample_type f.branch_sample_type;
  sample_regs_user = le_value-bytes_of 8 ea.sample_regs_user f.sample_regs_user;
  sample_stack_user = le_value-bytes_of 4 ea.sample_stack_user f.sample_stack_user;
  clock_id = low_word (to_u64 ea.clock_id);
  sample_regs_intr = le_value-bytes_of 8 ea.sample_regs_intr f.sample_regs_intr;
  aux_watermark = le_value-bytes_of 4 ea.aux_watermark f.aux_watermark;
  sample_max_stack = le_value-bytes_of 2 ea.sample_max_stack f.sample_max_stack;
  reserved = le_value-bytes_of 2 0 (omega arith);
}
  where
    either : {a b n : ℕ} (c : Bool) → a < n → b < n → (if c then a else b) < n
    either true l m = l
    either false l m = m

pub write_lem :
    (ea : EventAttr) (bytes : List ℕ)
    → InRange ea
    → ((write ea ≡ ok bytes) ↔ (Writable ea × (bytes ≡ layout ea))) × Encodes ea (layout ea)
write_lem ea bytes f = (write-Writable ea bytes, layout-Encodes ea f)
