-- ===== src/Perf/Record.antt =====
-- The records of pkg/sys/perf/types.go and how they are read from a ring buffer.
pub mod Sampled
pub mod Reads
pub mod Counters
use capsule.Prelude.{
  ℕ, zero, suc, ◌+◌, ◌*◌, ◌/◌, ◌%◌, ◌^◌, List, [], ◌∷◌, Bool, true, false, ◌==◌, length,
  if◌then◌else◌, Option, none, some,
}
use capsule.Prelude.Outcome.{ok, err}
use capsule.Perf.Reader.{
  ReadError, Reader, Reading, left, skip, ◌>>=◌, ◌>>◌, pure, fail, uint, whole, times, present,
}
use capsule.Perf.Attr.{has}

pub record EventHeader : Type 0 where
  pub type : ℕ
  pub misc : ℕ
  pub size : ℕ

pub record CommRecord : Type 0 where
  pub pid : ℕ
  pub tid : ℕ
  pub comm : List ℕ

-- `ForkRecord` and `ExitRecord` have the same fields.
pub record TaskRecord : Type 0 where
  pub pid : ℕ
  pub ppid : ℕ
  pub tid : ℕ
  pub ptid : ℕ
  pub time : ℕ

pub record LostRecord : Type 0 where
  pub id : ℕ
  pub lost : ℕ

pub record CounterValue : Type 0 where
  pub id : ℕ
  pub value : ℕ

pub record CounterGroup : Type 0 where
  pub time_enabled : ℕ
  pub time_running : ℕ
  pub values : List CounterValue

pub record SampleId : Type 0 where
  pub pid : ℕ
  pub tid : ℕ
  pub time : ℕ
  pub id : ℕ
  pub stream_id : ℕ
  pub cpu : ℕ

-- The flags of a sample type and of a read format.
abbrev pub sample_ip : ℕ
sample_ip = 1

abbrev pub sample_tid : ℕ
sample_tid = 2

abbrev pub sample_time : ℕ
sample_time = 4

abbrev pub sample_addr : ℕ
sample_addr = 8

abbrev pub sample_read : ℕ
sample_read = 16

abbrev pub sample_callchain : ℕ
sample_callchain = 32

abbrev pub sample_identity : ℕ
sample_identity = 64

abbrev pub sample_cpu : ℕ
sample_cpu = 128

abbrev pub sample_period : ℕ
sample_period = 256

abbrev pub sample_stream_id : ℕ
sample_stream_id = 512

abbrev pub sample_raw : ℕ
sample_raw = 1024

abbrev pub sample_branch_stack : ℕ
sample_branch_stack = 2048

abbrev pub sample_identifier : ℕ
sample_identifier = 65536

abbrev pub format_time_enabled : ℕ
format_time_enabled = 1

abbrev pub format_time_running : ℕ
format_time_running = 2

abbrev pub format_id : ℕ
format_id = 4

abbrev pub format_group : ℕ
format_group = 8

unfoldable pub read_header : Reading EventHeader
unfolding uint ◌>>=◌ pure whole
read_header =
    whole 8 (do t ← uint 4; m ← uint 2; s ← uint 2; pure (record { type = t; misc = m; size = s }))

unfoldable pub read_task : Reading TaskRecord
unfolding uint ◌>>=◌ pure whole
read_task = whole 24 (do
  p ← uint 4
  pp ← uint 4
  t ← uint 4
  pt ← uint 4
  time ← uint 8
  pure (record { pid = p; ppid = pp; tid = t; ptid = pt; time = time }))

unfoldable pub read_lost : Reading LostRecord
unfolding uint ◌>>=◌ pure whole
read_lost = whole 16 (do i ← uint 8; l ← uint 8; pure (record { id = i; lost = l }))

-- The bytes before the first NUL of some bytes.
unfoldable pub text_of : List ℕ → Option (List ℕ)
text_of [] = none
text_of (zero ∷ bs) = some []
text_of (suc b ∷ bs) = elim (text_of bs) [ none ↦ none | some t ↦ some (suc b ∷ t) ]

-- The loop on `reader.ReadByte()` that ends at a NUL, or with an error at the end of the buffer.
unfoldable pub read_text : Reading (List ℕ)
unfolding text_of
read_text r = elim (text_of (left r)) [
  | none ↦ (err ReadError.eof, skip (length (left r)) r)
  | some t ↦ (ok t, skip (suc (length t)) r)
]

-- One byte is read and thrown away, if there is one.
unfoldable pub discard_byte : Reader → Reader
discard_byte r = elim (left r) [ [] ↦ r | b ∷ bs ↦ skip 1 r ]

unfoldable pub aligned : ℕ → Bool
aligned i = i % 8 == 0

-- `for i := ...; i % 8 != 0; i++ { reader.ReadByte() }`, which is at most 7 rounds.
unfoldable pub discard_padding : ℕ → ℕ → Reading (Unit {0})
unfolding discard_byte aligned
discard_padding zero i r = (ok tt, r)
discard_padding (suc fuel) i r = elim (aligned i) [
  | true ↦ (ok tt, r)
  | false ↦ discard_padding fuel (suc i) (discard_byte r)
]

unfoldable pub read_comm : Reading CommRecord
unfolding uint ◌>>=◌ ◌>>◌ pure read_text discard_padding
read_comm = do
  p ← uint 4
  t ← uint 4
  text ← read_text
  discard_padding 8 (suc (length text))
  pure (record { pid = p; tid = t; comm = text })

-- A counter with its identifier, where the format has one.
unfoldable pub read_counter : ℕ → Reading CounterValue
unfolding uint ◌>>=◌ pure present has
read_counter format = do
  v ← uint 8
  i ← present (has format format_id) 0 (uint 8)
  pure (record { id = i; value = v })

-- `CounterGroup.read` in the group format: the values are read into a variable that is then dropped.
unfoldable pub read_group : ℕ → Reading CounterGroup
unfolding uint ◌>>=◌ pure present has times read_counter
read_group format = do
  nr ← uint 8
  enabled ← present (has format format_time_enabled) 0 (uint 8)
  running ← present (has format format_time_running) 0 (uint 8)
  dropped ← times nr (read_counter format)
  pure (record { time_enabled = enabled; time_running = running; values = [] })

unfoldable pub read_single : ℕ → Reading CounterGroup
unfolding uint ◌>>=◌ pure present has
read_single format = do
  v ← uint 8
  enabled ← present (has format format_time_enabled) 0 (uint 8)
  running ← present (has format format_time_running) 0 (uint 8)
  i ← present (has format format_id) 0 (uint 8)
  let value : CounterValue = record { id = i; value = v }
  pure (record { time_enabled = enabled; time_running = running; values = value ∷ [] })

unfoldable pub read_counters : ℕ → Reading CounterGroup
unfolding has read_group read_single
read_counters format = if has format format_group then read_group format else read_single format

-- Two numbers of 4 bytes that one flag stands for.
unfoldable pub read_pair : Reading (ℕ × ℕ)
unfolding uint ◌>>=◌ pure
read_pair = do a ← uint 4; b ← uint 4; pure (a, b)

-- `SampleID.read`. The identifier at the end overwrites the one before.
unfoldable pub read_sample_id : ℕ → Reading SampleId
unfolding uint ◌>>=◌ pure present has read_pair
read_sample_id t = do
  task ← present (has t sample_tid) (0, 0) read_pair
  time ← present (has t sample_time) 0 (uint 8)
  i ← present (has t sample_identity) 0 (uint 8)
  stream ← present (has t sample_stream_id) 0 (uint 8)
  cpu ← present (has t sample_cpu) (0, 0) read_pair
  identifier ← present (has t sample_identifier) i (uint 8)
  pure (record {
    pid = task.0;
    tid = task.1;
    time = time;
    id = identifier;
    stream_id = stream;
    cpu = cpu.0;
  })
