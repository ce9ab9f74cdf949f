-- ===== src/Perf/Sample.antt =====
-- `SampleID` and `Sample` of pkg/sys/perf/types.go, and `readSamples` of pkg/sys/perf/monitor.go: a
-- ring buffer's bytes are read record by record.
--
-- A sample that cannot be read comes with its error. Of a record, or of an identifier, in which the
-- reading failed midway, the model keeps nothing, where Go keeps the fields read by then.
pub mod Reads
pub mod Identifier
use capsule.Prelude.{
  ℕ, zero, suc, ◌+◌, ◌-◌, ◌%◌, ◌^◌, List, [], ◌∷◌, Bool, true, false, ◌&&◌, ltb, ◌==◌,
  if◌then◌else◌, length, take, Option, none, some,
}
use capsule.Prelude.Outcome.{Outcome, ok, err, panic}
use capsule.Prelude.Maps.{number_key, GoMap, lookup, insert}
use capsule.Perf.Attr.{EventAttr, has}
use capsule.Perf.Reader.{ReadError, Reader, Reading, left, skip, ◌>>=◌, pure, or_keep, uint}
use capsule.Perf.Record.{
  EventHeader, CommRecord, TaskRecord, LostRecord, SampleId, sample_tid, sample_time,
  sample_identity, sample_cpu, sample_stream_id, sample_identifier, read_header, read_task,
  read_lost, read_comm, read_sample_id,
}
use capsule.Perf.Record.Sampled.{SampleRecord, FormatMap, number, read_sampled}

pub data Record : Type 0 where
  fork exit : TaskRecord → Record
  comm : CommRecord → Record
  lost : LostRecord → Record
  sampled : SampleRecord → Record
  unknown : List ℕ → Record

pub record Sample : Type 0 where
  pub header : EventHeader
  pub content : Option Record
  pub id : SampleId

abbrev pub no_id : SampleId
no_id = record { pid = 0; tid = 0; time = 0; id = 0; stream_id = 0; cpu = 0 }

-- The size of the identifier that a sample type asks for.
unfoldable pub id_size : ℕ → ℕ
unfolding has
id_size t =
    (if has t sample_tid then 8 else 0)
    + (if has t sample_time then 8 else 0)
    + (if has t sample_identity then 8 else 0)
    + (if has t sample_stream_id then 8 else 0)
    + (if has t sample_cpu then 8 else 0)
    + (if has t sample_identifier then 8 else 0)

-- A cached size, or else the computed one.
unfoldable pub size_or : Option ℕ → ℕ → Bool → GoMap ℕ ℕ → ℕ × GoMap ℕ ℕ
unfolding id_size insert
size_or (some (suc n)) t all sizes = (suc n, sizes)
size_or _ t all sizes = let size = if all then id_size t else 0 in (size, insert t size sizes)

-- `SampleID.getSize`, with the cache of the sizes by sample type.
unfoldable pub get_size : ℕ → Bool → GoMap ℕ ℕ → ℕ × GoMap ℕ ℕ
unfolding lookup size_or
get_size t all sizes = size_or (lookup t sizes) t all sizes

-- The identifier at a position: a read whose error is ignored.
unfoldable pub identifier_at : ℕ → Reader → Outcome ReadError ℕ
unfolding or_keep uint
identifier_at p r = (number 8 (record r { pos = p })).0

-- `SampleID.read` by the attributes that an identifier stands for.
unfoldable pub read_known : Outcome ReadError ℕ → FormatMap → Reading SampleId
unfolding read_sample_id has
read_known (ok i) formats r = elim (formats i) [
  | none ↦ (err (ReadError.unknown_sample_id i), r)
  | some attr ↦
      if attr.sample_id_all && has attr.sample_type sample_identifier
      then read_sample_id attr.sample_type r
      else (panic, r)
]
read_known o formats r = (panic, r)

-- `SampleID.maybeRead` after `start`, in a record of `size` bytes.
unfoldable pub maybe_read : ℕ → ℕ → Option EventAttr → FormatMap → Reading SampleId
unfolding read_sample_id identifier_at read_known
maybe_read start size (some attr) formats r =
    if attr.sample_id_all then read_sample_id attr.sample_type r else (ok no_id, r)
maybe_read start size none formats r =
    if r.pos - start == size
    then (ok no_id, r)
    else if ltb size (r.pos - start)
    then (panic, r)
    else if ltb (size - (r.pos - start)) 8
    then (panic, r)
    else read_known (identifier_at (r.pos + size - 8) r) formats r

-- What `Sample.read` leaves where an error was met: the reader goes to the record's end.
abbrev pub failed :
    ℕ → EventHeader → Option Record → ReadError → Reading (Sample × Option ReadError)
failed start h content e r = (
  ok (record { header = h; content = content; id = no_id }, some e),
  record r { pos = start + h.size },
)

-- What follows the reading of the trailing identifier.
unfoldable pub after_id :
    ℕ → EventHeader → Record → Outcome ReadError SampleId → Reading (Sample × Option ReadError)
after_id start h content (ok i) r =
    (ok (record { header = h; content = some content; id = i }, none), r)
after_id start h content (err e) r = failed start h (some content) e r
after_id start h content panic r = (panic, r)

unfoldable pub after_content :
    ℕ
    → EventHeader
    → Option EventAttr
    → FormatMap
    → Outcome ReadError Record
    → Reading (Sample × Option ReadError)
unfolding maybe_read after_id
after_content start h attr formats (ok content) r =
    after_id start h content (maybe_read start h.size attr formats r).0
      (maybe_read start h.size attr formats r).1
after_content start h attr formats (err e) r = failed start h none e r
after_content start h attr formats panic r = (panic, r)

-- A record with its trailing identifier.
unfoldable pub read_tail :
    ℕ
    → EventHeader
    → Option EventAttr
    → FormatMap
    → Reading Record
    → Reading (Sample × Option ReadError)
unfolding after_content
read_tail start h attr formats m r = after_content start h attr formats (m r).0 (m r).1

-- The identifier that a sample record carries in its fields.
abbrev pub id_of : SampleRecord → SampleId
id_of s = record {
  pid = s.pid;
  tid = s.tid;
  time = s.time;
  id = s.id;
  stream_id = s.stream_id;
  cpu = s.cpu;
}

-- A sample record, which no identifier follows.
unfoldable pub after_sampled :
    ℕ → EventHeader → Outcome ReadError SampleRecord → Reading (Sample × Option ReadError)
after_sampled start h (ok s) r =
    (ok (record { header = h; content = some (Record.sampled s); id = id_of s }, none), r)
after_sampled start h (err e) r = failed start h none e r
after_sampled start h panic r = (panic, r)

unfoldable pub read_plain :
    ℕ → EventHeader → Option EventAttr → FormatMap → Reading (Sample × Option ReadError)
unfolding read_sampled after_sampled
read_plain start h attr formats r =
    after_sampled start h (read_sampled attr formats r).0 (read_sampled attr formats r).1

-- `uint16(a - b)`
abbrev pub sub_16 : ℕ → ℕ → ℕ
sub_16 a b = (a + 2 ^ 16 - b % 2 ^ 16) % 2 ^ 16

-- The bytes of a record of a type that is not known.
unfoldable pub read_bytes : ℕ → EventHeader → ℕ → Reading (Sample × Option ReadError)
read_bytes start h n r = elim (left r) [
  | [] ↦ failed start h none ReadError.eof r
  | b ∷ bs ↦ if ltb (length (b ∷ bs)) n then failed start h none ReadError.short_read r else (
    ok (record { header = h; content = some (Record.unknown (take n (b ∷ bs))); id = no_id }, none),
    skip n r,
  )
]

unfoldable pub read_unknown :
    ℕ → EventHeader → Option EventAttr → Reading (Sample × Option ReadError)
unfolding get_size read_bytes
read_unknown start h none r = read_bytes start h (sub_16 h.size 8) r
read_unknown start h (some attr) r =
    let (size, sizes) = get_size attr.sample_type attr.sample_id_all r.sizes in
    read_bytes start h (sub_16 (sub_16 h.size 8) size) (record r { sizes = sizes })

-- `x == k` on a record's type
unfoldable pub is_type : ℕ → ℕ → Bool
is_type x k = x == k

unfoldable pub read_content :
    ℕ → EventHeader → Option EventAttr → FormatMap → Reading (Sample × Option ReadError)
unfolding is_type read_tail read_plain read_unknown read_task read_comm read_lost ◌>>=◌ pure
read_content start h attr formats =
    if is_type h.type 7
    then read_tail start h attr formats (do t ← read_task; pure (Record.fork t))
    else if is_type h.type 4
    then read_tail start h attr formats (do t ← read_task; pure (Record.exit t))
    else if is_type h.type 3
    then read_tail start h attr formats (do c ← read_comm; pure (Record.comm c))
    else if is_type h.type 9
    then read_plain start h attr formats
    else if is_type h.type 2
    then read_tail start h attr formats (do l ← read_lost; pure (Record.lost l))
    else read_unknown start h attr

unfoldable pub after_header :
    ℕ
    → Option EventAttr
    → FormatMap
    → Outcome ReadError EventHeader
    → Reading (Sample × Option ReadError)
unfolding read_content
after_header start attr formats (ok h) r = read_content start h attr formats r
after_header start attr formats (err e) r = (panic, r)
after_header start attr formats panic r = (panic, r)

unfoldable pub read_sample : Option EventAttr → FormatMap → Reading (Sample × Option ReadError)
unfolding read_header after_header
read_sample attr formats r = after_header r.pos attr formats (read_header r).0 (read_header r).1

-- `reader.Len() == 0`
unfoldable pub is_done : Reader → Bool
is_done r = elim (left r) [ [] ↦ true | b ∷ bs ↦ false ]

-- One more sample before those that follow, unless the fuel ran out on them.
abbrev pub add :
    Sample × Option ReadError
    → Option (List (Sample × Option ReadError))
    → Option (List (Sample × Option ReadError))
add s none = none
add s (some rest) = some (s ∷ rest)

-- `for reader.Len() > 0 { ...; samples = append(samples, ds) }`, on fuel.
unfoldable pub read_samples : ℕ → FormatMap → Reading (Option (List (Sample × Option ReadError)))
unfolding read_sample ◌>>=◌ pure is_done
read_samples zero formats r = (ok none, r)
read_samples (suc fuel) formats r = elim (is_done r) [
  | true ↦ (ok (some []), r)
  | false ↦ (do s ← read_sample none formats; rest ← read_samples fuel formats; pure (add s rest)) r
]
