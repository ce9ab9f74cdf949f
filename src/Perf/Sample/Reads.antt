-- ===== src/Perf/Sample/Reads.antt =====
-- `Sample.read` of pkg/sys/perf/types.go and `readSamples` of monitor.go read back what the kernel
-- lays out in a ring buffer.
use mathlib.Core.List.{append_assoc}
use capsule.Prelude.{
  ℕ, zero, suc, ◌<◌, List, [], ◌∷◌, ◌++◌, true, false, length, length-append, ◌≡◌, ◌≢◌, refl, ap,
  ◌∙◌, arith, Option, none, some, inl, inr, Bool-cases,
}
use capsule.Prelude.Outcome.{ok}
use capsule.Perf.Decode.RoundTrip.{bytes_of}
use capsule.Perf.Attr.{EventAttr}
use capsule.Perf.Reader.{ReadError, Reader, Reading, left, skip, ◌>>=◌, next_of, pure}
use capsule.Perf.Reader.Reads.{Reads, finish, pure-Reads, left-skip}
use capsule.Perf.Record.{EventHeader, SampleId}
use capsule.Perf.Record.Reads.{
  encode_header, HeaderFits, header-Reads, encode_task, TaskFits, task-Reads, encode_lost, LostFits,
  lost-Reads, encode_comm, CommFits, comm-Reads, encode_sample_id, SampleIdFits, sample_id-Reads,
  when,
}
use capsule.Perf.Record.Sampled.{FormatMap, SampleRecord, read_sampled}
use capsule.Perf.Record.Sampled.Reads.{encode_sampled, SampleFits, Known, sampled-Reads}
use capsule.Perf.Sample.{
  Record, Sample, no_id, id_of, maybe_read, read_tail, read_plain, is_type, read_content,
  read_sample, read_samples, is_done, after_content, after_id, after_sampled, after_header,
}

-- The identifier that follows a record of an event with these attributes.
unfoldable pub encode_tail : EventAttr → SampleId → List ℕ
encode_tail attr i = when attr.sample_id_all (encode_sample_id attr.sample_type i)

unfoldable pub TailFits : EventAttr → SampleId → Type 0
TailFits attr i =
    (attr.sample_id_all ≡ true → SampleIdFits attr.sample_type i)
    × (attr.sample_id_all ≡ false → i ≡ no_id)

maybe-Reads :
    (start size : ℕ) (attr : EventAttr) (formats : FormatMap) (i : SampleId)
    → TailFits attr i
    → Reads (maybe_read start size (some attr) formats) (encode_tail attr i) i
unfolding maybe_read encode_tail TailFits
maybe-Reads start size attr formats i (f, z) = elim (Bool-cases attr.sample_id_all) [
  | inl e ↦ rw e (sample_id-Reads attr.sample_type i (f e))
  | inr e ↦ rw (e, z e) (record { runs = λ r rest h. (pure-Reads no_id).runs r rest h })
]

tail-Reads :
    (start : ℕ) (h : EventHeader) (attr : EventAttr) (formats : FormatMap) (m : Reading Record)
    (bs : List ℕ) (c : Record) (i : SampleId)
    → Reads m bs c
    → TailFits attr i
    → Reads
        (read_tail start h (some attr) formats m)
        (bs ++ encode_tail attr i)
        (record { header = h; content = some c; id = i }, none)
unfolding read_tail after_content after_id
tail-Reads start h attr formats m bs c i f t = record {
  runs = λ r rest e.
      let e' : left r ≡ bs ++ (encode_tail attr i ++ rest) =
        e ∙ append_assoc bs (encode_tail attr i) rest in
      let s =
        (maybe-Reads start h.size attr formats i t).runs (skip (length bs) r) rest
          (left-skip r bs (encode_tail attr i ++ rest) e') in
      rw (f.runs r (encode_tail attr i ++ rest) e') (
        rw s (
          ap
            (λ p.
              (ok (record { header = h; content = some c; id = i }, none), record r { pos = p }))
            (omega (arith, length-append bs (encode_tail attr i)))));
}

plain-Reads :
    (start : ℕ) (h : EventHeader) (given : Option EventAttr) (formats : FormatMap)
    (s : SampleRecord) (bs : List ℕ)
    → Reads (read_sampled given formats) bs s
    → Reads
        (read_plain start h given formats)
        bs
        (record { header = h; content = some (Record.sampled s); id = id_of s }, none)
unfolding read_plain after_sampled
plain-Reads start h given formats s bs f = record { runs = λ r rest e. rw (f.runs r rest e) }

-- The bytes of a record.
unfoldable pub encode_record : EventAttr → Record → List ℕ
encode_record attr (Record.fork t) = encode_task t
encode_record attr (Record.exit t) = encode_task t
encode_record attr (Record.comm c) = encode_comm c
encode_record attr (Record.lost l) = encode_lost l
encode_record attr (Record.sampled s) = encode_sampled attr.sample_type attr.read_format s
encode_record attr (Record.unknown bs) = bs

-- The record is one that the header's type stands for, and its identifier is laid out behind it; a
-- sample carries its own.
unfoldable pub WellFormed :
    Option EventAttr → FormatMap → EventAttr → EventHeader → Record → SampleId → Type 0
WellFormed given formats attr h (Record.fork t) i =
    (h.type ≡ 7) × (given ≡ some attr) × TaskFits t × TailFits attr i
WellFormed given formats attr h (Record.exit t) i =
    (h.type ≡ 4) × (given ≡ some attr) × TaskFits t × TailFits attr i
WellFormed given formats attr h (Record.comm c) i =
    (h.type ≡ 3) × (given ≡ some attr) × CommFits c × TailFits attr i
WellFormed given formats attr h (Record.lost l) i =
    (h.type ≡ 2) × (given ≡ some attr) × LostFits l × TailFits attr i
WellFormed given formats attr h (Record.sampled s) i =
    (h.type ≡ 9)
    × Known given formats attr s.sample_id
    × SampleFits attr.sample_type attr.read_format s
    × (i ≡ id_of s)
WellFormed given formats attr h (Record.unknown bs) i = ⊥

-- The bytes behind the header.
unfoldable pub encode_content : EventAttr → Record → SampleId → List ℕ
encode_content attr (Record.sampled s) i = encode_record attr (Record.sampled s)
encode_content attr c i = encode_record attr c ++ encode_tail attr i

type_is : (x k : ℕ) → x ≡ k → is_type x k ≡ true
unfolding is_type
type_is x k e = ground arith

type_not : (x k j : ℕ) → x ≡ k → k ≢ j → is_type x j ≡ false
unfolding is_type
type_not x k j e d = ground arith

content-Reads :
    (start : ℕ) (h : EventHeader) (given : Option EventAttr) (formats : FormatMap)
    (attr : EventAttr) (c : Record) (i : SampleId)
    → WellFormed given formats attr h c i
    → Reads
        (read_content start h given formats)
        (encode_content attr c i)
        (record { header = h; content = some c; id = i }, none)
unfolding WellFormed read_content encode_content encode_record
content-Reads start h given formats attr (Record.fork t) i (e, g, f, z) =
    rw (type_is h.type 7 e, g)
      (tail-Reads start h attr formats _ _ _ i (finish Record.fork (task-Reads t f)) z)
content-Reads start h given formats attr (Record.exit t) i (e, g, f, z) =
    rw (type_not h.type 4 7 e (λ z. omega arith), type_is h.type 4 e, g)
      (tail-Reads start h attr formats _ _ _ i (finish Record.exit (task-Reads t f)) z)
content-Reads start h given formats attr (Record.comm c) i (e, g, f, z) =
    rw
      (
        type_not h.type 3 7 e (λ z. omega arith),
        type_not h.type 3 4 e (λ z. omega arith),
        type_is h.type 3 e,
        g,
      )
      (tail-Reads start h attr formats _ _ _ i (finish Record.comm (comm-Reads c f)) z)
content-Reads start h given formats attr (Record.lost l) i (e, g, f, z) =
    rw
      (
        type_not h.type 2 7 e (λ z. omega arith),
        type_not h.type 2 4 e (λ z. omega arith),
        type_not h.type 2 3 e (λ z. omega arith),
        type_not h.type 2 9 e (λ z. omega arith),
        type_is h.type 2 e,
        g,
      )
      (tail-Reads start h attr formats _ _ _ i (finish Record.lost (lost-Reads l f)) z)
content-Reads start h given formats attr (Record.sampled s) i (e, k, f, z) =
    rw
      (
        type_not h.type 9 7 e (λ z. omega arith),
        type_not h.type 9 4 e (λ z. omega arith),
        type_not h.type 9 3 e (λ z. omega arith),
        type_is h.type 9 e,
        z,
      )
      (plain-Reads start h given formats s _ (sampled-Reads given formats attr s k f))
content-Reads start h given formats attr (Record.unknown bs) i f = elim f [ ]

-- A record of a ring buffer with the attributes of its event.
pub record Laid : Type 0 where
  pub attr : EventAttr
  pub header : EventHeader
  pub content : Record
  pub id : SampleId

abbrev pub sample_of : Laid → Sample × Option ReadError
sample_of l = (record { header = l.header; content = some l.content; id = l.id }, none)

unfoldable pub encode : Laid → List ℕ
encode l = encode_header l.header ++ encode_content l.attr l.content l.id

sample-Reads :
    (given : Option EventAttr) (formats : FormatMap) (l : Laid)
    → HeaderFits l.header
    → WellFormed given formats l.attr l.header l.content l.id
    → Reads (read_sample given formats) (encode l) (sample_of l)
unfolding read_sample after_header encode
sample-Reads given formats l f w = record {
  runs = λ r rest e.
      let hs = encode_header l.header in
      let bs = encode_content l.attr l.content l.id in
      let e' : left r ≡ hs ++ (bs ++ rest) = e ∙ append_assoc hs bs rest in
      rw ((header-Reads l.header f).runs r (bs ++ rest) e') (
        (content-Reads r.pos l.header given formats l.attr l.content l.id w).runs
          (skip (length hs) r) rest (left-skip r hs (bs ++ rest) e')
        ∙ ap (λ p. (ok (sample_of l), record r { pos = p })) (omega (arith, length-append hs bs)));
}

-- `Sample.read` reads a record of each of the five known types back from the bytes that the kernel
-- lays it out in, its identifier included, and leaves the reader behind them: a sample record that has
-- no group of counters, no branches and no dumps by the attributes given, or by those of the identifier
-- that it begins with; the others by the attributes given.
pub read_sample-encode :
    (given : Option EventAttr) (formats : FormatMap) (l : Laid) (r : Reader) (rest : List ℕ)
    → HeaderFits l.header
    → WellFormed given formats l.attr l.header l.content l.id
    → left r ≡ encode l ++ rest
    → read_sample given formats r ≡ (ok (sample_of l), skip (length (encode l)) r)
read_sample-encode given formats l r rest f w e = (sample-Reads given formats l f w).runs r rest e

abbrev pub encode_all : List Laid → List ℕ
encode_all [] = []
encode_all (l ∷ ls) = encode l ++ encode_all ls

abbrev pub AllWellFormed : FormatMap → List Laid → Type 0
AllWellFormed formats [] = Unit
AllWellFormed formats (l ∷ ls) =
    (HeaderFits l.header × WellFormed none formats l.attr l.header l.content l.id)
    × AllWellFormed formats ls

abbrev pub samples_of : List Laid → List (Sample × Option ReadError)
samples_of [] = []
samples_of (l ∷ ls) = sample_of l ∷ samples_of ls

encode_some : (l : Laid) → (b : ℕ) × (bs : List ℕ) × (encode l ≡ b ∷ bs)
unfolding encode encode_header bytes_of
encode_some l = (_, _, refl)

done_at : (r : Reader) → left r ≡ [] → is_done r ≡ true
unfolding is_done
done_at r e = rw (is_done, e)

not_done : (r : Reader) (b : ℕ) (bs : List ℕ) → left r ≡ b ∷ bs → is_done r ≡ false
unfolding is_done
not_done r b bs e = rw (is_done, e)

-- `readSamples` returns the samples of a buffer of well-formed sample records, in order and none
-- missing; one round more than the records is enough.
pub read_samples-encode_all :
    (formats : FormatMap) (ls : List Laid) (fuel : ℕ) (r : Reader)
    → AllWellFormed formats ls
    → left r ≡ encode_all ls
    → length ls < fuel
    → (r' : Reader) × (read_samples fuel formats r ≡ (ok (some (samples_of ls)), r'))
unfolding read_samples ◌>>=◌ next_of pure
read_samples-encode_all formats ls zero r w e l = absurd (omega arith)
read_samples-encode_all formats [] (suc fuel) r w e l = (r, rw (read_samples, done_at r e))
read_samples-encode_all formats (x ∷ ls) (suc fuel) r ((f, w), ws) e l =
    let (b, bs, g) = encode_some x in
    let (r', i) =
      read_samples-encode_all formats ls fuel (skip (length (encode x)) r) ws
        (left-skip r (encode x) (encode_all ls) e) (omega arith) in
    (
      r',
      rw (
        read_samples,
        not_done r b (bs ++ encode_all ls) (e ∙ ap (λ l. l ++ encode_all ls) g),
        (sample-Reads none formats x f w).runs r (encode_all ls) e,
        i,
      ),
    )
