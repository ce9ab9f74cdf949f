-- ===== src/Perf/Record/Reads.antt =====
-- The records of pkg/sys/perf/types.go are read from the bytes that the kernel lays them out in.
use mathlib.Core.List.{append_assoc}
use capsule.Prelude.{
  ℕ, zero, suc, ◌+◌, ◌%◌, ◌<◌, ◌≤◌, List, [], ◌∷◌, ◌++◌, Bool, true, false, if◌then◌else◌, length,
  length-append, ◌≡◌, ◌≢◌, ◌⊎◌, refl, ap, ◌∙◌, arith, Bool-cases, inl, inr, some,
}
use capsule.Prelude.Outcome.{ok}
use capsule.Perf.Decode.RoundTrip.{bytes_of, bound}
use capsule.Perf.Reader.{Reader, left, skip, pure}
use capsule.Perf.Reader.Reads.{
  Reads, pure-Reads, present-Reads, maybe-Reads, >>=-Reads, finish, uint-Reads, whole-Reads,
  length-bytes_of, left-skip,
}
use capsule.Perf.Attr.{has}
use capsule.Perf.Record.{
  EventHeader, CommRecord, TaskRecord, LostRecord, SampleId, sample_tid, sample_time,
  sample_identity, sample_cpu, sample_stream_id, sample_identifier, read_header, read_task,
  read_lost, text_of, read_text, discard_byte, discard_padding, aligned, read_comm, read_pair,
  read_sample_id,
}

unfoldable pub encode_header : EventHeader → List ℕ
encode_header h = bytes_of 4 h.type ++ (bytes_of 2 h.misc ++ bytes_of 2 h.size)

pub record HeaderFits (h : EventHeader) : Type 0 where
  pub type : h.type < bound 4
  pub misc : h.misc < bound 2
  pub size : h.size < bound 2

pub length-encode_header : (h : EventHeader) → length (encode_header h) ≡ 8
unfolding encode_header
length-encode_header h = simp (length-append, length-bytes_of)

pub header-Reads : (h : EventHeader) → HeaderFits h → Reads read_header (encode_header h) h
unfolding read_header encode_header
header-Reads h f = whole-Reads 8 (length-encode_header h) (
    >>=-Reads _ (uint-Reads 4 h.type f.type)
      (>>=-Reads _ (uint-Reads 2 h.misc f.misc) (finish _ (uint-Reads 2 h.size f.size))))

unfoldable pub encode_task : TaskRecord → List ℕ
encode_task t =
    bytes_of 4 t.pid
    ++ (bytes_of 4 t.ppid ++ (bytes_of 4 t.tid ++ (bytes_of 4 t.ptid ++ bytes_of 8 t.time)))

pub record TaskFits (t : TaskRecord) : Type 0 where
  pub pid : t.pid < bound 4
  pub ppid : t.ppid < bound 4
  pub tid : t.tid < bound 4
  pub ptid : t.ptid < bound 4
  pub time : t.time < bound 8

pub length-encode_task : (t : TaskRecord) → length (encode_task t) ≡ 24
unfolding encode_task
length-encode_task t = simp (length-append, length-bytes_of)

pub task-Reads : (t : TaskRecord) → TaskFits t → Reads read_task (encode_task t) t
unfolding read_task encode_task
task-Reads t f = whole-Reads 24 (length-encode_task t) (
    >>=-Reads _ (uint-Reads 4 t.pid f.pid) (
      >>=-Reads _ (uint-Reads 4 t.ppid f.ppid) (
        >>=-Reads _ (uint-Reads 4 t.tid f.tid)
          (>>=-Reads _ (uint-Reads 4 t.ptid f.ptid) (finish _ (uint-Reads 8 t.time f.time))))))

unfoldable pub encode_lost : LostRecord → List ℕ
encode_lost l = bytes_of 8 l.id ++ bytes_of 8 l.lost

pub record LostFits (l : LostRecord) : Type 0 where
  pub id : l.id < bound 8
  pub lost : l.lost < bound 8

pub length-encode_lost : (l : LostRecord) → length (encode_lost l) ≡ 16
unfolding encode_lost
length-encode_lost l = simp (length-append, length-bytes_of)

pub lost-Reads : (l : LostRecord) → LostFits l → Reads read_lost (encode_lost l) l
unfolding read_lost encode_lost
lost-Reads l f =
    whole-Reads 16 (length-encode_lost l)
      (>>=-Reads _ (uint-Reads 8 l.id f.id) (finish _ (uint-Reads 8 l.lost f.lost)))

-- A text has no NUL.
abbrev pub Text : List ℕ → Type 0
Text [] = Unit
Text (b ∷ bs) = (b ≢ 0) × Text bs

text_of-append : (t rest : List ℕ) → Text t → text_of (t ++ (0 ∷ rest)) ≡ some t
unfolding text_of
text_of-append [] rest h = refl
text_of-append (zero ∷ t) rest (h, hs) = absurd (h refl)
text_of-append (suc b ∷ t) rest (h, hs) = rw (text_of-append t rest hs)

read_text-Reads : (t : List ℕ) → Text t → Reads read_text (t ++ (0 ∷ [])) t
unfolding read_text
read_text-Reads t h = record {
  runs = λ r rest e.
      rw (read_text, e ∙ append_assoc t (0 ∷ []) rest, text_of-append t rest h)
        (ap (λ n. (ok t, skip n r)) (omega (arith, length-append t (0 ∷ []))));
}

-- The NULs that fill the text to a multiple of 8.
unfoldable pub padding : ℕ → ℕ → List ℕ
padding zero i = []
padding (suc fuel) i = elim (aligned i) [ true ↦ [] | false ↦ 0 ∷ padding fuel (suc i) ]

aligned_at : (i : ℕ) → aligned i ≡ true → i % 8 ≡ 0
unfolding aligned
aligned_at i e = ground arith

not_aligned :
    (fuel i : ℕ)
    → aligned i ≡ false
    → (i % 8 ≡ 0) ⊎ (8 ≤ suc fuel + i % 8)
    → (suc i % 8 ≡ 0) ⊎ (8 ≤ fuel + suc i % 8)
unfolding aligned
not_aligned fuel i e h = ground arith

-- 8 rounds reach the boundary.
pub padding_aligns :
    (fuel i : ℕ) → (i % 8 ≡ 0) ⊎ (8 ≤ fuel + i % 8) → (i + length (padding fuel i)) % 8 ≡ 0
unfolding padding
padding_aligns zero i h = omega arith
padding_aligns (suc fuel) i h = elim (Bool-cases (aligned i)) [
  | inl e ↦ rw (padding, e) (omega (arith, aligned_at i e))
  | inr e ↦
      let next : (suc i + length (padding fuel (suc i))) % 8 ≡ 0 =
        padding_aligns fuel (suc i) (not_aligned fuel i e h) in
      rw (padding, e) (omega arith)
]

left-discard_byte : (r : Reader) (b : ℕ) (bs : List ℕ) → left r ≡ b ∷ bs → discard_byte r ≡ skip 1 r
unfolding discard_byte
left-discard_byte r b bs e = rw (discard_byte, e)

pure_unit : Reads (λ r. (ok tt, r)) [] tt
unfolding pure
pure_unit = pure-Reads tt

padding-Reads : (fuel i : ℕ) → Reads (discard_padding fuel i) (padding fuel i) tt
unfolding discard_padding padding
padding-Reads zero i = pure_unit
padding-Reads (suc fuel) i = elim (Bool-cases (aligned i)) [
  | inl e ↦ rw (discard_padding, padding, e) pure_unit
  | inr e ↦
      rw (discard_padding, padding, e)
        (record {
          runs = λ r rest h. rw (left-discard_byte r 0 (padding fuel (suc i) ++ rest) h) (
              (padding-Reads fuel (suc i)).runs (skip 1 r) rest
                (left-skip r (0 ∷ []) (padding fuel (suc i) ++ rest) h)
              ∙ ap (λ p. (ok tt, record r { pos = p })) (omega arith));
        })
]

unfoldable pub encode_comm : CommRecord → List ℕ
encode_comm c =
    bytes_of 4 c.pid
    ++ (bytes_of 4 c.tid ++ ((c.comm ++ (0 ∷ [])) ++ padding 8 (suc (length c.comm))))

pub record CommFits (c : CommRecord) : Type 0 where
  pub pid : c.pid < bound 4
  pub tid : c.tid < bound 4
  pub text : Text c.comm

-- The text of a comm record, with its NUL and its padding, fills 8-byte words.
pub length-encode_comm : (c : CommRecord) → length (encode_comm c) % 8 ≡ 0
unfolding encode_comm
length-encode_comm c =
    simp (length-append, length-bytes_of)
      (omega (arith, padding_aligns 8 (suc (length c.comm)) (inr (omega arith))))

pub comm-Reads : (c : CommRecord) → CommFits c → Reads read_comm (encode_comm c) c
unfolding read_comm encode_comm
comm-Reads c f = >>=-Reads _ (uint-Reads 4 c.pid f.pid) (
    >>=-Reads _ (uint-Reads 4 c.tid f.tid) (
      >>=-Reads _ (read_text-Reads c.comm f.text)
        (finish _ (padding-Reads 8 (suc (length c.comm))))))

-- The bytes of a part that is there only with its flag.
abbrev pub when : Bool → List ℕ → List ℕ
when b bs = if b then bs else []

unfoldable pub encode_sample_id : ℕ → SampleId → List ℕ
encode_sample_id t s =
    when (has t sample_tid) (bytes_of 4 s.pid ++ bytes_of 4 s.tid)
    ++ (when (has t sample_time) (bytes_of 8 s.time)
        ++ (when (has t sample_identity) (bytes_of 8 s.id)
            ++ (when (has t sample_stream_id) (bytes_of 8 s.stream_id)
                ++ (when (has t sample_cpu) (bytes_of 4 s.cpu ++ bytes_of 4 0)
                    ++ when (has t sample_identifier) (bytes_of 8 s.id)))))

-- The fields are in range, and those that the sample type leaves out are 0.
pub record SampleIdFits (t : ℕ) (s : SampleId) : Type 0 where
  pub pid : s.pid < bound 4
  pub tid : s.tid < bound 4
  pub time : s.time < bound 8
  pub id : s.id < bound 8
  pub stream_id : s.stream_id < bound 8
  pub cpu : s.cpu < bound 4
  pub no_tid : has t sample_tid ≡ false → (s.pid ≡ 0) × (s.tid ≡ 0)
  pub no_time : has t sample_time ≡ false → s.time ≡ 0
  pub no_stream_id : has t sample_stream_id ≡ false → s.stream_id ≡ 0
  pub no_cpu : has t sample_cpu ≡ false → s.cpu ≡ 0
  pub no_id : has t sample_identity ≡ false → has t sample_identifier ≡ false → s.id ≡ 0

pair-Reads :
    (a b : ℕ) → a < bound 4 → b < bound 4 → Reads read_pair (bytes_of 4 a ++ bytes_of 4 b) (a, b)
unfolding read_pair
pair-Reads a b l m = >>=-Reads _ (uint-Reads 4 a l) (finish _ (uint-Reads 4 b m))

pub sample_id-Reads :
    (t : ℕ) (s : SampleId) → SampleIdFits t s → Reads (read_sample_id t) (encode_sample_id t s) s
unfolding read_sample_id encode_sample_id
sample_id-Reads t s f =
    >>=-Reads _
      (present-Reads (has t sample_tid) (0, 0) (pair-Reads s.pid s.tid f.pid f.tid)
        (λ e. both s.pid s.tid (f.no_tid e)))
      (>>=-Reads _ (present-Reads (has t sample_time) 0 (uint-Reads 8 s.time f.time) f.no_time) (
        >>=-Reads _ (maybe-Reads (has t sample_identity) 0 (uint-Reads 8 s.id f.id)) (
          >>=-Reads _
            (present-Reads (has t sample_stream_id) 0 (uint-Reads 8 s.stream_id f.stream_id)
              f.no_stream_id)
            (>>=-Reads _
              (present-Reads (has t sample_cpu) (0, 0) (pair-Reads s.cpu 0 f.cpu (omega arith))
                (λ e. both s.cpu 0 (f.no_cpu e, refl)))
              (finish _
                (present-Reads (has t sample_identifier) _ (uint-Reads 8 s.id f.id) id_kept))))))
  where
    both : (a b : ℕ) → (a ≡ 0) × (b ≡ 0) → ◌≡◌ {A = ℕ × ℕ} (a, b) (0, 0)
    both a b (h, i) = rw (h, i)

    id_kept : has t sample_identifier ≡ false → s.id ≡ (if has t sample_identity then s.id else 0)
    id_kept e = elim (Bool-cases (has t sample_identity)) [
      | inl g ↦ rw g
      | inr g ↦ rw g (f.no_id g e)
    ]
