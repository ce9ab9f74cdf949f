-- ===== src/Perf/Reader.antt =====
-- `bytes.Reader` and `encoding/binary` as pkg/sys/perf/types.go uses them: actions that read from a
-- position of a buffer, and that may fail or panic. The position outlives a failure.
pub mod Reads
use capsule.Prelude.{
  ℕ, zero, suc, ◌+◌, ◌-◌, ◌*◌, ◌^◌, List, [], ◌∷◌, Bool, true, false, ltb, leb, ◌==◌, if◌then◌else◌,
  length, take, drop,
}
use capsule.Prelude.Maps.{GoMap}
use capsule.Prelude.Outcome.{Outcome, ok, err, panic}

-- The errors of reading, with those of types.go.
pub data ReadError : Type 0 where
  eof unexpected_eof short_read : ReadError
  unknown_sample_id : ℕ → ReadError

-- A reader, beside the one global of types.go: the cache of the sizes of sample identifiers.
pub record Reader : Type 0 where
  pub data_bytes : List ℕ
  pub pos : ℕ
  pub sizes : GoMap ℕ ℕ

-- What is left to read; past the end there is nothing.
abbrev pub left : Reader → List ℕ
left r = drop r.pos r.data_bytes

abbrev pub skip : ℕ → Reader → Reader
skip n r = record r { pos = r.pos + n }

abbrev pub Reading : Type 0 → Type 0
Reading A = Reader → Outcome ReadError A × Reader

module _ {A B : Type 0} where
  unfoldable pub next_of : Outcome ReadError A → (A → Reading B) → Reading B
  next_of (ok a) f r = f a r
  next_of (err e) f r = (err e, r)
  next_of panic f r = (panic, r)

  infixl 1 ◌>>=◌ ◌>>◌
  unfoldable pub ◌>>=◌ : Reading A → (A → Reading B) → Reading B
  unfolding next_of
  ◌>>=◌ m f r = next_of (m r).0 f (m r).1

  unfoldable pub ◌>>◌ : Reading A → Reading B → Reading B
  unfolding ◌>>=◌
  m >> k = m >>= λ _. k

module _ {A : Type 0} where
  unfoldable pub pure : A → Reading A
  pure a r = (ok a, r)

  unfoldable pub fail : ReadError → Reading A
  fail e r = (err e, r)

  unfoldable pub crash : Reading A
  crash r = (panic, r)

  unfoldable pub kept : A → Outcome ReadError A → Outcome ReadError A
  kept d (ok a) = ok a
  kept d (err e) = ok d
  kept d panic = panic

  -- A read whose error is ignored: the variable keeps its value.
  unfoldable pub or_keep : A → Reading A → Reading A
  unfolding kept
  or_keep d m r = (kept d (m r).0, (m r).1)

  -- A part of the format that is there only with its flag.
  unfoldable pub present : Bool → A → Reading A → Reading A
  unfolding pure
  present true d m = m
  present false d m = pure d

-- `for i := 0; i < n; i++ { ...; list = append(list, x) }`
unfoldable pub times : {A : Type 0} → ℕ → Reading A → Reading (List A)
unfolding pure ◌>>=◌
times zero m = pure []
times (suc n) m = do x ← m; xs ← times n m; pure (x ∷ xs)

-- `io.ReadFull` of `n` bytes, under `binary.Read`.
unfoldable pub full : ℕ → Reading (List ℕ)
full zero r = (ok [], r)
full (suc n) r =
    if length (left r) == 0
    then (err ReadError.eof, r)
    else if ltb (length (left r)) (suc n)
    then (err ReadError.unexpected_eof, record r { pos = length r.data_bytes })
    else (ok (take (suc n) (left r)), skip (suc n) r)

-- The number of some bytes, the lowest first.
unfoldable pub le_value : List ℕ → ℕ
le_value [] = 0
le_value (b ∷ bs) = b + 2 ^ 8 * le_value bs

-- `binary.Read(reader, binary.LittleEndian, &x)` of an unsigned number of so many bytes.
unfoldable pub uint : ℕ → Reading ℕ
unfolding ◌>>=◌ pure full le_value
uint count = do bytes ← full count; pure (le_value bytes)

-- `binary.Read` of a struct of `n` bytes: all of them are there, or nothing is assigned.
unfoldable pub whole : {A : Type 0} → ℕ → Reading A → Reading A
unfolding full
whole n m r = elim (full n r).0 [
  | ok bytes ↦ m r
  | err e ↦ (err e, (full n r).1)
  | panic ↦ (panic, r)
]

-- `reader.Seek(pos, os.SEEK_SET)`
unfoldable pub seek : ℕ → Reading (Unit {0})
seek p r = (ok tt, record r { pos = p })

-- `reader.Seek(0, os.SEEK_CUR)`
unfoldable pub position : Reading ℕ
position r = (ok r.pos, r)
