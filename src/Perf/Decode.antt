-- ===== src/Perf/Decode.antt =====
-- `decodeDataType` of pkg/sys/perf/decoder.go, and `encoding/binary`'s little-endian numbers.
pub mod RoundTrip
use capsule.Prelude.{ℕ, zero, suc, ◌+◌, ◌-◌, ◌*◌, ◌^◌, List, [], ◌∷◌, ltb, if◌then◌else◌}
use capsule.Prelude.Int.{ℤ, pos, negsuc}
use capsule.Prelude.Outcome.{Outcome, ok, err, panic, ◌>>=◌}
use capsule.Perf.TraceField.{DataType}

pub data DecodeError : Type 0 where
  unexpected_string : DecodeError

-- The values that Go returns as an `interface{}`.
pub data Number : Type 0 where
  int8 int16 int32 int64 : ℤ → Number
  uint8 uint16 uint32 uint64 : ℕ → Number

-- The number in the first `count` bytes, the lowest first; too few bytes panic.
unfoldable pub little_endian : ℕ → List ℕ → Outcome DecodeError ℕ
little_endian zero bytes = ok 0
little_endian (suc count) [] = panic
little_endian (suc count) (b ∷ bytes) = do high ← little_endian count bytes; ok (b + 2 ^ 8 * high)

-- `int16(n)` and its like: the integer of a pattern whose sign bit counts `half`.
unfoldable pub signed : ℕ → ℕ → ℤ
signed half n = if ltb n half then pos n else negsuc (half + half - 1 - n)

unfoldable pub decode_data_type : DataType → List ℕ → Outcome DecodeError Number
unfolding little_endian signed
decode_data_type DataType.dt_string bytes = err unexpected_string
decode_data_type DataType.dt_s8 bytes = do
  n ← little_endian 1 bytes
  ok (Number.int8 (signed (2 ^ 7) n))
decode_data_type DataType.dt_s16 bytes = do
  n ← little_endian 2 bytes
  ok (Number.int16 (signed (2 ^ 15) n))
decode_data_type DataType.dt_s32 bytes = do
  n ← little_endian 4 bytes
  ok (Number.int32 (signed (2 ^ 31) n))
decode_data_type DataType.dt_s64 bytes = do
  n ← little_endian 8 bytes
  ok (Number.int64 (signed (2 ^ 63) n))
decode_data_type DataType.dt_u8 bytes = do n ← little_endian 1 bytes; ok (Number.uint8 n)
decode_data_type DataType.dt_u16 bytes = do n ← little_endian 2 bytes; ok (Number.uint16 n)
decode_data_type DataType.dt_u32 bytes = do n ← little_endian 4 bytes; ok (Number.uint32 n)
decode_data_type DataType.dt_u64 bytes = do n ← little_endian 8 bytes; ok (Number.uint64 n)
