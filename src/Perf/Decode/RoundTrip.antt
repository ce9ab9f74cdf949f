-- ===== src/Perf/Decode/RoundTrip.antt =====
-- `decodeDataType` reads the bytes that the kernel writes of a number.
use capsule.Prelude.{
  ℕ, zero, suc, ◌+◌, ◌-◌, ◌*◌, ◌/◌, ◌%◌, ◌^◌, ◌<◌, List, [], ◌∷◌, ◌++◌, ◌≡◌, refl, arith, ap,
}
use capsule.Prelude.Int.{ℤ, pos, negsuc}
use capsule.Prelude.Outcome.{ok, ◌>>=◌}
use capsule.Perf.TraceField.{DataType}
use capsule.Perf.Decode.{Number, little_endian, signed, decode_data_type}

-- The bytes of a number in a record, the lowest first.
unfoldable pub bytes_of : ℕ → ℕ → List ℕ
bytes_of zero n = []
bytes_of (suc count) n = (n % 2 ^ 8) ∷ bytes_of count (n / 2 ^ 8)

abbrev pub bound : ℕ → ℕ
bound zero = 1
bound (suc count) = 2 ^ 8 * bound count

little_endian-bytes_of :
    (count n : ℕ) (rest : List ℕ)
    → n < bound count
    → little_endian count (bytes_of count n ++ rest) ≡ ok n
unfolding little_endian bytes_of
little_endian-bytes_of zero n rest l = ap ok (omega arith)
little_endian-bytes_of (suc count) n rest l =
    rw (little_endian-bytes_of count (n / 2 ^ 8) rest (omega arith)) (ap ok (omega arith))

-- The two's complement pattern of an integer, whose sign bit counts `half`.
unfoldable pub pattern_of : ℕ → ℤ → ℕ
pattern_of half (pos n) = n
pattern_of half (negsuc n) = half + half - 1 - n

abbrev pub Within : ℕ → ℤ → Type 0
Within half (pos n) = n < half
Within half (negsuc n) = n < half

signed-pattern_of : (half : ℕ) (z : ℤ) → Within half z → signed half (pattern_of half z) ≡ z
unfolding signed pattern_of
signed-pattern_of half (pos n) l = ground arith
signed-pattern_of half (negsuc n) l = ground arith

pattern_below : (half : ℕ) (z : ℤ) → Within half z → pattern_of half z < half + half
unfolding pattern_of
pattern_below half (pos n) l = omega arith
pattern_below half (negsuc n) l = omega arith

read_unsigned :
    (count n : ℕ) (rest : List ℕ) (make : ℕ → Number)
    → n < bound count
    → (little_endian count (bytes_of count n ++ rest) >>= λ m. ok (make m)) ≡ ok (make n)
read_unsigned count n rest make l = rw (little_endian-bytes_of count n rest l)

read_signed :
    (count half : ℕ) (z : ℤ) (rest : List ℕ) (make : ℤ → Number)
    → half + half ≡ bound count
    → Within half z
    → (little_endian count (bytes_of count (pattern_of half z) ++ rest) >>= λ m.
        ok (make (signed half m)))
      ≡ ok (make z)
read_signed count half z rest make e l = rw (
  little_endian-bytes_of count (pattern_of half z) rest (omega (arith, pattern_below half z l)),
  signed-pattern_of half z l,
)

-- The data type of a number, its bytes, and its range.
abbrev pub type_of : Number → DataType
type_of (Number.int8 z) = DataType.dt_s8
type_of (Number.int16 z) = DataType.dt_s16
type_of (Number.int32 z) = DataType.dt_s32
type_of (Number.int64 z) = DataType.dt_s64
type_of (Number.uint8 n) = DataType.dt_u8
type_of (Number.uint16 n) = DataType.dt_u16
type_of (Number.uint32 n) = DataType.dt_u32
type_of (Number.uint64 n) = DataType.dt_u64

unfoldable pub encode : Number → List ℕ
unfolding bytes_of pattern_of
encode (Number.int8 z) = bytes_of 1 (pattern_of (2 ^ 7) z)
encode (Number.int16 z) = bytes_of 2 (pattern_of (2 ^ 15) z)
encode (Number.int32 z) = bytes_of 4 (pattern_of (2 ^ 31) z)
encode (Number.int64 z) = bytes_of 8 (pattern_of (2 ^ 63) z)
encode (Number.uint8 n) = bytes_of 1 n
encode (Number.uint16 n) = bytes_of 2 n
encode (Number.uint32 n) = bytes_of 4 n
encode (Number.uint64 n) = bytes_of 8 n

abbrev pub Ranged : Number → Type 0
Ranged (Number.int8 z) = Within (2 ^ 7) z
Ranged (Number.int16 z) = Within (2 ^ 15) z
Ranged (Number.int32 z) = Within (2 ^ 31) z
Ranged (Number.int64 z) = Within (2 ^ 63) z
Ranged (Number.uint8 n) = n < 2 ^ 8
Ranged (Number.uint16 n) = n < 2 ^ 16
Ranged (Number.uint32 n) = n < 2 ^ 32
Ranged (Number.uint64 n) = n < 2 ^ 64

-- A number in the range of its type, written in as many bytes as its type is wide, is read back from
-- those bytes, whatever follows them.
pub decode_data_type-encode :
    (x : Number) (rest : List ℕ) → Ranged x → decode_data_type (type_of x) (encode x ++ rest) ≡ ok x
unfolding decode_data_type encode
decode_data_type-encode (Number.int8 z) rest l = read_signed 1 (2 ^ 7) z rest Number.int8 refl l
decode_data_type-encode (Number.int16 z) rest l = read_signed 2 (2 ^ 15) z rest Number.int16 refl l
decode_data_type-encode (Number.int32 z) rest l = read_signed 4 (2 ^ 31) z rest Number.int32 refl l
decode_data_type-encode (Number.int64 z) rest l = read_signed 8 (2 ^ 63) z rest Number.int64 refl l
decode_data_type-encode (Number.uint8 n) rest l = read_unsigned 1 n rest Number.uint8 l
decode_data_type-encode (Number.uint16 n) rest l = read_unsigned 2 n rest Number.uint16 l
decode_data_type-encode (Number.uint32 n) rest l = read_unsigned 4 n rest Number.uint32 l
decode_data_type-encode (Number.uint64 n) rest l = read_unsigned 8 n rest Number.uint64 l
