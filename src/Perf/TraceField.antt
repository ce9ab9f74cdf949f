-- ===== src/Perf/TraceField.antt =====
-- `TraceEventField` of pkg/sys/perf/tracepoint.go: the data type of a field of a trace event, from
-- the name of its C type and from its size and sign.
pub mod Laws
use capsule.Prelude.{
  ℕ, zero, suc, ◌+◌, ◌/◌, List, [], ◌∷◌, Bool, true, false, Option, none, some, ◌||◌, if◌then◌else◌,
  drop,
}
use capsule.Prelude.Int.{ℤ, pos, negsuc, eqb_ℤ}
use capsule.Prelude.Outcome.{Outcome, ok, panic, ◌>>=◌}
use capsule.Prelude.Bytes.{bytes_eq, has_prefix, has_suffix}
use capsule.Api.Value.{Bytes}
use capsule.Perf.TypeNames.{
  bool_names, int_names, char_names, short_names, long_names, long_long_names, s8_names, u8_names,
  s16_names, u16_names, s32_names, u32_names, s64_names, u64_names, const_prefix, struct_prefix,
  union_prefix, enum_prefix, t_suffix, pointer_suffix,
}

pub data DataType : Type 0 where
  dt_string dt_s8 dt_s16 dt_s32 dt_s64 dt_u8 dt_u16 dt_u32 dt_u64 : DataType

pub record TraceEventField : Type 0 where
  pub field_name : Bytes
  pub type_name : Bytes
  pub offset : ℤ
  pub size : ℤ
  pub is_signed : Bool
  pub data_type : DataType
  pub data_type_size : ℤ
  pub data_loc_size : ℤ
  pub array_size : ℤ

-- Go's `a / b`, which rounds to 0, and panics for b = 0.
abbrev pub minus : ℕ → ℤ
minus zero = pos 0
minus (suc n) = negsuc n

unfoldable pub quotient : ℤ → ℤ → Outcome ⊥ ℤ
quotient a (pos zero) = panic
quotient (pos a) (pos (suc b)) = ok (pos (a / suc b))
quotient (pos a) (negsuc b) = ok (minus (a / suc b))
quotient (negsuc a) (pos (suc b)) = ok (minus (suc a / suc b))
quotient (negsuc a) (negsuc b) = ok (pos (suc a / suc b))

-- The field with the signed or the unsigned type, by its sign.
unfoldable pub typed : DataType → DataType → ℤ → TraceEventField → TraceEventField
typed signed unsigned width field = record field {
  data_type = if field.is_signed then signed else unsigned;
  data_type_size = width;
}

-- A case of `switch field.dataTypeSize`.
unfoldable pub is_width : ℤ → ℕ → Bool
is_width width n = eqb_ℤ width (pos n)

-- The type of an integer of a given width; the result tells whether the field is to be skipped.
unfoldable pub type_of_width : ℤ → TraceEventField → TraceEventField × Bool
unfolding typed is_width
type_of_width width field =
    if is_width width 1
    then (typed DataType.dt_s8 DataType.dt_u8 width field, false)
    else if is_width width 2
    then (typed DataType.dt_s16 DataType.dt_u16 width field, false)
    else if is_width width 4
    then (typed DataType.dt_s32 DataType.dt_u32 width field, false)
    else if is_width width 8
    then (typed DataType.dt_s64 DataType.dt_u64 width field, false)
    else (record field { data_type_size = width }, true)

-- `arraySize == -1`
unfoldable pub unknown_size : ℤ → Bool
unknown_size array_size = eqb_ℤ array_size (negsuc 0)

unfoldable pub set_type_from_size_and_sign :
    TraceEventField → Bool → ℤ → Outcome ⊥ (TraceEventField × Bool)
unfolding quotient type_of_width unknown_size
set_type_from_size_and_sign field is_array array_size =
    if is_array
    then (if unknown_size array_size
        then ok (field, true)
        else (do width ← quotient field.size array_size; ok (type_of_width width field)))
    else ok (type_of_width field.size field)

-- A field that would be skipped gets the type that is assumed for its name.
unfoldable pub or_assume : DataType → DataType → ℤ → TraceEventField × Bool → TraceEventField × Bool
unfolding typed
or_assume signed unsigned width (field, true) = (typed signed unsigned width field, false)
or_assume signed unsigned width (field, false) = (field, false)

-- `switch s { case ... }`
unfoldable pub one_of : Bytes → List Bytes → Bool
unfolding bytes_eq
one_of s [] = false
one_of s (name ∷ names) = bytes_eq s name || one_of s names

unfoldable pub strip_const : Bytes → Bytes
unfolding has_prefix
strip_const s = if has_prefix s const_prefix then drop 6 s else s

abbrev fixed : TraceEventField → DataType → ℤ → Outcome ⊥ (TraceEventField × Bool)
fixed field t width = ok (record field { data_type = t; data_type_size = width }, false)

-- The names that no case lists.
unfoldable pub parse_other : TraceEventField → Bytes → Bool → ℤ → Outcome ⊥ (TraceEventField × Bool)
unfolding set_type_from_size_and_sign has_prefix has_suffix
parse_other field s is_array array_size =
    if has_suffix s t_suffix
    then set_type_from_size_and_sign field is_array array_size
    else if has_suffix s pointer_suffix
    then set_type_from_size_and_sign field is_array array_size
    else if has_prefix s struct_prefix
    then ok (field, true)
    else if has_prefix s union_prefix
    then ok (field, true)
    else if has_prefix s enum_prefix
    then set_type_from_size_and_sign field is_array array_size
    else set_type_from_size_and_sign field is_array array_size

unfoldable pub parse_stripped :
    TraceEventField → Bytes → Bool → ℤ → Outcome ⊥ (TraceEventField × Bool)
unfolding set_type_from_size_and_sign or_assume one_of typed parse_other
parse_stripped field s is_array array_size =
    if one_of s bool_names
    then set_type_from_size_and_sign field is_array array_size
    else if one_of s int_names
    then (do
      r ← set_type_from_size_and_sign field is_array array_size
      ok (or_assume DataType.dt_s32 DataType.dt_u32 (pos 4) r))
    else if one_of s char_names
    then ok (typed DataType.dt_s8 DataType.dt_u8 (pos 1) field, false)
    else if one_of s short_names
    then ok (typed DataType.dt_s16 DataType.dt_u16 (pos 2) field, false)
    else if one_of s long_names
    then (do
      r ← set_type_from_size_and_sign field is_array array_size
      ok (or_assume DataType.dt_s64 DataType.dt_u64 (pos 8) r))
    else if one_of s long_long_names
    then ok (typed DataType.dt_s64 DataType.dt_u64 (pos 8) field, false)
    else if one_of s s8_names
    then fixed field DataType.dt_s8 (pos 1)
    else if one_of s u8_names
    then fixed field DataType.dt_s16 (pos 1)
    else if one_of s s16_names
    then fixed field DataType.dt_s16 (pos 2)
    else if one_of s u16_names
    then fixed field DataType.dt_u16 (pos 2)
    else if one_of s s32_names
    then fixed field DataType.dt_s32 (pos 4)
    else if one_of s u32_names
    then fixed field DataType.dt_u32 (pos 4)
    else if one_of s s64_names
    then fixed field DataType.dt_s64 (pos 8)
    else if one_of s u64_names
    then fixed field DataType.dt_u64 (pos 8)
    else parse_other field s is_array array_size

unfoldable pub parse_type_name :
    TraceEventField → Bytes → Bool → ℤ → Outcome ⊥ (TraceEventField × Bool)
unfolding parse_stripped strip_const
parse_type_name field s is_array array_size =
    parse_stripped field (strip_const s) is_array array_size
