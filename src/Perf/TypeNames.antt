-- ===== src/Perf/TypeNames.antt =====
-- The names of C types in pkg/sys/perf/tracepoint.go, as the bytes of their ASCII codes.
use capsule.Prelude.{List, [], ◌∷◌}
use capsule.Api.Value.{Bytes}

-- "bool"
abbrev pub bool_names : List Bytes
bool_names = (98 ∷ 111 ∷ 111 ∷ 108 ∷ []) ∷ []

-- "int", "signed int", "signed", "unsigned int", "unsigned", "uint"
abbrev pub int_names : List Bytes
int_names =
    (105 ∷ 110 ∷ 116 ∷ [])
    ∷ (115 ∷ 105 ∷ 103 ∷ 110 ∷ 101 ∷ 100 ∷ 32 ∷ 105 ∷ 110 ∷ 116 ∷ [])
    ∷ (115 ∷ 105 ∷ 103 ∷ 110 ∷ 101 ∷ 100 ∷ [])
    ∷ (117 ∷ 110 ∷ 115 ∷ 105 ∷ 103 ∷ 110 ∷ 101 ∷ 100 ∷ 32 ∷ 105 ∷ 110 ∷ 116 ∷ [])
    ∷ (117 ∷ 110 ∷ 115 ∷ 105 ∷ 103 ∷ 110 ∷ 101 ∷ 100 ∷ [])
    ∷ (117 ∷ 105 ∷ 110 ∷ 116 ∷ [])
    ∷ []

-- "char", "signed char", "unsigned char"
abbrev pub char_names : List Bytes
char_names =
    (99 ∷ 104 ∷ 97 ∷ 114 ∷ [])
    ∷ (115 ∷ 105 ∷ 103 ∷ 110 ∷ 101 ∷ 100 ∷ 32 ∷ 99 ∷ 104 ∷ 97 ∷ 114 ∷ [])
    ∷ (117 ∷ 110 ∷ 115 ∷ 105 ∷ 103 ∷ 110 ∷ 101 ∷ 100 ∷ 32 ∷ 99 ∷ 104 ∷ 97 ∷ 114 ∷ [])
    ∷ []

-- "short", "signed short", "unsigned short"
abbrev pub short_names : List Bytes
short_names =
    (115 ∷ 104 ∷ 111 ∷ 114 ∷ 116 ∷ [])
    ∷ (115 ∷ 105 ∷ 103 ∷ 110 ∷ 101 ∷ 100 ∷ 32 ∷ 115 ∷ 104 ∷ 111 ∷ 114 ∷ 116 ∷ [])
    ∷ (117 ∷ 110 ∷ 115 ∷ 105 ∷ 103 ∷ 110 ∷ 101 ∷ 100 ∷ 32 ∷ 115 ∷ 104 ∷ 111 ∷ 114 ∷ 116 ∷ [])
    ∷ []

-- "long", "signed long", "unsigned long"
abbrev pub long_names : List Bytes
long_names =
    (108 ∷ 111 ∷ 110 ∷ 103 ∷ [])
    ∷ (115 ∷ 105 ∷ 103 ∷ 110 ∷ 101 ∷ 100 ∷ 32 ∷ 108 ∷ 111 ∷ 110 ∷ 103 ∷ [])
    ∷ (117 ∷ 110 ∷ 115 ∷ 105 ∷ 103 ∷ 110 ∷ 101 ∷ 100 ∷ 32 ∷ 108 ∷ 111 ∷ 110 ∷ 103 ∷ [])
    ∷ []

-- "long long", "signed long long", "unsigned long long"
abbrev pub long_long_names : List Bytes
long_long_names =
    (108 ∷ 111 ∷ 110 ∷ 103 ∷ 32 ∷ 108 ∷ 111 ∷ 110 ∷ 103 ∷ [])
    ∷ (115 ∷ 105 ∷ 103 ∷ 110 ∷ 101 ∷ 100 ∷ 32 ∷ 108 ∷ 111 ∷ 110 ∷ 103 ∷ 32 ∷ 108 ∷ 111 ∷ 110 ∷ 103
        ∷ [])
    ∷ (117 ∷ 110 ∷ 115 ∷ 105 ∷ 103 ∷ 110 ∷ 101 ∷ 100 ∷ 32 ∷ 108 ∷ 111 ∷ 110 ∷ 103 ∷ 32 ∷ 108 ∷ 111
        ∷ 110 ∷ 103 ∷ [])
    ∷ []

-- "s8", "__s8", "int8_t", "__int8_t"
abbrev pub s8_names : List Bytes
s8_names =
    (115 ∷ 56 ∷ [])
    ∷ (95 ∷ 95 ∷ 115 ∷ 56 ∷ [])
    ∷ (105 ∷ 110 ∷ 116 ∷ 56 ∷ 95 ∷ 116 ∷ [])
    ∷ (95 ∷ 95 ∷ 105 ∷ 110 ∷ 116 ∷ 56 ∷ 95 ∷ 116 ∷ [])
    ∷ []

-- "u8", "__u8", "uint8_t", "__uint8_t"
abbrev pub u8_names : List Bytes
u8_names =
    (117 ∷ 56 ∷ [])
    ∷ (95 ∷ 95 ∷ 117 ∷ 56 ∷ [])
    ∷ (117 ∷ 105 ∷ 110 ∷ 116 ∷ 56 ∷ 95 ∷ 116 ∷ [])
    ∷ (95 ∷ 95 ∷ 117 ∷ 105 ∷ 110 ∷ 116 ∷ 56 ∷ 95 ∷ 116 ∷ [])
    ∷ []

-- "s16", "__s16", "int16_t", "__int16_t"
abbrev pub s16_names : List Bytes
s16_names =
    (115 ∷ 49 ∷ 54 ∷ [])
    ∷ (95 ∷ 95 ∷ 115 ∷ 49 ∷ 54 ∷ [])
    ∷ (105 ∷ 110 ∷ 116 ∷ 49 ∷ 54 ∷ 95 ∷ 116 ∷ [])
    ∷ (95 ∷ 95 ∷ 105 ∷ 110 ∷ 116 ∷ 49 ∷ 54 ∷ 95 ∷ 116 ∷ [])
    ∷ []

-- "u16", "__u16", "uint16_t", "__uint16_t"
abbrev pub u16_names : List Bytes
u16_names =
    (117 ∷ 49 ∷ 54 ∷ [])
    ∷ (95 ∷ 95 ∷ 117 ∷ 49 ∷ 54 ∷ [])
    ∷ (117 ∷ 105 ∷ 110 ∷ 116 ∷ 49 ∷ 54 ∷ 95 ∷ 116 ∷ [])
    ∷ (95 ∷ 95 ∷ 117 ∷ 105 ∷ 110 ∷ 116 ∷ 49 ∷ 54 ∷ 95 ∷ 116 ∷ [])
    ∷ []

-- "s32", "__s32", "int32_t", "__int32_t"
abbrev pub s32_names : List Bytes
s32_names =
    (115 ∷ 51 ∷ 50 ∷ [])
    ∷ (95 ∷ 95 ∷ 115 ∷ 51 ∷ 50 ∷ [])
    ∷ (105 ∷ 110 ∷ 116 ∷ 51 ∷ 50 ∷ 95 ∷ 116 ∷ [])
    ∷ (95 ∷ 95 ∷ 105 ∷ 110 ∷ 116 ∷ 51 ∷ 50 ∷ 95 ∷ 116 ∷ [])
    ∷ []

-- "u32", "__u32", "uint32_t", "__uint32_t"
abbrev pub u32_names : List Bytes
u32_names =
    (117 ∷ 51 ∷ 50 ∷ [])
    ∷ (95 ∷ 95 ∷ 117 ∷ 51 ∷ 50 ∷ [])
    ∷ (117 ∷ 105 ∷ 110 ∷ 116 ∷ 51 ∷ 50 ∷ 95 ∷ 116 ∷ [])
    ∷ (95 ∷ 95 ∷ 117 ∷ 105 ∷ 110 ∷ 116 ∷ 51 ∷ 50 ∷ 95 ∷ 116 ∷ [])
    ∷ []

-- "s64", "__s64", "int64_t", "__int64_t"
abbrev pub s64_names : List Bytes
s64_names =
    (115 ∷ 54 ∷ 52 ∷ [])
    ∷ (95 ∷ 95 ∷ 115 ∷ 54 ∷ 52 ∷ [])
    ∷ (105 ∷ 110 ∷ 116 ∷ 54 ∷ 52 ∷ 95 ∷ 116 ∷ [])
    ∷ (95 ∷ 95 ∷ 105 ∷ 110 ∷ 116 ∷ 54 ∷ 52 ∷ 95 ∷ 116 ∷ [])
    ∷ []

-- "u64", "__u64", "uint64_t", "__uint64_t"
abbrev pub u64_names : List Bytes
u64_names =
    (117 ∷ 54 ∷ 52 ∷ [])
    ∷ (95 ∷ 95 ∷ 117 ∷ 54 ∷ 52 ∷ [])
    ∷ (117 ∷ 105 ∷ 110 ∷ 116 ∷ 54 ∷ 52 ∷ 95 ∷ 116 ∷ [])
    ∷ (95 ∷ 95 ∷ 117 ∷ 105 ∷ 110 ∷ 116 ∷ 54 ∷ 52 ∷ 95 ∷ 116 ∷ [])
    ∷ []

-- "const "
abbrev pub const_prefix : Bytes
const_prefix = 99 ∷ 111 ∷ 110 ∷ 115 ∷ 116 ∷ 32 ∷ []

-- "struct "
abbrev pub struct_prefix : Bytes
struct_prefix = 115 ∷ 116 ∷ 114 ∷ 117 ∷ 99 ∷ 116 ∷ 32 ∷ []

-- "union "
abbrev pub union_prefix : Bytes
union_prefix = 117 ∷ 110 ∷ 105 ∷ 111 ∷ 110 ∷ 32 ∷ []

-- "enum "
abbrev pub enum_prefix : Bytes
enum_prefix = 101 ∷ 110 ∷ 117 ∷ 109 ∷ 32 ∷ []

-- "_t"
abbrev pub t_suffix : Bytes
t_suffix = 95 ∷ 116 ∷ []

-- "*"
abbrev pub pointer_suffix : Bytes
pointer_suffix = 42 ∷ []
