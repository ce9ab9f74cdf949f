-- ===== src/Perf/Tests.antt =====
-- Sample writes to a map of pkg/sys/perf/maps.go, and the theorems at them.
use capsule.Prelude.{ℕ, List, [], ◌∷◌, none, some, ◌≡◌, refl, arith}
use capsule.Prelude.Maps.{number_key, GoMap, lookup, insert, delete_all, put_all, Unique}
use capsule.Prelude.{false, ◌++◌}
use capsule.Prelude.Outcome.{ok}
use capsule.Perf.Decode.{Number, decode_data_type}
use capsule.Perf.Decode.RoundTrip.{encode, bytes_of, pattern_of, decode_data_type-encode}
use capsule.Prelude.Int.{pos, negsuc}
use capsule.Api.Value.{Bytes}
use capsule.Perf.TraceField.{DataType, TraceEventField, strip_const, parse_type_name}
use capsule.Perf.TraceField.Laws.{Judged, parse_type_name_lem}
use capsule.Perf.SafeMap.{SafeMap, new_safe_map, contents, find, update, remove_in_place}
use capsule.Perf.SafeMap.Laws.{IsValid, Op, run}
use capsule.Perf.SafeMap.Traces.{run_all, effects, run_all_refines, copy_on_write}

abbrev entries : GoMap ℕ ℕ
entries = (1, 10) ∷ (2, 20) ∷ []

entries-Unique : Unique entries
unfolding Unique lookup
entries-Unique = (refl, (refl, tt))

abbrev writes : List (Op ℕ)
writes = Op.update_op entries ∷ Op.remove_in_place_op (1 ∷ []) ∷ []

start-IsValid : IsValid {V = ℕ} new_safe_map
unfolding Unique contents
start-IsValid = record { allocated = tt; keyed = tt }

removed_is_gone : find (run_all writes new_safe_map) 1 ≡ none
unfolding run_all run update remove_in_place find contents lookup insert delete_all put_all
removed_is_gone = refl

run_all_refines_example :
    IsValid (run_all writes new_safe_map)
    × ((id : ℕ) → find (run_all writes new_safe_map) id ≡ effects writes (find new_safe_map) id)
run_all_refines_example =
    run_all_refines writes new_safe_map (entries-Unique, (tt, tt)) start-IsValid

abbrev once : SafeMap ℕ
once = record { heap = entries ∷ []; active = some 0 }

copy_on_write_example :
    contents (run (Op.remove_op (1 ∷ [])) once).heap (some 0) ≡ contents once.heap (some 0)
copy_on_write_example = copy_on_write (Op.remove_op (1 ∷ [])) once 0 tt (omega arith)

-- field:u8 flags; size:1; signed:0;
abbrev flags : TraceEventField
flags = record {
  field_name = [];
  type_name = [];
  offset = pos 0;
  size = pos 1;
  is_signed = false;
  data_type = DataType.dt_string;
  data_type_size = pos 0;
  data_loc_size = pos 0;
  array_size = pos 0;
}

abbrev u8_name : Bytes
u8_name = 117 ∷ 56 ∷ []

parse_type_name_lem_example :
    Judged (strip_const u8_name) (parse_type_name flags u8_name false (negsuc 0))
parse_type_name_lem_example = parse_type_name_lem flags false (negsuc 0) (λ z. ground arith) u8_name

decode_data_type-encode_example :
    decode_data_type DataType.dt_s16 (encode (Number.int16 (negsuc 1)) ++ (7 ∷ []))
    ≡ ok (Number.int16 (negsuc 1))
decode_data_type-encode_example =
    decode_data_type-encode (Number.int16 (negsuc 1)) (7 ∷ []) (omega arith)

minus_two : encode (Number.int16 (negsuc 1)) ≡ 254 ∷ 255 ∷ []
unfolding encode bytes_of pattern_of
minus_two = refl
