-- ===== src/Perf/DecoderMap.antt =====
-- `TraceEventDecoderMap` of pkg/sys/perf/decoder.go: the decoders of the event monitor, by the
-- identifier of their event and by its name. A writer stores a changed copy, so the map that a reader
-- has loaded is a value.
pub mod Tidy
pub mod Laws
use capsule.Prelude.{ℕ, List, [], ◌∷◌, Bool, true, false, Option, none, some, if◌then◌else◌}
use capsule.Prelude.Outcome.{Outcome, ok, err, panic}
use capsule.Prelude.Maps.{number_key, bytes_key, GoMap, lookup, insert, delete, put_all}
use capsule.Api.Value.{Bytes}
use capsule.Perf.TraceField.{TraceEventField}

-- `F` is the type of the functions that decode, `E` that of the errors of a format.
pub record TraceEventDecoder (F : Type 0) : Type 0 where
  pub fields : GoMap Bytes TraceEventField
  pub decoderfn : F

pub record DecoderMap (F : Type 0) : Type 0 where
  pub decoders : GoMap ℕ (TraceEventDecoder F)
  pub names : GoMap Bytes ℕ

-- `GetTraceEventFormat`, which reads a file of the kernel: the identifier and the fields of an event.
abbrev pub Formats : Type 0 → Type 0
Formats E = Bytes → Outcome E (ℕ × GoMap Bytes TraceEventField)

module _ {F : Type 0} where
  abbrev pub new_decoder_map : DecoderMap F
  new_decoder_map = record { decoders = []; names = [] }

  unfoldable pub add : Bytes → ℕ → TraceEventDecoder F → DecoderMap F → DecoderMap F
  unfolding insert
  add name id decoder dm = record {
    decoders = insert id decoder dm.decoders;
    names = insert name id dm.names;
  }

  -- A copy of the map that is stored, or a new one.
  unfoldable pub copied : Option (DecoderMap F) → DecoderMap F
  unfolding put_all
  copied none = new_decoder_map
  copied (some dm) = record { decoders = put_all dm.decoders []; names = put_all dm.names [] }

  -- A copy without the name and without its decoder, where the name is known.
  unfoldable pub without : Option ℕ → Bytes → DecoderMap F → DecoderMap F
  unfolding delete put_all
  without none name dm = dm
  without (some id) name dm = record {
    decoders = delete id (put_all dm.decoders []);
    names = delete name (put_all dm.names []);
  }

  unfoldable pub remove_decoder : Bytes → Option (DecoderMap F) → Option (DecoderMap F)
  unfolding lookup without
  remove_decoder name none = none
  remove_decoder name (some dm) = some (without (lookup name dm.names) name dm)

  unfoldable pub get_decoder : ℕ → Option (DecoderMap F) → Option (TraceEventDecoder F)
  unfolding lookup
  get_decoder id none = none
  get_decoder id (some dm) = lookup id dm.decoders

module _ {F E : Type 0} where
  -- `AddDecoder`, once the format was asked for.
  unfoldable pub add_formatted :
      Outcome E (ℕ × GoMap Bytes TraceEventField)
      → Bytes
      → F
      → Option (DecoderMap F)
      → Outcome E ℕ × Option (DecoderMap F)
  unfolding add copied
  add_formatted (ok (id, fields)) name fn active =
      (ok id, some (add name id (record { fields = fields; decoderfn = fn }) (copied active)))
  add_formatted (err e) name fn active = (err e, active)
  add_formatted panic name fn active = (panic, active)

  unfoldable pub add_decoder :
      Formats E → Bytes → F → Option (DecoderMap F) → Outcome E ℕ × Option (DecoderMap F)
  unfolding add_formatted
  add_decoder format name fn active = add_formatted (format name) name fn active
