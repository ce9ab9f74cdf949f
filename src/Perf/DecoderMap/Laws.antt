-- ===== src/Perf/DecoderMap/Laws.antt =====
-- The decoders that `AddDecoder` and `RemoveDecoder` of pkg/sys/perf/decoder.go leave.
use capsule.Prelude.{
  ℕ, List, [], ◌∷◌, Bool, true, false, Option, none, some, if◌then◌else◌, ◌≡◌, refl, sym, ap, ap₂,
  ◌∙◌, inl, inr, Bool-cases,
}
use capsule.Prelude.Outcome.{Outcome, ok, err, panic}
use capsule.Prelude.Bytes.{bytes_eq}
use capsule.Prelude.Maps.{number_key, bytes_key, GoMap, lookup, insert}
use capsule.Prelude.Maps.Laws.{lookup-delete}
use capsule.Prelude.Maps.Entries.{none_not_some, inserted, not_inserted}
use capsule.Api.Value.{Bytes}
use capsule.Perf.TraceField.{TraceEventField}
use capsule.Perf.DecoderMap.{
  TraceEventDecoder, DecoderMap, Formats, add, copied, add_formatted, add_decoder, without,
  remove_decoder, get_decoder,
}
use capsule.Perf.DecoderMap.Tidy.{
  opened, copy_of, same_decoders, same_names, one_id, one_fields, Tidy, copy_of-Tidy, new-Tidy,
  add-Tidy, without-Tidy, copied-Tidy,
}

pub data Op (F : Type 0) : Type 0 where
  add_op : Bytes → F → Op F
  remove_op : Bytes → Op F

module _ {F : Type 0} where
  -- What an operation does to the decoder of the event `n`, which has these fields.
  abbrev effect :
      GoMap Bytes TraceEventField
      → Bytes
      → Op F
      → Option (TraceEventDecoder F)
      → Option (TraceEventDecoder F)
  effect fields n (Op.add_op name fn) last =
      if bytes_eq name n then some (record { fields = fields; decoderfn = fn }) else last
  effect fields n (Op.remove_op name) last = if bytes_eq name n then none else last

  unfoldable pub latest :
      GoMap Bytes TraceEventField
      → Bytes
      → List (Op F)
      → Option (TraceEventDecoder F)
      → Option (TraceEventDecoder F)
  latest fields n [] last = last
  latest fields n (op ∷ ops) last = latest fields n ops (effect fields n op last)

-- No two events have the same identifier.
pub record Distinct {E : Type 0} (format : Formats E) : Type 0 where
  pub apart :
      (a b : Bytes) (i : ℕ) (fs gs : GoMap Bytes TraceEventField)
      → format a ≡ ok (i, fs)
      → format b ≡ ok (i, gs)
      → a ≡ b

not_named : (a b : Bytes) → bytes_eq a b ≡ false → a ≡ b → ⊥
not_named a b e h = let q : false ≡ true = sym e ∙ (bytes_key.same_iff a b).1 h in cc

other_name : (a b : Bytes) → (a ≡ b → ⊥) → bytes_eq a b ≡ false
other_name a b h = elim (Bool-cases (bytes_eq a b)) [
  | inl e ↦ absurd (h ((bytes_key.same_iff a b).0 e))
  | inr e ↦ e
]

other_id : (a b : ℕ) → (a ≡ b → ⊥) → number_key.same a b ≡ false
other_id a b h = elim (Bool-cases (number_key.same a b)) [
  | inl e ↦ absurd (h ((number_key.same_iff a b).0 e))
  | inr e ↦ e
]

module _ {F E : Type 0} where
  unfoldable pub run : Formats E → Op F → Option (DecoderMap F) → Option (DecoderMap F)
  unfolding add_decoder remove_decoder
  run format (Op.add_op name fn) active = (add_decoder format name fn active).1
  run format (Op.remove_op name) active = remove_decoder name active

  unfoldable pub run_all : Formats E → List (Op F) → Option (DecoderMap F) → Option (DecoderMap F)
  unfolding run
  run_all format [] active = active
  run_all format (op ∷ ops) active = run_all format ops (run format op active)

  -- An operation leaves the map tidy, and of the event `n` the decoder that it says.
  Step : Formats E → Bytes → ℕ → Option (DecoderMap F) → Option (TraceEventDecoder F) → Type 0
  Step format n id active d = Tidy format (opened active) × (get_decoder id active ≡ d)

  unchanged :
      (format : Formats E) (name n : Bytes) (id : ℕ) (active : Option (DecoderMap F))
      (d : Option (TraceEventDecoder F))
      → Tidy format (opened active)
      → bytes_eq name n ≡ false
      → Step format n id active (if bytes_eq name n then d else get_decoder id active)
  unfolding Step
  unchanged format name n id active d t e =
      (t, sym (ap (λ b. if b then d else get_decoder id active) e))

  add_leaves :
      (format : Formats E) (name : Bytes) (fn : F) (active : Option (DecoderMap F)) (n : Bytes)
      (id : ℕ) (fields : GoMap Bytes TraceEventField)
      (o : Outcome E (ℕ × GoMap Bytes TraceEventField))
      → format name ≡ o
      → Distinct format
      → format n ≡ ok (id, fields)
      → Tidy format (opened active)
      → Step format n id
          (add_formatted o name fn active).1
          (effect fields n (Op.add_op name fn) (get_decoder id active))
  unfolding add_formatted Step add get_decoder
  add_leaves format name fn active n id fields (ok (i, fs)) e a f t =
      let (t', c) = copied-Tidy format active t in
      elim (Bool-cases (bytes_eq name n)) [
        | inl b ↦
            let k : ◌≡◌ {A = Outcome E (ℕ × GoMap Bytes TraceEventField)} (ok (i, fs))
                (ok (id, fields)) =
              sym e ∙ ap format ((bytes_key.same_iff name n).0 b) ∙ f in
            (
              add-Tidy format name i fs _ (copied active) e t',
              sym (
                    ap
                      (λ j. lookup j (
                        insert i (record { fields = fs; decoderfn = fn }) (copied active).decoders))
                      (one_id fs fields k))
                  ∙ inserted i _ (copied active).decoders
                  ∙ ap (λ g. some (record { fields = g; decoderfn = fn })) (one_fields fs fields k)
                  ∙ sym (
                      ap
                        (λ b.
                          if b
                          then some (record { fields = fields; decoderfn = fn })
                          else get_decoder id active)
                        b),
            )
        | inr b ↦
            let k : number_key.same i id ≡ false = other_id i id λ z.
              not_named name n b (a.apart name n id fs fields (e ∙ ap (λ k. ok (k, fs)) z) f) in
            (
              add-Tidy format name i fs _ (copied active) e t',
              not_inserted i id _ (copied active).decoders k
                  ∙ c id
                  ∙ sym (
                      ap
                        (λ b.
                          if b
                          then some (record { fields = fields; decoderfn = fn })
                          else get_decoder id active)
                        b),
            )
      ]
  add_leaves format name fn active n id fields (err x) e a f t =
      unchanged format name n id active _ t
        (other_name name n λ z. let k : err x ≡ ok (id, fields) = sym e ∙ ap format z ∙ f in cc)
  add_leaves format name fn active n id fields panic e a f t =
      unchanged format name n id active _ t
        (other_name name n λ z. let k : panic ≡ ok (id, fields) = sym e ∙ ap format z ∙ f in cc)

  remove_leaves :
      (format : Formats E) (name : Bytes) (dm : DecoderMap F) (n : Bytes) (id : ℕ)
      (fields : GoMap Bytes TraceEventField) (o : Option ℕ)
      → lookup name dm.names ≡ o
      → Distinct format
      → format n ≡ ok (id, fields)
      → Tidy format dm
      → Step format n id
          (some (without o name dm))
          (effect fields n (Op.remove_op name) (lookup id dm.decoders))
  unfolding without Step get_decoder
  remove_leaves format name dm n id fields none e a f t = elim (Bool-cases (bytes_eq name n)) [
    | inl b ↦ (
      t,
      absent b (lookup id dm.decoders) refl
          ∙ sym (ap (λ b. if b then none else lookup id dm.decoders) b),
    )
    | inr b ↦ (t, sym (ap (λ b. if b then none else lookup id dm.decoders) b))
  ]
    where
      absent :
          bytes_eq name n ≡ true
          → (o : Option (TraceEventDecoder F)) → lookup id dm.decoders ≡ o
          → lookup id dm.decoders ≡ none
      absent b none h = h
      absent b (some d) h =
          let (m, k) = t.owned id d h in
          let (gs, q) = t.named m id k in
          none_not_some id (
            sym e
            ∙ ap (λ m. lookup m dm.names)
                ((bytes_key.same_iff name n).0 b ∙ a.apart n m id fields gs f q)
            ∙ k)
  remove_leaves format name dm n id fields (some i) e a f t =
      let t' =
        without-Tidy format name i (copy_of dm) (copy_of-Tidy format dm t)
          (same_names name dm t.names_keyed ∙ e) in
      let (fs, g) = t.named name i e in
      (
        t',
        lookup-delete i id (copy_of dm).decoders
            ∙ ap₂ (λ b o. if b then none else o) both (same_decoders id dm t.ids_keyed),
      )
    where
      both : number_key.same i id ≡ bytes_eq name n
      both = elim (Bool-cases (bytes_eq name n)) [
        | inl b ↦
            let (fs, g) = t.named name i e in
            (number_key.same_iff i id).1
              (one_id fs fields (sym g ∙ ap format ((bytes_key.same_iff name n).0 b) ∙ f))
            ∙ sym b
        | inr b ↦
            let (fs, g) = t.named name i e in
            other_id i id
              (λ z. not_named name n b (a.apart name n id fs fields (g ∙ ap (λ k. ok (k, fs)) z) f))
            ∙ sym b
      ]

  step :
      (format : Formats E) (op : Op F) (active : Option (DecoderMap F)) (n : Bytes) (id : ℕ)
      (fields : GoMap Bytes TraceEventField)
      → Distinct format
      → format n ≡ ok (id, fields)
      → Tidy format (opened active)
      → Step format n id (run format op active) (effect fields n op (get_decoder id active))
  unfolding run add_decoder remove_decoder Step get_decoder
  step format (Op.add_op name fn) active n id fields a f t =
      add_leaves format name fn active n id fields (format name) refl a f t
  step format (Op.remove_op name) none n id fields a f t = (t, both_none (bytes_eq name n))
    where
      both_none :
          (b : Bool) → ◌≡◌ {A = Option (TraceEventDecoder F)} none (if b then none else none)
      both_none true = refl
      both_none false = refl
  step format (Op.remove_op name) (some dm) n id fields a f t =
      remove_leaves format name dm n id fields (lookup name dm.names) refl a f t

  run_from :
      (format : Formats E) (ops : List (Op F)) (active : Option (DecoderMap F)) (n : Bytes) (id : ℕ)
      (fields : GoMap Bytes TraceEventField)
      → Distinct format
      → format n ≡ ok (id, fields)
      → Tidy format (opened active)
      → get_decoder id (run_all format ops active) ≡ latest fields n ops (get_decoder id active)
  unfolding run_all latest Step
  run_from format [] active n id fields a f t = refl
  run_from format (op ∷ ops) active n id fields a f t =
      let (t', e) = step format op active n id fields a f t in
      run_from format ops (run format op active) n id fields a f t' ∙ ap (latest fields n ops) e

  -- Where no two events have one identifier, every sequence of `AddDecoder` and `RemoveDecoder` leaves
  -- `getDecoder` with the decoder that was added last under the event's name, unless the name was
  -- removed since: one removal is enough, however often the name was added.
  pub get_decoder-run_all :
      (format : Formats E) (ops : List (Op F)) (n : Bytes) (id : ℕ)
      (fields : GoMap Bytes TraceEventField)
      → Distinct format
      → format n ≡ ok (id, fields)
      → get_decoder id (run_all format ops none) ≡ latest fields n ops none
  unfolding get_decoder
  get_decoder-run_all format ops n id fields a f =
      run_from format ops none n id fields a f (new-Tidy format)
