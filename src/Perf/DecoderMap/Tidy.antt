-- ===== src/Perf/DecoderMap/Tidy.antt =====
-- The invariant of the decoder map of pkg/sys/perf/decoder.go.
use capsule.Prelude.{
  ℕ, [], false, Option, none, some, ◌≡◌, refl, sym, ap, ◌∙◌, inl, inr, Bool-cases,
}
use capsule.Prelude.Outcome.{Outcome, ok}
use capsule.Prelude.Maps.{number_key, bytes_key, GoMap, Unique, lookup, insert, delete, put_all}
use capsule.Prelude.Maps.Laws.{lookup-put_all, insert-Unique, delete-Unique, put_all-Unique}
use capsule.Prelude.Maps.Entries.{
  some_eq, or_none, of_delete, not_deleted, of_insert, inserted, not_inserted,
}
use capsule.Api.Value.{Bytes}
use capsule.Perf.TraceField.{TraceEventField}
use capsule.Perf.DecoderMap.{
  TraceEventDecoder, DecoderMap, Formats, new_decoder_map, add, copied, get_decoder,
}

module _ {F : Type 0} where
  -- The active map, or an empty one.
  abbrev pub opened : Option (DecoderMap F) → DecoderMap F
  opened none = new_decoder_map
  opened (some dm) = dm

  abbrev pub copy_of : DecoderMap F → DecoderMap F
  copy_of dm = record { decoders = put_all dm.decoders []; names = put_all dm.names [] }

  pub same_decoders :
      (i : ℕ) (dm : DecoderMap F)
      → Unique dm.decoders
      → lookup i (put_all dm.decoders []) ≡ lookup i dm.decoders
  unfolding lookup
  same_decoders i dm u = lookup-put_all i dm.decoders [] u ∙ or_none (lookup i dm.decoders)

  pub same_names :
      (n : Bytes) (dm : DecoderMap F)
      → Unique dm.names
      → lookup n (put_all dm.names []) ≡ lookup n dm.names
  unfolding lookup
  same_names n dm u = lookup-put_all n dm.names [] u ∙ or_none (lookup n dm.names)

module _ {E : Type 0} where
  pub one_id :
      {i j : ℕ} (fs gs : GoMap Bytes TraceEventField)
      → ◌≡◌ {A = Outcome E (ℕ × GoMap Bytes TraceEventField)} (ok (i, fs)) (ok (j, gs))
      → i ≡ j
  one_id fs gs h = cc

  pub one_fields :
      {i j : ℕ} (fs gs : GoMap Bytes TraceEventField)
      → ◌≡◌ {A = Outcome E (ℕ × GoMap Bytes TraceEventField)} (ok (i, fs)) (ok (j, gs))
      → fs ≡ gs
  one_fields fs gs h = cc

module _ {F E : Type 0} where
  -- The names have the identifiers of their formats, and each decoder has a name.
  pub record Tidy (format : Formats E) (dm : DecoderMap F) : Type 0 where
    pub ids_keyed : Unique dm.decoders
    pub names_keyed : Unique dm.names
    pub named :
        (n : Bytes) (i : ℕ)
        → lookup n dm.names ≡ some i
        → (fields : GoMap Bytes TraceEventField) × (format n ≡ ok (i, fields))
    pub owned :
        (i : ℕ) (d : TraceEventDecoder F)
        → lookup i dm.decoders ≡ some d
        → (n : Bytes) × (lookup n dm.names ≡ some i)

  pub copy_of-Tidy :
      (format : Formats E) (dm : DecoderMap F) → Tidy format dm → Tidy format (copy_of dm)
  unfolding Unique
  copy_of-Tidy format dm t = record {
    ids_keyed = put_all-Unique dm.decoders [] tt;
    names_keyed = put_all-Unique dm.names [] tt;
    named = λ n i h. t.named n i (sym (same_names n dm t.names_keyed) ∙ h);
    owned = λ i d h.
        let (n, e) = t.owned i d (sym (same_decoders i dm t.ids_keyed) ∙ h) in
        (n, same_names n dm t.names_keyed ∙ e);
  }

  pub new-Tidy : (format : Formats E) → Tidy format new_decoder_map
  unfolding Unique lookup
  new-Tidy format = record {
    ids_keyed = tt;
    names_keyed = tt;
    named = λ n i h. cc;
    owned = λ i d h. cc;
  }

  pub add-Tidy :
      (format : Formats E) (name : Bytes) (id : ℕ) (fields : GoMap Bytes TraceEventField)
      (d : TraceEventDecoder F) (dm : DecoderMap F)
      → format name ≡ ok (id, fields)
      → Tidy format dm
      → Tidy format (add name id d dm)
  unfolding add
  add-Tidy format name id fields d dm f t = record {
    ids_keyed = insert-Unique id d dm.decoders t.ids_keyed;
    names_keyed = insert-Unique name id dm.names t.names_keyed;
    named = λ n i h. elim (of_insert name n id dm.names i h) [
      | inl (e, g) ↦ (fields, ap format (sym e) ∙ f ∙ ap (λ k. ok (k, fields)) g)
      | inr (e, g) ↦ t.named n i g
    ];
    owned = λ i d' h. elim (of_insert id i d dm.decoders d' h) [
      | inl (e, g) ↦ (name, inserted name id dm.names ∙ ap some e)
      | inr (e, g) ↦ still i (t.owned i d' g)
    ];
  }
    where
      still :
          (i : ℕ)
          → (n : Bytes) × (lookup n dm.names ≡ some i)
          → (n : Bytes) × (lookup n (insert name id dm.names) ≡ some i)
      still i (n, h) = elim (Bool-cases (bytes_key.same name n)) [
        | inl e ↦
            let (fields', g) = t.named n i h in
            let e' : name ≡ n = (bytes_key.same_iff name n).0 e in
            (
              name,
              inserted name id dm.names
                  ∙ ap some (one_id fields fields' (sym f ∙ ap format e' ∙ g)),
            )
        | inr e ↦ (n, not_inserted name n id dm.names e ∙ h)
      ]

  pub without-Tidy :
      (format : Formats E) (name : Bytes) (id : ℕ) (dm : DecoderMap F)
      → Tidy format dm
      → lookup name dm.names ≡ some id
      → Tidy format (record { decoders = delete id dm.decoders; names = delete name dm.names })
  without-Tidy format name id dm t e = record {
    ids_keyed = delete-Unique id dm.decoders t.ids_keyed;
    names_keyed = delete-Unique name dm.names t.names_keyed;
    named = λ n i h. let (e', g) = of_delete name n dm.names i h in t.named n i g;
    owned = λ i d h.
        let (e', g) = of_delete id i dm.decoders d h in
        let (n, k) = t.owned i d g in (n, not_deleted name n dm.names (apart n i e' k) ∙ k);
  }
    where
      apart :
          (n : Bytes) (i : ℕ)
          → number_key.same id i ≡ false
          → lookup n dm.names ≡ some i
          → bytes_key.same name n ≡ false
      apart n i h k = elim (Bool-cases (bytes_key.same name n)) [
        | inl b ↦
            let e' : name ≡ n = (bytes_key.same_iff name n).0 b in
            let i' : id ≡ i = some_eq id i (sym e ∙ ap (λ m. lookup m dm.names) e' ∙ k) in
            b ∙ sym ((number_key.same_iff id i).1 i') ∙ h
        | inr b ↦ b
      ]

  pub copied-Tidy :
      (format : Formats E) (active : Option (DecoderMap F))
      → Tidy format (opened active)
      → Tidy format (copied active)
        × ((i : ℕ) → lookup i (copied active).decoders ≡ get_decoder i active)
  unfolding copied get_decoder lookup
  copied-Tidy format none t = (t, λ i. refl)
  copied-Tidy format (some dm) t = (copy_of-Tidy format dm t, λ i. same_decoders i dm t.ids_keyed)
