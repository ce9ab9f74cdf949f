-- ===== src/Perf/TraceField/Laws.antt =====
-- The types that pkg/sys/perf/tracepoint.go gives the fields of a trace event.
use capsule.Prelude.{
  ℕ, zero, suc, Bool, if◌then◌else◌, sym, ◌∙◌, true, false, ◌≡◌, ◌≢◌, refl, ◌⊎◌, inl, inr,
  Bool-cases,
}
use capsule.Prelude.Int.{ℤ, pos, negsuc, eqb_ℤ_iff}
use capsule.Prelude.Outcome.{Outcome, ok, ◌>>=◌}
use capsule.Api.Value.{Bytes}
use capsule.Prelude.Bytes.{has_prefix, has_suffix}
use capsule.Perf.TypeNames.{
  bool_names, int_names, char_names, short_names, long_names, long_long_names, s8_names, u8_names,
  s16_names, u16_names, s32_names, u32_names, s64_names, u64_names, struct_prefix, union_prefix,
  enum_prefix, t_suffix, pointer_suffix,
}
use capsule.Perf.TraceField.{
  DataType, TraceEventField, quotient, typed, is_width, unknown_size, type_of_width,
  set_type_from_size_and_sign, or_assume, one_of, strip_const, parse_other, parse_stripped,
  parse_type_name,
}

-- The width of a data type in bytes; a string has none.
abbrev pub width : DataType → ℤ
width DataType.dt_s8 = pos 1
width DataType.dt_u8 = pos 1
width DataType.dt_s16 = pos 2
width DataType.dt_u16 = pos 2
width DataType.dt_s32 = pos 4
width DataType.dt_u32 = pos 4
width DataType.dt_s64 = pos 8
width DataType.dt_u64 = pos 8
width DataType.dt_string = pos 0

-- A field whose data type is as wide as its data size says.
abbrev pub Sized : TraceEventField → Type 0
Sized f = width f.data_type ≡ f.data_type_size

-- The result is a field to be skipped, or one whose size fits its type.
abbrev pub Fits : TraceEventField × Bool → Type 0
Fits r = (r.1 ≡ true) ⊎ Sized r.0

typed-Sized :
    (s u : DataType) (w : ℤ) (f : TraceEventField)
    → width s ≡ w
    → width u ≡ w
    → Sized (typed s u w f)
unfolding typed
typed-Sized s u w f h i = elim (Bool-cases f.is_signed) [ inl e ↦ rw e h | inr e ↦ rw e i ]

-- One branch of a `switch`.
if-Fits :
    (b : Bool) (x y : TraceEventField × Bool)
    → (b ≡ true → Fits x)
    → Fits y
    → Fits (if b then x else y)
if-Fits true x y h i = h refl
if-Fits false x y h i = i

width_of : (w : ℤ) (n : ℕ) → is_width w n ≡ true → pos n ≡ w
unfolding is_width
width_of w n h = sym ((eqb_ℤ_iff w (pos n)).0 h)

type_of_width-Fits : (w : ℤ) (f : TraceEventField) → Fits (type_of_width w f)
unfolding type_of_width
type_of_width-Fits w f =
    let try : (n : ℕ) (s u : DataType)
        → width s ≡ pos n
        → width u ≡ pos n
        → is_width w n ≡ true
        → Fits (typed s u w f, false) =
      λ n s u h i e. inr (typed-Sized s u w f (h ∙ width_of w n e) (i ∙ width_of w n e)) in
    if-Fits (is_width w 1) _ _ (try 1 DataType.dt_s8 DataType.dt_u8 refl refl) (
      if-Fits (is_width w 2) _ _ (try 2 DataType.dt_s16 DataType.dt_u16 refl refl) (
        if-Fits (is_width w 4) _ _ (try 4 DataType.dt_s32 DataType.dt_u32 refl refl) (
          if-Fits (is_width w 8) _ _ (try 8 DataType.dt_s64 DataType.dt_u64 refl refl) (inl refl))))

-- A result that is no panic, and whose field is to be skipped or fits its type.
abbrev pub Returns : Outcome ⊥ (TraceEventField × Bool) → Type 0
Returns o = (r : TraceEventField × Bool) × (o ≡ ok r) × Fits r

-- The field of an unsigned byte, by the name of its type.
abbrev pub Byte : Bytes → TraceEventField × Bool → Type 0
Byte s r =
    (one_of s u8_names ≡ true)
    × (r.1 ≡ false)
    × (r.0.data_type ≡ DataType.dt_s16)
    × (r.0.data_type_size ≡ pos 1)

abbrev pub Judged : Bytes → Outcome ⊥ (TraceEventField × Bool) → Type 0
Judged s o = (r : TraceEventField × Bool) × (o ≡ ok r) × (Fits r ⊎ Byte s r)

judge : (s : Bytes) (o : Outcome ⊥ (TraceEventField × Bool)) → Returns o → Judged s o
judge s o (r, e, fits) = (r, e, inl fits)

if-Judged :
    (s : Bytes) (b : Bool) (x y : Outcome ⊥ (TraceEventField × Bool))
    → (b ≡ true → Judged s x)
    → Judged s y
    → Judged s (if b then x else y)
if-Judged s true x y h i = h refl
if-Judged s false x y h i = i

if-Returns :
    (b : Bool) (x y : Outcome ⊥ (TraceEventField × Bool))
    → Returns x
    → Returns y
    → Returns (if b then x else y)
if-Returns true x y h i = h
if-Returns false x y h i = i

assumed-Fits :
    (s u : DataType) (w : ℤ)
    → width s ≡ w
    → width u ≡ w
    → (r : TraceEventField × Bool) → Fits r
    → Fits (or_assume s u w r)
unfolding or_assume
assumed-Fits s u w h i (g, true) fits = inr (typed-Sized s u w g h i)
assumed-Fits s u w h i (g, false) fits = fits

quotient_total : (a b : ℤ) → b ≢ pos 0 → (q : ℤ) × (quotient a b ≡ ok q)
unfolding quotient
quotient_total a (pos zero) h = absurd (h refl)
quotient_total (pos a) (pos (suc b)) h = (_, refl)
quotient_total (pos a) (negsuc b) h = (_, refl)
quotient_total (negsuc a) (pos (suc b)) h = (_, refl)
quotient_total (negsuc a) (negsuc b) h = (_, refl)

module _ (f : TraceEventField) (is_array : Bool) (n : ℤ) (sane : n ≢ pos 0) where
  set_type_Returns : Returns (set_type_from_size_and_sign f is_array n)
  unfolding set_type_from_size_and_sign
  set_type_Returns = elim (Bool-cases is_array) [
    | inl e ↦ elim (Bool-cases (unknown_size n)) [
      | inl g ↦ rw (e, g) ((f, true), refl, inl refl)
      | inr g ↦
          let (q, h) = quotient_total f.size n sane in
          rw (e, g, h) (type_of_width q f, refl, type_of_width-Fits q f)
    ]
    | inr e ↦ rw e (type_of_width f.size f, refl, type_of_width-Fits f.size f)
  ]

  assume_Returns :
      (s u : DataType) (w : ℤ)
      → width s ≡ w
      → width u ≡ w
      → Returns (do r ← set_type_from_size_and_sign f is_array n; ok (or_assume s u w r))
  assume_Returns s u w h i =
      let (r, e, fits) = set_type_Returns in
      (or_assume s u w r, rw e, assumed-Fits s u w h i r fits)

  other_Returns : (s : Bytes) → Returns (parse_other f s is_array n)
  unfolding parse_other
  other_Returns s = if-Returns (has_suffix s t_suffix) _ _ set_type_Returns (
      if-Returns (has_suffix s pointer_suffix) _ _ set_type_Returns (
        if-Returns (has_prefix s struct_prefix) _ _ ((f, true), refl, inl refl)
          (if-Returns (has_prefix s union_prefix) _ _ ((f, true), refl, inl refl)
            (if-Returns (has_prefix s enum_prefix) _ _ set_type_Returns set_type_Returns))))

  -- Unless the array has 0 elements, `parseTypeName` returns without a panic: the field is to be
  -- skipped, or its data size is the width of its data type; or the name is one of the four of an
  -- unsigned byte, whose field has the type of a signed 16-bit number and the data size 1.
  pub parse_type_name_lem : (s : Bytes) → Judged (strip_const s) (parse_type_name f s is_array n)
  unfolding parse_type_name parse_stripped
  parse_type_name_lem name =
      let s : Bytes = strip_const name in
      if-Judged s (one_of s bool_names) _ _ (λ _. judge s _ set_type_Returns)
        (if-Judged s (one_of s int_names) _ _
          (λ _. judge s _ (assume_Returns DataType.dt_s32 DataType.dt_u32 (pos 4) refl refl))
          (if-Judged s (one_of s char_names) _ _
            (λ _. ranged s DataType.dt_s8 DataType.dt_u8 (pos 1) refl refl)
            (if-Judged s (one_of s short_names) _ _
              (λ _. ranged s DataType.dt_s16 DataType.dt_u16 (pos 2) refl refl)
              (if-Judged s (one_of s long_names) _ _
                (λ _. judge s _ (assume_Returns DataType.dt_s64 DataType.dt_u64 (pos 8) refl refl))
                (if-Judged s (one_of s long_long_names) _ _
                  (λ _. ranged s DataType.dt_s64 DataType.dt_u64 (pos 8) refl refl)
                  (if-Judged s (one_of s s8_names) _ _ (λ _. judge s _ (_, refl, inr refl))
                    (if-Judged s (one_of s u8_names) _ _ (λ e. (_, refl, inr (e, refl, refl, refl)))
                      (if-Judged s (one_of s s16_names) _ _ (λ _. judge s _ (_, refl, inr refl))
                        (if-Judged s (one_of s u16_names) _ _ (λ _. judge s _ (_, refl, inr refl))
                          (if-Judged s (one_of s s32_names) _ _ (λ _. judge s _ (_, refl, inr refl))
                            (if-Judged s (one_of s u32_names) _ _
                              (λ _. judge s _ (_, refl, inr refl))
                              (if-Judged s (one_of s s64_names) _ _
                                (λ _. judge s _ (_, refl, inr refl))
                                (if-Judged s (one_of s u64_names) _ _
                                  (λ _. judge s _ (_, refl, inr refl))
                                  (judge s _ (other_Returns s)))))))))))))))
    where
      ranged :
          (s : Bytes) (t u : DataType) (w : ℤ)
          → width t ≡ w
          → width u ≡ w
          → Judged s (ok (typed t u w f, false))
      ranged s t u w h i = judge s _ (_, refl, inr (typed-Sized t u w f h i))
