-- ===== src/Perf/Monitor/Streams.antt =====
-- The descriptors and identifiers of a registration in pkg/sys/perf/monitor.go, in the maps that it
-- leaves.
use capsule.Prelude.{
  ℕ, List, [], true, false, Option, none, some, if◌then◌else◌, ◌≡◌, ◌⊎◌, inl, inr, sym, ap, ◌∙◌,
  Bool-cases,
}
use capsule.Prelude.Maps.{number_key, GoMap, lookup, put_all, delete_all}
use capsule.Prelude.Maps.Laws.{names, or_else, lookup-put_all, lookup-delete_all}
use capsule.Prelude.Maps.Entries.{none_not_some, of_delete_all, of_put_all, not_put, keys}
use capsule.Perf.Monitor.{stream_ids, all_to}
use capsule.Perf.Monitor.Register.{
  Distinct, Absent, not_recorded, Opens, closing, names-stream_ids, stream_ids-Unique, of_all_to,
}

pub nothing : {V : Type 0} (id : ℕ) (y : V) {R : Type 0} → lookup id [] ≡ some y → R
unfolding lookup
nothing id y k = none_not_some y k

pub new_one :
    (newfds : List ℕ) (stream_id : ℕ → Option ℕ) (eventids : GoMap ℕ ℕ) {V : Type 0} (x : V)
    (id : ℕ) (y : V)
    → Distinct newfds
    → lookup id (put_all (all_to x (stream_ids stream_id newfds).0) []) ≡ some y
    → (fd : ℕ) × (lookup fd (put_all (stream_ids stream_id newfds).0 eventids) ≡ some id)
new_one newfds stream_id eventids x id y d h =
    let ids : GoMap ℕ ℕ = (stream_ids stream_id newfds).0 in
    let u = stream_ids-Unique stream_id newfds d in
    elim (of_put_all (all_to x ids) id [] y h) [
      | inl n ↦
          let (fd, e) = of_all_to x ids id u n in
          (fd, lookup-put_all fd ids eventids u ∙ ap (λ o. or_else o (lookup fd eventids)) e)
      | inr (n, k) ↦ nothing id y k
    ]

pub old_one :
    (newfds : List ℕ) (stream_id : ℕ → Option ℕ) (eventids : GoMap ℕ ℕ) (id : ℕ)
    → Absent newfds eventids
    → (fd : ℕ) × (lookup fd eventids ≡ some id)
    → (fd : ℕ) × (lookup fd (put_all (stream_ids stream_id newfds).0 eventids) ≡ some id)
old_one newfds stream_id eventids id a (fd, h) =
    let ids : GoMap ℕ ℕ = (stream_ids stream_id newfds).0 in
    elim (Bool-cases (names (keys ids) fd)) [
      | inl n ↦
          none_not_some id
            (sym (not_recorded newfds eventids fd a (names-stream_ids stream_id newfds fd n)) ∙ h)
      | inr n ↦ (fd, not_put ids fd eventids n ∙ h)
    ]

pub before_ids :
    (newfds : List ℕ) (stream_id : ℕ → Option ℕ) (eventids : GoMap ℕ ℕ) (fd id : ℕ)
    → lookup fd (delete_all newfds (put_all (stream_ids stream_id newfds).0 eventids)) ≡ some id
    → lookup fd eventids ≡ some id
before_ids newfds stream_id eventids fd id h =
    let ids : GoMap ℕ ℕ = (stream_ids stream_id newfds).0 in
    let (n, k) = of_delete_all newfds fd (put_all ids eventids) id h in
    elim (of_put_all ids fd eventids id k) [
      | inl n' ↦ (let z : true ≡ false = sym (names-stream_ids stream_id newfds fd n') ∙ n in cc)
      | inr (n', k') ↦ k'
    ]

pub after_ids :
    (newfds : List ℕ) (stream_id : ℕ → Option ℕ) (eventids : GoMap ℕ ℕ) (id : ℕ)
    → Absent newfds eventids
    → (fd : ℕ) × (lookup fd eventids ≡ some id)
    → (fd : ℕ) × (lookup fd (delete_all newfds (put_all (stream_ids stream_id newfds).0 eventids))
        ≡ some id)
after_ids newfds stream_id eventids id a (fd, h) = elim (Bool-cases (names newfds fd)) [
  | inl n ↦ none_not_some id (sym (not_recorded newfds eventids fd a n) ∙ h)
  | inr n ↦
      let ids : GoMap ℕ ℕ = (stream_ids stream_id newfds).0 in
      let n' : names (keys ids) fd ≡ false = elim (Bool-cases (names (keys ids) fd)) [
        | inl k ↦ (let z : true ≡ false = sym (names-stream_ids stream_id newfds fd k) ∙ n in cc)
        | inr k ↦ k
      ] in
      (
        fd,
        lookup-delete_all fd newfds (put_all ids eventids)
            ∙ ap (λ b. if b then none else lookup fd (put_all ids eventids)) n
            ∙ not_put ids fd eventids n'
            ∙ h,
      )
]

pub none_named : (fd : ℕ) {R : Type 0} → names [] fd ≡ true → R
unfolding names
none_named fd h = cc

pub closes :
    (newfds : List ℕ) (before now : GoMap ℕ (Unit {0}))
    → Opens newfds before now
    → (k : ℕ) (u : Unit {0}) → lookup k (delete_all newfds now) ≡ some u
    → (names [] k ≡ true) ⊎ (lookup k before ≡ some u)
unfolding Opens
closes newfds before now o k u h = closing newfds before now o k u h
