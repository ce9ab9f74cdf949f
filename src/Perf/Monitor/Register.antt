-- ===== src/Perf/Monitor/Register.antt =====
-- Registrations with the event monitor of pkg/sys/perf/monitor.go, those that fail included, leave it
-- with what belongs to its events.
use mathlib.Core.List.{append_assoc, append-nil}
use mathlib.Core.Path.{subst}
use capsule.Prelude.{
  ℕ, suc, List, [], ◌∷◌, ◌++◌, Bool, true, false, not, ◌&&◌, Option, none, some, if◌then◌else◌, ◌≡◌,
  ◌⊎◌, inl, inr, refl, sym, ap, ◌∙◌, Bool-cases, Option-cases,
}
use capsule.Prelude.Outcome.{Outcome, ok, err, panic}
use capsule.Prelude.Maps.{number_key, GoMap, Unique, lookup, insert, delete_all}
use capsule.Prelude.Maps.Laws.{names, same_self}
use capsule.Prelude.Maps.Entries.{
  none_not_some, of_insert, inserted, not_inserted, of_delete_all, keys,
}
use capsule.Api.Value.{Bytes}
use capsule.Perf.Monitor.{
  RegisteredEvent, Answer, has_filter, perf_event_open, stream_ids, with_id, all_to, places,
}
use capsule.Perf.Monitor.Invariant.{Owned, or_second, or_first, or_false}

-- The descriptors among the answers of the kernel.
abbrev pub answered : List Answer → List ℕ
answered [] = []
answered (a ∷ answers) = elim a.fd [ none ↦ answered answers | some fd ↦ fd ∷ answered answers ]

abbrev pub Distinct : List ℕ → Type 0
Distinct [] = Unit
Distinct (fd ∷ fds) = (names fds fd ≡ false) × Distinct fds

abbrev pub Absent : List ℕ → GoMap ℕ ℕ → Type 0
Absent [] m = Unit
Absent (fd ∷ fds) m = (lookup fd m ≡ none) × Absent fds m

pub not_recorded :
    (fds : List ℕ) (m : GoMap ℕ ℕ) (fd : ℕ)
    → Absent fds m
    → names fds fd ≡ true
    → lookup fd m ≡ none
unfolding names
not_recorded [] m fd a h = cc
not_recorded (g ∷ fds) m fd (e, a) h = elim (Bool-cases (number_key.same g fd)) [
  | inl s ↦ let g' : g ≡ fd = (number_key.same_iff g fd).0 s in ap (λ k. lookup k m) (sym g') ∙ e
  | inr s ↦ not_recorded fds m fd a (or_false _ _ h s)
]

names-left : (fds : List ℕ) (g fd : ℕ) → names fds fd ≡ true → names (fds ++ (g ∷ [])) fd ≡ true
unfolding names
names-left [] g fd h = cc
names-left (x ∷ fds) g fd h = elim (Bool-cases (number_key.same x fd)) [
  | inl s ↦ or_first _ _ s
  | inr s ↦ or_second _ _ (names-left fds g fd (or_false _ _ h s))
]

names-last : (fds : List ℕ) (g : ℕ) → names (fds ++ (g ∷ [])) g ≡ true
unfolding names
names-last [] g = or_first _ _ (same_self g)
names-last (x ∷ fds) g = or_second _ _ (names-last fds g)

-- The descriptors open are those that were open, and those given.
unfoldable pub Opens : List ℕ → GoMap ℕ (Unit {0}) → GoMap ℕ (Unit {0}) → Type 0
Opens newfds before now =
    (k : ℕ) (u : Unit {0})
    → lookup k now ≡ some u
    → (names newfds k ≡ true) ⊎ (lookup k before ≡ some u)

-- After a success the descriptors are those answered; after a failure none is left open.
unfoldable pub Opened :
    List ℕ → GoMap ℕ (Unit {0}) → {E : Type 0} → Outcome E (List ℕ) → GoMap ℕ (Unit {0}) → Type 0
Opened fds before (ok l) now = (l ≡ fds) × Opens fds before now
Opened fds before (err e) now = Opens [] before now
Opened fds before panic now = Opens [] before now

opening :
    (newfds : List ℕ) (fd : ℕ) (before now : GoMap ℕ (Unit {0}))
    → Opens newfds before now
    → Opens (newfds ++ (fd ∷ [])) before (insert fd tt now)
unfolding Opens
opening newfds fd before now o k u h = elim (of_insert fd k tt now u h) [
  | inl (e, g) ↦ inl (ap (names (newfds ++ (fd ∷ []))) (sym e) ∙ names-last newfds fd)
  | inr (e, g) ↦ elim (o k u g) [ inl n ↦ inl (names-left newfds fd k n) | inr i ↦ inr i ]
]

pub closing :
    (newfds : List ℕ) (before now : GoMap ℕ (Unit {0}))
    → Opens newfds before now
    → Opens [] before (delete_all newfds now)
unfolding Opens
closing newfds before now o k u h =
    let (n, g) = of_delete_all newfds k now u h in
    elim (o k u g) [ inl n' ↦ (let z : true ≡ false = sym n' ∙ n in cc) | inr i ↦ inr i ]

pub perf_event_open_lem :
    (E : Type 0) (filter : Bytes) (answers : List Answer) (newfds : List ℕ)
    (before now : GoMap ℕ (Unit {0}))
    → Opens newfds before now
    → Opened
        (newfds ++ answered answers)
        before
        (perf_event_open {E = E} filter answers newfds now).0
        (perf_event_open {E = E} filter answers newfds now).1
unfolding perf_event_open Opened
perf_event_open_lem E filter [] newfds before now o = rw (append-nil newfds) (refl, o)
perf_event_open_lem E filter (a ∷ answers) newfds before now o = elim (Option-cases a.fd) [
  | inl e ↦ rw (perf_event_open, e) (closing newfds before now o)
  | inr (fd, e) ↦
      let o' = opening newfds fd before now o in
      elim (Bool-cases (has_filter filter && not a.accepts_filter)) [
        | inl b ↦
            rw (perf_event_open, e, b) (closing (newfds ++ (fd ∷ [])) before (insert fd tt now) o')
        | inr b ↦
            rw (perf_event_open, e, b)
              (subst
                (λ l.
                  Opened l before
                    (perf_event_open {E = E} filter answers (newfds ++ (fd ∷ []))
                      (insert fd tt now)).0
                    (perf_event_open {E = E} filter answers (newfds ++ (fd ∷ []))
                      (insert fd tt now)).1)
                (append_assoc newfds (fd ∷ []) (answered answers))
                (perf_event_open_lem E filter answers (newfds ++ (fd ∷ [])) before
                  (insert fd tt now) o'))
      ]
]

-- The identifiers that were read are those of the descriptors.
names-with_id :
    (fds : List ℕ) (g fd : ℕ) (o : Option ℕ) (rest : GoMap ℕ ℕ × Bool)
    → names (keys (with_id g o rest).0) fd ≡ true
    → (names (keys rest.0) fd ≡ true → names fds fd ≡ true)
    → names (g ∷ fds) fd ≡ true
unfolding names with_id
names-with_id fds g fd none rest h k = cc
names-with_id fds g fd (some id) rest h k = elim (Bool-cases (number_key.same g fd)) [
  | inl s ↦ or_first (number_key.same g fd) (names fds fd) s
  | inr s ↦ or_second (number_key.same g fd) (names fds fd) (k (or_false _ _ h s))
]

pub names-stream_ids :
    (stream_id : ℕ → Option ℕ) (fds : List ℕ) (fd : ℕ)
    → names (keys (stream_ids stream_id fds).0) fd ≡ true
    → names fds fd ≡ true
unfolding names stream_ids
names-stream_ids stream_id [] fd h = cc
names-stream_ids stream_id (g ∷ fds) fd h =
    names-with_id fds g fd (stream_id g) (stream_ids stream_id fds) h
      (names-stream_ids stream_id fds fd)

without_key : (m : GoMap ℕ ℕ) (k : ℕ) → (names (keys m) k ≡ true → ⊥) → lookup k m ≡ none
unfolding names lookup
without_key [] k h = refl
without_key ((j, v) ∷ m) k h = elim (Bool-cases (number_key.same j k)) [
  | inl s ↦ absurd (h (or_first (number_key.same j k) (names (keys m) k) s))
  | inr s ↦
      ap (λ b. if b then some v else lookup k m) s
      ∙ without_key m k (λ n. h (or_second (number_key.same j k) (names (keys m) k) n))
]

with_id-Unique :
    (g : ℕ) (o : Option ℕ) (rest : GoMap ℕ ℕ × Bool)
    → lookup g rest.0 ≡ none
    → Unique rest.0
    → Unique (with_id g o rest).0
unfolding Unique with_id
with_id-Unique g none rest h u = tt
with_id-Unique g (some id) rest h u = (h, u)

pub stream_ids-Unique :
    (stream_id : ℕ → Option ℕ) (fds : List ℕ) → Distinct fds → Unique (stream_ids stream_id fds).0
unfolding Unique stream_ids
stream_ids-Unique stream_id [] d = tt
stream_ids-Unique stream_id (g ∷ fds) (n, d) =
    with_id-Unique g (stream_id g) (stream_ids stream_id fds)
      (without_key _ g
        λ k. let z : true ≡ false = sym (names-stream_ids stream_id fds g k) ∙ n in cc)
      (stream_ids-Unique stream_id fds d)

other :
    (fd fd' : ℕ) (ids : GoMap ℕ ℕ) (id : ℕ)
    → lookup fd ids ≡ none
    → lookup fd' ids ≡ some id
    → number_key.same fd fd' ≡ false
other fd fd' ids id n e = elim (Bool-cases (number_key.same fd fd')) [
  | inl s ↦ none_not_some id (sym n ∙ ap (λ k. lookup k ids) ((number_key.same_iff fd fd').0 s) ∙ e)
  | inr s ↦ s
]

-- Under each identifier there is a descriptor that has it.
pub of_all_to :
    {V : Type 0} (v : V) (ids : GoMap ℕ ℕ) (id : ℕ)
    → Unique ids
    → names (keys (all_to v ids)) id ≡ true
    → (fd : ℕ) × (lookup fd ids ≡ some id)
unfolding names all_to Unique lookup
of_all_to v [] id u h = cc
of_all_to v ((fd, j) ∷ ids) id (n, u) h = elim (Bool-cases (number_key.same j id)) [
  | inl s ↦ (
    fd,
    ap (λ b. if b then some j else lookup fd ids) (same_self fd)
        ∙ ap some ((number_key.same_iff j id).0 s),
  )
  | inr s ↦
      let (fd', e) = of_all_to v ids id u (or_false _ _ h s) in
      (fd', ap (λ b. if b then some j else lookup fd' ids) (other fd fd' ids id n e) ∙ e)
]

pub names-places :
    (i : ℕ) (fds : List ℕ) (fd : ℕ) → names (keys (places i fds)) fd ≡ true → names fds fd ≡ true
unfolding places names
names-places i [] fd h = h
names-places i (g ∷ fds) fd h = elim (Bool-cases (number_key.same g fd)) [
  | inl s ↦ or_first (number_key.same g fd) (names fds fd) s
  | inr s ↦
      or_second (number_key.same g fd) (names fds fd)
        (names-places (suc i) fds fd (or_false _ _ h s))
]

-- The event's own descriptors, and those of the events before it.
pub own :
    (i : ℕ) (event : RegisteredEvent) (events : GoMap ℕ RegisteredEvent) (fd : ℕ)
    → names event.fds fd ≡ true
    → Owned fd (insert i event events)
unfolding Owned
own i event events fd n = (i, event, inserted i event events, n)

pub still :
    (i : ℕ) (event : RegisteredEvent) (events : GoMap ℕ RegisteredEvent) (fd : ℕ)
    → lookup i events ≡ none
    → Owned fd events
    → Owned fd (insert i event events)
unfolding Owned
still i event events fd h (j, e, g, n) =
    (j, e, not_inserted i j event events (apart (Bool-cases (number_key.same i j))) ∙ g, n)
  where
    apart :
        (number_key.same i j ≡ true) ⊎ (number_key.same i j ≡ false) → number_key.same i j ≡ false
    apart (inl s) =
        none_not_some e (sym h ∙ ap (λ k. lookup k events) ((number_key.same_iff i j).0 s) ∙ g)
    apart (inr s) = s
