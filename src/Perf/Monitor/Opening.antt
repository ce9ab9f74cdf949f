-- ===== src/Perf/Monitor/Opening.antt =====
-- The descriptors that `perfEventOpen` of pkg/sys/perf/monitor.go opens stay open, and so do those that
-- were open before.
use mathlib.Core.List.{append_assoc, append-nil}
use mathlib.Core.Path.{subst}
use capsule.Prelude.{
  ℕ, List, [], ◌∷◌, ◌++◌, Bool, true, false, not, ◌&&◌, ◌||◌, none, some, ◌≡◌, inl, inr, refl, sym,
  ap, ◌∙◌, Bool-cases, Option-cases, if◌then◌else◌,
}
use capsule.Prelude.Outcome.{Outcome, ok, err, panic}
use capsule.Prelude.Maps.{number_key, GoMap, lookup, insert, delete_all}
use capsule.Prelude.Maps.Laws.{names, lookup-delete_all}
use capsule.Prelude.Maps.Entries.{inserted, not_inserted}
use capsule.Api.Value.{Bytes}
use capsule.Perf.Monitor.{Answer, has_filter, perf_event_open}
use capsule.Perf.Monitor.Register.{answered}

names-append : (xs ys : List ℕ) (k : ℕ) → names (xs ++ ys) k ≡ (names xs k || names ys k)
unfolding names
names-append [] ys k = refl
names-append (x ∷ xs) ys k =
    ap (λ b. number_key.same x k || b) (names-append xs ys k)
    ∙ regroup (number_key.same x k) (names xs k) (names ys k)
  where
    regroup : (a b c : Bool) → (a || (b || c)) ≡ ((a || b) || c)
    regroup true b c = refl
    regroup false b c = refl

neither : (a b : Bool) → (a || b) ≡ false → (a ≡ false) × (b ≡ false)
neither true b h = cc
neither false b h = (refl, h)

not_first : (xs ys : List ℕ) (k : ℕ) → names (xs ++ ys) k ≡ false → names xs k ≡ false
not_first xs ys k h = (neither (names xs k) (names ys k) (sym (names-append xs ys k) ∙ h)).0

-- All of these are open.
unfoldable pub AllOpen : List ℕ → GoMap ℕ (Unit {0}) → Type 0
unfolding names lookup
AllOpen fds now = (k : ℕ) → names fds k ≡ true → lookup k now ≡ some tt

-- What was open before is open now, these apart.
unfoldable pub Stays : List ℕ → GoMap ℕ (Unit {0}) → GoMap ℕ (Unit {0}) → Type 0
unfolding names lookup
Stays fds before now =
    (k : ℕ) → names fds k ≡ false → lookup k before ≡ some tt → lookup k now ≡ some tt

unfoldable pub Kept :
    List ℕ → GoMap ℕ (Unit {0}) → {E : Type 0} → Outcome E (List ℕ) → GoMap ℕ (Unit {0}) → Type 0
unfolding AllOpen Stays
Kept fds before (ok l) now = AllOpen l now × Stays fds before now
Kept fds before (err e) now = Stays fds before now
Kept fds before panic now = Stays fds before now

one_more :
    (newfds : List ℕ) (fd : ℕ) (now : GoMap ℕ (Unit {0}))
    → AllOpen newfds now
    → AllOpen (newfds ++ (fd ∷ [])) (insert fd tt now)
unfolding AllOpen names
one_more newfds fd now o k n = elim (Bool-cases (number_key.same fd k)) [
  | inl s ↦
      ap (λ j. lookup j (insert fd tt now)) (sym ((number_key.same_iff fd k).0 s))
      ∙ inserted fd tt now
  | inr s ↦
      not_inserted fd k tt now s
      ∙ o k (
          first (names newfds k) (number_key.same fd k) s
            (sym (names-append newfds (fd ∷ []) k) ∙ n))
]
  where
    first : (a b : Bool) → b ≡ false → (a || (b || false)) ≡ true → a ≡ true
    first true b e h = refl
    first false true e h = cc
    first false false e h = cc

still_open :
    (newfds : List ℕ) (fd : ℕ) (before now : GoMap ℕ (Unit {0}))
    → Stays newfds before now
    → Stays (newfds ++ (fd ∷ [])) before (insert fd tt now)
unfolding Stays names
still_open newfds fd before now o k n h =
    let (a, b) =
      neither (names newfds k) (names (fd ∷ []) k) (sym (names-append newfds (fd ∷ []) k) ∙ n) in
    not_inserted fd k tt now (neither (number_key.same fd k) false b).0 ∙ o k a h

pub delete_all-Stays :
    (newfds more : List ℕ) (before now : GoMap ℕ (Unit {0}))
    → Stays newfds before now
    → Stays (newfds ++ more) before (delete_all newfds now)
unfolding Stays
delete_all-Stays newfds more before now o k n h =
    let n' = not_first newfds more k n in
    lookup-delete_all k newfds now ∙ ap (λ b. if b then none else lookup k now) n' ∙ o k n' h

pub perf_event_open-Kept :
    (E : Type 0) (filter : Bytes) (answers : List Answer) (newfds : List ℕ)
    (before now : GoMap ℕ (Unit {0}))
    → AllOpen newfds now
    → Stays newfds before now
    → Kept
        (newfds ++ answered answers)
        before
        (perf_event_open {E = E} filter answers newfds now).0
        (perf_event_open {E = E} filter answers newfds now).1
unfolding perf_event_open Kept
perf_event_open-Kept E filter [] newfds before now o s = rw (append-nil newfds) (o, s)
perf_event_open-Kept E filter (a ∷ answers) newfds before now o s = elim (Option-cases a.fd) [
  | inl e ↦ rw (perf_event_open, e) (delete_all-Stays newfds (answered answers) before now s)
  | inr (fd, e) ↦
      let o' = one_more newfds fd now o in
      let s' = still_open newfds fd before now s in
      elim (Bool-cases (has_filter filter && not a.accepts_filter)) [
        | inl b ↦
            rw (perf_event_open, e, b)
              (subst (λ l. Stays l before (delete_all (newfds ++ (fd ∷ [])) (insert fd tt now)))
                (append_assoc newfds (fd ∷ []) (answered answers))
                (delete_all-Stays (newfds ++ (fd ∷ [])) (answered answers) before (insert fd tt now)
                  s'))
        | inr b ↦
            rw (perf_event_open, e, b)
              (subst
                (λ l.
                  Kept l before
                    (perf_event_open {E = E} filter answers (newfds ++ (fd ∷ []))
                      (insert fd tt now)).0
                    (perf_event_open {E = E} filter answers (newfds ++ (fd ∷ []))
                      (insert fd tt now)).1)
                (append_assoc newfds (fd ∷ []) (answered answers))
                (perf_event_open-Kept E filter answers (newfds ++ (fd ∷ [])) before
                  (insert fd tt now) o' s'))
      ]
]
