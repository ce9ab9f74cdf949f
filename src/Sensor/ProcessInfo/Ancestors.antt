-- ===== src/Sensor/ProcessInfo/Ancestors.antt =====
-- The walks of pkg/sensor/process_info.go from a task to its ancestors: where they end, and what
-- they then report.
use capsule.Prelude.{
  ℕ, zero, suc, ◌<◌, [], Bool, true, false, Option, none, some, ◌≡◌, ◌≢◌, refl, sym, ap, ◌∙◌, arith,
  inl, inr, Bool-cases, Option-cases,
}
use mathlib.Core.Path.{subst}
use capsule.Prelude.Int.{ℤ, pos, eqb_ℤ, eqb_ℤ_iff}
use capsule.Prelude.Outcome.{ok, err}
use capsule.Api.Value.{Bytes}
use capsule.Sensor.Task.{Task, Stop}
use capsule.Sensor.TaskCache.{TaskCache}
use capsule.Sensor.TaskCache.Contract.{Tasks, Looked, IsTaskCache}
use capsule.Sensor.ProcessInfo.{lookup_leader, process_container_id, is_empty}

-- The thread group leader that the walk from a task ends at, if there is one.
pub data Leader (v : Tasks) : ℤ → Option Task → Type 0 where
  missing : {p : ℤ} → v p ≡ none → Leader v p none
  leads : {p : ℤ} {t : Task} → v p ≡ some t → t.pid ≡ t.tgid → Leader v p (some t)
  follows :
      {p : ℤ} {t : Task} {o : Option Task}
      → v p ≡ some t
      → t.pid ≢ t.tgid
      → Leader v t.ppid o
      → Leader v p o

-- The container of a task: its own, or that of the nearest ancestor which has one.
pub data Container (v : Tasks) : ℤ → Bytes × Bool → Type 0 where
  missing : {p : ℤ} → v p ≡ none → Container v p ([], false)
  own :
      {p : ℤ} {t : Task} → v p ≡ some t → t.container_id ≢ [] → Container v p (t.container_id, true)
  inherits :
      {p : ℤ} {t : Task} {r : Bytes × Bool}
      → v p ≡ some t
      → t.container_id ≡ []
      → Container v t.ppid r
      → Container v p r

-- What `lookupLeader` reports for the end of its walk.
abbrev pub Reported : Option Task → Task × Bool → Type 0
Reported none r = (r.0.pid ≡ pos 0) × (r.0.tgid ≡ pos 0) × (r.1 ≡ true)
Reported (some t) r = r ≡ (t, true)

-- Parents stand below their children, and in range.
pub record Ranked (InRange : ℤ → Type 0) (v : Tasks) (depth : ℤ → ℕ) : Type 0 where
  pub below : (p : ℤ) (t : Task) → v p ≡ some t → depth t.ppid < depth p
  pub closed : (p : ℤ) (t : Task) → v p ≡ some t → InRange t.ppid

-- Some PIDs, each of a task with no container whose parent is one of them: a cycle is such.
pub record Loops (InRange : ℤ → Type 0) (v : Tasks) (Within : ℤ → Type 0) : Type 0 where
  pub ranges : (p : ℤ) → Within p → InRange p
  pub goes_on :
      (p : ℤ) → Within p → (t : Task) × (v p ≡ some t) × (t.container_id ≡ []) × Within t.ppid

is_empty_iff : (s : Bytes) → is_empty s ≡ true → s ≡ []
is_empty_iff s h = ground arith

module _ {S : Type 0} (c : TaskCache S) (InRange : ℤ → Type 0) (IsValid : S → Type 0)
    (view : S → Tasks) (k : IsTaskCache c InRange IsValid view) (s : S) (valid : IsValid s) where
  pub look_missing :
      (p : ℤ)
      → InRange p
      → view s p ≡ none
      → (t : Task) × (c.look_task p s ≡ ok (t, false)) × (t.pid ≡ pos 0) × (t.tgid ≡ pos 0)
  look_missing p i a = let (r, e, h) = k.looks p s i valid in go r e (subst (λ o. Looked o r) a h)
    where
      go :
          (r : Task × Bool)
          → c.look_task p s ≡ ok r
          → Looked none r
          → (t : Task) × (c.look_task p s ≡ ok (t, false)) × (t.pid ≡ pos 0) × (t.tgid ≡ pos 0)
      go (t, b) e (f, g, h) = (t, e ∙ rw f, g, h)

  pub look_present :
      (p : ℤ) (t : Task) → InRange p → view s p ≡ some t → c.look_task p s ≡ ok (t, true)
  look_present p t i a =
      let (r, e, h) = k.looks p s i valid in e ∙ ap ok (subst (λ o. Looked o r) a h)

  leader_missing :
      (fuel : ℕ) (p : ℤ) (t : Task)
      → c.look_task p s ≡ ok (t, false)
      → eqb_ℤ t.pid t.tgid ≡ true
      → lookup_leader c (suc fuel) p s ≡ ok (t, true)
  unfolding lookup_leader
  leader_missing fuel p t e f = rw (e, f)

  leader_stops :
      (fuel : ℕ) (p : ℤ) (t : Task)
      → c.look_task p s ≡ ok (t, true)
      → eqb_ℤ t.pid t.tgid ≡ true
      → lookup_leader c (suc fuel) p s ≡ ok (t, true)
  unfolding lookup_leader
  leader_stops fuel p t e f = rw e ground arith

  leader_follows :
      (fuel : ℕ) (p : ℤ) (t : Task)
      → c.look_task p s ≡ ok (t, true)
      → eqb_ℤ t.pid t.tgid ≡ false
      → lookup_leader c (suc fuel) p s ≡ lookup_leader c fuel t.ppid s
  unfolding lookup_leader
  leader_follows fuel p t e f = rw e ground arith

  container_goes_on :
      (fuel : ℕ) (p : ℤ) (t : Task)
      → c.look_task p s ≡ ok (t, true)
      → is_empty t.container_id ≡ true
      → process_container_id c (suc fuel) p s ≡ process_container_id c fuel t.ppid s
  unfolding process_container_id
  container_goes_on fuel p t e f = rw e ground arith

  container_found :
      (fuel : ℕ) (p : ℤ) (t : Task)
      → c.look_task p s ≡ ok (t, true)
      → is_empty t.container_id ≡ false
      → process_container_id c (suc fuel) p s ≡ ok (t.container_id, true)
  unfolding process_container_id
  container_found fuel p t e f = rw e ground arith

  -- `lookupLeader` with fuel above the depth of the task returns: the leader that the walk finds;
  -- and, where the walk leaves the cache, a task whose PID and TGID are 0, which is reported as
  -- found too.
  pub lookup_leader_lem :
      (depth : ℤ → ℕ)
      → Ranked InRange (view s) depth
      → (fuel : ℕ) (p : ℤ) → InRange p
      → depth p < fuel
      → (o : Option Task) × (r : Task × Bool) × (lookup_leader c fuel p s ≡ ok r)
        × Leader (view s) p o
        × Reported o r
  unfolding lookup_leader
  lookup_leader_lem depth ranked zero p i l = absurd (omega arith)
  lookup_leader_lem depth ranked (suc fuel) p i l = elim (Option-cases (view s p)) [
    | inl a ↦
        let (t, e, f, g) = look_missing p i a in
        (
          none,
          (t, true),
          leader_missing fuel p t e ((eqb_ℤ_iff t.pid t.tgid).1 (f ∙ sym g)),
          Leader.missing a,
          (f, g, refl),
        )
    | inr (t, a) ↦ elim (Bool-cases (eqb_ℤ t.pid t.tgid)) [
      | inl e ↦ (
        some t,
        (t, true),
        leader_stops fuel p t (look_present p t i a) e,
        Leader.leads a ((eqb_ℤ_iff t.pid t.tgid).0 e),
        refl,
      )
      | inr e ↦
          let (o, r, h, w, z) =
            lookup_leader_lem depth ranked fuel t.ppid (ranked.closed p t a)
              (omega (arith, ranked.below p t a)) in
          (
            o,
            r,
            leader_follows fuel p t (look_present p t i a) e ∙ h,
            Leader.follows a (λ q. cc ((eqb_ℤ_iff t.pid t.tgid).1 q)) w,
            z,
          )
    ]
  ]

  -- `ProcessContainerId` with fuel above the depth of the task returns, and what it returns is the
  -- container of the task or of its nearest ancestor that has one.
  pub process_container_id_lem :
      (depth : ℤ → ℕ)
      → Ranked InRange (view s) depth
      → (fuel : ℕ) (p : ℤ) → InRange p
      → depth p < fuel
      → (r : Bytes × Bool) × (process_container_id c fuel p s ≡ ok r) × Container (view s) p r
  unfolding process_container_id
  process_container_id_lem depth ranked zero p i l = absurd (omega arith)
  process_container_id_lem depth ranked (suc fuel) p i l = elim (Option-cases (view s p)) [
    | inl a ↦ let (t, e, f, g) = look_missing p i a in (([], false), rw e, Container.missing a)
    | inr (t, a) ↦ elim (Bool-cases (is_empty t.container_id)) [
      | inl e ↦
          let (r, h, w) =
            process_container_id_lem depth ranked fuel t.ppid (ranked.closed p t a)
              (omega (arith, ranked.below p t a)) in
          (
            r,
            container_goes_on fuel p t (look_present p t i a) e ∙ h,
            Container.inherits a (is_empty_iff t.container_id e) w,
          )
      | inr e ↦ (
        (t.container_id, true),
        container_found fuel p t (look_present p t i a) e,
        Container.own a (λ q. cc (ap is_empty q)),
      )
    ]
  ]

  -- From a task of a cycle that has no container, `ProcessContainerId` never returns: it is still
  -- running after every number of rounds.
  pub process_container_id-cycle :
      (Within : ℤ → Type 0)
      → Loops InRange (view s) Within
      → (fuel : ℕ) (p : ℤ) → Within p
      → process_container_id c fuel p s ≡ err Stop.running
  unfolding process_container_id
  process_container_id-cycle Within loops zero p w = refl
  process_container_id-cycle Within loops (suc fuel) p w =
      let (t, a, e, w') = loops.goes_on p w in
      container_goes_on fuel p t (look_present p t (loops.ranges p w) a) (ap is_empty e)
      ∙ (process_container_id-cycle Within loops fuel t.ppid w')
