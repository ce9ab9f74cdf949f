-- ===== src/Sensor/Tests.antt =====
-- Sample caches of pkg/sensor/process_info.go, and the theorems at them.
use capsule.Prelude.{
  ℕ, [], ◌∷◌, Bool, Option, none, some, if◌then◌else◌, ◌≡◌, refl, sym, arith, ◌⊎◌, inl, inr,
  Bool-cases,
}
use mathlib.Core.Path.{subst}
use capsule.Prelude.Int.{ℤ, pos, eqb_ℤ, eqb_ℤ_iff}
use capsule.Prelude.Outcome.{ok, err}
use capsule.Prelude.Maps.{GoMap, lookup}
use capsule.Api.Value.{Bytes}
use capsule.Sensor.Task.{Task, no_cred, Stop}
use capsule.Sensor.TaskCache.{int_key}
use capsule.Sensor.TaskCache.Table.{map_cache}
use capsule.Sensor.TaskCache.Contract.{Tasks, inserted}
use capsule.Sensor.TaskCache.Laws.{map_cache-IsTaskCache}
use capsule.Sensor.ProcessInfo.{
  Name, Scalar, Datum, Sample, comm_bytes, new_task, lookup_leader, process_container_id,
  decode_new_task,
}
use capsule.Sensor.ProcessInfo.Ancestors.{
  Leader, Container, Reported, Ranked, Loops, lookup_leader_lem, process_container_id_lem,
  process_container_id-cycle,
}
use capsule.Sensor.ProcessInfo.NewTask.{Fresh, NewTaskSample, decode_new_task_lem}

abbrev entry : ℕ → ℕ → Bytes → Task
entry p pp id = record {
  pid = pos p;
  tgid = pos p;
  ppid = pos pp;
  clone_flags = 0;
  command = [];
  command_line = [];
  creds = no_cred;
  container_id = id;
}

abbrev tasks : GoMap ℤ Task → Tasks
tasks s j = lookup j s

-- A container's first process.
abbrev single : GoMap ℤ Task
single = (pos 1, entry 1 0 (99 ∷ [])) ∷ []

only_entry : (p : ℤ) (t : Task) → tasks single p ≡ some t → (pos 1 ≡ p) × (t ≡ entry 1 0 (99 ∷ []))
unfolding lookup
only_entry p t h = elim (Bool-cases (eqb_ℤ (pos 1) p)) [
  | inl e ↦
      let z : pos 1 ≡ p = (eqb_ℤ_iff (pos 1) p).0 e in
      (z, cc (subst (λ q. tasks single q ≡ some t) (sym z) h))
  | inr e ↦ ground arith
]

abbrev depth : ℤ → ℕ
depth p = if eqb_ℤ (pos 1) p then 1 else 0

single-Ranked : Ranked (λ p. Unit) (tasks single) depth
single-Ranked = record {
  below = λ p t h. let (e, f) = only_entry p t h in rw (f, sym e) omega arith;
  closed = λ p t h. tt;
}

lookup_leader_lem_example :
    (o : Option Task) × (r : Task × Bool) × (lookup_leader map_cache 1 (pos 5) single ≡ ok r)
    × Leader (tasks single) (pos 5) o
    × Reported o r
lookup_leader_lem_example =
    lookup_leader_lem map_cache (λ p. Unit) (λ s. Unit) (λ s j. lookup j s) map_cache-IsTaskCache
      single tt depth single-Ranked 1 (pos 5) tt (omega arith)

process_container_id_lem_example :
    (r : Bytes × Bool) × (process_container_id map_cache 2 (pos 1) single ≡ ok r)
    × Container (tasks single) (pos 1) r
process_container_id_lem_example =
    process_container_id_lem map_cache (λ p. Unit) (λ s. Unit) (λ s j. lookup j s)
      map_cache-IsTaskCache single tt depth single-Ranked 2 (pos 1) tt (omega arith)

-- Two tasks, each the other's parent: what the kernel's events tell when a PID is used again.
abbrev cyclic : GoMap ℤ Task
cyclic = (pos 5, entry 5 7 []) ∷ (pos 7, entry 7 5 []) ∷ []

abbrev Either : ℤ → Type 0
Either p = (pos 5 ≡ p) ⊎ (pos 7 ≡ p)

cyclic-Loops : Loops (λ p. Unit) (tasks cyclic) Either
unfolding lookup
cyclic-Loops = record {
  ranges = λ p w. tt;
  goes_on = λ p w. elim w [
    | inl e ↦ (entry 5 7 [], rw (sym e), refl, inr refl)
    | inr e ↦ (entry 7 5 [], rw (sym e), refl, inl refl)
  ];
}

process_container_id-cycle_example :
    process_container_id map_cache 1000 (pos 5) cyclic ≡ err Stop.running
process_container_id-cycle_example =
    process_container_id-cycle map_cache (λ p. Unit) (λ s. Unit) (λ s j. lookup j s)
      map_cache-IsTaskCache cyclic tt Either cyclic-Loops 1000 (pos 5) (inl refl)

-- PID 1 clones PID 7.
abbrev clone : Sample
clone Name.common_pid = some (Datum.scalar (Scalar.int32 (pos 1)))
clone Name.pid = some (Datum.scalar (Scalar.int32 (pos 7)))
clone Name.clone_flags = some (Datum.scalar (Scalar.uint64 0))
clone Name.comm = some (Datum.array (Scalar.int8 (pos 65) ∷ Scalar.int8 (pos 0) ∷ []))
clone n = none

clone_sample : NewTaskSample clone
unfolding comm_bytes
clone_sample = record {
  parent = pos 1;
  child = pos 7;
  flags = 0;
  chars = Scalar.int8 (pos 65) ∷ Scalar.int8 (pos 0) ∷ [];
  command = 65 ∷ 0 ∷ [];
  has_parent = refl;
  has_child = refl;
  has_flags = refl;
  has_comm = refl;
  has_command = refl;
}

clone-Fresh : Fresh (tasks single) (pos 1) (pos 7)
clone-Fresh = record {
  childless = λ p t h z. let (e, f) = only_entry p t h in cc;
  not_parent = λ z. ground arith;
  parent_set = λ z. ground arith;
  child_set = λ z. ground arith;
}

decode_new_task_lem_example :
    (s' : GoMap ℤ Task) × (r : Bytes × Bool) × (decode_new_task map_cache 2 clone single ≡ ok s')
    × Unit {0}
    × ((j : ℤ)
        → tasks s' j
          ≡ inserted (pos 7) (new_task (pos 1) (pos 7) 0 (65 ∷ 0 ∷ []) r.0) (tasks single) j)
    × Container (tasks single) (pos 1) r
    × Container (tasks s') (pos 7) r
    × ((depth' : ℤ → ℕ) × Ranked (λ p. Unit) (tasks s') depth')
unfolding clone_sample
decode_new_task_lem_example =
    decode_new_task_lem map_cache (λ p. Unit) (λ s. Unit) (λ s j. lookup j s) map_cache-IsTaskCache
      single tt depth clone clone_sample 2 single-Ranked tt tt clone-Fresh (omega arith)
