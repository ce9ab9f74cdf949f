-- ===== src/Sensor/TaskCache/Contract.antt =====
-- What the sensor asks of a `taskCache` of pkg/sensor/process_info.go.
use capsule.Prelude.{List, Bool, true, false, Option, none, some, if◌then◌else◌, ◌≡◌, ◌≢◌}
use capsule.Prelude.Int.{ℤ, pos, eqb_ℤ}
use capsule.Prelude.Outcome.{Outcome, ok}
use capsule.Api.Value.{Bytes}
use capsule.Sensor.Task.{Task, Cred, Stop}
use capsule.Sensor.TaskCache.{TaskCache}

-- The tasks that a cache holds, by PID.
abbrev pub Tasks : Type 0
Tasks = ℤ → Option Task

abbrev pub map_task : (Task → Task) → Option Task → Option Task
map_task f none = none
map_task f (some t) = some (f t)

-- One entry changed, where there is one.
unfoldable pub changed : (Task → Task) → ℤ → Tasks → Tasks
changed f p v j = if eqb_ℤ p j then map_task f (v j) else v j

unfoldable pub inserted : ℤ → Task → Tasks → Tasks
inserted p t v j = if eqb_ℤ p j then some t else v j

-- What `LookupTask` may return for a task, present or not: the PID and the TGID of an absent one
-- are 0.
abbrev pub Looked : Option Task → Task × Bool → Type 0
Looked none r = (r.1 ≡ false) × (r.0.pid ≡ pos 0) × (r.0.tgid ≡ pos 0)
Looked (some t) r = r ≡ (t, true)

-- The contract, for the PIDs in range, over the tasks that a state holds.
module _ {S : Type 0} (c : TaskCache S) (InRange : ℤ → Type 0) (IsValid : S → Type 0)
    (view : S → Tasks) where
  abbrev pub Wrote : Outcome Stop S → Tasks → Type 0
  Wrote r v = (s : S) × (r ≡ ok s) × IsValid s × ((j : ℤ) → view s j ≡ v j)

  pub record IsTaskCache : Type 0 where
    pub looks :
        (p : ℤ) (s : S)
        → InRange p
        → IsValid s
        → (r : Task × Bool) × (c.look_task p s ≡ ok r) × Looked (view s p) r
    pub inserts :
        (p : ℤ) (t : Task) (s : S)
        → InRange p
        → IsValid s
        → t.tgid ≢ pos 0
        → Wrote (c.insert_task p t s) (inserted p t (view s))
    pub sets_container_id :
        (p : ℤ) (id : Bytes) (s : S)
        → InRange p
        → IsValid s
        → Wrote
            (c.set_task_container_id p id s)
            (changed (λ t. record t { container_id = id }) p (view s))
    pub sets_credentials :
        (p : ℤ) (creds : Cred) (s : S)
        → InRange p
        → IsValid s
        → Wrote
            (c.set_task_credentials p creds s)
            (changed (λ t. record t { creds = creds }) p (view s))
    pub sets_command_line :
        (p : ℤ) (line : List Bytes) (s : S)
        → InRange p
        → IsValid s
        → Wrote
            (c.set_task_command_line p line s)
            (changed (λ t. record t { command_line = line }) p (view s))
