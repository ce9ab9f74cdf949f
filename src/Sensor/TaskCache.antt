-- ===== src/Sensor/TaskCache.antt =====
-- The interface `taskCache` of pkg/sensor/process_info.go with its two implementations: an array
-- with an entry for every PID below 32768, and a map.
pub mod Array
pub mod Table
pub mod Contract
pub mod Laws
use capsule.Prelude.{List, Bool, ◌↔◌, ◌≡◌, true, arith}
use capsule.Prelude.Int.{ℤ, eqb_ℤ, eqb_ℤ_iff}
use capsule.Prelude.Outcome.{Outcome}
use capsule.Prelude.Maps.{Key}
use capsule.Sensor.Task.{Task, Cred, Stop}
use capsule.Api.Value.{Bytes}

instance abbrev pub int_key : Key ℤ
int_key = record { same = eqb_ℤ; same_iff = eqb_ℤ_iff }

-- The five methods. `look_task` returns what `LookupTask` writes through its pointer, and its
-- result.
pub record TaskCache (S : Type 0) : Type 0 where
  pub look_task : ℤ → S → Outcome Stop (Task × Bool)
  pub insert_task : ℤ → Task → S → Outcome Stop S
  pub set_task_container_id : ℤ → Bytes → S → Outcome Stop S
  pub set_task_credentials : ℤ → Cred → S → Outcome Stop S
  pub set_task_command_line : ℤ → List Bytes → S → Outcome Stop S
