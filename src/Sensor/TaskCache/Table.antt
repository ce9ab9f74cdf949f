-- ===== src/Sensor/TaskCache/Table.antt =====
-- `mapTaskCache` of pkg/sensor/process_info.go.
use capsule.Prelude.{List, Bool, true, false, Option, none, some}
use capsule.Prelude.Int.{ℤ}
use capsule.Prelude.Outcome.{Outcome, ok}
use capsule.Prelude.Maps.{GoMap, lookup, insert}
use capsule.Api.Value.{Bytes}
use capsule.Sensor.Task.{Task, Cred, zero_task, Stop}
use capsule.Sensor.TaskCache.{int_key, TaskCache}

-- The entry of a map, with its test, where a missing entry reads as the zero value.
unfoldable pub found : Option Task → Task × Bool
found none = (zero_task, false)
found (some t) = (t, true)

-- The entry is changed where there is one.
unfoldable pub change : (Task → Task) → ℤ → GoMap ℤ Task → GoMap ℤ Task
unfolding lookup insert
change f pid c = elim (lookup pid c) [ none ↦ c | some t ↦ insert pid (f t) c ]

unfoldable pub look_task : ℤ → GoMap ℤ Task → Outcome Stop (Task × Bool)
unfolding lookup found
look_task pid c = ok (found (lookup pid c))

unfoldable pub insert_task : ℤ → Task → GoMap ℤ Task → Outcome Stop (GoMap ℤ Task)
unfolding insert
insert_task pid t c = ok (insert pid t c)

unfoldable pub set_task_container_id : ℤ → Bytes → GoMap ℤ Task → Outcome Stop (GoMap ℤ Task)
unfolding change
set_task_container_id pid id c = ok (change (λ t. record t { container_id = id }) pid c)

unfoldable pub set_task_credentials : ℤ → Cred → GoMap ℤ Task → Outcome Stop (GoMap ℤ Task)
unfolding change
set_task_credentials pid creds c = ok (change (λ t. record t { creds = creds }) pid c)

unfoldable pub set_task_command_line : ℤ → List Bytes → GoMap ℤ Task → Outcome Stop (GoMap ℤ Task)
unfolding change
set_task_command_line pid line c = ok (change (λ t. record t { command_line = line }) pid c)

abbrev pub map_cache : TaskCache (GoMap ℤ Task)
map_cache = record {
  look_task = look_task;
  insert_task = insert_task;
  set_task_container_id = set_task_container_id;
  set_task_credentials = set_task_credentials;
  set_task_command_line = set_task_command_line;
}
