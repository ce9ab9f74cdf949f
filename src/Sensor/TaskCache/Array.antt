-- ===== src/Sensor/TaskCache/Array.antt =====
-- `arrayTaskCache` of pkg/sensor/process_info.go.
use capsule.Prelude.{ℕ, List, Bool, not, ltb, ◌==◌, if◌then◌else◌}
use capsule.Prelude.Int.{ℤ, pos, negsuc, eqb_ℤ}
use capsule.Prelude.Outcome.{Outcome, ok, panic, ◌>>=◌}
use capsule.Api.Value.{Bytes}
use capsule.Sensor.Task.{Task, Cred, zero_task, Stop}
use capsule.Sensor.TaskCache.{TaskCache}

abbrev pub array_task_cache_size : ℕ
array_task_cache_size = 32768

-- `[arrayTaskCacheSize]task`
abbrev pub Entries : Type 0
Entries = ℕ → Task

-- The index of an entry, or the panic of an index out of range.
unfoldable pub index : ℤ → Outcome Stop ℕ
index (pos i) = if ltb i array_task_cache_size then ok i else panic
index (negsuc i) = panic

unfoldable pub put : ℕ → Task → Entries → Entries
put i t c j = if i == j then t else c j

unfoldable pub look_task : ℤ → Entries → Outcome Stop (Task × Bool)
unfolding index
look_task pid c = do i ← index pid; ok (c i, not (eqb_ℤ (c i).tgid (pos 0)))

unfoldable pub insert_task : ℤ → Task → Entries → Outcome Stop Entries
unfolding index put
insert_task pid t c = do i ← index pid; ok (put i t c)

unfoldable pub set_task_container_id : ℤ → Bytes → Entries → Outcome Stop Entries
unfolding index put
set_task_container_id pid id c = do i ← index pid; ok (put i (record (c i) { container_id = id }) c)

unfoldable pub set_task_credentials : ℤ → Cred → Entries → Outcome Stop Entries
unfolding index put
set_task_credentials pid creds c = do i ← index pid; ok (put i (record (c i) { creds = creds }) c)

unfoldable pub set_task_command_line : ℤ → List Bytes → Entries → Outcome Stop Entries
unfolding index put
set_task_command_line pid line c = do
  i ← index pid
  ok (put i (record (c i) { command_line = line }) c)

abbrev pub new_array_task_cache : Entries
new_array_task_cache i = zero_task

abbrev pub array_cache : TaskCache Entries
array_cache = record {
  look_task = look_task;
  insert_task = insert_task;
  set_task_container_id = set_task_container_id;
  set_task_credentials = set_task_credentials;
  set_task_command_line = set_task_command_line;
}
