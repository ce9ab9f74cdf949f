-- ===== src/Sensor/ProcessInfo.antt =====
-- `ProcessInfoCache` of pkg/sensor/process_info.go, over any `taskCache`: the walks from a task to
-- its ancestors, and the handlers of the kernel's events.
--
-- A walk is a loop with no bound of its own, so it runs on fuel here. `/proc`, the boot identifier
-- and the hash are parameters. `sample` is the decoded sample of an event, a map from field names.
pub mod Ancestors
pub mod NewTask
use capsule.Prelude.{
  ℕ, zero, suc, ◌/◌, ◌%◌, ◌^◌, List, [], ◌∷◌, ◌++◌, Bool, true, false, Option, none, some, not,
  ◌&&◌, ◌==◌, if◌then◌else◌, length, bit_and,
}
use capsule.Prelude.Int.{ℤ, pos, eqb_ℤ, to_u64}
use capsule.Prelude.Outcome.{Outcome, ok, err, panic, ◌>>=◌, ◌>>◌}
use capsule.Api.Value.{Bytes}
use capsule.Sensor.Task.{Task, Cred, no_cred, Stop}
use capsule.Sensor.TaskCache.{TaskCache}

-- The names of the fields that the handlers read.
pub data Name : Type 0 where
  common_pid pid clone_flags comm usage uid gid : Name
  argv : ℕ → Name

-- The values of the fields: Go's `interface{}` with the types that are asserted.
pub data Scalar : Type 0 where
  int8 int32 : ℤ → Scalar
  uint32 uint64 : ℕ → Scalar

pub data Datum : Type 0 where
  scalar : Scalar → Datum
  string : Bytes → Datum
  array : List Scalar → Datum

abbrev pub Sample : Type 0
Sample = Name → Option Datum

-- A type assertion on a field that is missing, or of another type, panics.
as_int32 : Option Datum → Outcome Stop ℤ
as_int32 (some (Datum.scalar (Scalar.int32 x))) = ok x
as_int32 o = panic

as_uint32 : Option Datum → Outcome Stop ℕ
as_uint32 (some (Datum.scalar (Scalar.uint32 x))) = ok x
as_uint32 o = panic

as_uint64 : Option Datum → Outcome Stop ℕ
as_uint64 (some (Datum.scalar (Scalar.uint64 x))) = ok x
as_uint64 o = panic

as_string : Option Datum → Outcome Stop Bytes
as_string (some (Datum.string x)) = ok x
as_string o = panic

as_array : Option Datum → Outcome Stop (List Scalar)
as_array (some (Datum.array x)) = ok x
as_array o = panic

-- `len(s) == 0`
abbrev pub is_empty : Bytes → Bool
is_empty [] = true
is_empty (b ∷ bs) = false

zeros : {A : Type 0} → List A → Bytes
zeros [] = []
zeros (x ∷ xs) = 0 ∷ zeros xs

-- The bytes before the first NUL, padded with NULs to the length of the array.
unfoldable pub comm_bytes : List Scalar → Outcome Stop Bytes
unfolding zeros
comm_bytes [] = ok []
comm_bytes (Scalar.int8 b ∷ rest) = elim (eqb_ℤ b (pos 0)) [
  | true ↦ ok (0 ∷ zeros rest)
  | false ↦ do bytes ← comm_bytes rest; ok ((to_u64 b % 256) ∷ bytes)
]
comm_bytes (d ∷ rest) = panic

-- The little-endian bytes of `int32(n)`.
unfoldable pub int32_bytes : ℤ → Bytes
int32_bytes n =
    (to_u64 n % 2 ^ 8)
    ∷ (to_u64 n / 2 ^ 8 % 2 ^ 8)
    ∷ (to_u64 n / 2 ^ 16 % 2 ^ 8)
    ∷ (to_u64 n / 2 ^ 24 % 2 ^ 8)
    ∷ []

-- `DeriveUniqueID` of pkg/sys/proc/proc.go, where `digest` is SHA-256 printed in hexadecimal.
unfoldable pub derive_unique_id : (digest : Bytes → Bytes) → (boot_id : Bytes) → ℤ → ℤ → Bytes
unfolding int32_bytes
derive_unique_id digest boot_id p pp = digest (boot_id ++ int32_bytes p ++ int32_bytes pp)

-- The task that `decodeNewTask` inserts.
unfoldable pub new_task : ℤ → ℤ → ℕ → Bytes → Bytes → Task
new_task parent child flags command container_id = record {
  pid = child;
  tgid = if bit_and flags 65536 == 0 then child else parent;
  ppid = parent;
  clone_flags = flags;
  command = command;
  command_line = [];
  creds = no_cred;
  container_id = container_id;
}

module _ {S : Type 0} (c : TaskCache S) where
  unfoldable pub lookup_leader : ℕ → ℤ → S → Outcome Stop (Task × Bool)
  lookup_leader zero p s = err Stop.running
  lookup_leader (suc fuel) p s = do
    (t, found) ← c.look_task p s
    elim (found && not (eqb_ℤ t.pid t.tgid)) [
      | true ↦ lookup_leader fuel t.ppid s
      | false ↦ ok (t, eqb_ℤ t.pid t.tgid)
    ]

  unfoldable pub process_id : (Bytes → Bytes) → Bytes → ℕ → ℤ → S → Outcome Stop (Bytes × Bool)
  unfolding lookup_leader derive_unique_id
  process_id digest boot_id fuel p s = do
    (leader, found) ← lookup_leader fuel p s
    if found
        then ok (derive_unique_id digest boot_id leader.pid leader.ppid, true)
        else ok ([], false)

  unfoldable pub process_container_id : ℕ → ℤ → S → Outcome Stop (Bytes × Bool)
  process_container_id zero p s = err Stop.running
  process_container_id (suc fuel) p s = do
    (t, found) ← c.look_task p s
    elim found [
      | false ↦ ok ([], false)
      | true ↦ elim (is_empty t.container_id) [
        | true ↦ process_container_id fuel t.ppid s
        | false ↦ ok (t.container_id, true)
      ]
    ]

  unfoldable pub process_command_line : ℤ → S → Outcome Stop (List Bytes × Bool)
  process_command_line p s = do (t, found) ← c.look_task p s; ok (t.command_line, found)

  unfoldable pub decode_new_task : ℕ → Sample → S → Outcome Stop S
  unfolding as_int32 as_uint64 as_array comm_bytes process_container_id new_task
  decode_new_task fuel sample s = do
    parent ← as_int32 (sample Name.common_pid)
    child ← as_int32 (sample Name.pid)
    flags ← as_uint64 (sample Name.clone_flags)
    chars ← as_array (sample Name.comm)
    command ← comm_bytes chars
    (container_id, _) ← process_container_id fuel parent s
    c.insert_task child (new_task parent child flags command container_id) s

  unfoldable pub decode_commit_creds : Sample → S → Outcome Stop S
  unfolding as_int32 as_uint32 as_uint64
  decode_commit_creds sample s = do
    p ← as_int32 (sample Name.common_pid)
    use_count ← as_uint64 (sample Name.usage)
    (if use_count == 0 then err Stop.fatal else ok tt)
    u ← as_uint32 (sample Name.uid)
    g ← as_uint32 (sample Name.gid)
    c.set_task_credentials p (record { initialized = true; uid = u; gid = g }) s

  -- `procFS.ContainerID(pid)`, then the entry is set where /proc names a container.
  unfoldable pub set_from_proc : (ℤ → Option Bytes) → ℤ → S → Outcome Stop S
  set_from_proc container_of p s = elim (container_of p) [
    | none ↦ ok s
    | some id ↦ elim (is_empty id) [ true ↦ ok s | false ↦ c.set_task_container_id p id s ]
  ]

  unfoldable pub decode_runc_task_rename : (ℤ → Option Bytes) → Sample → S → Outcome Stop S
  unfolding as_int32 set_from_proc
  decode_runc_task_rename container_of sample s = do
    p ← as_int32 (sample Name.pid)
    (t, _) ← c.look_task p s
    elim (is_empty t.container_id) [
      | true ↦ set_from_proc container_of p s
      | false ↦ do
        (parent, _) ← c.look_task t.ppid s
        elim (is_empty parent.container_id) [
          | true ↦ set_from_proc container_of parent.pid s
          | false ↦ ok s
        ]
    ]

  -- `argv0` to `argv5`, up to the first empty one: `n` names are left, from the `i`-th.
  unfoldable pub arguments : ℕ → ℕ → Sample → Outcome Stop (List Bytes)
  unfolding as_string
  arguments zero i sample = ok []
  arguments (suc n) i sample = do
    a ← as_string (sample (Name.argv i))
    elim (is_empty a) [ true ↦ ok [] | false ↦ do rest ← arguments n (suc i) sample; ok (a ∷ rest) ]

  unfoldable pub decode_execve : Sample → S → Outcome Stop S
  unfolding arguments as_int32
  decode_execve sample s = do
    line ← arguments 6 0 sample
    p ← as_int32 (sample Name.common_pid)
    c.set_task_command_line p line s
