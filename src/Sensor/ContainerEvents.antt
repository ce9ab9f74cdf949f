-- ===== src/Sensor/ContainerEvents.antt =====
-- `translateContainerEvents` of pkg/sensor/container.go: what the watchers of pkg/container tell of a
-- container becomes the events of the API. Docker and OCI both tell of a creation and of a start, so
-- each is held back until the second comes, and merged with it.
--
-- A map that is nil reads as an empty one, and is made before it is written.
pub mod Spec
mod Merge
mod Step
pub mod Pairs
use capsule.Prelude.{
  ℕ, List, [], ◌∷◌, Bool, true, false, ltb, ◌==◌, Option, none, some, length, if◌then◌else◌, ◌^◌,
}
use capsule.Prelude.Int.{ℤ}
use capsule.Prelude.Outcome.{Outcome, ok, panic, ◌>>=◌}
use capsule.Prelude.Maps.{bytes_key, GoMap, lookup, insert, delete}
use capsule.Api.Value.{Bytes}
use capsule.Perf.Decode.{signed}

-- The states of pkg/container/stream.go, and any other number.
pub data State : Type 0 where
  container_created container_started container_stopped container_removed other : State

-- `container.Event`
pub record Message : Type 0 where
  pub id : Bytes
  pub name : Bytes
  pub state : State
  pub image_id : Bytes
  pub image : Bytes
  pub pid : ℕ
  pub docker_config : Bytes
  pub oci_config : Bytes
  pub exit_code : ℤ

pub data ContainerEventType : Type 0 where
  created running exited destroyed : ContainerEventType

-- `api.ContainerEvent`
pub record ContainerEvent : Type 0 where
  pub type : ContainerEventType
  pub name : Bytes
  pub image_id : Bytes
  pub image_name : Bytes
  pub host_pid : ℤ
  pub exit_code : ℤ
  pub exit_status : ℕ
  pub exit_signal : ℕ
  pub exit_core_dumped : Bool
  pub docker_config_json : Bytes
  pub oci_config_json : Bytes

-- The methods of `unix.WaitStatus`.
pub record WaitStatus : Type 0 where
  pub exited : ℤ → Bool
  pub exit_status : ℤ → ℕ
  pub signaled : ℤ → Bool
  pub signal : ℤ → ℕ
  pub core_dump : ℤ → Bool

pub record ContainerEventRepeater : Type 0 where
  pub created_map : GoMap Bytes ContainerEvent
  pub started_map : GoMap Bytes ContainerEvent

abbrev pub new_event : ContainerEventType → ContainerEvent
new_event t = record {
  type = t;
  name = [];
  image_id = [];
  image_name = [];
  host_pid = ℤ.pos 0;
  exit_code = ℤ.pos 0;
  exit_status = 0;
  exit_signal = 0;
  exit_core_dumped = false;
  docker_config_json = [];
  oci_config_json = [];
}

-- `if len(s) > 0 { field = s }`
abbrev pub or_nonempty : Bytes → Bytes → Bytes
or_nonempty [] field = field
or_nonempty (b ∷ s) field = b ∷ s

abbrev pub named_by : Message → ContainerEvent → ContainerEvent
named_by ce ece = record ece { name = ce.name; image_id = ce.image_id; image_name = ce.image }

-- `if ce.Pid != 0 { ece.HostPid = int32(ce.Pid) }`
unfoldable pub with_pid : Message → ContainerEvent → ContainerEvent
unfolding signed
with_pid ce ece = if ce.pid == 0 then ece else record ece { host_pid = signed (2 ^ 31) ce.pid }

-- `if len(ce.DockerConfig) > len(ece.DockerConfigJson) { ... }`
unfoldable pub with_longer : Message → ContainerEvent → ContainerEvent
with_longer ce ece =
    if ltb (length ece.docker_config_json) (length ce.docker_config)
    then record ece { docker_config_json = ce.docker_config }
    else ece

-- What a start adds to the event.
unfoldable pub merge_started : Message → ContainerEvent → ContainerEvent
unfolding with_pid
merge_started ce ece =
    let e = with_pid ce ece in
    record e {
      docker_config_json = or_nonempty ce.docker_config e.docker_config_json;
      oci_config_json = or_nonempty ce.oci_config e.oci_config_json;
    }

-- A first message is held back; a second one completes what was held.
unfoldable pub pair_created :
    Message
    → Option ContainerEvent
    → ContainerEventRepeater
    → Option ContainerEvent × ContainerEventRepeater
unfolding with_longer insert delete
pair_created ce none cer = (
  none,
  record cer {
    created_map =
        insert ce.id (with_longer ce (named_by ce (new_event ContainerEventType.created)))
          cer.created_map;
  },
)
pair_created ce (some ece) cer =
    (some (with_longer ce ece), record cer { created_map = delete ce.id cer.created_map })

unfoldable pub pair_started :
    Message
    → Option ContainerEvent
    → ContainerEventRepeater
    → Option ContainerEvent × ContainerEventRepeater
unfolding merge_started insert delete
pair_started ce none cer = (
  none,
  record cer {
    started_map =
        insert ce.id (merge_started ce (new_event ContainerEventType.running)) cer.started_map;
  },
)
pair_started ce (some ece) cer =
    (some (merge_started ce ece), record cer { started_map = delete ce.id cer.started_map })

-- The exit of a container, with what its wait status tells.
unfoldable pub stopped : WaitStatus → Message → ContainerEvent
unfolding with_pid
stopped ws ce =
    let a = with_pid ce (new_event ContainerEventType.exited) in
    let b = record (named_by ce a) {
      docker_config_json = or_nonempty ce.docker_config a.docker_config_json;
      exit_code = ce.exit_code;
    } in
    if ws.exited ce.exit_code
    then record b { exit_status = ws.exit_status ce.exit_code }
    else if ws.signaled ce.exit_code
    then record b {
      exit_signal = ws.signal ce.exit_code;
      exit_core_dumped = ws.core_dump ce.exit_code;
    }
    else b

-- The configurations of an event that goes out: those of the message, where it has them.
unfoldable pub finish : Message → Option ContainerEvent → Option ContainerEvent
finish ce none = none
finish ce (some ece) = some (record ece {
  docker_config_json = or_nonempty ce.docker_config ece.docker_config_json;
  oci_config_json = or_nonempty ce.oci_config ece.oci_config_json;
})

unfoldable pub by_state :
    WaitStatus
    → State
    → Message
    → ContainerEventRepeater
    → Outcome ⊥ (Option ContainerEvent × ContainerEventRepeater)
unfolding pair_created pair_started stopped lookup
by_state ws State.container_created ce cer = ok (pair_created ce (lookup ce.id cer.created_map) cer)
by_state ws State.container_started ce cer = ok (pair_started ce (lookup ce.id cer.started_map) cer)
by_state ws State.container_stopped ce cer = ok (some (stopped ws ce), cer)
by_state ws State.container_removed ce cer = ok (some (new_event ContainerEventType.destroyed), cer)
by_state ws State.other ce cer = panic

unfoldable pub finished :
    Message
    → Outcome ⊥ (Option ContainerEvent × ContainerEventRepeater)
    → Outcome ⊥ (Option ContainerEvent × ContainerEventRepeater)
unfolding finish
finished ce (ok (e, cer)) = ok (finish ce e, cer)
finished ce r = r

unfoldable pub translate_container_events :
    WaitStatus
    → Message
    → ContainerEventRepeater
    → Outcome ⊥ (Option ContainerEvent × ContainerEventRepeater)
unfolding by_state finished
translate_container_events ws ce cer = finished ce (by_state ws ce.state ce cer)

-- What goes out, with the container it names.
abbrev pub emitted :
    Message → Option ContainerEvent → List (Bytes × ContainerEvent) → List (Bytes × ContainerEvent)
emitted ce none out = out
emitted ce (some ece) out = (ce.id, ece) ∷ out

abbrev pub after :
    Message
    → Option ContainerEvent
    → Outcome ⊥ (List (Bytes × ContainerEvent) × ContainerEventRepeater)
    → Outcome ⊥ (List (Bytes × ContainerEvent) × ContainerEventRepeater)
after ce e (ok (out, cer)) = ok (emitted ce e out, cer)
after ce e r = r

-- `stream.Map` and `stream.Filter` of `NewContainerEventRepeater`: the events of a sequence of
-- messages.
unfoldable pub translate_all :
    WaitStatus
    → List Message
    → ContainerEventRepeater
    → Outcome ⊥ (List (Bytes × ContainerEvent) × ContainerEventRepeater)
unfolding translate_container_events
translate_all ws [] cer = ok ([], cer)
translate_all ws (ce ∷ ces) cer =
    translate_container_events ws ce cer >>= λ r. after ce r.0 (translate_all ws ces r.1)

abbrev pub new_container_event_repeater : ContainerEventRepeater
new_container_event_repeater = record { created_map = []; started_map = [] }
