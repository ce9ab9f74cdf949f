-- ===== src/Sensor/ContainerEvents/Spec.antt =====
-- What a sequence of messages about containers is to give.
use capsule.Prelude.{
  List, [], ◌∷◌, Bool, true, false, ◌==◌, ◌&&◌, Option, none, some, if◌then◌else◌, ◌^◌, ◌≡◌,
}
use capsule.Prelude.Int.{ℤ}
use capsule.Prelude.Outcome.{Outcome, ok}
use capsule.Prelude.Bytes.{bytes_eq}
use capsule.Prelude.Maps.{bytes_key, lookup}
use capsule.Api.Value.{Bytes}
use capsule.Perf.Decode.{signed}
use capsule.Sensor.ContainerEvents.{
  State, Message, ContainerEventType, ContainerEvent, ContainerEventRepeater, new_event,
  or_nonempty, named_by, with_longer, merge_started, finished, emitted,
}

-- A state that the watchers give.
abbrev pub Known : State → Type 0
Known State.other = ⊥
Known s = Unit

unfoldable pub AllKnown : List Message → Type 0
AllKnown [] = Unit
AllKnown (ce ∷ ces) = Known ce.state × AllKnown ces

abbrev pub is_created : State → Bool
is_created State.container_created = true
is_created s = false

abbrev pub is_started : State → Bool
is_started State.container_started = true
is_started s = false

-- The messages about one container whose state the test accepts.
unfoldable pub messages : (State → Bool) → Bytes → List Message → List Message
messages p c [] = []
messages p c (ce ∷ ces) =
    let rest = messages p c ces in if p ce.state && bytes_eq ce.id c then ce ∷ rest else rest

abbrev pub creates : ContainerEventType → Bool
creates ContainerEventType.created = true
creates t = false

abbrev pub runs : ContainerEventType → Bool
runs ContainerEventType.running = true
runs t = false

-- The events about one container whose type the test accepts.
unfoldable pub events :
    (ContainerEventType → Bool) → Bytes → List (Bytes × ContainerEvent) → List ContainerEvent
events p c [] = []
events p c ((k, e) ∷ out) =
    let rest = events p c out in if p e.type && bytes_eq k c then e ∷ rest else rest

-- A list two by two, after an element that waits for another.
unfoldable pub pairs : {A B : Type 0} → (A → A → B) → Option A → List A → List B
pairs f h [] = []
pairs f none (a ∷ rest) = pairs f (some a) rest
pairs f (some h) (a ∷ rest) = f h a ∷ pairs f none rest

abbrev pub pid_or : Message → ℤ → ℤ
pid_or ce old = if ce.pid == 0 then old else signed (2 ^ 31) ce.pid

-- What two creations give: the names of the first, the configurations of the second, the Docker
-- configuration of the first where the second has none.
unfoldable pub two_created : Message → Message → ContainerEvent
two_created a b = record (new_event ContainerEventType.created) {
  name = a.name;
  image_id = a.image_id;
  image_name = a.image;
  docker_config_json = or_nonempty b.docker_config a.docker_config;
  oci_config_json = b.oci_config;
}

-- What two starts give: each field of the second, that of the first where the second has none.
unfoldable pub two_started : Message → Message → ContainerEvent
two_started a b = record (new_event ContainerEventType.running) {
  host_pid = pid_or b (pid_or a (ℤ.pos 0));
  docker_config_json = or_nonempty b.docker_config a.docker_config;
  oci_config_json = or_nonempty b.oci_config a.oci_config;
}

-- The maps for one container, where at most one message of each kind waits.
abbrev pub first_created : Option Message → Option ContainerEvent
first_created none = none
first_created (some a) = some (with_longer a (named_by a (new_event ContainerEventType.created)))

abbrev pub first_started : Option Message → Option ContainerEvent
first_started none = none
first_started (some a) = some (merge_started a (new_event ContainerEventType.running))

-- What waits for a container in the two maps.
abbrev pub Holds : Bytes → Option Message → Option Message → ContainerEventRepeater → Type 0
Holds c hc hs cer =
    (lookup c cer.created_map ≡ first_created hc) × (lookup c cer.started_map ≡ first_started hs)

-- The first of a pair waits; the second does not.
abbrev pub waits : {A : Type 0} → Bool → A → Option A → Option A
waits false ce h = h
waits true ce none = some ce
waits true ce (some h) = none

abbrev pub due : {A B : Type 0} → (A → A → B) → Bool → A → Option A → List B → List B
due f false a h out = out
due f true a none out = out
due f true a (some h) out = f h a ∷ out

-- What one message does to the maps and to the events of a container.
abbrev pub Step :
    Bytes
    → Option Message
    → Option Message
    → State
    → Message
    → Outcome ⊥ (Option ContainerEvent × ContainerEventRepeater)
    → Type 0
Step c hc hs s ce r =
    let bc = is_created s && bytes_eq ce.id c in
    let bs = is_started s && bytes_eq ce.id c in
    (e : Option ContainerEvent) × (cer : ContainerEventRepeater) × (finished ce r ≡ ok (e, cer))
    × Holds c (waits bc ce hc) (waits bs ce hs) cer
    × ((out : List (Bytes × ContainerEvent))
        → (events creates c (emitted ce e out) ≡ due two_created bc ce hc (events creates c out))
          × (events runs c (emitted ce e out) ≡ due two_started bs ce hs (events runs c out)))
