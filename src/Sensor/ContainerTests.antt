-- ===== src/Sensor/ContainerTests.antt =====
-- Messages about containers, and events that a container filter sees, for the theorems of their modules.
use capsule.Prelude.{List, [], ◌∷◌, true, false, none, some, ◌≡◌, refl}
use capsule.Prelude.Int.{pos}
use capsule.Prelude.Outcome.{ok}
use capsule.Prelude.Bytes.{bytes_eq}
use capsule.Api.Value.{Bytes}
use capsule.Sensor.ContainerEvents.{
  State, Message, ContainerEventType, ContainerEvent, WaitStatus, ContainerEventRepeater, new_event,
  translate_all, new_container_event_repeater,
}
use capsule.Sensor.ContainerEvents.Spec.{
  AllKnown, is_created, is_started, messages, creates, runs, events, pairs, two_created,
  two_started,
}
use capsule.Sensor.ContainerEvents.Pairs.{events-translate_all}
use capsule.Sensor.ContainerFilter.{
  ContainerFilterSpec, Event, Glob, new_container_filter, filter_all,
}
use capsule.Sensor.ContainerFilter.Sets.{listed}
use capsule.Sensor.ContainerFilter.Images.{any_pattern}
use capsule.Sensor.ContainerFilter.History.{
  describes, learn, accepted, filter_all-new_container_filter,
}

-- A wait status that is always an exit with the code 0.
abbrev wait_status : WaitStatus
wait_status = record {
  exited = λ z. true;
  exit_status = λ z. 0;
  signaled = λ z. false;
  signal = λ z. 0;
  core_dump = λ z. false;
}

abbrev message : Bytes → State → Bytes → Message
message id state config = record {
  id = id;
  name = 110 ∷ [];
  state = state;
  image_id = [];
  image = [];
  pid = 9;
  docker_config = config;
  oci_config = [];
  exit_code = pos 0;
}

abbrev c1 : Bytes
c1 = 49 ∷ []

abbrev c2 : Bytes
c2 = 50 ∷ []

-- The creations of two containers interleave; the second waits for its other one.
abbrev lifecycle : List Message
lifecycle =
    message c1 State.container_created (123 ∷ [])
    ∷ message c2 State.container_created []
    ∷ message c1 State.container_created []
    ∷ message c1 State.container_started []
    ∷ message c1 State.container_started (125 ∷ [])
    ∷ message c1 State.container_removed []
    ∷ []

lifecycle-Known : AllKnown lifecycle
unfolding AllKnown
lifecycle-Known = (tt, (tt, (tt, (tt, (tt, (tt, tt))))))

events-translate_all_example :
    (out : List (Bytes × ContainerEvent)) × (cer : ContainerEventRepeater) × (translate_all
        wait_status lifecycle new_container_event_repeater
      ≡ ok (out, cer))
    × (events creates c1 out ≡ pairs two_created none (messages is_created c1 lifecycle))
    × (events runs c1 out ≡ pairs two_started none (messages is_started c1 lifecycle))
events-translate_all_example = events-translate_all wait_status c1 lifecycle lifecycle-Known

-- A glob that matches its own pattern.
abbrev literal : Glob
literal = record { G = Bytes; compile = λ p. some p; match_name = λ g name. bytes_eq g name }

abbrev by_image : ContainerFilterSpec
by_image = record { ids = []; names = []; image_ids = []; image_names = (105 ∷ []) ∷ [] }

abbrev event_of : Bytes → ContainerEventType → Bytes → Event
event_of id t image = record {
  container_id = id;
  container = some (record (new_event t) { image_name = image });
}

-- The container is known from its creation to its destruction.
abbrev history : List Event
history =
    record { container_id = c1; container = none }
    ∷ event_of c1 ContainerEventType.created (105 ∷ [])
    ∷ record { container_id = c1; container = none }
    ∷ event_of c1 ContainerEventType.destroyed []
    ∷ record { container_id = c1; container = none }
    ∷ []

filter_all-new_container_filter_example :
    (filter_all literal history (new_container_filter literal by_image)).0
    ≡ accepted literal by_image (listed by_image.ids) history
filter_all-new_container_filter_example = filter_all-new_container_filter literal by_image history

let_through :
    accepted literal by_image (listed by_image.ids) history
    ≡ event_of c1 ContainerEventType.created (105 ∷ [])
      ∷ record { container_id = c1; container = none }
      ∷ event_of c1 ContainerEventType.destroyed []
      ∷ []
unfolding accepted describes learn listed any_pattern bytes_eq
let_through = refl
