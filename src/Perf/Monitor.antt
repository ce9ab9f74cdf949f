-- ===== src/Perf/Monitor.antt =====
-- The registration of events in pkg/sys/perf/monitor.go: `EventMonitor` with the state that its lock
-- protects. Each operation holds the lock, and is one step.
--
-- What the kernel answers to one registration is a parameter of it. The identifiers of events are
-- counted without the wrap-around at 2 ^ 64. The file descriptors that the
-- kernel holds open for events are a field of the state. Kprobes are files of the kernel, and the
-- calls that write them are left out.
pub mod Invariant
pub mod Close
pub mod Register
pub mod Streams
pub mod Consistent
pub mod Calls
pub mod Recorded
pub mod Opening
pub mod Complete
pub mod Committed
pub mod Attributes
pub mod Rounds
pub mod Dispatch
use capsule.Prelude.{
  ℕ, zero, suc, ◌+◌, List, [], ◌∷◌, ◌++◌, Bool, true, false, not, ◌&&◌, ◌==◌, Option, none, some,
  if◌then◌else◌, length,
}
use Prim.Native.Nat.{bit_or}
use capsule.Prelude.Outcome.{Outcome, ok, err, panic}
use capsule.Prelude.Maps.{number_key, bytes_key, GoMap, lookup, insert, delete, put_all, delete_all}
use capsule.Api.Value.{Bytes}
use capsule.Perf.Attr.{EventAttr}
use capsule.Perf.SafeMap.{
  SafeMap, new_safe_map, contents, get_map, update, update_in_place, remove, remove_in_place,
}
use capsule.Perf.DecoderMap.{Formats, DecoderMap, add_decoder, remove_decoder}

pub data EventType : Type 0 where
  tracepoint kprobe : EventType

pub record RegisteredEvent : Type 0 where
  pub name : Bytes
  pub fds : List ℕ
  pub event_type : EventType

-- `F` is the type of the functions that decode samples.
pub record EventMonitor (F : Type 0) : Type 0 where
  pub is_running : Bool
  pub next_event_id : ℕ
  pub events : GoMap ℕ RegisteredEvent
  pub eventfds : GoMap ℕ ℕ
  pub eventids : GoMap ℕ ℕ
  pub event_attr_map : SafeMap EventAttr
  pub event_id_map : SafeMap ℕ
  pub decoders : Option (DecoderMap F)
  pub default_attr : EventAttr
  pub open_fds : GoMap ℕ (Unit {0})

pub data MonitorError (E : Type 0) : Type 0 where
  format_error : E → MonitorError E
  open_error filter_error ioctl_error : MonitorError E

-- What the kernel answers for one group of events: the file descriptor, or a failure; and whether it
-- takes the filter.
pub record Answer : Type 0 where
  pub fd : Option ℕ
  pub accepts_filter : Bool

-- What it answers to a registration: for each group, and the stream identifier of each descriptor.
pub record Kernel : Type 0 where
  pub answers : List Answer
  pub stream_id : ℕ → Option ℕ

pub record RegisterEventOptions : Type 0 where
  pub disabled : Bool
  pub event_attr : Option EventAttr
  pub filter : Bytes

unfoldable pub fixup_event_attr : EventAttr → EventAttr
fixup_event_attr attr = record attr {
  type = 2;
  size = 64;
  sample_period = 1;
  sample_type = bit_or attr.sample_type (512 + 65536 + 4);
  disabled = true;
  pinned = false;
  freq = false;
  watermark = true;
  use_clock_id = false;
  wakeup_watermark = 1;
}

-- `len(filter) > 0`
abbrev pub has_filter : Bytes → Bool
has_filter [] = false
has_filter (b ∷ filter) = true

module _ {E : Type 0} where
  -- `perfEventOpen`: a descriptor for each group; where one cannot be opened, or does not take the
  -- filter, those opened so far are closed.
  unfoldable pub perf_event_open :
      Bytes
      → List Answer
      → List ℕ
      → GoMap ℕ (Unit {0})
      → Outcome (MonitorError E) (List ℕ) × GoMap ℕ (Unit {0})
  unfolding insert delete_all
  perf_event_open filter [] newfds fds = (ok newfds, fds)
  perf_event_open filter (answer ∷ answers) newfds fds = elim answer.fd [
    | none ↦ (err MonitorError.open_error, delete_all newfds fds)
    | some fd ↦ elim (has_filter filter && not answer.accepts_filter) [
      | true ↦ (err MonitorError.filter_error, delete_all (newfds ++ (fd ∷ [])) (insert fd tt fds))
      | false ↦ perf_event_open filter answers (newfds ++ (fd ∷ [])) (insert fd tt fds)
    ]
  ]

-- One more identifier before those that follow it, or a failure.
unfoldable pub with_id : ℕ → Option ℕ → GoMap ℕ ℕ × Bool → GoMap ℕ ℕ × Bool
with_id fd none rest = ([], false)
with_id fd (some id) rest = ((fd, id) ∷ rest.0, rest.1)

-- The stream identifiers of the descriptors, up to the first failure; and whether there was none.
unfoldable pub stream_ids : (ℕ → Option ℕ) → List ℕ → GoMap ℕ ℕ × Bool
unfolding with_id
stream_ids stream_id [] = ([], true)
stream_ids stream_id (fd ∷ fds) = with_id fd (stream_id fd) (stream_ids stream_id fds)

-- `m[streamid] = v` for each of the identifiers.
unfoldable pub all_to : {V : Type 0} → V → GoMap ℕ ℕ → GoMap ℕ V
all_to v [] = []
all_to v ((fd, id) ∷ ids) = (id, v) ∷ all_to v ids

-- The descriptors with their places.
unfoldable pub places : ℕ → List ℕ → GoMap ℕ ℕ
places i [] = []
places i (fd ∷ fds) = (fd, i) ∷ places (suc i) fds

-- `for _, fd := range event.fds { id, ok := monitor.eventids[fd]; if ok { ids = append(ids, id); ... } }`
unfoldable pub ids_of : List ℕ → GoMap ℕ ℕ → List ℕ
unfolding lookup delete
ids_of [] eventids = []
ids_of (fd ∷ fds) eventids =
    let rest = ids_of fds (delete fd eventids) in
    elim (lookup fd eventids) [ none ↦ ids_of fds eventids | some id ↦ id ∷ rest ]

-- `len(m) == 0`
abbrev pub is_empty : {V : Type 0} → GoMap ℕ V → Bool
is_empty [] = true
is_empty (e ∷ m) = false

-- `if monitor.isRunning { m.update(...) } else { m.updateInPlace(...) }`
unfoldable pub updated : {V : Type 0} → Bool → GoMap ℕ V → SafeMap V → SafeMap V
unfolding update update_in_place
updated true new m = update new m
updated false new m = update_in_place new m

unfoldable pub removed : {V : Type 0} → Bool → List ℕ → SafeMap V → SafeMap V
unfolding remove remove_in_place
removed true ids m = remove ids m
removed false ids m = remove_in_place ids m

module _ {F : Type 0} where
  abbrev pub new_event_monitor : EventAttr → EventMonitor F
  new_event_monitor attr = record {
    is_running = false;
    next_event_id = 1;
    events = [];
    eventfds = [];
    eventids = [];
    event_attr_map = new_safe_map;
    event_id_map = new_safe_map;
    decoders = none;
    default_attr = attr;
    open_fds = [];
  }

  -- The attributes of an event with this identifier.
  abbrev pub attr_of : RegisterEventOptions → ℕ → EventMonitor F → EventAttr
  attr_of opts id m =
      let attr : EventAttr = elim opts.event_attr [
        | none ↦ m.default_attr
        | some attr ↦ fixup_event_attr attr
      ] in
      record attr { config = id; disabled = opts.disabled }

  -- The event is committed: it has an identifier, and its descriptors are recorded.
  unfoldable pub commit :
      Bytes → EventType → EventAttr → List ℕ → GoMap ℕ ℕ → EventMonitor F → EventMonitor F
  unfolding all_to places updated insert put_all
  commit name event_type attr newfds ids m = record m {
    next_event_id = suc m.next_event_id;
    events =
        insert m.next_event_id (record { name = name; fds = newfds; event_type = event_type })
          m.events;
    eventfds = put_all (places 0 newfds) m.eventfds;
    eventids = put_all ids m.eventids;
    event_attr_map = updated m.is_running (put_all (all_to attr ids) []) m.event_attr_map;
    event_id_map = updated m.is_running (put_all (all_to m.next_event_id ids) []) m.event_id_map;
  }

  -- The descriptors are closed, and forgotten.
  unfoldable pub abandon : Bytes → List ℕ → GoMap ℕ ℕ → EventMonitor F → EventMonitor F
  unfolding put_all delete_all remove_decoder
  abandon name newfds ids m = record m {
    eventids = delete_all newfds (put_all ids m.eventids);
    open_fds = delete_all newfds m.open_fds;
    decoders = remove_decoder name m.decoders;
  }

module _ {F E : Type 0} where
  unfoldable pub after_streams :
      Bytes
      → EventType
      → EventAttr
      → List ℕ
      → GoMap ℕ ℕ
      → Bool
      → EventMonitor F
      → Outcome (MonitorError E) ℕ × EventMonitor F
  unfolding commit abandon
  after_streams name event_type attr newfds ids true m =
      (ok m.next_event_id, commit name event_type attr newfds ids m)
  after_streams name event_type attr newfds ids false m =
      (err MonitorError.ioctl_error, abandon name newfds ids m)

  unfoldable pub after_open :
      Bytes
      → EventType
      → EventAttr
      → (ℕ → Option ℕ)
      → Outcome (MonitorError E) (List ℕ)
      → EventMonitor F
      → Outcome (MonitorError E) ℕ × EventMonitor F
  unfolding stream_ids after_streams remove_decoder
  after_open name event_type attr stream_id (ok newfds) m =
      let (ids, all) = stream_ids stream_id newfds in
      after_streams name event_type attr newfds ids all m
  after_open name event_type attr stream_id (err e) m =
      (err e, record m { decoders = remove_decoder name m.decoders })
  after_open name event_type attr stream_id panic m = (panic, m)

  unfoldable pub after_add :
      Kernel
      → Bytes
      → RegisterEventOptions
      → EventType
      → Outcome E ℕ
      → EventMonitor F
      → Outcome (MonitorError E) ℕ × EventMonitor F
  unfolding after_open perf_event_open fixup_event_attr
  after_add kernel name opts event_type (ok id) m =
      let (opened, fds) = perf_event_open opts.filter kernel.answers [] m.open_fds in
      after_open name event_type (attr_of opts id m) kernel.stream_id opened
        (record m { open_fds = fds })
  after_add kernel name opts event_type (err e) m = (err (MonitorError.format_error e), m)
  after_add kernel name opts event_type panic m = (panic, m)

  unfoldable pub new_registered_event :
      Formats E
      → Kernel
      → Bytes
      → F
      → RegisterEventOptions
      → EventType
      → EventMonitor F
      → Outcome (MonitorError E) ℕ × EventMonitor F
  unfolding after_add add_decoder
  new_registered_event format kernel name fn opts event_type m =
      let (added, decoders) = add_decoder format name fn m.decoders in
      after_add kernel name opts event_type added (record m { decoders = decoders })

module _ {F : Type 0} where
  -- `removeRegisteredEvent`; the descriptors of the event are closed.
  unfoldable pub remove_registered_event : RegisteredEvent → EventMonitor F → EventMonitor F
  unfolding ids_of delete_all removed remove_decoder
  remove_registered_event event m =
      let ids = ids_of event.fds m.eventids in
      record m {
        eventfds = delete_all event.fds m.eventfds;
        eventids = delete_all event.fds m.eventids;
        event_attr_map = removed m.is_running ids m.event_attr_map;
        event_id_map = removed m.is_running ids m.event_id_map;
        decoders = remove_decoder event.name m.decoders;
        open_fds = delete_all event.fds m.open_fds;
      }

  unfoldable pub unregister_found :
      Option RegisteredEvent → ℕ → EventMonitor F → Bool × EventMonitor F
  unfolding remove_registered_event delete
  unregister_found none eventid m = (false, m)
  unregister_found (some event) eventid m =
      (true, remove_registered_event event (record m { events = delete eventid m.events }))

  -- `UnregisterEvent`, and whether the event was registered.
  unfoldable pub unregister_event : ℕ → EventMonitor F → Bool × EventMonitor F
  unfolding unregister_found lookup
  unregister_event eventid m = unregister_found (lookup eventid m.events) eventid m

  -- `for _, event := range monitor.events { monitor.removeRegisteredEvent(event) }`
  unfoldable pub remove_events : GoMap ℕ RegisteredEvent → EventMonitor F → EventMonitor F
  unfolding remove_registered_event
  remove_events [] m = m
  remove_events ((id, event) ∷ events) m = remove_events events (remove_registered_event event m)

  -- `Close`, once the monitor has stopped: the four tests panic where something is left over.
  unfoldable pub close : EventMonitor F → Outcome ⊥ (EventMonitor F)
  unfolding remove_events contents get_map
  close m =
      let m' = record (remove_events m.events m) { events = [] } in
      if is_empty m'.eventfds
        && is_empty m'.eventids
        && is_empty (contents m'.event_attr_map.heap (get_map m'.event_attr_map))
        && is_empty (contents m'.event_id_map.heap (get_map m'.event_id_map))
      then ok m'
      else panic
