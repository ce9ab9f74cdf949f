-- ===== src/Sensor/ContainerEvents/Step.antt =====
-- One message: what it does to the maps and to the events of a container.
use capsule.Prelude.{
  List, Bool, true, false, ◌==◌, ◌&&◌, Option, none, some, ◌≡◌, refl, ◌∙◌, ap, inl, inr, Bool-cases,
  arith,
}
use capsule.Prelude.Outcome.{ok}
use capsule.Prelude.Bytes.{bytes_eq}
use capsule.Prelude.Maps.{bytes_key, lookup, delete}
use capsule.Prelude.Maps.Laws.{lookup-insert, lookup-delete}
use capsule.Api.Value.{Bytes}
use capsule.Sensor.ContainerEvents.{
  State, Message, ContainerEventType, ContainerEvent, WaitStatus, ContainerEventRepeater, new_event,
  with_pid, pair_created, pair_started, stopped, finish, by_state, finished, emitted,
}
use capsule.Sensor.ContainerEvents.Spec.{
  Known, is_created, is_started, creates, runs, events, two_created, two_started, first_created,
  first_started, Holds, Step,
}
use capsule.Sensor.ContainerEvents.Merge.{complete_created, complete_started}

pub &&-false : (b : Bool) → (b && false) ≡ false
&&-false b = ground arith

-- An event about another container.
pub not_of :
    (p : ContainerEventType → Bool) (c : Bytes) (ce : Message) (e : Option ContainerEvent)
    (out : List (Bytes × ContainerEvent))
    → bytes_eq ce.id c ≡ false
    → events p c (emitted ce e out) ≡ events p c out
unfolding events
not_of p c ce none out ne = refl
not_of p c ce (some e) out ne = rw (ne, &&-false (p e.type))

-- A creation, and a start, of the container.
pub created_here :
    (c : Bytes) (hc hs : Option Message) (ce : Message) (cer : ContainerEventRepeater)
    → bytes_eq ce.id c ≡ true
    → Holds c hc hs cer
    → Step c hc hs State.container_created ce (ok (pair_created ce (first_created hc) cer))
unfolding pair_created finished finish events two_created
created_here c none hs ce cer e holds = rw e (
  none,
  _,
  refl,
  (lookup-insert ce.id c _ cer.created_map ∙ rw e refl, holds.1),
  λ out. (refl, refl),
)
created_here c (some a) hs ce cer e holds =
    let after = record cer { created_map = delete ce.id cer.created_map } in
    rw e (
      some (two_created a ce),
      after,
      ap (λ r. ok (r, after)) (complete_created a ce),
      (lookup-delete ce.id c cer.created_map ∙ rw e, holds.1),
      λ out. (rw e refl, refl),
    )

pub started_here :
    (c : Bytes) (hc hs : Option Message) (ce : Message) (cer : ContainerEventRepeater)
    → bytes_eq ce.id c ≡ true
    → Holds c hc hs cer
    → Step c hc hs State.container_started ce (ok (pair_started ce (first_started hs) cer))
unfolding pair_started finished finish events two_started
started_here c hc none ce cer e holds = rw e (
  none,
  _,
  refl,
  (holds.0, lookup-insert ce.id c _ cer.started_map ∙ rw e refl),
  λ out. (refl, refl),
)
started_here c hc (some a) ce cer e holds =
    let after = record cer { started_map = delete ce.id cer.started_map } in
    rw e (
      some (two_started a ce),
      after,
      ap (λ r. ok (r, after)) (complete_started a ce),
      (holds.0, lookup-delete ce.id c cer.started_map ∙ rw e),
      λ out. (refl, rw e refl),
    )

-- A message about another container, where the maps keep what they hold for this one.
pub Step-there :
    (c : Bytes) (hc hs : Option Message) (s : State) (ce : Message) (x : Option ContainerEvent)
    (cer : ContainerEventRepeater)
    → bytes_eq ce.id c ≡ false
    → Holds c hc hs cer
    → Step c hc hs s ce (ok (x, cer))
unfolding finished
Step-there c hc hs s ce x cer e holds =
    rw (e, &&-false (is_created s), &&-false (is_started s))
      (
        finish ce x,
        cer,
        refl,
        holds,
        λ out. (not_of creates c ce (finish ce x) out e, not_of runs c ce (finish ce x) out e),
      )

pub created_there :
    (c : Bytes) (hc hs : Option Message) (ce : Message) (x : Option ContainerEvent)
    (cer : ContainerEventRepeater)
    → bytes_eq ce.id c ≡ false
    → Holds c hc hs cer
    → Holds c hc hs (pair_created ce x cer).1
unfolding pair_created
created_there c hc hs ce none cer e holds =
    (lookup-insert ce.id c _ cer.created_map ∙ rw e (holds.0), holds.1)
created_there c hc hs ce (some a) cer e holds =
    (lookup-delete ce.id c cer.created_map ∙ rw e (holds.0), holds.1)

pub started_there :
    (c : Bytes) (hc hs : Option Message) (ce : Message) (x : Option ContainerEvent)
    (cer : ContainerEventRepeater)
    → bytes_eq ce.id c ≡ false
    → Holds c hc hs cer
    → Holds c hc hs (pair_started ce x cer).1
unfolding pair_started
started_there c hc hs ce none cer e holds =
    (holds.0, lookup-insert ce.id c _ cer.started_map ∙ rw e (holds.1))
started_there c hc hs ce (some a) cer e holds =
    (holds.0, lookup-delete ce.id c cer.started_map ∙ rw e (holds.1))

-- An event of neither type.
pub Step-neither :
    (c : Bytes) (hc hs : Option Message) (s : State) (ce : Message) (e : ContainerEvent)
    (cer : ContainerEventRepeater)
    → is_created s ≡ false
    → is_started s ≡ false
    → creates e.type ≡ false
    → runs e.type ≡ false
    → Holds c hc hs cer
    → Step c hc hs s ce (ok (some e, cer))
unfolding finished finish events
Step-neither c hc hs s ce e cer a b f g holds =
    rw (a, b) (finish ce (some e), cer, refl, holds, λ out. (rw f refl, rw g refl))

pub with_pid-type : (ce : Message) (ece : ContainerEvent) → (with_pid ce ece).type ≡ ece.type
unfolding with_pid
with_pid-type ce ece = elim (Bool-cases (ce.pid == 0)) [ inl e ↦ rw e refl | inr e ↦ rw e refl ]

pub stopped-type :
    (ws : WaitStatus) (ce : Message) → (stopped ws ce).type ≡ ContainerEventType.exited
unfolding stopped
stopped-type ws ce = elim (Bool-cases (ws.exited ce.exit_code)) [
  | inl e ↦ rw e (with_pid-type ce (new_event ContainerEventType.exited))
  | inr e ↦ elim (Bool-cases (ws.signaled ce.exit_code)) [
    | inl f ↦ rw (e, f) (with_pid-type ce (new_event ContainerEventType.exited))
    | inr f ↦ rw (e, f) (with_pid-type ce (new_event ContainerEventType.exited))
  ]
]

-- Every message.
pub step :
    (ws : WaitStatus) (c : Bytes) (hc hs : Option Message) (s : State) (ce : Message)
    (cer : ContainerEventRepeater)
    → Known s
    → Holds c hc hs cer
    → Step c hc hs s ce (by_state ws s ce cer)
unfolding by_state
step ws c hc hs State.container_created ce cer known holds =
    let x = lookup ce.id cer.created_map in
    let r = pair_created ce x cer in
    elim (Bool-cases (bytes_eq ce.id c)) [
      | inl e ↦
          rw (ap (λ k. lookup k cer.created_map) ((bytes_key.same_iff ce.id c).0 e) ∙ holds.0)
            (created_here c hc hs ce cer e holds)
      | inr e ↦
          Step-there c hc hs State.container_created ce (r.0) (r.1) e
            (created_there c hc hs ce x cer e holds)
    ]
step ws c hc hs State.container_started ce cer known holds =
    let x = lookup ce.id cer.started_map in
    let r = pair_started ce x cer in
    elim (Bool-cases (bytes_eq ce.id c)) [
      | inl e ↦
          rw (ap (λ k. lookup k cer.started_map) ((bytes_key.same_iff ce.id c).0 e) ∙ holds.1)
            (started_here c hc hs ce cer e holds)
      | inr e ↦
          Step-there c hc hs State.container_started ce (r.0) (r.1) e
            (started_there c hc hs ce x cer e holds)
    ]
step ws c hc hs State.container_stopped ce cer known holds =
    Step-neither c hc hs State.container_stopped ce (stopped ws ce) cer refl refl
      (ap creates (stopped-type ws ce)) (ap runs (stopped-type ws ce)) holds
step ws c hc hs State.container_removed ce cer known holds =
    Step-neither c hc hs State.container_removed ce (new_event ContainerEventType.destroyed) cer
      refl refl refl refl holds
step ws c hc hs State.other ce cer known holds = elim known [ ]
