-- ===== src/Sensor/ContainerEvents/Pairs.antt =====
-- Which events a sequence of messages gives: the messages about one container, two by two.
use capsule.Prelude.{
  List, [], ◌∷◌, Bool, true, false, ◌&&◌, Option, none, some, if◌then◌else◌, ◌≡◌, refl, ◌∙◌, ap,
}
use capsule.Prelude.Outcome.{ok}
use capsule.Prelude.Bytes.{bytes_eq}
use capsule.Prelude.Maps.{bytes_key, lookup}
use capsule.Api.Value.{Bytes}
use capsule.Sensor.ContainerEvents.{
  Message, ContainerEvent, WaitStatus, ContainerEventRepeater, translate_container_events, emitted,
  translate_all, new_container_event_repeater,
}
use capsule.Sensor.ContainerEvents.Spec.{
  AllKnown, is_created, is_started, messages, creates, runs, events, pairs, two_created,
  two_started, Holds, waits, due,
}
use capsule.Sensor.ContainerEvents.Step.{step}

due-pairs :
    {A B : Type 0} (f : A → A → B) (b : Bool) (a : A) (h : Option A) (rest : List A)
    → due f b a h (pairs f (waits b a h) rest) ≡ pairs f h (if b then a ∷ rest else rest)
unfolding pairs
due-pairs f false a h rest = refl
due-pairs f true a none rest = refl
due-pairs f true a (some x) rest = refl

-- `Holds` and the events of the messages that follow.
events-translate_all_from :
    (ws : WaitStatus) (c : Bytes) (ces : List Message) (hc hs : Option Message)
    (cer : ContainerEventRepeater)
    → AllKnown ces
    → Holds c hc hs cer
    → (out : List (Bytes × ContainerEvent)) × (cer' : ContainerEventRepeater) × (translate_all ws
          ces cer
        ≡ ok (out, cer'))
      × (events creates c out ≡ pairs two_created hc (messages is_created c ces))
      × (events runs c out ≡ pairs two_started hs (messages is_started c ces))
unfolding translate_all translate_container_events AllKnown events messages pairs
events-translate_all_from ws c [] hc hs cer known holds = ([], cer, refl, refl, refl)
events-translate_all_from ws c (ce ∷ ces) hc hs cer (known, knowns) holds =
    let (e, cer', returned, holds', gives) = step ws c hc hs ce.state ce cer known holds in
    let (out, cer'', returned', creations, starts) =
      events-translate_all_from ws c ces (waits (is_created ce.state && bytes_eq ce.id c) ce hc)
        (waits (is_started ce.state && bytes_eq ce.id c) ce hs) cer' knowns holds' in
    (
      emitted ce e out,
      cer'',
      rw (returned, returned') refl,
      (gives out).0
          ∙ ap (due two_created (is_created ce.state && bytes_eq ce.id c) ce hc) creations
          ∙ due-pairs two_created (is_created ce.state && bytes_eq ce.id c) ce hc
              (messages is_created c ces),
      (gives out).1
          ∙ ap (due two_started (is_started ce.state && bytes_eq ce.id c) ce hs) starts
          ∙ due-pairs two_started (is_started ce.state && bytes_eq ce.id c) ce hs
              (messages is_started c ces),
    )

-- A repeater that is new never panics on messages whose states the watchers give, and for each
-- container the CREATED events that go out are its creations taken two by two, the RUNNING events
-- its starts taken two by two, each with the fields of the two as `two_created` and `two_started`
-- combine them, whatever messages about other containers or in other states come between.
pub events-translate_all :
    (ws : WaitStatus) (c : Bytes) (ces : List Message)
    → AllKnown ces
    → (out : List (Bytes × ContainerEvent)) × (cer : ContainerEventRepeater) × (translate_all ws ces
          new_container_event_repeater
        ≡ ok (out, cer))
      × (events creates c out ≡ pairs two_created none (messages is_created c ces))
      × (events runs c out ≡ pairs two_started none (messages is_started c ces))
unfolding lookup
events-translate_all ws c ces known =
    events-translate_all_from ws c ces none none new_container_event_repeater known (refl, refl)
