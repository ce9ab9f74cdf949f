-- ===== src/Sensor/ContainerEvents/Merge.antt =====
-- Two messages merged into one event.
use capsule.Prelude.{
  ℕ, [], ◌∷◌, true, false, ltb, ◌==◌, some, length, ◌≡◌, refl, inl, inr, Bool-cases, arith,
}
use capsule.Prelude.Maps.{bytes_key}
use capsule.Api.Value.{Bytes}
use capsule.Sensor.ContainerEvents.{
  Message, ContainerEventType, new_event, or_nonempty, named_by, with_pid, with_longer,
  merge_started, finish,
}
use capsule.Sensor.ContainerEvents.Spec.{two_created, two_started}

pub or_none : (s : Bytes) → or_nonempty s [] ≡ s
or_none [] = refl
or_none (b ∷ s) = refl

pub or_twice : (s t : Bytes) → or_nonempty s (or_nonempty s t) ≡ or_nonempty s t
or_twice [] t = refl
or_twice (b ∷ s) t = refl

pub empty_of : (s : Bytes) → ltb 0 (length s) ≡ false → s ≡ []
empty_of [] e = refl
empty_of (b ∷ s) e = ground arith

pub longer_or :
    (n : ℕ) (s t u : Bytes) → ltb n (length s) ≡ true → or_nonempty s t ≡ or_nonempty s u
longer_or n [] t u e = ground arith
longer_or n (b ∷ s) t u e = refl

pub longer_named :
    (a : Message)
    → with_longer a (named_by a (new_event ContainerEventType.created))
      ≡ record (named_by a (new_event ContainerEventType.created)) {
        docker_config_json = a.docker_config;
      }
unfolding with_longer
longer_named a = elim (Bool-cases (ltb 0 (length a.docker_config))) [
  | inl e ↦ rw e
  | inr e ↦ rw (e, empty_of a.docker_config e)
]

pub complete_longer :
    (a b : Message)
    → finish b (
        some (
          with_longer b (record (named_by a (new_event ContainerEventType.created)) {
            docker_config_json = a.docker_config;
          })))
      ≡ some (two_created a b)
unfolding finish with_longer two_created
complete_longer a b = elim (Bool-cases (ltb (length a.docker_config) (length b.docker_config))) [
  | inl e ↦ rw (
    e,
    longer_or (length a.docker_config) b.docker_config b.docker_config a.docker_config e,
    or_none b.oci_config,
  )
  | inr e ↦ rw (e, or_none b.oci_config)
]

-- A second message completes the first.
pub complete_created :
    (a b : Message)
    → finish b
        (some (with_longer b (with_longer a (named_by a (new_event ContainerEventType.created)))))
      ≡ some (two_created a b)
unfolding finish two_created
complete_created a b = rw (longer_named a) (complete_longer a b)

pub complete_started :
    (a b : Message)
    → finish b (some (merge_started b (merge_started a (new_event ContainerEventType.running))))
      ≡ some (two_started a b)
unfolding finish merge_started two_started with_pid
complete_started a b = elim (Bool-cases (a.pid == 0)) [
  | inl e ↦ elim (Bool-cases (b.pid == 0)) [
    | inl f ↦ simp (e, f, or_twice, or_none)
    | inr f ↦ simp (e, f, or_twice, or_none)
  ]
  | inr e ↦ elim (Bool-cases (b.pid == 0)) [
    | inl f ↦ simp (e, f, or_twice, or_none)
    | inr f ↦ simp (e, f, or_twice, or_none)
  ]
]
