-- ===== src/Sensor/ContainerFilter/History.antt =====
-- What a container filter lets through: the containers it was given, those that a container event
-- described, until they are destroyed.
use capsule.Prelude.{
  List, [], ◌∷◌, Bool, true, false, Option, none, some, if◌then◌else◌, ◌&&◌, ◌||◌, not, ◌≡◌, refl,
  sym, ◌∙◌, ap, inl, inr, Bool-cases, arith,
}
use capsule.Prelude.Bytes.{bytes_eq}
use capsule.Prelude.Maps.{bytes_key}
use capsule.Api.Value.{Bytes}
use capsule.Sensor.ContainerEvents.{ContainerEvent}
use capsule.Sensor.ContainerFilter.{
  ContainerFilterSpec, Event, Glob, is_empty, is_set, is_destroyed, ContainerFilter,
  new_container_filter, any_glob, add_container_id, remove_container_id, match_container,
  filter_func, do_func, filter_and_do, filter_all,
}
use capsule.Sensor.ContainerFilter.Images.{any_pattern, any_glob_new}
use capsule.Sensor.ContainerFilter.Sets.{listed, is_set-set_nonempty, is_set-delete, is_set_new}

module _ (glob : Glob) (ecf : ContainerFilterSpec) where
  -- Is the container of the event one that the subscriber asks for by name or image?
  unfoldable pub describes : ContainerEvent → Bool
  describes cev =
      listed ecf.names cev.name
      || listed ecf.image_ids cev.image_id
      || (not (is_empty cev.image_name) && any_pattern glob ecf.image_names cev.image_name)

  abbrev pub is_described : Option ContainerEvent → Bool
  is_described none = false
  is_described (some cev) = describes cev

  -- Is the container known after an event about it?
  abbrev pub stays_known : Bytes → Option ContainerEvent → Bool → Bool
  stays_known id none known = known
  stays_known id (some cev) known =
      not (is_destroyed cev.type) && (known || (describes cev && not (is_empty id)))

  -- The set of known containers after an event.
  unfoldable pub learn : Event → (Bytes → Bool) → Bytes → Bool
  learn e known c =
      if bytes_eq e.container_id c
      then stays_known e.container_id e.container (known e.container_id)
      else known c

  -- The events about a container that is known, and those that describe one.
  unfoldable pub accepted : (Bytes → Bool) → List Event → List Event
  unfolding learn
  accepted known [] = []
  accepted known (e ∷ es) =
      let rest = accepted (learn e known) es in
      if known e.container_id || is_described e.container then e ∷ rest else rest

  -- A filter that stands for a set of known containers.
  abbrev Agrees : ContainerFilter glob → (Bytes → Bool) → Type 0
  Agrees c known =
      ((id : Bytes) → is_set id c.container_ids ≡ known id)
      × ((name : Bytes) → is_set name c.container_names ≡ listed ecf.names name)
      × ((id : Bytes) → is_set id c.image_ids ≡ listed ecf.image_ids id)
      × ((name : Bytes) → any_glob glob name c.image_globs ≡ any_pattern glob ecf.image_names name)

  new_container_filter-Agrees : Agrees (new_container_filter glob ecf) (listed ecf.ids)
  unfolding new_container_filter
  new_container_filter-Agrees = (
    is_set_new ecf.ids,
    is_set_new ecf.names,
    is_set_new ecf.image_ids,
    λ name. any_glob_new glob name ecf.image_names,
  )

  -- The slow path.
  match_container-some :
      (id : Bytes) (cev : ContainerEvent) (c : ContainerFilter glob) (known : Bytes → Bool)
      → Agrees c known
      → match_container glob id (some cev) c
        ≡ (if describes cev then (true, add_container_id glob id c) else (false, c))
  unfolding match_container describes
  match_container-some id cev c known (ids, names, images, globs) =
      rw (names cev.name, images cev.image_id, globs cev.image_name) ground arith

  abbrev StepAgrees : Event → (Bytes → Bool) → Bool × ContainerFilter glob → Type 0
  StepAgrees e known r =
      (r.0 ≡ (known e.container_id || is_described e.container)) × Agrees r.1 (learn e known)

  -- A set that an event leaves as it is.
  learn_same :
      (e : Event) (known : Bytes → Bool) (c : Bytes)
      → stays_known e.container_id e.container (known e.container_id) ≡ known e.container_id
      → known c ≡ learn e known c
  unfolding learn
  learn_same e known c same = elim (Bool-cases (bytes_eq e.container_id c)) [
    | inl f ↦ rw f (sym (ap known ((bytes_key.same_iff e.container_id c).0 f)) ∙ sym same)
    | inr f ↦ rw f refl
  ]

  unchanged :
      (e : Event) (c : ContainerFilter glob) (known : Bytes → Bool)
      → stays_known e.container_id e.container (known e.container_id) ≡ known e.container_id
      → Agrees c known
      → Agrees c (learn e known)
  unchanged e c known same (ids, names, images, globs) =
      (λ id. ids id ∙ learn_same e known id same, names, images, globs)

  -- A container that was added, and one that was removed.
  added :
      (id : Bytes) (cev : ContainerEvent) (c : ContainerFilter glob) (known : Bytes → Bool)
      → known id ≡ false
      → describes cev ≡ true
      → is_destroyed cev.type ≡ false
      → Agrees c known
      → Agrees
          (add_container_id glob id c)
          (learn (record { container_id = id; container = some cev }) known)
  unfolding add_container_id learn
  added id cev c known new d alive (ids, names, images, globs) =
      (λ j. is_set-set_nonempty id j c.container_ids ∙ go j, names, images, globs)
    where
      go :
          (j : Bytes)
          → ((not (is_empty id) && bytes_eq id j) || is_set j c.container_ids) ≡ (
              if bytes_eq id j
              then not (is_destroyed cev.type) && (known id || (describes cev && not (is_empty id)))
              else known j)
      go j = elim (Bool-cases (bytes_eq id j)) [
        | inl f ↦
            let z = ids j ∙ sym (ap known ((bytes_key.same_iff id j).0 f)) ∙ new in ground arith
        | inr f ↦ let z = ids j in ground arith
      ]

  removed :
      (id : Bytes) (cev : ContainerEvent) (c : ContainerFilter glob) (known : Bytes → Bool)
      → is_destroyed cev.type ≡ true
      → ((j : Bytes) → bytes_eq id j ≡ false → is_set j c.container_ids ≡ known j)
      → (j : Bytes)
      → is_set j (remove_container_id glob id c).container_ids
        ≡ learn (record { container_id = id; container = some cev }) known j
  unfolding remove_container_id learn
  removed id cev c known dead ids j =
      is_set-delete id j c.container_ids ∙ elim (Bool-cases (bytes_eq id j)) [
        | inl f ↦ ground arith
        | inr f ↦ let z = ids j f in ground arith
      ]

  abbrev about : Bytes → Option ContainerEvent → Event
  about id o = record { container_id = id; container = o }

  still_known :
      (id j : Bytes) (c : ContainerFilter glob) (known : Bytes → Bool)
      → Agrees c known
      → bytes_eq id j ≡ false
      → is_set j (add_container_id glob id c).container_ids ≡ known j
  unfolding add_container_id
  still_known id j c known agrees f =
      let e = is_set-set_nonempty id j c.container_ids in let z = agrees.0 j in ground arith

  -- A container event, whether its container is known, described or destroyed.
  container_step :
      (id : Bytes) (cev : ContainerEvent) (c : ContainerFilter glob) (known : Bytes → Bool)
      → Agrees c known
      → StepAgrees (about id (some cev)) known (filter_and_do glob (about id (some cev)) c)
  unfolding filter_and_do filter_func do_func
  container_step id cev c known agrees =
      rw (agrees.0 id, match_container-some id cev c known agrees)
        elim (Bool-cases (known id)) [
          | inl k ↦ elim (Bool-cases (is_destroyed cev.type)) [
            | inl d ↦
                rw (k, d)
                  (
                    refl,
                    (removed id cev c known d (λ j f. agrees.0 j), agrees.1, agrees.2, agrees.3),
                  )
            | inr d ↦
                rw (k, d) (refl, unchanged (about id (some cev)) c known (rw (d, k) refl) agrees)
          ]
          | inr k ↦ elim (Bool-cases (describes cev)) [
            | inl p ↦ elim (Bool-cases (is_destroyed cev.type)) [
              | inl d ↦
                  rw (k, p, d)
                    (
                      refl,
                      (
                        removed id cev (add_container_id glob id c) known d
                            (λ j f. still_known id j c known agrees f),
                        agrees.1,
                        agrees.2,
                        agrees.3,
                      ),
                    )
              | inr d ↦ rw (k, p, d) (refl, added id cev c known k p d agrees)
            ]
            | inr p ↦
                rw (k, p)
                  (refl, unchanged (about id (some cev)) c known (rw (p, k) ground arith) agrees)
          ]
        ]

  other_step :
      (id : Bytes) (c : ContainerFilter glob) (known : Bytes → Bool)
      → Agrees c known
      → StepAgrees (about id none) known (filter_and_do glob (about id none) c)
  unfolding filter_and_do filter_func do_func match_container
  other_step id c known agrees = rw (agrees.0 id) elim (Bool-cases (known id)) [
    | inl k ↦ rw k (refl, unchanged (about id none) c known refl agrees)
    | inr k ↦ rw k (refl, unchanged (about id none) c known refl agrees)
  ]

  step :
      (id : Bytes) (o : Option ContainerEvent) (c : ContainerFilter glob) (known : Bytes → Bool)
      → Agrees c known
      → StepAgrees (about id o) known (filter_and_do glob (about id o) c)
  step id none c known agrees = other_step id c known agrees
  step id (some cev) c known agrees = container_step id cev c known agrees

  filter_all_from :
      (es : List Event) (c : ContainerFilter glob) (known : Bytes → Bool)
      → Agrees c known
      → (filter_all glob es c).0 ≡ accepted known es
  unfolding filter_all accepted
  filter_all_from [] c known agrees = refl
  filter_all_from (e ∷ es) c known agrees =
      let (lets, agrees') = step e.container_id e.container c known agrees in
      rw (lets, filter_all_from es ((filter_and_do glob e c).1) (learn e known) agrees') refl

  -- Where `DoFunc` sees each event before `FilterFunc` sees the next one: of any sequence of
  -- events, a filter that is new lets through the container events that describe a container by
  -- its name, its image's id or a pattern for its image's name, and the events about a container
  -- that is known: one whose id, not empty, the subscriber gave or a container event that
  -- describes it had, and that no DESTROYED event was about since.
  pub filter_all-new_container_filter :
      (es : List Event)
      → (filter_all glob es (new_container_filter glob ecf)).0 ≡ accepted (listed ecf.ids) es
  filter_all-new_container_filter es =
      filter_all_from es (new_container_filter glob ecf) (listed ecf.ids)
        new_container_filter-Agrees
