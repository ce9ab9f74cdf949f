-- ===== src/Container/Cache/Laws.antt =====
-- What the container cache of pkg/container/cache.go tells after a sequence of events.
use capsule.Prelude.{
  List, [], ◌∷◌, Option, none, some, if◌then◌else◌, ◌≡◌, refl, sym, ◌∙◌, ap, inl, inr, Bool-cases,
  Option-cases,
}
use capsule.Prelude.Bytes.{bytes_eq}
use capsule.Prelude.Bytes.Laws.{bytes_eq_iff}
use capsule.Prelude.Maps.{bytes_key, lookup}
use capsule.Prelude.Maps.Laws.{or_else, lookup-insert, lookup-delete}
use capsule.Api.Value.{Bytes}
use capsule.Container.Cache.{Info, Cache, made, cache_update, cache_delete, get_info}

-- A container was seen, or removed.
pub data Event : Type 0 where
  seen : Info → Event
  removed : Bytes → Event

unfoldable pub handle : Event → Cache → Cache
unfolding cache_update cache_delete
handle (Event.seen i) c = cache_update i.id i.name i.image_id i.image_name c
handle (Event.removed id) c = cache_delete id c

-- What is known of a container after an event: the first that was seen of it since it was removed.
unfoldable pub known : Event → Bytes → Option Info → Option Info
known (Event.seen i) id o = if bytes_eq i.id id then or_else o (some i) else o
known (Event.removed j) id o = if bytes_eq j id then none else o

unfoldable pub handle_all : List Event → Cache → Cache
unfolding handle
handle_all [] c = c
handle_all (e ∷ es) c = handle_all es (handle e c)

unfoldable pub known_all : List Event → Bytes → Option Info → Option Info
unfolding known
known_all [] id o = o
known_all (e ∷ es) id o = known_all es id (known e id o)

handle_lem :
    (e : Event) (c : Cache) (id : Bytes) → get_info id (handle e c) ≡ known e id (get_info id c)
unfolding handle known cache_update cache_delete get_info made
handle_lem (Event.removed j) c id = lookup-delete j id (made c)
handle_lem (Event.seen i) c id = elim (Option-cases (lookup i.id (made c))) [
  | inl a ↦ elim (Bool-cases (bytes_eq i.id id)) [
    | inl e ↦
        rw (
          cache_update,
          a,
          lookup-insert i.id id i (made c),
          e,
          sym ((bytes_eq_iff i.id id).0 e),
          a,
        )
    | inr e ↦ rw (cache_update, a, lookup-insert i.id id i (made c), e)
  ]
  | inr (j, a) ↦ elim (Bool-cases (bytes_eq i.id id)) [
    | inl e ↦ rw (cache_update, a, e, sym ((bytes_eq_iff i.id id).0 e), a)
    | inr e ↦ rw (cache_update, a, e)
  ]
]

-- After every sequence of events, the cache tells of each container what was first seen of it since it
-- was last removed.
pub handle_all_lem :
    (es : List Event) (c : Cache) (id : Bytes)
    → get_info id (handle_all es c) ≡ known_all es id (get_info id c)
unfolding handle_all known_all
handle_all_lem [] c id = refl
handle_all_lem (e ∷ es) c id =
    handle_all_lem es (handle e c) id ∙ ap (known_all es id) (handle_lem e c id)
