-- ===== src/Container/Tests.antt =====
-- A sample of events for the container cache, and the theorem at it.
use capsule.Prelude.{List, [], ◌∷◌, none, some, ◌≡◌, refl}
use capsule.Prelude.Bytes.{bytes_eq}
use capsule.Prelude.Maps.{lookup, insert, delete}
use capsule.Api.Value.{Bytes}
use capsule.Container.Cache.{Info, cache_update, cache_delete, get_info, made}
use capsule.Container.Cache.Laws.{Event, handle, handle_all, known_all, handle_all_lem}

abbrev named : Bytes → Info
named n = record { id = 1 ∷ []; name = n; image_id = []; image_name = [] }

abbrev events : List Event
events = Event.seen (named (5 ∷ [])) ∷ Event.seen (named (6 ∷ [])) ∷ []

first_is_kept : get_info (1 ∷ []) (handle_all events none) ≡ some (named (5 ∷ []))
unfolding handle_all handle get_info cache_update cache_delete made lookup insert delete bytes_eq
first_is_kept = refl

handle_all_lem_example :
    get_info (1 ∷ []) (handle_all events none) ≡ known_all events (1 ∷ []) (get_info (1 ∷ []) none)
handle_all_lem_example = handle_all_lem events none (1 ∷ [])
