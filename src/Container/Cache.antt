-- ===== src/Container/Cache.antt =====
-- pkg/container/cache.go: the map from container identifiers to what is known of the containers. The
-- map is nil until the first event makes it.
pub mod Laws
use capsule.Prelude.{[], Option, none, some}
use capsule.Prelude.Maps.{bytes_key, GoMap, lookup, insert, delete}
use capsule.Api.Value.{Bytes}

pub record Info : Type 0 where
  pub id : Bytes
  pub name : Bytes
  pub image_id : Bytes
  pub image_name : Bytes

abbrev pub Cache : Type 0
Cache = Option (GoMap Bytes Info)

-- `cacheOnce.Do`: the map, made where there is none.
unfoldable pub made : Cache → GoMap Bytes Info
made none = []
made (some m) = m

unfoldable pub cache_update : Bytes → Bytes → Bytes → Bytes → Cache → Cache
unfolding made lookup insert
cache_update c_id c_name i_id i_name cache = elim (lookup c_id (made cache)) [
  | some i ↦ some (made cache)
  | none ↦ some (
      insert c_id (record { id = c_id; name = c_name; image_id = i_id; image_name = i_name })
        (made cache))
]

unfoldable pub cache_delete : Bytes → Cache → Cache
unfolding made delete
cache_delete container_id cache = some (delete container_id (made cache))

-- A nil map reads as an empty one.
unfoldable pub get_info : Bytes → Cache → Option Info
unfolding made lookup
get_info container_id cache = lookup container_id (made cache)
