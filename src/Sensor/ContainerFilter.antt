-- ===== src/Sensor/ContainerFilter.antt =====
-- The container filter of a subscription: `containerFilter` of pkg/sensor/container.go.
--
-- A nil map reads as an empty one. Package glob is a parameter. `stream.Filter` and `stream.Do` call
-- the two functions for one event after the other; here the second has seen an event before the first
-- sees the next one.
pub mod Sets
pub mod Images
pub mod History
use capsule.Prelude.{
  ℕ, List, [], ◌∷◌, Bool, true, false, Option, none, some, if◌then◌else◌, ◌&&◌, ◌||◌, not,
}
use capsule.Prelude.Maps.{bytes_key, GoMap, lookup, insert, delete}
use capsule.Api.Value.{Bytes}
use capsule.Sensor.ContainerEvents.{ContainerEventType, ContainerEvent}

-- `api.ContainerFilter`
pub record ContainerFilterSpec : Type 0 where
  pub ids : List Bytes
  pub names : List Bytes
  pub image_ids : List Bytes
  pub image_names : List Bytes

-- `api.Event`, with the oneof `Event` where it is a container event.
pub record Event : Type 0 where
  pub container_id : Bytes
  pub container : Option ContainerEvent

-- Package glob: `Compile` with the separator '/', and `Match`.
pub record Glob : Type 1 where
  pub G : Type 0
  pub compile : Bytes → Option G
  pub match_name : G → Bytes → Bool

abbrev pub is_empty : Bytes → Bool
is_empty [] = true
is_empty (b ∷ s) = false

abbrev pub or_false : Option Bool → Bool
or_false none = false
or_false (some b) = b

-- `m[k]` of a map[string]bool
unfoldable pub is_set : Bytes → GoMap Bytes Bool → Bool
unfolding lookup
is_set k m = or_false (lookup k m)

-- `if len(k) > 0 { m[k] = true }`
unfoldable pub set_nonempty : Bytes → GoMap Bytes Bool → GoMap Bytes Bool
unfolding insert
set_nonempty [] m = m
set_nonempty (b ∷ s) m = insert (b ∷ s) true m

unfoldable pub set_all : List Bytes → GoMap Bytes Bool → GoMap Bytes Bool
unfolding set_nonempty
set_all [] m = m
set_all (k ∷ ks) m = set_all ks (set_nonempty k m)

abbrev pub is_destroyed : ContainerEventType → Bool
is_destroyed ContainerEventType.destroyed = true
is_destroyed t = false

module _ (glob : Glob) where
  pub record ContainerFilter : Type 0 where
    pub container_ids : GoMap Bytes Bool
    pub container_names : GoMap Bytes Bool
    pub image_ids : GoMap Bytes Bool
    pub image_globs : GoMap Bytes glob.G

  abbrev pub add_compiled : Bytes → Option glob.G → GoMap Bytes glob.G → GoMap Bytes glob.G
  add_compiled iname none m = m
  add_compiled iname (some g) m = insert iname g m

  abbrev pub add_absent : Bytes → Option glob.G → GoMap Bytes glob.G → GoMap Bytes glob.G
  add_absent iname none m = add_compiled iname (glob.compile iname) m
  add_absent iname (some g) m = m

  -- `addImageName`, on the map of globs.
  unfoldable pub add_image_name : Bytes → GoMap Bytes glob.G → GoMap Bytes glob.G
  unfolding lookup insert
  add_image_name [] m = m
  add_image_name (b ∷ s) m = add_absent (b ∷ s) (lookup (b ∷ s) m) m

  unfoldable pub add_image_names : List Bytes → GoMap Bytes glob.G → GoMap Bytes glob.G
  unfolding add_image_name
  add_image_names [] m = m
  add_image_names (iname ∷ inames) m = add_image_names inames (add_image_name iname m)

  unfoldable pub new_container_filter : ContainerFilterSpec → ContainerFilter
  unfolding set_all add_image_names
  new_container_filter ecf = record {
    container_ids = set_all ecf.ids [];
    container_names = set_all ecf.names [];
    image_ids = set_all ecf.image_ids [];
    image_globs = add_image_names ecf.image_names [];
  }

  -- The loop over the globs.
  unfoldable pub any_glob : Bytes → GoMap Bytes glob.G → Bool
  any_glob name [] = false
  any_glob name ((k, g) ∷ m) = glob.match_name g name || any_glob name m

  -- `addContainerId`, `removeContainerId`
  unfoldable pub add_container_id : Bytes → ContainerFilter → ContainerFilter
  unfolding set_nonempty
  add_container_id cid c = record c { container_ids = set_nonempty cid c.container_ids }

  unfoldable pub remove_container_id : Bytes → ContainerFilter → ContainerFilter
  unfolding delete
  remove_container_id cid c = record c { container_ids = delete cid c.container_ids }

  -- The slow path of `FilterFunc`.
  unfoldable pub match_container :
      Bytes → Option ContainerEvent → ContainerFilter → Bool × ContainerFilter
  unfolding is_set any_glob add_container_id
  match_container id none c = (false, c)
  match_container id (some cev) c =
      if is_set cev.name c.container_names
      then (true, add_container_id id c)
      else if is_set cev.image_id c.image_ids
      then (true, add_container_id id c)
      else if not (is_empty cev.image_name) && any_glob cev.image_name c.image_globs
      then (true, add_container_id id c)
      else (false, c)

  unfoldable pub filter_func : Event → ContainerFilter → Bool × ContainerFilter
  unfolding is_set match_container
  filter_func e c =
      if is_set e.container_id c.container_ids
      then (true, c)
      else match_container e.container_id e.container c

  abbrev do_container : Bytes → Option ContainerEvent → ContainerFilter → ContainerFilter
  do_container id none c = c
  do_container id (some cev) c = if is_destroyed cev.type then remove_container_id id c else c

  unfoldable pub do_func : Event → ContainerFilter → ContainerFilter
  unfolding remove_container_id
  do_func e c = do_container e.container_id e.container c

  -- The filter of a subscription on one event, and on the events of a stream: what it lets through.
  unfoldable pub filter_and_do : Event → ContainerFilter → Bool × ContainerFilter
  unfolding filter_func do_func
  filter_and_do e c =
      let r = filter_func e c in if r.0 then (true, do_func e (r.1)) else (false, r.1)

  unfoldable pub filter_all : List Event → ContainerFilter → List Event × ContainerFilter
  unfolding filter_and_do
  filter_all [] c = ([], c)
  filter_all (e ∷ es) c =
      let r = filter_and_do e c in
      let rest = filter_all es (r.1) in ((if r.0 then e ∷ rest.0 else rest.0), rest.1)
