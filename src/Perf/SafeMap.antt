-- ===== src/Perf/SafeMap.antt =====
-- pkg/sys/perf/maps.go: a map that readers load with no lock, while writers store a changed copy.
-- `safeUInt64Map` and `safeEventAttrMap` are the same code at two value types, the parameter `V`.
--
-- A Go map is a reference, so the maps that were ever made stand in a heap, and `active` is the
-- reference that the atomic value holds.
pub mod Laws
pub mod Traces
use capsule.Prelude.{ℕ, List, [], ◌∷◌, ◌++◌, Option, none, some, length, get_elem?, set}
use capsule.Prelude.Maps.{number_key, GoMap, lookup, delete_all, put_all}

pub record SafeMap (V : Type 0) : Type 0 where
  pub heap : List (GoMap ℕ V)
  pub active : Option ℕ

module _ {V : Type 0} where
  -- The contents of a map; a nil map has none.
  unfoldable pub contents : List (GoMap ℕ V) → Option ℕ → GoMap ℕ V
  contents heap none = []
  contents heap (some ref) = elim (get_elem? heap ref) [ none ↦ [] | some m ↦ m ]

  abbrev pub new_safe_map : SafeMap V
  new_safe_map = record { heap = []; active = none }

  unfoldable pub get_map : SafeMap V → Option ℕ
  get_map m = m.active

  -- A fresh map that holds the entries of `entries`, stored as the active one.
  unfoldable pub store : GoMap ℕ V → SafeMap V → SafeMap V
  store entries m = record { heap = m.heap ++ (entries ∷ []); active = some (length m.heap) }

  unfoldable pub remove_in_place : List ℕ → SafeMap V → SafeMap V
  unfolding get_map contents delete_all
  remove_in_place ids m = elim (get_map m) [
    | none ↦ m
    | some ref ↦ record m { heap = set m.heap ref (delete_all ids (contents m.heap (some ref))) }
  ]

  -- The entries of the old map are copied, then the ids are deleted from the copy.
  unfoldable pub remove : List ℕ → SafeMap V → SafeMap V
  unfolding get_map contents delete_all put_all store
  remove ids m = store (delete_all ids (put_all (contents m.heap (get_map m)) [])) m

  unfoldable pub update_in_place : GoMap ℕ V → SafeMap V → SafeMap V
  unfolding get_map contents put_all store
  update_in_place from m = elim (get_map m) [
    | none ↦ store (put_all from []) m
    | some ref ↦ record m { heap = set m.heap ref (put_all from (contents m.heap (some ref))) }
  ]

  unfoldable pub update : GoMap ℕ V → SafeMap V → SafeMap V
  unfolding get_map contents put_all store
  update from m = store (put_all from (put_all (contents m.heap (get_map m)) [])) m

  -- What a reader finds: `m.getMap()[id]`.
  unfoldable pub find : SafeMap V → ℕ → Option V
  unfolding get_map contents lookup
  find m id = lookup id (contents m.heap (get_map m))
