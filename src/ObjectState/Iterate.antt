-- ===== src/ObjectState/Iterate.antt =====
-- Going through the objects in some states: read_object_state_cache_many of shakenfist/cache.py, and
-- get_iterator of DatabaseBackedObjectIterator in shakenfist/baseobject.py.
use Prim.Native.String.{String}
use text.Mathlib.Text.{starts_with}
use shakenfist.Prelude.{
  Bool, false, ◌&&◌, List, [], ◌∷◌, ◌++◌, Option, none, some, Dict, lookup, keys, elem, ◌==◌,
  string_eq, if◌then◌else◌, Result, ok, err,
}
use shakenfist.ObjectState.Names.{
  StateName, StateName-discrete, state_name_eq, initial, creating, created, deleted, delete_wait,
  error, preflight, initial_error, preflight_error, creating_error, created_error, missing, queued,
  executing, complete, ObjectType, instances, node, upload, namespace, agentoperation, artifact,
  object_type_string,
}
use shakenfist.ObjectState.Cache.{CacheName, all, of_state, of_none, CacheSpace}

-- `state and state in states`, for the last part of a cache's path
unfoldable pub in_states : CacheName → List StateName → Bool
unfolding elem StateName-discrete
in_states all states = false
in_states (of_state s) states = elem s states
in_states of_none states = false

-- Whether the path of a cache of one type begins with /sf/cache/ and the name of another.
unfoldable pub in_prefix : ObjectType → ObjectType → Bool
unfolding object_type_string
in_prefix object_type other =
    starts_with (object_type_string other) (object_type_string object_type)

-- read_object_state_cache_many
unfoldable pub read_object_state_cache_many : ObjectType → List StateName → CacheSpace → List String
unfolding in_states in_prefix keys
read_object_state_cache_many object_type states [] = []
read_object_state_cache_many object_type states ((other, name, uuids) ∷ space) =
    let out = read_object_state_cache_many object_type states space in
    if in_prefix object_type other && in_states name states then keys uuids ++ out else out

-- ACTIVE_STATES, HEALTHY_STATES and INACTIVE_STATES of the classes
abbrev pub active_states : ObjectType → List StateName
active_states instances =
    initial ∷ initial_error ∷ preflight ∷ preflight_error ∷ creating ∷ creating_error ∷ created
    ∷ delete_wait ∷ created_error ∷ error ∷ []
active_states node = created ∷ []
active_states upload = created ∷ []
active_states namespace = created ∷ []
active_states agentoperation = created ∷ queued ∷ executing ∷ complete ∷ []
active_states artifact = initial ∷ created ∷ error ∷ []
active_states _ = initial ∷ creating ∷ created ∷ error ∷ delete_wait ∷ []

abbrev pub healthy_states : ObjectType → List StateName
healthy_states instances = initial ∷ preflight ∷ creating ∷ created ∷ []
healthy_states _ = initial ∷ creating ∷ created ∷ []

abbrev pub inactive_states : ObjectType → List StateName
inactive_states node = deleted ∷ error ∷ missing ∷ []
inactive_states _ = []

-- InvalidObjectPrefilter
pub data PrefilterError : Type 0 where
  invalid_object_prefilter : PrefilterError

-- the states that a prefilter stands for
unfoldable pub target_states : ObjectType → String → Result PrefilterError (List StateName)
target_states object_type prefilter =
    if prefilter == "active"
    then ok (active_states object_type)
    else if prefilter == "deleted"
    then ok (deleted ∷ [])
    else if prefilter == "healthy"
    then ok (healthy_states object_type)
    else if prefilter == "inactive"
    then ok (inactive_states object_type)
    else err invalid_object_prefilter

module _ {S : Type 0} where
  -- `static_values = etcd.get(…); if static_values: yield objuuid, static_values`
  unfoldable pub stored_objects : List String → Dict String S → List (String × S)
  stored_objects [] objects = []
  stored_objects (objuuid ∷ objuuids) objects =
      let rest = stored_objects objuuids objects in
      elim (lookup objuuid objects) [
        | none ↦ rest
        | some static_values ↦ (objuuid, static_values) ∷ rest
      ]

  -- get_iterator; the space of the caches and the objects are those of etcd
  unfoldable pub get_iterator :
      ObjectType
      → Option String
      → CacheSpace
      → Dict String S
      → Result PrefilterError (List (String × S))
  unfolding target_states read_object_state_cache_many stored_objects
  get_iterator object_type none space objects = ok objects
  get_iterator object_type (some prefilter) space objects =
      if prefilter == "" then ok objects else elim (target_states object_type prefilter) [
        | err e ↦ err e
        | ok states ↦
            ok (stored_objects (read_object_state_cache_many object_type states space) objects)
      ]
