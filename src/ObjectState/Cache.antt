-- ===== src/ObjectState/Cache.antt =====
-- The caches of which objects are in which state (shakenfist/cache.py). The cache of a state is a
-- dictionary from object uuids to the time at which they were put there, stored in etcd under
-- /sf/cache/<object type>/<state>.
use Prim.Native.String.{String}
use shakenfist.Prelude.{
  ℕ, ◌&&◌, List, [], Option, none, some, Dict, lookup, contains, insert, remove, ◌==◌, Eq, dec_beq,
  dec_beq_iff, if◌then◌else◌, string_eq,
}
use shakenfist.ObjectState.Names.{
  StateName, hard_deleted, state_name_eq, StateName-discrete, ObjectType,
}

-- The last part of a cache's path: `_all_`, a state, or nothing, for the state `None`.
pub data CacheName : Type 0 where
  all : CacheName
  of_state : StateName → CacheName
  of_none : CacheName

unfoldable pub CacheName-discrete : Discrete CacheName
CacheName-discrete = hlevel

instance abbrev pub cache_name_eq : Eq CacheName
cache_name_eq = record {
  beq = dec_beq CacheName-discrete;
  beq_iff = dec_beq_iff CacheName-discrete;
}

abbrev pub cache_of : Option StateName → CacheName
cache_of none = of_none
cache_of (some s) = of_state s

-- The caches of one object type.
abbrev pub Caches : Type 0
Caches = Dict CacheName (Dict String ℕ)

abbrev pub or_empty : Option (Dict String ℕ) → Dict String ℕ
or_empty none = []
or_empty (some c) = c

-- read_object_state_cache; a missing cache reads as an empty one
unfoldable pub read_cache : CacheName → Caches → Dict String ℕ
read_cache name caches = or_empty (lookup name caches)

-- The first part of update_object_state_cache, on the list of objects in all states.
unfoldable pub update_all : String → StateName → ℕ → Caches → Caches
unfolding StateName-discrete
update_all uuid new_state now caches =
    let c = read_cache all caches in
    if new_state == hard_deleted && contains uuid c
    then insert all (remove uuid c) caches
    else if contains uuid c
    then caches
    else insert all (insert uuid now c) caches

-- Its second part: the object leaves the cache of its old state.
unfoldable pub leave_state : String → Option StateName → Caches → Caches
leave_state uuid old_state caches =
    let c = read_cache (cache_of old_state) caches in
    if contains uuid c then insert (cache_of old_state) (remove uuid c) caches else caches

-- Its third part: the object enters the cache of its new state.
unfoldable pub enter_state : String → StateName → ℕ → Caches → Caches
enter_state uuid new_state now caches =
    let c = read_cache (of_state new_state) caches in
    insert (of_state new_state) (insert uuid now c) caches

-- update_object_state_cache; the two times are what `time.time()` says where it is asked
unfoldable pub update_object_state_cache :
    String → Option StateName → StateName → ℕ → ℕ → Caches → Caches
unfolding update_all leave_state enter_state
update_object_state_cache uuid old_state new_state now_all now_state caches =
    enter_state uuid new_state now_state
      (leave_state uuid old_state (update_all uuid new_state now_all caches))

-- clobber_object_state_cache
unfoldable pub clobber_object_state_cache : CacheName → Dict String ℕ → Caches → Caches
clobber_object_state_cache name uuids caches = insert name uuids caches

-- read_object_state_cache_many reads whatever etcd holds under /sf/cache/<object type>, in the order
-- of the keys.
abbrev pub CacheSpace : Type 0
CacheSpace = List (ObjectType × CacheName × Dict String ℕ)
