-- ===== src/ObjectState/CacheLaws.antt =====
-- What the three parts of `update_object_state_cache` change, as seen through `read_cache`.
use Prim.Native.String.{String}
use text.Mathlib.TextEquality.{eq_iff}
use shakenfist.Prelude.{
  ℕ, ◌≡◌, Bool, true, false, ◌&&◌, Option, none, some, Dict, contains, insert, remove, ◌==◌,
  lookup-insert, contains-insert, contains-remove, if◌then◌else◌, string_eq, arith, beq_ne,
}
use shakenfist.ObjectState.Names.{StateName, state_name_eq, option_state_name_eq}
use shakenfist.ObjectState.Cache.{
  CacheName, Caches, all, of_state, of_none, cache_of, cache_name_eq, read_cache, update_all,
  leave_state, enter_state, update_object_state_cache,
}

-- Is the object in the cache?
abbrev pub cached : String → CacheName → Caches → Bool
cached uuid name caches = contains uuid (read_cache name caches)

read_cache-insert :
    (name name' : CacheName) (c : Dict String ℕ) (caches : Caches)
    → read_cache name' (insert name c caches)
      ≡ (if name == name' then c else read_cache name' caches)
unfolding read_cache
read_cache-insert name name' c caches = ground (arith, lookup-insert name name' c caches)

cached-insert :
    (name name' : CacheName) (v : String) (c : Dict String ℕ) (caches : Caches)
    → cached v name' (insert name c caches)
      ≡ (if name == name' then contains v c else cached v name' caches)
cached-insert name name' v c caches = ground (arith, read_cache-insert name name' c caches)

all-of_state : (s : StateName) → (all == of_state s) ≡ false
all-of_state s = beq_ne all (of_state s) (λ p. cc p)

of_state_beq : (s t : StateName) → (of_state s == of_state t) ≡ (s == t)
of_state_beq s t =
    ground (arith, cache_name_eq.beq_iff (of_state s) (of_state t), state_name_eq.beq_iff s t)

cache_of_beq : (o : Option StateName) (t : StateName) → (cache_of o == of_state t) ≡ (o == some t)
cache_of_beq none t =
    ground (
      arith,
      cache_name_eq.beq_iff of_none (of_state t),
      option_state_name_eq.beq_iff none (some t),
    )
cache_of_beq (some s) t = ground (
  arith,
  cache_name_eq.beq_iff (of_state s) (of_state t),
  option_state_name_eq.beq_iff (some s) (some t),
)

module _ (u v : String) (s : StateName) (caches : Caches) where
  cached-update_all :
      (new : StateName) (now : ℕ)
      → cached v (of_state s) (update_all u new now caches) ≡ cached v (of_state s) caches
  unfolding update_all
  cached-update_all new now = ground (
    arith,
    all-of_state s,
    cached-insert all (of_state s) v (remove u (read_cache all caches)) caches,
    cached-insert all (of_state s) v (insert u now (read_cache all caches)) caches,
  )

  cached-leave_state :
      (old : Option StateName)
      → cached v (of_state s) (leave_state u old caches)
        ≡ (if u == v && old == some s then false else cached v (of_state s) caches)
  unfolding leave_state
  cached-leave_state old = ground (
    arith,
    cache_of_beq old s,
    cache_name_eq.beq_iff (cache_of old) (of_state s),
    cached-insert (cache_of old) (of_state s) v (remove u (read_cache (cache_of old) caches))
        caches,
    contains-remove u v (read_cache (cache_of old) caches),
    eq_iff u v,
  )

  cached-enter_state :
      (new : StateName) (now : ℕ)
      → cached v (of_state s) (enter_state u new now caches)
        ≡ (if u == v && new == s then true else cached v (of_state s) caches)
  unfolding enter_state
  cached-enter_state new now = ground (
    arith,
    of_state_beq new s,
    cache_name_eq.beq_iff (of_state new) (of_state s),
    cached-insert (of_state new) (of_state s) v (insert u now (read_cache (of_state new) caches))
        caches,
    contains-insert u v now (read_cache (of_state new) caches),
  )

-- After the update the object is in the cache of its new state, is in that of its old state only if
-- this is the new one, and nothing else moved.
pub cached-update_object_state_cache :
    (u v : String) (s : StateName) (old : Option StateName) (new : StateName)
    (now_all now_state : ℕ) (caches : Caches)
    → cached v (of_state s) (update_object_state_cache u old new now_all now_state caches) ≡ (
        if u == v && new == s
        then true
        else if u == v && old == some s
        then false
        else cached v (of_state s) caches)
unfolding update_object_state_cache
cached-update_object_state_cache u v s old new now_all now_state caches = ground (
  arith,
  cached-enter_state u v s (leave_state u old (update_all u new now_all caches)) new now_state,
  cached-leave_state u v s (update_all u new now_all caches) old,
  cached-update_all u v s caches new now_all,
)
