-- ===== src/ObjectState/Upgrade.antt =====
-- Online upgrades: get_minimum_object_version, and upgrade of DatabaseBackedObject
-- (shakenfist/baseobject.py). The steps of a class are part of the class: a step is a function on
-- the static values, and what it writes elsewhere is left out. Infinity is the absence of a minimum.
use Prim.Native.String.{String}
use shakenfist.Prelude.{
  ℕ, zero, suc, ◌+◌, Bool, true, false, ◌&&◌, not, List, [], ◌∷◌, Option, none, some, Dict, lookup,
  insert, ◌==◌, string_eq, nat_eq, ltb, if◌then◌else◌, Result, ok, err, ◌>>=◌,
}
use shakenfist.ObjectState.Names.{StateName, state_name_eq, StateName-discrete, deleted}

-- What a node reports under metrics/, with the versions of the classes that are there.
pub record NodeMetrics : Type 0 where
  pub timestamp : ℕ
  pub object_versions : Dict String ℕ

-- `time.time() - d.get('timestamp', 0) > 24 * 7 * 3600`
unfoldable pub is_old : ℕ → NodeMetrics → Bool
is_old now d = ltb (604800 + d.timestamp) now

unfoldable pub is_present : Option StateName → Bool
unfolding StateName-discrete
is_present none = false
is_present (some s) = not (s == deleted)

-- The metrics that are considered; etcd has one entry for each node.
unfoldable pub considered :
    ℕ → Dict String StateName → List (String × NodeMetrics) → Dict String NodeMetrics
unfolding is_old is_present
considered now states [] = []
considered now states ((fqdn, d) ∷ metrics) =
    let rest = considered now states metrics in
    if not (is_old now d) && is_present (lookup fqdn states) then (fqdn, d) ∷ rest else rest

-- `if ver: minimum = min(minimum, ver)`, where none is infinity
unfoldable pub lesser : Option ℕ → Option ℕ → Option ℕ
lesser none minimum = minimum
lesser (some zero) minimum = minimum
lesser (some (suc ver)) none = some (suc ver)
lesser (some (suc ver)) (some minimum) =
    if ltb (suc ver) minimum then some (suc ver) else some minimum

unfoldable pub minimum_version : String → Dict String NodeMetrics → Option ℕ
unfolding lesser
minimum_version objname [] = none
minimum_version objname ((node_name, d) ∷ metrics) =
    lesser (lookup objname d.object_versions) (minimum_version objname metrics)

-- OBJECT_NAMES
abbrev pub object_names : List String
object_names =
    "agentoperation" ∷ "artifact" ∷ "blob" ∷ "instance" ∷ "ipam" ∷ "namespace" ∷ "network"
    ∷ "networkinterface" ∷ "node" ∷ "upload" ∷ []

pub data UpgradeFailure : Type 0 where
  -- getattr of a step that the class lacks
  attribute_error : UpgradeFailure
  -- VERSION_CACHE of a class that is not among OBJECT_NAMES
  key_error : UpgradeFailure
  out_of_fuel : UpgradeFailure

-- VERSION_CACHE, where an empty dictionary stands for None as well, and VERSION_CACHE_AGE
pub record VersionCache : Type 0 where
  pub versions : Dict String (Option ℕ)
  pub age : ℕ

abbrev pub no_cache : VersionCache
no_cache = record { versions = []; age = 0 }

-- What a call finds: the time, the states of the nodes, and what is under metrics/.
pub record Look : Type 0 where
  pub now : ℕ
  pub states : Dict String StateName
  pub metrics : List (String × NodeMetrics)

-- `not VERSION_CACHE` or `time.time() - VERSION_CACHE_AGE > 300`
unfoldable pub is_stale : ℕ → VersionCache → Bool
is_stale now cache = elim cache.versions [ [] ↦ true | _ ∷ _ ↦ ltb (300 + cache.age) now ]

-- for possible_objname in …: VERSION_CACHE[possible_objname] = minimum
unfoldable pub fill_cache :
    List String → Dict String NodeMetrics → Dict String (Option ℕ) → Dict String (Option ℕ)
unfolding minimum_version
fill_cache [] metrics versions = versions
fill_cache (possible_objname ∷ names) metrics versions =
    fill_cache names metrics
      (insert possible_objname (minimum_version possible_objname metrics) versions)

-- The end of get_minimum_object_version; infinity leaves the age as it is.
unfoldable pub read_filled :
    ℕ → String → ℕ → Dict String (Option ℕ) → Result UpgradeFailure (Option ℕ) × VersionCache
read_filled now objname age versions = elim (lookup objname versions) [
  | none ↦ (err key_error, record { versions = versions; age = age })
  | some none ↦ (ok none, record { versions = versions; age = age })
  | some (some minimum) ↦ (ok (some minimum), record { versions = versions; age = now })
]

-- The metrics are read, and the versions are put into the cache.
unfoldable pub renew_cache :
    Look → String → ℕ → Dict String (Option ℕ) → Result UpgradeFailure (Option ℕ) × VersionCache
unfolding considered fill_cache read_filled
renew_cache look objname age versions =
    read_filled look.now objname age
      (fill_cache object_names (considered look.now look.states look.metrics) versions)

-- get_minimum_object_version: what it returns, and the cache after it
unfoldable pub get_minimum_object_version :
    Look → String → VersionCache → Result UpgradeFailure (Option ℕ) × VersionCache
unfolding is_stale renew_cache
get_minimum_object_version look objname cache =
    if is_stale look.now cache
    then renew_cache look objname cache.age []
    else elim (lookup objname cache.versions) [
      | none ↦ renew_cache look objname cache.age cache.versions
      | some minimum ↦ (ok minimum, cache)
    ]

-- The static values of an object, `version` apart
pub record StaticValues (V : Type 0) : Type 0 where
  pub version : Option ℕ
  pub values : V

-- What a class says of versions; `step n` is its `_upgrade_step_n_to_(n+1)`.
pub record Versions (V : Type 0) : Type 0 where
  pub initial_version : ℕ
  pub current_version : ℕ
  pub step : ℕ → Option (V → V)

module _ {V : Type 0} where
  -- `static_values.get('version', self.initial_version)`
  unfoldable pub version_or_initial : Versions V → Option ℕ → ℕ
  version_or_initial cls none = cls.initial_version
  version_or_initial cls (some version) = version

  -- the loop of upgrade
  unfoldable pub upgrade_loop : ℕ → Versions V → ℕ → V → Result UpgradeFailure (StaticValues V)
  upgrade_loop zero cls version values = err out_of_fuel
  upgrade_loop (suc fuel) cls version values =
      if version == cls.current_version
      then ok record { version = some version; values = values }
      else elim (cls.step version) [
        | none ↦ err attribute_error
        | some step_func ↦ upgrade_loop fuel cls (version + 1) (step_func values)
      ]

  -- etcd.put, when the whole cluster is of the current version
  unfoldable pub commit_upgrade :
      Versions V
      → Option ℕ
      → String
      → StaticValues V
      → Dict String (StaticValues V)
      → Dict String (StaticValues V)
  commit_upgrade cls none uuid static_values objects = objects
  commit_upgrade cls (some cluster_minimum) uuid static_values objects =
      if cluster_minimum == cls.current_version then insert uuid static_values objects else objects

  -- upgrade: the static values that the object then has, and those that are stored
  unfoldable pub upgrade :
      ℕ
      → Versions V
      → Option ℕ
      → String
      → StaticValues V
      → Dict String (StaticValues V)
      → Result UpgradeFailure (StaticValues V × Dict String (StaticValues V))
  unfolding version_or_initial upgrade_loop commit_upgrade
  upgrade fuel cls cluster_minimum uuid static_values objects =
      let starting_version = version_or_initial cls static_values.version in
      if starting_version == cls.current_version
      then ok (static_values, objects)
      else upgrade_loop fuel cls starting_version static_values.values >>= λ upgraded.
          ok (upgraded, commit_upgrade cls cluster_minimum uuid upgraded objects)
