-- ===== src/ObjectState/Tests.antt =====
-- The theorems on states and caches at concrete objects, and tests of `_state_update`.
use Prim.Native.String.{String}
use mathlib.Core.Bool.{false≢true}
use text.Mathlib.TextEquality.{eq_iff}
use shakenfist.Prelude.{
  ◌≡◌, refl, true, false, ◌||◌, not, List, [], ◌∷◌, some, ok, err, lookup, if◌then◌else◌, ◌&&◌,
  ◌==◌, string_eq, ◌++◌, contains, ◌>>=◌, Unique, insert, remove, ℕ, zero, suc, arith, Dict, Option,
  none,
}
use shakenfist.ObjectState.Names.{
  initial, created, deleted, delete_wait, option_state_name_eq, unknown, network, networkinterface,
}
use shakenfist.ObjectState.Tables.{in_state_targets, network_targets, state_targets}
use shakenfist.ObjectState.Documented.{edge_of, in_state_targets-diagram}
use shakenfist.ObjectState.Cache.{
  read_cache, CacheSpace, of_state, CacheName-discrete, cache_name_eq, update_all, leave_state,
  enter_state, update_object_state_cache,
}
use shakenfist.ObjectState.Iterate.{get_iterator, target_states, in_prefix}
use shakenfist.ObjectState.Members.{space_of, is_in}
use shakenfist.ObjectState.Upgrade.{
  NodeMetrics, considered, lesser, minimum_version, get_minimum_object_version, Look, is_stale,
  renew_cache, fill_cache, read_filled, StaticValues, Versions, version_or_initial, upgrade_loop,
  commit_upgrade, upgrade,
}
use shakenfist.ObjectState.Remembered.{cache_after}
use shakenfist.ObjectState.Reach.{ReachedLately, upgrade-AllReach}
use shakenfist.ObjectState.Upgraded.{climb, upgrade-climb}
use shakenfist.ObjectState.Names.{StateName}
use shakenfist.ObjectState.Iterated.{Elsewhere, yields, get_iterator-state}
use shakenfist.ObjectState.Update.{
  ObjectDb, Times, db_create, set_state, invalid_state, no_transitions, state, commit_state,
  state_update, validate, set_error, attribute_error,
}
use shakenfist.ObjectState.Machine.{state_update-accepts}
use shakenfist.ObjectState.Runs.{
  Action, act, create, update, destroy, run, run-deleted, Consistent, run-Consistent, is_state,
}

abbrev times : Times
times = record { at_state = 7; at_all = 8; at_cache = 9 }

abbrev no_objects : ObjectDb String
no_objects = record { objects = []; states = []; errors = []; caches = []; memory = [] }

-- One network that is deleted, and that no cache has.
abbrev one_deleted : ObjectDb String
one_deleted = record no_objects {
  states = ("n1", record { value = some deleted; update_time = 3 }) ∷ [];
}

in_state_targets-diagram_example :
    in_state_targets network_targets (some created) delete_wait
    ≡ some (edge_of network (some created) delete_wait)
unfolding state_targets
in_state_targets-diagram_example =
    in_state_targets-diagram network {table = network_targets} (some created) delete_wait refl
      (λ p. cc p)

state_update-accepts_example : state_update network false "n1" initial false times no_objects ≡ (
    let orig = (state false "n1" no_objects).value in
    if orig == some initial
    then ok no_objects
    else if not (orig == some deleted) && (false || edge_of network orig initial)
    then ok (commit_state false "n1" orig initial times no_objects)
    else err invalid_state)
state_update-accepts_example =
    state_update-accepts network false "n1" initial false times no_objects (λ p. cc p)

abbrev revival : List (Action String)
revival =
    update false "n1" created false times
    ∷ update false "n1" created true times
    ∷ create "n1" "again"
    ∷ destroy "n2" times
    ∷ []

run-deleted_example : (state false "n1" (run network one_deleted revival)).value ≡ some deleted
unfolding state lookup
run-deleted_example =
    run-deleted network "n1" one_deleted revival
      (tt, (tt, (tt, ((λ p. false≢true ((eq_iff "n2" "n1").1 p)), tt)))) refl

no_objects-Consistent : Consistent no_objects
unfolding state lookup read_cache is_state
no_objects-Consistent = record { at = λ u s n. refl }

abbrev life : List (Action String)
life =
    create "n1" "static"
    ∷ update false "n1" initial false times
    ∷ update false "n1" created false times
    ∷ update false "n1" initial false times
    ∷ update false "n1" deleted false times
    ∷ destroy "n1" times
    ∷ []

run-Consistent_example : Consistent (run network no_objects life)
run-Consistent_example = run-Consistent network no_objects life no_objects-Consistent

-- Two networks that were created, one of them deleted since, and an interface in the same state.
abbrev growth : List (Action String)
growth =
    create "n1" "first"
    ∷ update false "n1" initial false times
    ∷ create "n2" "second"
    ∷ update false "n2" initial false times
    ∷ update false "n2" deleted false times
    ∷ []

abbrev two_networks : ObjectDb String
two_networks = run network no_objects growth

abbrev interfaces : CacheSpace
interfaces = (networkinterface, of_state initial, ("i1", 5) ∷ []) ∷ []

two_networks-Unique : Unique two_networks.caches
unfolding CacheName-discrete run act db_create state_update state lookup state_targets
    in_state_targets validate commit_state set_state update_object_state_cache update_all
    leave_state enter_state read_cache insert remove
two_networks-Unique = (((λ p. cc p), ((λ p. cc p), tt)), (((λ p. cc p), tt), (tt, tt)))

get_iterator-state_example :
    yields "n1" (
      get_iterator network
        (some "active")
        (space_of network two_networks.caches ++ interfaces)
        two_networks.objects)
    ≡ (target_states network "active" >>= λ states.
        ok (
          is_in (state false "n1" two_networks).value states && contains "n1" two_networks.objects))
unfolding Elsewhere lookup in_prefix
get_iterator-state_example =
    get_iterator-state network "active" "n1" two_networks interfaces
      (λ p. false≢true ((eq_iff "active" "").1 p))
      (run-Consistent network no_objects growth no_objects-Consistent) two_networks-Unique
      (refl, tt)

-- A class of version 4 with the steps from version 2, each of which writes its number.
abbrev counted_step : ℕ → Option (List ℕ → List ℕ)
counted_step (suc (suc zero)) = some (λ values. 2 ∷ values)
counted_step (suc (suc (suc zero))) = some (λ values. 3 ∷ values)
counted_step _ = none

abbrev counted : Versions (List ℕ)
counted = record { initial_version = 2; current_version = 4; step = counted_step }

abbrev unversioned : StaticValues (List ℕ)
unversioned = record { version = none; values = [] }

upgrade-climb_example : upgrade 3 counted (some 4) "o1" unversioned [] ≡ (
    let upgraded : StaticValues (List ℕ) = record { version = some 4; values = 3 ∷ 2 ∷ [] } in
    ok (upgraded, ("o1", upgraded) ∷ []))
unfolding climb commit_upgrade insert version_or_initial
upgrade-climb_example = upgrade-climb counted 2 3 (some 4) "o1" unversioned [] refl (ground (arith))

abbrev reported : List (String × NodeMetrics)
reported =
    ("a", record { timestamp = 900000; object_versions = ("blob", 4) ∷ [] })
    ∷ ("b", record { timestamp = 10; object_versions = ("blob", 3) ∷ [] })
    ∷ ("c", record { timestamp = 900000; object_versions = ("blob", 3) ∷ [] })
    ∷ []

abbrev node_states : Dict String StateName
node_states = ("a", created) ∷ ("b", created) ∷ ("c", deleted) ∷ []

-- The versions are read, and are used again a minute later.
abbrev first_look : Look
first_look = record { now = 900000; states = node_states; metrics = reported }

abbrev second_look : Look
second_look = record { now = 900060; states = []; metrics = [] }

upgrade-AllReach_example :
    ReachedLately 4 second_look "blob" ((first_look, "node") ∷ (first_look, "blob") ∷ [])
unfolding upgrade get_minimum_object_version considered minimum_version lesser version_or_initial
    upgrade_loop commit_upgrade insert lookup cache_after is_stale renew_cache fill_cache
    read_filled
upgrade-AllReach_example =
    upgrade-AllReach counted 3 second_look "blob" ((first_look, "node") ∷ (first_look, "blob") ∷ [])
      {minimum = some 4} "o1" unversioned []
      ((omega arith, (omega arith, tt)), ((omega arith, tt), (tt, tt))) refl refl (λ p. cc p)

-- Refusals: a transition that the table lacks, an object of the base class, and a message of error
-- for an object without a state.
refused : state_update network false "n1" created false times no_objects ≡ err invalid_state
unfolding state_update state lookup state_targets in_state_targets validate
refused = refl

unknown_class : state_update unknown false "n1" created false times no_objects ≡ err no_transitions
unfolding state_update state lookup state_targets validate
unknown_class = refl

no_state : set_error "n1" (some "broken") no_objects ≡ err attribute_error
unfolding set_error state lookup
no_state = refl
