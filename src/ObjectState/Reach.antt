-- ===== src/ObjectState/Reach.antt =====
-- Which nodes can read what an online upgrade stores, with the cache of the versions that the nodes
-- report (shakenfist/baseobject.py).
use Prim.Native.String.{String}
use shakenfist.Prelude.{
  ℕ, ◌+◌, ◌≤◌, ◌≡◌, ◌≢◌, ◌∙◌, ◌∷◌, Option, Dict, string_eq, inl, inr, arith, ok,
}
use shakenfist.ObjectState.Upgrade.{
  Look, get_minimum_object_version, StaticValues, Versions, upgrade,
}
use shakenfist.ObjectState.Upgraded.{AllReach, commit_upgrade-AllReach, upgrade-stored}
use shakenfist.ObjectState.Remembered.{
  Calls, cache_after, InOrder, Observed, metrics_of, cache_after-Returns,
}

-- A call that found, at most 300 seconds before the last one, only nodes that report no version of a
-- class or at least that one.
pub record ReachedLately (least : ℕ) (look : Look) (objname : String) (earlier : Calls)
    : Type 0 where
  pub call : Look
  pub observed : Observed call ((look, objname) ∷ earlier)
  pub lately : look.now ≤ 300 + call.now
  pub reach : AllReach least objname (metrics_of call)

module _ {V : Type 0} (cls : Versions V) where
  -- After any calls of get_minimum_object_version in a process whose clock does not go back, the last
  -- of which returns the minimum for an upgrade: where the upgrade changes what is stored, one of the
  -- calls, at most 300 seconds before the last, found that every node whose metrics were considered,
  -- which are those of a node that is not deleted and not older than a week, reported no version of
  -- the class or at least the current one.
  pub upgrade-AllReach :
      (fuel : ℕ) (look : Look) (objname : String) (earlier : Calls) {minimum : Option ℕ}
      (uuid : String) (static_values : StaticValues V) (objects : Dict String (StaticValues V))
      {after : StaticValues V × Dict String (StaticValues V)}
      → InOrder ((look, objname) ∷ earlier)
      → (get_minimum_object_version look objname (cache_after earlier)).0 ≡ ok minimum
      → upgrade fuel cls minimum uuid static_values objects ≡ ok after
      → after.1 ≢ objects
      → ReachedLately cls.current_version look objname earlier
  upgrade-AllReach fuel look objname earlier {minimum} uuid static_values objects {after} order
        returns h changed =
      let (time, lately, c) =
        (cache_after-Returns look objname earlier order).returned minimum returns in
      elim (upgrade-stored cls fuel minimum uuid static_values objects h) [
        | inl same ↦ absurd (changed same)
        | inr stored ↦
            elim (commit_upgrade-AllReach cls minimum objname (metrics_of c.look) uuid after.0
              objects c.computed) [
                | inl same ↦ absurd (changed (stored ∙ same))
                | inr reach ↦ record {
                  call = c.look;
                  observed = c.observed;
                  lately = omega (arith, lately, c.recent);
                  reach = reach;
                }
              ]
      ]
