-- ===== src/ObjectState/Upgraded.antt =====
-- What an online upgrade makes of an object, and which nodes can then read it
-- (shakenfist/baseobject.py).
use Prim.Native.String.{String}
use mathlib.Core.Path.{subst}
use shakenfist.Prelude.{
  ℕ, zero, suc, ◌≡◌, refl, sym, ap, ◌+◌, ◌<◌, ◌≤◌, Bool, true, false, [], ◌∷◌, Option, none, some,
  Dict, lookup, ◌==◌, string_eq, nat_eq, ltb, beq_ne, if◌then◌else◌, All, Bool-cases, Option-cases,
  ◌⊎◌, inl, inr, arith, Result, ok, err, ◌>>=◌, bind-ok, ok-injective,
}
use shakenfist.ObjectState.Upgrade.{
  NodeMetrics, lesser, minimum_version, UpgradeFailure, attribute_error, StaticValues, Versions,
  version_or_initial, upgrade_loop, commit_upgrade, upgrade,
}

-- A version that is reported, zero counting as none, is at least the minimum.
unfoldable pub AtLeast : ℕ → Option ℕ → Type 0
AtLeast least none = Unit
AtLeast least (some zero) = Unit
AtLeast least (some (suc version)) = least ≤ suc version

abbrev Below : ℕ → Option ℕ → Type 0
Below least none = Unit
Below least (some version) = least ≤ version

lesser-Below_if :
    (least x y : ℕ) (b : Bool)
    → b ≡ ltb x y
    → Below least (if b then some x else some y)
    → (least ≤ x) × (least ≤ y)
lesser-Below_if least x y true less h = (h, ground (arith, sym less, h))
lesser-Below_if least x y false more h = (ground (arith, sym more, h), h)

lesser-Below :
    (least : ℕ) (ver minimum : Option ℕ)
    → Below least (lesser ver minimum)
    → AtLeast least ver × Below least minimum
unfolding lesser AtLeast
lesser-Below least none minimum h = (tt, h)
lesser-Below least (some zero) minimum h = (tt, h)
lesser-Below least (some (suc ver)) none h = (h, tt)
lesser-Below least (some (suc ver)) (some minimum) h =
    lesser-Below_if least (suc ver) minimum (ltb (suc ver) minimum) refl h

-- Every node reports no version of a class, or one that is at least this.
unfoldable pub AllReach : ℕ → String → Dict String NodeMetrics → Type 0
AllReach least objname metrics =
    All (λ node. AtLeast least (lookup objname node.1.object_versions)) metrics

minimum_version-AllReach :
    (least : ℕ) (objname : String) (metrics : Dict String NodeMetrics)
    → Below least (minimum_version objname metrics)
    → AllReach least objname metrics
unfolding minimum_version AllReach
minimum_version-AllReach least objname [] h = tt
minimum_version-AllReach least objname ((node_name, d) ∷ metrics) h =
    let both =
      lesser-Below least (lookup objname d.object_versions) (minimum_version objname metrics) h in
    (both.0, minimum_version-AllReach least objname metrics both.1)

module _ {V : Type 0} (cls : Versions V) where
  -- The values after some steps, if the class has them all.
  unfoldable pub climb : ℕ → ℕ → V → Option V
  climb zero version values = some values
  climb (suc n) version values = elim (cls.step version) [
    | none ↦ none
    | some step_func ↦ climb n (version + 1) (step_func values)
  ]

  abbrev pub upgraded_or_error : Option V → Result UpgradeFailure (StaticValues V)
  upgraded_or_error none = err attribute_error
  upgraded_or_error (some values) =
      ok record { version = some cls.current_version; values = values }

  version_before :
      (n version : ℕ)
      → version + suc n ≡ cls.current_version
      → (version == cls.current_version) ≡ false
  version_before n version e = beq_ne version cls.current_version (λ p. ground (arith, e, p))

  zero_steps : (version : ℕ) → version + 0 ≡ cls.current_version → version ≡ cls.current_version
  zero_steps version e = ground (arith, e)

  version_at :
      (version : ℕ) → version ≡ cls.current_version → (version == cls.current_version) ≡ true
  version_at version e = (nat_eq.beq_iff version cls.current_version).1 e

  upgrade_loop-climb :
      (n fuel version : ℕ) (values : V)
      → version + n ≡ cls.current_version
      → n < fuel
      → upgrade_loop fuel cls version values ≡ upgraded_or_error (climb n version values)
  unfolding climb upgrade_loop
  upgrade_loop-climb n zero version values e enough = ground (arith, enough)
  upgrade_loop-climb zero (suc fuel) version values e enough =
      let reached = zero_steps version e in
      rw (upgrade_loop, version_at version reached)
        (ap (λ v. ok record { version = some v; values = values }) reached)
  upgrade_loop-climb (suc n) (suc fuel) version values e enough =
      elim (Option-cases (cls.step version)) [
        | inl missing ↦ rw (upgrade_loop, climb, version_before n version e, missing) refl
        | inr (step_func, found) ↦
            rw (upgrade_loop, climb, version_before n version e, found)
              (upgrade_loop-climb n fuel (version + 1) (step_func values) (ground (arith, e))
                (ground (arith, enough)))
      ]

  -- The object and what is stored after an upgrade by some steps
  abbrev pub upgrade_outcome :
      ℕ
      → Option ℕ
      → String
      → StaticValues V
      → Dict String (StaticValues V)
      → Result UpgradeFailure (StaticValues V × Dict String (StaticValues V))
  upgrade_outcome zero minimum uuid static_values objects = ok (static_values, objects)
  upgrade_outcome (suc n) minimum uuid static_values objects =
      upgraded_or_error
        (climb (suc n) (version_or_initial cls static_values.version) static_values.values)
      >>= λ upgraded. ok (upgraded, commit_upgrade cls minimum uuid upgraded objects)

  -- For an object of the current version or an older one, upgrade ends, with more fuel than there
  -- are versions between: one of the current version is left alone, and any other gets what all
  -- steps up to the current version make of it, each applied once and in order, and is stored if
  -- the cluster's minimum is the current version; if a step is missing, AttributeError is raised.
  pub upgrade-climb :
      (n fuel : ℕ) (minimum : Option ℕ) (uuid : String) (static_values : StaticValues V)
      (objects : Dict String (StaticValues V))
      → version_or_initial cls static_values.version + n ≡ cls.current_version
      → n < fuel
      → upgrade fuel cls minimum uuid static_values objects
        ≡ upgrade_outcome n minimum uuid static_values objects
  unfolding upgrade
  upgrade-climb zero fuel minimum uuid static_values objects e enough =
      let reached = zero_steps (version_or_initial cls static_values.version) e in
      rw (upgrade, version_at (version_or_initial cls static_values.version) reached) refl
  upgrade-climb (suc n) fuel minimum uuid static_values objects e enough =
      rw
        (
          upgrade,
          version_before n (version_or_initial cls static_values.version) e,
          upgrade_loop-climb (suc n) fuel (version_or_initial cls static_values.version)
              static_values.values e enough,
        )
        refl

  pub commit_upgrade-AllReach :
      (minimum : Option ℕ) (objname : String) (metrics : Dict String NodeMetrics) (uuid : String)
      (upgraded : StaticValues V) (objects : Dict String (StaticValues V))
      → minimum_version objname metrics ≡ minimum
      → (commit_upgrade cls minimum uuid upgraded objects ≡ objects)
        ⊎ AllReach cls.current_version objname metrics
  unfolding commit_upgrade
  commit_upgrade-AllReach none objname metrics uuid upgraded objects e = inl refl
  commit_upgrade-AllReach (some least) objname metrics uuid upgraded objects e =
      elim (Bool-cases (least == cls.current_version)) [
        | inl same ↦ inr (
            minimum_version-AllReach cls.current_version objname metrics (
              subst (Below cls.current_version) (sym e)
                (ground (arith, (nat_eq.beq_iff least cls.current_version).0 same))))
        | inr other ↦ inl (rw other refl)
      ]

  pub upgrade-stored :
      (fuel : ℕ) (minimum : Option ℕ) (uuid : String) (static_values : StaticValues V)
      (objects : Dict String (StaticValues V))
      {after : StaticValues V × Dict String (StaticValues V)}
      → upgrade fuel cls minimum uuid static_values objects ≡ ok after
      → (after.1 ≡ objects) ⊎ (after.1 ≡ commit_upgrade cls minimum uuid after.0 objects)
  unfolding upgrade
  upgrade-stored fuel minimum uuid static_values objects h =
      elim (Bool-cases (version_or_initial cls static_values.version == cls.current_version)) [
        | inl same ↦ inl (ap (λ p. p.1) (sym (ok-injective (rw (upgrade, same) at h))))
        | inr other ↦
            let (upgraded, _, e) =
              bind-ok
                (upgrade_loop fuel cls (version_or_initial cls static_values.version)
                  static_values.values)
                (λ v. ok (v, commit_upgrade cls minimum uuid v objects))
                (rw (upgrade, other) at h) in
            inr
              (subst (λ p. p.1 ≡ commit_upgrade cls minimum uuid p.0 objects) (ok-injective e) refl)
      ]
