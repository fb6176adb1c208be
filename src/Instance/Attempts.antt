-- ===== src/Instance/Attempts.antt =====
-- How often pause and unpause ask libvirt, and what they come to (shakenfist/instance.py).
use Prim.Native.String.{String}
use mathlib.Core.Path.{subst}
use shakenfist.Prelude.{
  ℕ, suc, ◌+◌, ◌≤◌, ◌<◌, ◌≡◌, ◌≢◌, refl, true, false, some, string_eq, ltb, Bool-cases, ◌⊎◌, inl,
  inr, arith,
}
use shakenfist.Instance.Power.{
  PowerState, same_state, update_power_state, Lifecycle, failed_after, reached, attempt,
  change_power,
}

-- The requests from the a-th up to, but without, the n-th left libvirt at the stored state.
abbrev Unchanged : (ℕ → String) → PowerState → ℕ → ℕ → Type 0
Unchanged reported dbstate a n =
    (m : ℕ) → a ≤ m → m < n → same_state dbstate.power_state (reported m) ≡ true

-- The n-th request was the first after which libvirt reported another state than the stored one.
pub record Reached (agent_state : String) (reported : ℕ → String) (dbstate : PowerState) (a n : ℕ)
    (after : Lifecycle × PowerState) : Type 0 where
  pub within : n ≤ 3
  pub before : Unchanged reported dbstate a n
  pub differs : same_state dbstate.power_state (reported n) ≡ false
  pub outcome : after ≡ (
    reached agent_state n,
    record { power_state = some (reported n); power_state_previous = dbstate.power_state },
  )

-- Three requests changed nothing, and the stored state is as before.
pub record Failed (reported : ℕ → String) (dbstate : PowerState) (a : ℕ)
    (after : Lifecycle × PowerState) : Type 0 where
  pub before : Unchanged reported dbstate a 4
  pub outcome : after ≡ (failed_after 3, dbstate)

abbrev pub Outcome : String → (ℕ → String) → PowerState → ℕ → Lifecycle × PowerState → Type 0
Outcome agent_state reported dbstate a after =
    Failed reported dbstate a after ⊎ ((n : ℕ) × Reached agent_state reported dbstate a n after)

ℕ-compare : (a m : ℕ) → (a ≡ m) ⊎ (a ≢ m)
ℕ-compare a m = grind arith

module _ (agent_state : String) (reported : ℕ → String) (dbstate : PowerState) where
  unchanged :
      (a : ℕ)
      → same_state dbstate.power_state (reported a) ≡ true
      → update_power_state (reported a) dbstate ≡ (false, dbstate)
  unfolding update_power_state
  unchanged a same = rw (update_power_state, same)

  changed :
      (a : ℕ)
      → same_state dbstate.power_state (reported a) ≡ false
      → update_power_state (reported a) dbstate ≡ (
        true,
        record { power_state = some (reported a); power_state_previous = dbstate.power_state },
      )
  unfolding update_power_state
  changed a other = rw (update_power_state, other)

  earlier :
      (a n : ℕ)
      → same_state dbstate.power_state (reported a) ≡ true
      → Unchanged reported dbstate (a + 1) n
      → Unchanged reported dbstate a n
  earlier a n same later m above below = elim (ℕ-compare a m) [
    | inl here ↦ subst (λ x. same_state dbstate.power_state (reported x) ≡ true) here same
    | inr beyond ↦ later m (omega (arith, above, beyond)) below
  ]

  earlier-Outcome :
      (a : ℕ) (after : Lifecycle × PowerState)
      → same_state dbstate.power_state (reported a) ≡ true
      → Outcome agent_state reported dbstate (a + 1) after
      → Outcome agent_state reported dbstate a after
  earlier-Outcome a after same (inl failed) =
      inl (record { before = earlier a 4 same failed.before; outcome = failed.outcome })
  earlier-Outcome a after same (inr (n, r)) = inr (
    n,
    record {
      within = r.within;
      before = earlier a n same r.before;
      differs = r.differs;
      outcome = r.outcome;
    },
  )

  -- The request that changes the state ends the loop.
  changed-Outcome :
      (fuel a : ℕ)
      → a ≤ 3
      → same_state dbstate.power_state (reported a) ≡ false
      → Outcome agent_state reported dbstate a (attempt (suc fuel) agent_state reported a dbstate)
  unfolding attempt
  changed-Outcome fuel a few other = inr (
    a,
    record {
      within = few;
      before = λ m above below. absurd (omega (arith, above, below));
      differs = other;
      outcome = rw (attempt, changed a other);
    },
  )

  attempt-Outcome :
      (fuel a : ℕ)
      → a ≤ 3
      → ltb 2 a ≡ false
      → Outcome agent_state reported dbstate
          (a + 1)
          (attempt fuel agent_state reported (a + 1) dbstate)
      → Outcome agent_state reported dbstate a (attempt (suc fuel) agent_state reported a dbstate)
  unfolding attempt
  attempt-Outcome fuel a few more later =
      elim (Bool-cases (same_state dbstate.power_state (reported a))) [
        | inl same ↦ rw (attempt, unchanged a same, more) (earlier-Outcome a _ same later)
        | inr other ↦ changed-Outcome fuel a few other
      ]

  last-Outcome : Outcome agent_state reported dbstate 3 (attempt 1 agent_state reported 3 dbstate)
  unfolding attempt
  last-Outcome = elim (Bool-cases (same_state dbstate.power_state (reported 3))) [
    | inl same ↦ inl (record {
      before = earlier 3 4 same (λ m above below. absurd (omega (arith, above, below)));
      outcome = rw (attempt, unchanged 3 same);
    })
    | inr other ↦ changed-Outcome 0 3 (omega arith) other
  ]

-- Where libvirt knows the instance, pause and unpause make at most three requests and always end:
-- with the new agent state at the first request after which libvirt reports another state than the
-- stored one, whichever that is, and stores it; or else, after three, with an exception and the
-- stored state as it was.
pub change_power-Outcome :
    (agent_state : String) (reported : ℕ → String) (dbstate : PowerState)
    → Outcome agent_state reported dbstate 1 (change_power agent_state true reported dbstate)
unfolding change_power
change_power-Outcome agent_state reported dbstate =
    attempt-Outcome agent_state reported dbstate 2 1 (omega arith) refl (
      attempt-Outcome agent_state reported dbstate 1 2 (omega arith) refl
        (last-Outcome agent_state reported dbstate))
