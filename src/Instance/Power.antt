-- ===== src/Instance/Power.antt =====
-- The power state of an instance as it is stored, and the loops of pause and unpause
-- (shakenfist/instance.py). What libvirt reports is a parameter: the power state after each request.
use Prim.Native.String.{String}
use shakenfist.Prelude.{
  ℕ, zero, suc, ◌+◌, Bool, true, false, Option, none, some, ◌==◌, string_eq, ltb, if◌then◌else◌,
}

-- The attribute 'power_state'; the time of the update is left out.
pub record PowerState : Type 0 where
  pub power_state : Option String
  pub power_state_previous : Option String

abbrev pub same_state : Option String → String → Bool
same_state none state = false
same_state (some current) state = current == state

-- update_power_state: whether the state changed, and the attribute
unfoldable pub update_power_state : String → PowerState → Bool × PowerState
update_power_state state dbstate =
    if same_state dbstate.power_state state
    then (false, dbstate)
    else (true, record { power_state = some state; power_state_previous = dbstate.power_state })

-- What a request to pause or to resume comes to.
pub data Lifecycle : Type 0 where
  -- InvalidLifecycleState, the instance being powered off
  powered_off : Lifecycle
  -- InvalidLifecycleState, after that many attempts
  failed_after : ℕ → Lifecycle
  -- the new agent state, after that many attempts
  reached : String → ℕ → Lifecycle
  -- no outcome of the program: the model gave up
  out_of_fuel : Lifecycle

-- The while loop, at the number of attempts made so far. `reported n` is extract_power_state after
-- the n-th request.
unfoldable pub attempt : ℕ → String → (ℕ → String) → ℕ → PowerState → Lifecycle × PowerState
unfolding update_power_state
attempt zero agent_state reported attempts dbstate = (out_of_fuel, dbstate)
attempt (suc fuel) agent_state reported attempts dbstate =
    let (changed, dbstate') = update_power_state (reported attempts) dbstate in
    let again = attempt fuel agent_state reported (attempts + 1) dbstate' in
    if changed
    then (reached agent_state attempts, dbstate')
    else if ltb 2 attempts
    then (failed_after attempts, dbstate')
    else again

abbrev pub enough : ℕ
enough = 3

-- pause and unpause; `domain` says whether libvirt knows the instance
unfoldable pub change_power : String → Bool → (ℕ → String) → PowerState → Lifecycle × PowerState
unfolding attempt
change_power agent_state false reported dbstate = (powered_off, dbstate)
change_power agent_state true reported dbstate = attempt enough agent_state reported 1 dbstate

abbrev pub pause : Bool → (ℕ → String) → PowerState → Lifecycle × PowerState
pause = change_power "not ready (instance paused)"

abbrev pub unpause : Bool → (ℕ → String) → PowerState → Lifecycle × PowerState
unpause = change_power "not ready (no contact)"
